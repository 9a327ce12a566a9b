-- ===== src/Api/WellFormed.antt =====
-- The well-formed tables, and that each write keeps them so.
use nebula_gc.Prelude.{
  ℕ, ◌+◌, ◌≤◌, String, ◌≡◌, refl, sym, subst, ◌∙◌, inl, inr, Bool, true, false, some, List, [], ◌∷◌,
  ◌++◌, arith, str_eq, eq_iff, Bool-cases, any, All, All-append,
}
use nebula_gc.Sql.{find, update, delete}
use nebula_gc.Sql.Laws.{All-delete, All-update}
use nebula_gc.Sql.Unique.{Unique, Absent, Unique-update}
use nebula_gc.Store.{Cluster, Node, Bundle, Db}
use nebula_gc.Node.{conflicts, mtu_allowed}
use nebula_gc.Bundle.Service.{cluster_has_id, at_version, new_bundle}
use nebula_gc.Bundle.Service.Laws.{VersionsUpTo}
use nebula_gc.Api.Steps.{
  Keeps, Raises, Change, nothing, alter_nodes, add_node, remove_nodes, alter_clusters, publish,
  Changes, start, later,
}

-- No two nodes share an id, or a name in one cluster.
abbrev pub Apart : List Node → Type 0
Apart [] = Unit
Apart (n ∷ ns) = All (λ m. conflicts n m ≡ false) ns × Apart ns

-- No two bundles of one cluster share a version.
abbrev pub Numbered : List Bundle → Type 0
Numbered [] = Unit
Numbered (b ∷ bs) = All (λ k. at_version b.cluster_id b.version k ≡ false) bs × Numbered bs

pub record IsWellFormed (db : Db) : Type 0 where
  pub apart : Apart db.nodes
  pub mtus : All (λ (n : Node). mtu_allowed n.mtu ≡ true) db.nodes
  pub ids : Unique (λ (c : Cluster). c.id) db.clusters
  pub numbered : Numbered db.bundles
  -- no bundle is newer than the version of its cluster
  pub versions : All (λ (c : Cluster). VersionsUpTo c.id c.config_version db.bundles) db.clusters

All-conflicts-update :
    (f : Node → Node) (p : Node → Bool) (n n' : Node) (ns : List Node)
    → ((m : Node) → conflicts n' m ≡ conflicts n m)
    → ((m : Node) → conflicts n (f m) ≡ conflicts n m)
    → All (λ m. conflicts n m ≡ false) ns
    → All (λ m. conflicts n' m ≡ false) (update p f ns)
unfolding update
All-conflicts-update f p n n' [] same moved h = tt
All-conflicts-update f p n n' (m ∷ ns) same moved h = elim (Bool-cases (p m)) [
  | inl e ↦ rw e (same (f m) ∙ moved m ∙ h.0, All-conflicts-update f p n n' ns same moved h.1)
  | inr e ↦ rw e (same m ∙ h.0, All-conflicts-update f p n n' ns same moved h.1)
]

conflicts_comm : (n m : Node) → conflicts n m ≡ false → conflicts m n ≡ false
conflicts_comm n m e = ground (
  arith,
  eq_iff n.id m.id,
  eq_iff m.id n.id,
  eq_iff n.tenant_id m.tenant_id,
  eq_iff m.tenant_id n.tenant_id,
  eq_iff n.cluster_id m.cluster_id,
  eq_iff m.cluster_id n.cluster_id,
  eq_iff n.name m.name,
  eq_iff m.name n.name,
)

Apart-append :
    (ns : List Node) (n : Node) → any (conflicts n) ns ≡ false → Apart ns → Apart (ns ++ n ∷ [])
Apart-append [] n e a = (tt, tt)
Apart-append (m ∷ ns) n e a = (
  All-append (λ k. conflicts m k ≡ false) ns (n ∷ []) a.0 (conflicts_comm n m (ground arith), tt),
  Apart-append ns n (ground arith) a.1,
)

Apart-delete : (p : Node → Bool) (ns : List Node) → Apart ns → Apart (delete p ns)
unfolding delete
Apart-delete p [] a = tt
Apart-delete p (n ∷ ns) a = elim (Bool-cases (p n)) [
  | inl e ↦ rw e (Apart-delete p ns a.1)
  | inr e ↦ rw e (All-delete (λ m. conflicts n m ≡ false) p ns a.0, Apart-delete p ns a.1)
]

module _ (f : Node → Node) (k : Keeps f) where
  conflicts-left : (n m : Node) → conflicts (f n) m ≡ conflicts n m
  conflicts-left n m = rw (k.id n, k.tenant n, k.name n, k.cluster n) refl

  conflicts-right : (n m : Node) → conflicts n (f m) ≡ conflicts n m
  conflicts-right n m = rw (k.id m, k.tenant m, k.name m, k.cluster m) refl

  Apart-update : (p : Node → Bool) (ns : List Node) → Apart ns → Apart (update p f ns)
  unfolding update
  Apart-update p [] a = tt
  Apart-update p (n ∷ ns) a = elim (Bool-cases (p n)) [
    | inl e ↦ rw e (
      All-conflicts-update f p n (f n) ns (conflicts-left n) (conflicts-right n) a.0,
      Apart-update p ns a.1,
    )
    | inr e ↦
        rw e (
          All-conflicts-update f p n n ns (λ m. refl) (conflicts-right n) a.0,
          Apart-update p ns a.1,
        )
  ]

VersionsUpTo-le :
    (id : String) (v w : ℕ) (bs : List Bundle) → v ≤ w → VersionsUpTo id v bs → VersionsUpTo id w bs
VersionsUpTo-le id v w [] le h = tt
VersionsUpTo-le id v w (b ∷ bs) le h =
    ((λ e. let old = h.0 e in omega arith), VersionsUpTo-le id v w bs le h.1)

versions-raise :
    (f : Cluster → Cluster) (p : Cluster → Bool) (bs : List Bundle) (cs : List Cluster)
    → Raises f
    → All (λ (c : Cluster). VersionsUpTo c.id c.config_version bs) cs
    → All (λ (c : Cluster). VersionsUpTo c.id c.config_version bs) (update p f cs)
versions-raise f p bs cs r h =
    All-update (λ (c : Cluster). VersionsUpTo c.id c.config_version bs) p f cs
      (λ c v.
        subst (λ id. VersionsUpTo id (f c).config_version bs) (sym (r.id c))
          (VersionsUpTo-le c.id c.config_version (f c).config_version bs (r.version c) v))
      h

Numbered-append :
    (cluster : String) (v : ℕ) (b : Bundle) (bs : List Bundle)
    → b.cluster_id ≡ cluster
    → b.version ≡ v
    → any (at_version cluster v) bs ≡ false
    → Numbered bs
    → Numbered (bs ++ b ∷ [])
Numbered-append cluster v b [] ec ev e n = (tt, tt)
Numbered-append cluster v b (k ∷ bs) ec ev e n = (
  All-append (λ j. at_version k.cluster_id k.version j ≡ false) bs (b ∷ []) n.0
      (rw (ec, ev) (ground (arith, eq_iff k.cluster_id cluster, eq_iff cluster k.cluster_id)), tt),
  Numbered-append cluster v b bs ec ev (ground arith) n.1,
)

VersionsUpTo-append :
    (id : String) (v : ℕ) (b : Bundle) (bs : List Bundle)
    → (str_eq b.cluster_id id ≡ true → b.version ≤ v)
    → VersionsUpTo id v bs
    → VersionsUpTo id v (bs ++ b ∷ [])
VersionsUpTo-append id v b bs new h =
    All-append (λ (k : Bundle). str_eq k.cluster_id id ≡ true → k.version ≤ v) bs (b ∷ []) h
      (new, tt)

-- With the clusters' ids unique, the version of the cluster that is found is that of each row with
-- its id.
only_row :
    (id : String) (c : Cluster) (cs : List Cluster)
    → Unique (λ (d : Cluster). d.id) cs
    → find (cluster_has_id id) cs ≡ some c
    → All (λ (d : Cluster). str_eq d.id id ≡ true → d.config_version ≡ c.config_version) cs
unfolding find
only_row id c [] u e = tt
only_row id c (d ∷ cs) u e = elim (Bool-cases (str_eq d.id id)) [
  | inl t ↦ (
    (λ _. ground arith),
    apart cs (subst (λ k. Absent (λ (x : Cluster). x.id) k cs) ((eq_iff d.id id).0 t) u.0),
  )
  | inr t ↦ (
    (λ t'. absurd (let bad : true ≡ false = sym t' ∙ t in cc)),
    only_row id c cs u.1 (ground arith),
  )
]
  where
    apart :
        (xs : List Cluster)
        → Absent (λ (x : Cluster). x.id) id xs
        → All (λ (x : Cluster). str_eq x.id id ≡ true → x.config_version ≡ c.config_version) xs
    apart [] a = tt
    apart (x ∷ xs) a = ((λ t'. absurd (let bad : true ≡ false = sym t' ∙ a.0 in cc)), apart xs a.1)

versions-publish :
    (id : String) (v : ℕ) (b : Bundle) (bs : List Bundle) (cs : List Cluster)
    → b.cluster_id ≡ id
    → b.version ≡ v + 1
    → All (λ (d : Cluster). str_eq d.id id ≡ true → d.config_version ≡ v) cs
    → All (λ (d : Cluster). VersionsUpTo d.id d.config_version bs) cs
    → All
        (λ (d : Cluster). VersionsUpTo d.id d.config_version (bs ++ b ∷ []))
        (update (cluster_has_id id) (λ (d : Cluster). record d { config_version = v + 1 }) cs)
unfolding update
versions-publish id v b bs [] ei ev o h = tt
versions-publish id v b bs (d ∷ cs) ei ev o h = elim (Bool-cases (str_eq d.id id)) [
  | inl t ↦
      let old : d.config_version ≡ v = o.0 t in
      rw t (
        VersionsUpTo-append d.id (v + 1) b bs (λ _. omega arith)
            (VersionsUpTo-le d.id d.config_version (v + 1) bs (omega arith) h.0),
        versions-publish id v b bs cs ei ev o.1 h.1,
      )
  | inr t ↦ rw t (
    VersionsUpTo-append d.id d.config_version b bs
        (λ same. absurd (ground (arith, same, ei, t, eq_iff b.cluster_id d.id, eq_iff d.id id)))
        h.0,
    versions-publish id v b bs cs ei ev o.1 h.1,
  )
]

Change-IsWellFormed :
    (cluster : String) (db db' : Db) → Change cluster db db' → IsWellFormed db → IsWellFormed db'
Change-IsWellFormed cluster db db' (nothing e) w = subst IsWellFormed (sym e) w
Change-IsWellFormed cluster db db' (alter_nodes p f k i e) w = subst IsWellFormed (sym e) (record {
  apart = Apart-update f k p db.nodes w.apart;
  mtus = All-update (λ (n : Node). mtu_allowed n.mtu ≡ true) p f db.nodes k.mtu w.mtus;
  ids = w.ids;
  numbered = w.numbered;
  versions = w.versions;
})
Change-IsWellFormed cluster db db' (add_node n a i m e) w = subst IsWellFormed (sym e) (record {
  apart = Apart-append db.nodes n a w.apart;
  mtus = All-append (λ (k : Node). mtu_allowed k.mtu ≡ true) db.nodes (n ∷ []) w.mtus (m, tt);
  ids = w.ids;
  numbered = w.numbered;
  versions = w.versions;
})
Change-IsWellFormed cluster db db' (remove_nodes p i e) w = subst IsWellFormed (sym e) (record {
  apart = Apart-delete p db.nodes w.apart;
  mtus = All-delete (λ (n : Node). mtu_allowed n.mtu ≡ true) p db.nodes w.mtus;
  ids = w.ids;
  numbered = w.numbered;
  versions = w.versions;
})
Change-IsWellFormed cluster db db' (alter_clusters p f r i e) w =
    subst IsWellFormed (sym e) (record {
      apart = w.apart;
      mtus = w.mtus;
      ids = Unique-update (λ (c : Cluster). c.id) p f db.clusters r.id w.ids;
      numbered = w.numbered;
      versions = versions-raise f p db.bundles db.clusters r w.versions;
    })
Change-IsWellFormed cluster db db' (publish c now content found free e) w =
    let b = new_bundle now cluster (c.config_version + 1) content in
    subst IsWellFormed (sym e) (record {
      apart = w.apart;
      mtus = w.mtus;
      ids = Unique-update (λ (d : Cluster). d.id) _ _ db.clusters (λ d. refl) w.ids;
      numbered =
          Numbered-append cluster (c.config_version + 1) b db.bundles refl refl free w.numbered;
      versions =
          versions-publish cluster c.config_version b db.bundles db.clusters refl refl
            (only_row cluster c db.clusters w.ids found) w.versions;
    })

-- Every sequence of writes keeps the tables well-formed.
pub Changes-IsWellFormed :
    (cluster : String) {db db' : Db} → Changes cluster db db' → IsWellFormed db → IsWellFormed db'
Changes-IsWellFormed cluster start w = w
Changes-IsWellFormed cluster (later {a} {b} h c) w =
    Change-IsWellFormed cluster a b c (Changes-IsWellFormed cluster h w)
