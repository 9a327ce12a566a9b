-- ===== src/Api/Versions.antt =====
-- The versions of clusters, over writes.
use nebula_gc.Prelude.{
  ◌+◌, ◌≤◌, String, ◌≡◌, refl, sym, ap, subst, ◌∙◌, inl, inr, Bool, true, some, List, arith, str_eq,
  eq_iff, Bool-cases,
}
use nebula_gc.Sql.{find, update}
use nebula_gc.Sql.Laws.{find-update, find-holds}
use nebula_gc.Store.{Cluster, Db}
use nebula_gc.Bundle.Service.{cluster_has_id}
use nebula_gc.Api.Steps.{
  Change, nothing, alter_nodes, add_node, remove_nodes, alter_clusters, publish, Changes, start,
  later,
}

-- The cluster is still there, at a version that is not lower.
abbrev pub Reaches : String → Db → Db → Type 0
Reaches id db db' =
    (c : Cluster)
    → find (cluster_has_id id) db.clusters ≡ some c
    → (d : Cluster) × (find (cluster_has_id id) db'.clusters ≡ some d)
      × (c.config_version ≤ d.config_version)

pub Reaches-refl : (id : String) (db : Db) → Reaches id db db
Reaches-refl id db c e = (c, e, omega arith)

pub Reaches-trans : (id : String) (a b c : Db) → Reaches id a b → Reaches id b c → Reaches id a c
Reaches-trans id a b c f g x e =
    let (y, ey, ly) = f x e in let (z, ez, lz) = g y ey in (z, ez, omega arith)

-- An update that keeps ids, and raises the row that is found
raised :
    (id : String) (p : Cluster → Bool) (f : Cluster → Cluster) (cs : List Cluster) (c : Cluster)
    → ((d : Cluster) → (f d).id ≡ d.id)
    → (p c ≡ true → c.config_version ≤ (f c).config_version)
    → find (cluster_has_id id) cs ≡ some c
    → (d : Cluster) × (find (cluster_has_id id) (update p f cs) ≡ some d)
      × (c.config_version ≤ d.config_version)
raised id p f cs c same le e =
    let moved = find-update (cluster_has_id id) p f cs (λ d. ap (λ i. str_eq i id) (same d)) in
    elim (Bool-cases (p c)) [
      | inl t ↦ (f c, ground (arith, moved, e, t), le t)
      | inr t ↦ (c, ground (arith, moved, e, t), omega arith)
    ]

-- The row that is found for an id, twice
same_row :
    (id cluster : String) (cs : List Cluster) (c d : Cluster)
    → find (cluster_has_id id) cs ≡ some c
    → find (cluster_has_id cluster) cs ≡ some d
    → cluster_has_id cluster c ≡ true
    → c.config_version ≤ d.config_version + 1
same_row id cluster cs c d f g t =
    let mine : c.id ≡ id = (eq_iff c.id id).0 (find-holds (cluster_has_id id) cs c f) in
    let its : c.id ≡ cluster = (eq_iff c.id cluster).0 t in
    let found : find (cluster_has_id id) cs ≡ some d =
      subst (λ i. find (cluster_has_id i) cs ≡ some d) (sym its ∙ mine) g in
    let same : some c ≡ some d = sym f ∙ found in
    let row : c ≡ d = cc same in
    subst (λ k. c.config_version ≤ k.config_version + 1) row (omega arith)

Change-Reaches : (id cluster : String) (db db' : Db) → Change cluster db db' → Reaches id db db'
Change-Reaches id cluster db db' (nothing e) c f = (c, rw e f, omega arith)
Change-Reaches id cluster db db' (alter_nodes p g k i e) c f = (c, rw e f, omega arith)
Change-Reaches id cluster db db' (add_node n a i m e) c f = (c, rw e f, omega arith)
Change-Reaches id cluster db db' (remove_nodes p i e) c f = (c, rw e f, omega arith)
Change-Reaches id cluster db db' (alter_clusters p g r i e) c f =
    subst
      (λ x.
        (d : Cluster) × (find (cluster_has_id id) x.clusters ≡ some d)
        × (c.config_version ≤ d.config_version))
      (sym e) (raised id p g db.clusters c r.id (λ _. r.version c) f)
Change-Reaches id cluster db db' (publish c' now content found free e) c f =
    subst
      (λ x.
        (d : Cluster) × (find (cluster_has_id id) x.clusters ≡ some d)
        × (c.config_version ≤ d.config_version))
      (sym e)
      (raised id (cluster_has_id cluster) (λ d. record d { config_version = c'.config_version + 1 })
        db.clusters c (λ d. refl) (λ t. same_row id cluster db.clusters c c' f found t) f)

-- Writes on any cluster
pub Changes-Reaches :
    (id cluster : String) (db db' : Db) → Changes cluster db db' → Reaches id db db'
Changes-Reaches id cluster db db' start = Reaches-refl id db
Changes-Reaches id cluster db db' (later {a} h c) =
    Reaches-trans id db a db' (Changes-Reaches id cluster db a h)
      (Change-Reaches id cluster a db' c)
