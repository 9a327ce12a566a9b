-- ===== src/Api/Isolation.antt =====
-- The rows of the clusters that a request does not act for.
use nebula_gc.Prelude.{
  ◌+◌, String, ◌≡◌, refl, sym, ap, subst, ◌∙◌, inl, inr, Bool, true, false, Option, none, some,
  List, [], ◌∷◌, ◌++◌, arith, str_eq, eq_iff, eq_refl, if◌then◌else◌, Bool-cases, All,
}
use nebula_gc.Sql.{select, update, delete}
use nebula_gc.Golib.{Golib}
use nebula_gc.Archive.{Archiver}
use nebula_gc.Token
use nebula_gc.Store.{Db}
use nebula_gc.Bundle.Service.{cluster_has_id, of_cluster, new_bundle}
use nebula_gc.Api.{Request}
use nebula_gc.Api.Router.{World, serve}
use nebula_gc.Api.Refinement.{acting, serve-Effect}
use nebula_gc.Api.Gates.{Effect}
use nebula_gc.Api.WellFormed.{Apart}
use nebula_gc.Api.Steps.{
  in_cluster, Change, nothing, alter_nodes, add_node, remove_nodes, alter_clusters, publish,
  Changes, start, later,
}

module _ {ℓ} {A : Type ℓ} where
  -- Rows that a SELECT leaves out
  select-update_out :
      (q p : A → Bool) (f : A → A) (rs : List A)
      → All (λ r. p r ≡ true → q r ≡ false) rs
      → All (λ r. p r ≡ true → q (f r) ≡ false) rs
      → select q (update p f rs) ≡ select q rs
  unfolding select update
  select-update_out q p f [] h i = refl
  select-update_out q p f (r ∷ rs) h i = elim (Bool-cases (p r)) [
    | inl e ↦ rw (e, h.0 e, i.0 e) (select-update_out q p f rs h.1 i.1)
    | inr e ↦
        rw e (ap (λ rest. if q r then r ∷ rest else rest) (select-update_out q p f rs h.1 i.1))
  ]

  select-delete_out :
      (q p : A → Bool) (rs : List A)
      → All (λ r. p r ≡ true → q r ≡ false) rs
      → select q (delete p rs) ≡ select q rs
  unfolding select delete
  select-delete_out q p [] h = refl
  select-delete_out q p (r ∷ rs) h = elim (Bool-cases (p r)) [
    | inl e ↦ rw (e, h.0 e) (select-delete_out q p rs h.1)
    | inr e ↦ rw e (ap (λ rest. if q r then r ∷ rest else rest) (select-delete_out q p rs h.1))
  ]

  select-append_out :
      (q : A → Bool) (rs : List A) (r : A) → q r ≡ false → select q (rs ++ r ∷ []) ≡ select q rs
  unfolding select
  select-append_out q [] r e = rw e refl
  select-append_out q (s ∷ rs) r e =
      ap (λ rest. if q s then s ∷ rest else rest) (select-append_out q rs r e)

  All-map {κ μ} :
      (P : A → Type κ) (Q : A → Type μ) (rs : List A) → ((r : A) → P r → Q r) → All P rs → All Q rs
  All-map P Q [] f h = tt
  All-map P Q (r ∷ rs) f h = (f r h.0, All-map P Q rs f h.1)

  All-of {κ} : (P : A → Type κ) (rs : List A) → ((r : A) → P r) → All P rs
  All-of P [] f = tt
  All-of P (r ∷ rs) f = (f r, All-of P rs f)

-- The nodes, the clusters and the bundles of another cluster are as they were.
pub record Untouched (other : String) (db db' : Db) : Type 0 where
  pub nodes : select (in_cluster other) db'.nodes ≡ select (in_cluster other) db.nodes
  pub clusters :
      select (cluster_has_id other) db'.clusters ≡ select (cluster_has_id other) db.clusters
  pub bundles : select (of_cluster other) db'.bundles ≡ select (of_cluster other) db.bundles

same-Untouched : (other : String) (db db' : Db) → db' ≡ db → Untouched other db db'
same-Untouched other db db' e =
    subst (Untouched other db) (sym e) (record { nodes = refl; clusters = refl; bundles = refl })

module _ (other cluster : String) (ne : str_eq other cluster ≡ false) where
  elsewhere : (a : String) → str_eq a cluster ≡ true → str_eq a other ≡ false
  elsewhere a e = ground (arith, ne, e, eq_iff a cluster, eq_iff a other, eq_iff other cluster)

  Change-Untouched : (db db' : Db) → Change cluster db db' → Untouched other db db'
  Change-Untouched db db' (nothing e) = same-Untouched other db db' e
  Change-Untouched db db' (alter_nodes p f k i e) = subst (Untouched other db) (sym e) (record {
    nodes =
        select-update_out (in_cluster other) p f db.nodes
          (All-map _ _ db.nodes (λ n h t. elsewhere n.cluster_id (h t)) i)
          (All-map _ _ db.nodes (λ n h t. rw (k.cluster n) (elsewhere n.cluster_id (h t))) i);
    clusters = refl;
    bundles = refl;
  })
  Change-Untouched db db' (add_node n a i m e) = subst (Untouched other db) (sym e) (record {
    nodes = select-append_out (in_cluster other) db.nodes n (elsewhere n.cluster_id i);
    clusters = refl;
    bundles = refl;
  })
  Change-Untouched db db' (remove_nodes p i e) = subst (Untouched other db) (sym e) (record {
    nodes =
        select-delete_out (in_cluster other) p db.nodes
          (All-map _ _ db.nodes (λ n h t. elsewhere n.cluster_id (h t)) i);
    clusters = refl;
    bundles = refl;
  })
  Change-Untouched db db' (alter_clusters p f r i e) = subst (Untouched other db) (sym e) (record {
    nodes = refl;
    clusters =
        select-update_out (cluster_has_id other) p f db.clusters
          (All-of _ db.clusters (λ c t. elsewhere c.id (i c t)))
          (All-of _ db.clusters (λ c t. rw (r.id c) (elsewhere c.id (i c t))));
    bundles = refl;
  })
  Change-Untouched db db' (publish c now content found free e) =
      subst (Untouched other db) (sym e) (record {
        nodes = refl;
        clusters =
            select-update_out (cluster_has_id other) (cluster_has_id cluster) _ db.clusters
              (All-of _ db.clusters (λ d t. elsewhere d.id t))
              (All-of _ db.clusters (λ d t. elsewhere d.id t));
        bundles =
            select-append_out (of_cluster other) db.bundles
              (new_bundle now cluster (c.config_version + 1) content)
              (elsewhere cluster (eq_refl cluster));
      })

  Untouched-trans : (a b c : Db) → Untouched other a b → Untouched other b c → Untouched other a c
  Untouched-trans a b c u v = record {
    nodes = v.nodes ∙ u.nodes;
    clusters = v.clusters ∙ u.clusters;
    bundles = v.bundles ∙ u.bundles;
  }

  Changes-Untouched : (db db' : Db) → Changes cluster db db' → Untouched other db db'
  Changes-Untouched db db' start = same-Untouched other db db refl
  Changes-Untouched db db' (later {a} h c) =
      Untouched-trans db a db' (Changes-Untouched db a h) (Change-Untouched a db' c)

-- The acting cluster is another, or there is none.
abbrev pub Elsewhere : String → Option String → Type 0
Elsewhere other none = Unit
Elsewhere other (some cluster) = str_eq other cluster ≡ false

Effect-Untouched :
    (other : String) (owner : Option String) (db db' : Db)
    → Elsewhere other owner
    → Effect owner db db'
    → Untouched other db db'
Effect-Untouched other none db db' o e = same-Untouched other db db' e
Effect-Untouched other (some cluster) db db' o e = Changes-Untouched other cluster o db db' e

-- Where no two nodes share an id, or a name in one cluster, a request of any sort, whatever fails,
-- leaves the nodes, the row and the bundles of every cluster but that of its token as they were.
pub serve-Untouched :
    (go : Golib) (ar : Archiver) (secret : String) (tenant_required : Bool) (w : World)
    (r : Request) (db : Db) (other : String)
    → Apart db.nodes
    → Elsewhere other (acting (Token.hash go w.header secret) r db)
    → Untouched other db (serve go ar secret tenant_required w r db).1
serve-Untouched go ar secret tenant_required w r db other a o =
    Effect-Untouched other (acting (Token.hash go w.header secret) r db) db _ o
      (serve-Effect go ar secret tenant_required w db r a)
