-- ===== src/Api/Transactions.antt =====
-- The transactions on roles and routes, and Upload, as sequences of writes.
use nebula_gc.Prelude.{
  ℕ, ◌+◌, String, ◌≡◌, refl, subst, ◌⊎◌, inl, inr, Bool, true, false, Option, none, some, List, [],
  ◌∷◌, ◌++◌, arith, eq_iff, Option-cases, any,
}
use nebula_gc.Errors.{Result, ok, err}
use nebula_gc.Exec.{Faults}
use nebula_gc.Sql.{find, update}
use nebula_gc.Sql.Laws.{All-find, find-holds}
use nebula_gc.Golib.{Golib}
use nebula_gc.Archive.{Archiver}
use nebula_gc.Store.{Cluster, Node, Db}
use nebula_gc.Bundle.Service.{upload, cluster_has_id, at_version, new_bundle}
use nebula_gc.Node.{bump}
use nebula_gc.Topology.{
  has_id, is_member, lighthouse_columns, no_lighthouse_columns, relay_columns, route_columns,
  set_lighthouse, unset_lighthouse, set_relay, unset_relay, update_routes,
}
use nebula_gc.Topology.Atomic.{
  AllOrNothing, RoutesSet, RouteUpdate, roles-atomic, update_routes-RoutesSet,
}
use nebula_gc.Api.Services.{bump-Raises, is_member-Within}
use nebula_gc.Api.Steps.{
  in_cluster, Keeps, Within, alter_nodes, alter_clusters, publish, Changes, start, later, unchanged,
}

-- A transaction on nodes of the cluster that raises its version.
module _ (cluster : String) (db : Db) (p : Node → Bool) (f : Node → Node) (k : Keeps f)
    (i : Within cluster p db.nodes) where
  pub atomic : (r : Result (Unit {0}) × Db) → AllOrNothing db cluster p f r → Changes cluster db r.1
  atomic (err x, db') e = unchanged cluster db db' e
  atomic (ok _, db') e =
      later (later start (alter_nodes p f k i refl))
        (alter_clusters (cluster_has_id cluster) bump bump-Raises (λ c h. h) e)

lighthouse-Keeps : (now : ℕ) (ip : String) (port : ℕ) → Keeps (lighthouse_columns now ip port)
lighthouse-Keeps now ip port = record {
  id = λ n. refl;
  tenant = λ n. refl;
  name = λ n. refl;
  cluster = λ n. refl;
  mtu = λ n e. e;
}

no_lighthouse-Keeps : (now : ℕ) → Keeps (no_lighthouse_columns now)
no_lighthouse-Keeps now = record {
  id = λ n. refl;
  tenant = λ n. refl;
  name = λ n. refl;
  cluster = λ n. refl;
  mtu = λ n e. e;
}

relay-Keeps : (relay : Bool) (now : ℕ) → Keeps (relay_columns relay now)
relay-Keeps relay now = record {
  id = λ n. refl;
  tenant = λ n. refl;
  name = λ n. refl;
  cluster = λ n. refl;
  mtu = λ n e. e;
}

routes-Keeps : (go : Golib) (now : ℕ) (routes : List String) → Keeps (route_columns go now routes)
routes-Keeps go now routes = record {
  id = λ n. refl;
  tenant = λ n. refl;
  name = λ n. refl;
  cluster = λ n. refl;
  mtu = λ n e. e;
}

module _ (go : Golib) (cluster node : String) (f : Faults) (now : ℕ) (db : Db) where
  pub set_lighthouse-Changes :
      (ip : String) (port : ℕ)
      → Changes cluster db (set_lighthouse go f now cluster node ip port db).1
  set_lighthouse-Changes ip port =
      atomic cluster db (is_member cluster node) (lighthouse_columns now ip port)
        (lighthouse-Keeps now ip port) (is_member-Within "" cluster node db.nodes)
        (set_lighthouse go f now cluster node ip port db)
        (roles-atomic go f now cluster node ip port db).0

  pub unset_lighthouse-Changes : Changes cluster db (unset_lighthouse f now cluster node db).1
  unset_lighthouse-Changes =
      atomic cluster db (is_member cluster node) (no_lighthouse_columns now)
        (no_lighthouse-Keeps now) (is_member-Within "" cluster node db.nodes)
        (unset_lighthouse f now cluster node db) (roles-atomic go f now cluster node "" 0 db).1

  pub set_relay-Changes : Changes cluster db (set_relay f now cluster node db).1
  set_relay-Changes =
      atomic cluster db (is_member cluster node) (relay_columns true now) (relay-Keeps true now)
        (is_member-Within "" cluster node db.nodes) (set_relay f now cluster node db)
        (roles-atomic go f now cluster node "" 0 db).2

  pub unset_relay-Changes : Changes cluster db (unset_relay f now cluster node db).1
  unset_relay-Changes =
      atomic cluster db (is_member cluster node) (relay_columns false now) (relay-Keeps false now)
        (is_member-Within "" cluster node db.nodes) (unset_relay f now cluster node db)
        (roles-atomic go f now cluster node "" 0 db).3

-- The routes of a node whose rows are all in the cluster.
pub update_routes-Changes :
    (cluster node : String) (go : Golib) (f : Faults) (now : ℕ) (routes : List String) (db : Db)
    → Within cluster (has_id node) db.nodes
    → Changes cluster db (update_routes go f now node routes db).1
update_routes-Changes cluster node go f now routes db i =
    set (update_routes go f now node routes db) (update_routes-RoutesSet go f now node routes db)
  where
    found :
        (o : Option Node) (db' : Db)
        → find (has_id node) db.nodes ≡ o
        → RouteUpdate go now node routes db o db'
        → Changes cluster db db'
    found none db' e r = absurd r
    found (some n) db' e r =
        let inside : n.cluster_id ≡ cluster = (eq_iff n.cluster_id cluster).0 (
          All-find (λ m. has_id node m ≡ true → in_cluster cluster m ≡ true) (has_id node) db.nodes
            n i e (find-holds (has_id node) db.nodes n e)) in
        atomic cluster db (has_id node) (route_columns go now routes) (routes-Keeps go now routes) i
          (ok tt, db')
          (subst
            (λ c. db' ≡ record db {
              nodes = update (has_id node) (route_columns go now routes) db.nodes;
              clusters = update (cluster_has_id c) bump db.clusters;
            })
            inside r)

    set : (r : Result (Unit {0}) × Db) → RoutesSet go now node routes db r → Changes cluster db r.1
    set (err x, db') e = unchanged cluster db db' e
    set (ok _, db') (valid, e) = found (find (has_id node) db.nodes) db' refl e

pub upload-Changes :
    (cluster : String) (ar : Archiver) (tenant_required : Bool) (f : Faults) (now : ℕ)
    (content : List ℕ) (db : Db)
    → Changes cluster db (upload ar tenant_required f now cluster content db).1
unfolding upload
upload-Changes cluster ar tenant_required f now content db =
    elim (Option-cases (find (cluster_has_id cluster) db.clusters)) [
      | inl e ↦
          unchanged cluster db (upload ar tenant_required f now cluster content db).1
            (ground (arith, e))
      | inr (c, e) ↦
          stored (upload ar tenant_required f now cluster content db).1 c e (ground (arith, e))
    ]
  where
    stored :
        (db' : Db) (c : Cluster)
        → find (cluster_has_id cluster) db.clusters ≡ some c
        → (db' ≡ db)
          ⊎ ((any (at_version cluster (c.config_version + 1)) db.bundles ≡ false)
              × (db' ≡ record db {
                clusters =
                    update
                      (cluster_has_id cluster)
                      (λ d. record d { config_version = c.config_version + 1 })
                      db.clusters;
                bundles = db.bundles ++ new_bundle now cluster (c.config_version + 1) content ∷ [];
              }))
        → Changes cluster db db'
    stored db' c e (inl s) = unchanged cluster db db' s
    stored db' c e (inr (free, s)) = later start (publish c now content e free s)
