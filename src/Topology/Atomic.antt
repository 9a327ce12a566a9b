-- ===== src/Topology/Atomic.antt =====
-- The five transactions, over every pattern of faults.
use nebula_gc.Prelude.{ℕ, String, ◌≡◌, Bool, true, false, Option, none, some, List, arith, all}
use nebula_gc.Errors.{Result, ok, err}
use nebula_gc.Exec.{Faults}
use nebula_gc.Sql.{update, find}
use nebula_gc.Golib.{Golib}
use nebula_gc.Store.{Node, Db}
use nebula_gc.Node.{bump}
use nebula_gc.Topology.{
  has_id, cluster_has_id, is_member, lighthouse_columns, no_lighthouse_columns, relay_columns,
  route_columns, set_lighthouse, unset_lighthouse, set_relay, unset_relay, update_routes,
}

-- What a transaction on the tables leaves: all of the update and one version more for the cluster,
-- or, with an error, the tables as they were.
abbrev pub AllOrNothing :
    Db → String → (Node → Bool) → (Node → Node) → Result (Unit {0}) × Db → Type 0
AllOrNothing db cluster p f (ok _, db') = db' ≡ record db {
  nodes = update p f db.nodes;
  clusters = update (cluster_has_id cluster) bump db.clusters;
}
AllOrNothing db cluster p f (err e, db') = db' ≡ db

set_lighthouse-atomic :
    (go : Golib) (f : Faults) (now : ℕ) (cluster node public_ip : String) (port : ℕ) (db : Db)
    → AllOrNothing db cluster
        (is_member cluster node)
        (lighthouse_columns now public_ip port)
        (set_lighthouse go f now cluster node public_ip port db)
unfolding set_lighthouse
set_lighthouse-atomic go f now cluster node public_ip port db = ground arith

-- SetLighthouse, UnsetLighthouse, SetRelay and UnsetRelay, whatever fails, set the columns of the
-- node and add one to the version of its cluster, or return an error and change nothing.
pub roles-atomic :
    (go : Golib) (f : Faults) (now : ℕ) (cluster node public_ip : String) (port : ℕ) (db : Db)
    → AllOrNothing db cluster
        (is_member cluster node)
        (lighthouse_columns now public_ip port)
        (set_lighthouse go f now cluster node public_ip port db)
      × AllOrNothing db cluster
          (is_member cluster node)
          (no_lighthouse_columns now)
          (unset_lighthouse f now cluster node db)
      × AllOrNothing db cluster
          (is_member cluster node)
          (relay_columns true now)
          (set_relay f now cluster node db)
      × AllOrNothing db cluster
          (is_member cluster node)
          (relay_columns false now)
          (unset_relay f now cluster node db)
unfolding unset_lighthouse set_relay unset_relay
roles-atomic go f now cluster node public_ip port db = (
  set_lighthouse-atomic go f now cluster node public_ip port db,
  ground arith,
  ground arith,
  ground arith,
)

abbrev pub RouteUpdate : Golib → ℕ → String → List String → Db → Option Node → Db → Type 0
RouteUpdate go now node routes db none db' = ⊥
RouteUpdate go now node routes db (some n) db' = db' ≡ record db {
  nodes = update (has_id node) (route_columns go now routes) db.nodes;
  clusters = update (cluster_has_id n.cluster_id) bump db.clusters;
}

abbrev pub RoutesSet : Golib → ℕ → String → List String → Db → Result (Unit {0}) × Db → Type 0
RoutesSet go now node routes db (ok _, db') =
    (all go.parse_cidr routes ≡ true)
    × RouteUpdate go now node routes db (find (has_id node) db.nodes) db'
RoutesSet go now node routes db (err e, db') = db' ≡ db

-- UpdateRoutes, whatever fails, accepts only routes that are all CIDR, sets those of an existing
-- node and adds one to the version of the node's cluster, or returns an error and changes nothing.
pub update_routes-RoutesSet :
    (go : Golib) (f : Faults) (now : ℕ) (node : String) (routes : List String) (db : Db)
    → RoutesSet go now node routes db (update_routes go f now node routes db)
unfolding update_routes
update_routes-RoutesSet go f now node routes db = ground arith
