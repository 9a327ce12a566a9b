-- ===== src/Topology.antt =====
-- server/internal/service/topology.go. Each of the five methods that change a node does so in a
-- transaction: `transaction` is from `Begin` to `Commit`. `now` is the time of the call, `fails k`
-- whether its k-th database call fails, and a port is a number. GetClusterRoutes and GetTopology
-- return maps as lists in the order of the rows.
pub mod Atomic
pub mod Routes
pub mod Roles
use nebula_gc.Prelude.{
  ℕ, ◌+◌, String, Bool, true, false, not, ◌&&◌, ◌||◌, Option, none, some, List, [], ◌∷◌, ◌++◌, ◌==◌,
  all, str_eq, if◌then◌else◌,
}
use nebula_gc.Errors.{
  with_text, Error, Result, ok, err, failed, wrap, invalid_request, invalid_cidr, cluster_not_found,
  node_not_found,
}
use nebula_gc.Exec.{
  Exec, Faults, pure, raise, gets, lift, or_raise, fail_if, modify, transaction, ◌>>=◌, ◌>>◌,
}
use nebula_gc.Sql.{select, find, update, count}
use nebula_gc.Golib.{Golib}
use nebula_gc.Token
use nebula_gc.Store.{Cluster, Node, Db}
use nebula_gc.Node.{bump}

pub record LighthouseInfo : Type 0 where
  pub node_id : String
  pub name : String
  pub public_ip : String
  pub port : ℕ

pub record RelayInfo : Type 0 where
  pub node_id : String
  pub name : String

pub record TopologyInfo : Type 0 where
  pub lighthouses : List LighthouseInfo
  pub relays : List RelayInfo
  pub routes : List (String × List String)

-- WHERE id = ?
abbrev pub has_id : String → Node → Bool
has_id node n = str_eq n.id node

abbrev pub cluster_has_id : String → Cluster → Bool
cluster_has_id cluster c = str_eq c.id cluster

-- WHERE id = ? AND cluster_id = ?
abbrev pub is_member : String → String → Node → Bool
is_member cluster node n = str_eq n.id node && str_eq n.cluster_id cluster

-- UPDATE clusters SET config_version = config_version + 1 WHERE id = ?
abbrev pub bump_version : Faults → ℕ → String → Exec Db (Unit {0})
bump_version fails k cluster = do
  fail_if (fails k) (failed "failed to bump config version")
  modify (λ db. record db { clusters = update (cluster_has_id cluster) bump db.clusters })

-- The transaction that the four methods on lighthouses and relays share: they differ in the
-- columns that they set and in the text of one error. A `RowsAffected` that fails counts 0 rows.
abbrev set_columns : Faults → String → String → String → (Node → Node) → Exec Db (Unit {0})
set_columns fails failure cluster node columns = do
  fail_if (fails 0) (failed "failed to start transaction")
  transaction (do
    fail_if (fails 1) (failed failure)
    rows ← gets (λ (db : Db). count (is_member cluster node) db.nodes)
    modify (λ db. record db { nodes = update (is_member cluster node) columns db.nodes })
    fail_if (fails 2 || rows == 0) node_not_found
    bump_version fails 3 cluster
    fail_if (fails 4) (failed "failed to commit transaction"))

abbrev pub lighthouse_columns : ℕ → String → ℕ → Node → Node
lighthouse_columns now public_ip port n = record n {
  is_lighthouse = true;
  lighthouse_public_ip = some public_ip;
  lighthouse_port = some port;
  lighthouse_relay_updated_at = some now;
}

abbrev pub no_lighthouse_columns : ℕ → Node → Node
no_lighthouse_columns now n = record n {
  is_lighthouse = false;
  lighthouse_public_ip = none;
  lighthouse_port = none;
  lighthouse_relay_updated_at = some now;
}

abbrev pub relay_columns : Bool → ℕ → Node → Node
relay_columns relay now n = record n { is_relay = relay; lighthouse_relay_updated_at = some now }

unfoldable pub unset_lighthouse : Faults → ℕ → String → String → Exec Db (Unit {0})
unset_lighthouse fails now cluster node =
    set_columns fails "failed to unset lighthouse" cluster node (no_lighthouse_columns now)

unfoldable pub set_relay : Faults → ℕ → String → String → Exec Db (Unit {0})
set_relay fails now cluster node =
    set_columns fails "failed to set relay" cluster node (relay_columns true now)

unfoldable pub unset_relay : Faults → ℕ → String → String → Exec Db (Unit {0})
unset_relay fails now cluster node =
    set_columns fails "failed to unset relay" cluster node (relay_columns false now)

module _ (go : Golib) where
  unfoldable pub set_lighthouse : Faults → ℕ → String → String → String → ℕ → Exec Db (Unit {0})
  set_lighthouse fails now cluster node public_ip port = do
    fail_if (not (go.parse_ip public_ip)) (wrap invalid_request)
    set_columns fails "failed to set lighthouse" cluster node
        (lighthouse_columns now public_ip port)

  -- The text of the column: no routes are the empty text.
  abbrev pub routes_json : List String → String
  routes_json [] = ""
  routes_json (r ∷ rs) = go.marshal (r ∷ rs)

  abbrev pub route_columns : ℕ → List String → Node → Node
  route_columns now routes n = record n {
    routes = some (routes_json routes);
    routes_updated_at = some now;
  }

  abbrev route_transaction : Faults → ℕ → String → List String → Exec Db (Unit {0})
  route_transaction fails now node routes = do
    fail_if (fails 1) (failed "failed to get cluster ID")
    row ← gets (λ (db : Db). find (has_id node) db.nodes)
    n ← or_raise row node_not_found
    fail_if (fails 2) (failed "failed to update routes")
    rows ← gets (λ (db : Db). count (has_id node) db.nodes)
    modify (λ db. record db { nodes = update (has_id node) (route_columns now routes) db.nodes })
    fail_if (fails 3 || rows == 0) node_not_found
    bump_version fails 4 n.cluster_id
    fail_if (fails 5) (failed "failed to commit transaction")

  unfoldable pub update_routes : Faults → ℕ → String → List String → Exec Db (Unit {0})
  update_routes fails now node routes = do
    fail_if (not (all go.parse_cidr routes)) (wrap invalid_cidr)
    fail_if (fails 0) (failed "failed to start transaction")
    transaction (route_transaction fails now node routes)

  abbrev decode : Option (List String) → Result (List String)
  decode none = err (failed "failed to unmarshal routes")
  decode (some routes) = ok routes

  abbrev pub column_routes : Option String → Result (List String)
  column_routes none = ok []
  column_routes (some text) = if str_eq text "" then ok [] else decode (go.unmarshal text)

  unfoldable pub get_node_routes : Faults → String → Exec Db (List String)
  get_node_routes fails node = do
    fail_if (fails 0) (failed "failed to get routes")
    row ← gets (λ (db : Db). find (has_id node) db.nodes)
    n ← or_raise row node_not_found
    lift (column_routes n.routes)

  -- The entry of one row in a map of routes: none for no text, the empty text or one that cannot
  -- be read.
  abbrev entry_of : String → Option (List String) → List (String × List String)
  entry_of node none = []
  entry_of node (some routes) = (node, routes) ∷ []

  abbrev pub route_entry : Node → List (String × List String)
  route_entry n = elim n.routes [
    | none ↦ []
    | some text ↦ if str_eq text "" then [] else entry_of n.id (go.unmarshal text)
  ]

  unfoldable pub route_map : List Node → List (String × List String)
  route_map [] = []
  route_map (n ∷ ns) = route_entry n ++ route_map ns

  unfoldable pub get_cluster_routes : Faults → String → Exec Db (List (String × List String))
  unfolding route_map
  get_cluster_routes fails cluster = do
    fail_if (fails 0) (failed "failed to query routes")
    fail_if (fails 1) (failed "failed to scan row")
    gets (λ (db : Db). route_map (select (λ (n : Node). str_eq n.cluster_id cluster) db.nodes))

  abbrev or_zero : Option ℕ → ℕ
  or_zero none = 0
  or_zero (some port) = port

  abbrev or_empty : Option String → String
  or_empty none = ""
  or_empty (some ip) = ip

  abbrev pub lighthouse_entry : Node → List LighthouseInfo
  lighthouse_entry n =
      if n.is_lighthouse
      then record {
        node_id = n.id;
        name = n.name;
        public_ip = or_empty n.lighthouse_public_ip;
        port = or_zero n.lighthouse_port;
      }
        ∷ []
      else []

  abbrev pub relay_entry : Node → List RelayInfo
  relay_entry n = if n.is_relay then record { node_id = n.id; name = n.name } ∷ [] else []

  -- The loop of `GetTopology` over the rows
  unfoldable pub collect : List Node → TopologyInfo
  collect [] = record { lighthouses = []; relays = []; routes = [] }
  collect (n ∷ ns) =
      let rest = collect ns in
      record {
        lighthouses = lighthouse_entry n ++ rest.lighthouses;
        relays = relay_entry n ++ rest.relays;
        routes = route_entry n ++ rest.routes;
      }

  unfoldable pub get_topology : Faults → String → Exec Db TopologyInfo
  unfolding collect
  get_topology fails cluster = do
    fail_if (fails 0) (failed "failed to query nodes")
    fail_if (fails 1) (failed "failed to scan row")
    gets (λ (db : Db). collect (select (λ (n : Node). str_eq n.cluster_id cluster) db.nodes))

  unfoldable pub rotate_cluster_token : Faults → String → String → Exec Db String
  rotate_cluster_token fails secret cluster = do
    token ← lift (with_text "failed to generate token" (Token.generate go))
    fail_if (fails 0) (failed "failed to update token")
    rows ← gets (λ (db : Db). count (cluster_has_id cluster) db.clusters)
    modify (λ db. record db {
      clusters =
          update (cluster_has_id cluster)
            (λ c. record c { cluster_token_hash = Token.hash go token secret }) db.clusters;
    })
    fail_if (fails 1 || rows == 0) cluster_not_found
    pure token
