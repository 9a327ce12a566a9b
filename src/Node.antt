-- ===== src/Node.antt =====
-- server/internal/service/node.go. `now` is the time of the call and `node_id` the new UUID;
-- `fails k` says whether the k-th database call of a method fails. An `int` that the source takes
-- from a request is a number: a negative page or page size takes the branch of 0, and a negative
-- MTU is refused as one from 1 to 1279 is.
pub mod Create
pub mod Paging
pub mod Isolation
use Prim.Native.String.{len}
use nebula_gc.Prelude.{
  ℕ, zero, ◌+◌, ◌-◌, ◌*◌, String, Bool, true, false, not, ◌&&◌, ◌||◌, Option, none, some, List, [],
  ◌∷◌, ◌++◌, map, ltb, ◌==◌, any, str_eq, if◌then◌else◌,
}
use nebula_gc.Errors.{
  with_text, Error, Result, ok, err, failed, invalid_request, invalid_mtu, cluster_not_found,
  node_not_found, duplicate_name,
}
use nebula_gc.Exec.{Exec, Faults, pure, raise, gets, lift, or_raise, fail_if, modify, ◌>>=◌, ◌>>◌}
use nebula_gc.Sql.{select, find, update, delete, count, order_by, page}
use nebula_gc.Golib.{Golib}
use nebula_gc.Token
use nebula_gc.Store.{Cluster, Node, Db}

pub record NodeCreateRequest : Type 0 where
  pub name : String
  pub is_admin : Bool
  pub mtu : ℕ

pub record NodeCredentials : Type 0 where
  pub node_id : String
  pub node_token : String
  pub cluster_token : String
  pub created_at : ℕ

pub record NodeSummary : Type 0 where
  pub node_id : String
  pub name : String
  pub is_admin : Bool
  pub mtu : ℕ
  pub is_lighthouse : Bool
  pub is_relay : Bool
  pub routes : List String
  pub created_at : ℕ
  pub updated_at : ℕ

pub record NodeListResponse : Type 0 where
  pub cluster_id : String
  pub nodes : List NodeSummary
  pub total : ℕ
  pub page : ℕ
  pub per_page : ℕ

pub record NodeTokenRotateResponse : Type 0 where
  pub node_id : String
  pub node_token : String
  pub rotated_at : ℕ

-- WHERE id = ? AND tenant_id = ?
abbrev pub is_cluster : String → String → Cluster → Bool
is_cluster tenant cluster c = str_eq c.id cluster && str_eq c.tenant_id tenant

-- WHERE tenant_id = ? AND cluster_id = ?
abbrev pub in_cluster : String → String → Node → Bool
in_cluster tenant cluster n = str_eq n.tenant_id tenant && str_eq n.cluster_id cluster

-- WHERE id = ? AND tenant_id = ? AND cluster_id = ?
abbrev pub is_node : String → String → String → Node → Bool
is_node tenant cluster node n = str_eq n.id node && in_cluster tenant cluster n

abbrev pub bump : Cluster → Cluster
bump c = record c { config_version = c.config_version + 1 }

-- Whether `validateMTU` accepts; 0 stands for the default.
unfoldable pub validate_mtu : ℕ → Bool
validate_mtu mtu = mtu == 0 || not (ltb mtu 1280 || ltb 9000 mtu)

-- The CHECK of the column
abbrev pub mtu_allowed : ℕ → Bool
mtu_allowed mtu = not (ltb mtu 1280) && not (ltb 9000 mtu)

-- The first calls of `fails` are those of the method that calls these: `k` is the next one.
abbrev pub ensure_cluster_exists : Faults → ℕ → String → String → Exec Db (Unit {0})
ensure_cluster_exists fails k tenant cluster = do
  fail_if (fails k) (failed "failed to verify cluster")
  found ← gets (λ (db : Db). count (is_cluster tenant cluster) db.clusters)
  fail_if (found == 0) cluster_not_found

abbrev pub bump_config_version : Faults → ℕ → String → String → Exec Db (Unit {0})
bump_config_version fails k tenant cluster = do
  fail_if (fails k) (failed "failed to bump config version")
  rows ← gets (λ (db : Db). count (is_cluster tenant cluster) db.clusters)
  modify (λ db. record db { clusters = update (is_cluster tenant cluster) bump db.clusters })
  fail_if (fails (k + 1)) (failed "failed to check version bump")
  fail_if (rows == 0) cluster_not_found

-- What the PRIMARY KEY and UNIQUE(tenant_id, cluster_id, name) refuse.
abbrev pub conflicts : Node → Node → Bool
conflicts n m =
    str_eq m.id n.id
    || str_eq m.tenant_id n.tenant_id && str_eq m.cluster_id n.cluster_id && str_eq m.name n.name

-- The INSERT, with `isUniqueConstraint` of its error.
abbrev pub insert_node : Faults → ℕ → Node → Exec Db (Unit {0})
insert_node fails k n = do
  fail_if (fails k) (failed "failed to insert node")
  taken ← gets (λ (db : Db). any (conflicts n) db.nodes)
  fail_if taken duplicate_name
  modify (λ db. record db { nodes = db.nodes ++ n ∷ [] })

abbrev pub clamp_page : ℕ → ℕ
clamp_page p = if ltb p 1 then 1 else p

abbrev pub clamp_size : ℕ → ℕ
clamp_size size =
    let some_size = if size == 0 then 50 else size in if ltb 500 some_size then 500 else some_size

module _ (go : Golib) (secret : String) where
  -- Whether `validateNodeName` accepts
  abbrev pub validate_node_name : String → Bool
  validate_node_name name = not (len (go.trim_space name) == 0 || ltb 255 (len name))

  abbrev pub new_node : ℕ → String → String → String → NodeCreateRequest → String → Node
  new_node now node_id tenant cluster req token = record {
    id = node_id;
    tenant_id = tenant;
    cluster_id = cluster;
    name = req.name;
    is_admin = req.is_admin;
    token_hash = Token.hash go token secret;
    mtu = if req.mtu == 0 then 1300 else req.mtu;
    routes = none;
    routes_updated_at = none;
    is_lighthouse = false;
    lighthouse_public_ip = none;
    lighthouse_port = none;
    is_relay = false;
    lighthouse_relay_updated_at = none;
    created_at = now;
  }

  unfoldable pub create_node :
      Faults → ℕ → String → String → String → String → NodeCreateRequest → Exec Db NodeCredentials
  unfolding validate_mtu
  create_node fails now node_id tenant cluster cluster_token req = do
    fail_if (not (validate_node_name req.name)) invalid_request
    fail_if (not (validate_mtu req.mtu)) invalid_mtu
    ensure_cluster_exists fails 0 tenant cluster
    token ← lift (with_text "failed to generate node token" (Token.generate go))
    insert_node fails 1 (new_node now node_id tenant cluster req token)
    bump_config_version fails 2 tenant cluster
    pure (record {
      node_id = node_id;
      node_token = token;
      cluster_token = cluster_token;
      created_at = now;
    })

  abbrev decoded : Option (List String) → List String
  decoded none = []
  decoded (some routes) = routes

  -- `routes` of a summary, from the column
  abbrev pub parse_routes : Option String → List String
  parse_routes none = []
  parse_routes (some text) =
      if str_eq (go.trim_space text) "" then [] else decoded (go.unmarshal text)

  abbrev pub summary : Node → NodeSummary
  summary n = record {
    node_id = n.id;
    name = n.name;
    is_admin = n.is_admin;
    mtu = n.mtu;
    is_lighthouse = n.is_lighthouse;
    is_relay = n.is_relay;
    routes = parse_routes n.routes;
    created_at = n.created_at;
    updated_at = n.created_at;
  }

  -- `fails 3` is `rows.Err()`, or a row that cannot be scanned.
  unfoldable pub list_nodes : Faults → String → String → ℕ → ℕ → Exec Db NodeListResponse
  list_nodes fails tenant cluster p size = do
    ensure_cluster_exists fails 0 tenant cluster
    fail_if (fails 1) (failed "failed to count nodes")
    total ← gets (λ (db : Db). count (in_cluster tenant cluster) db.nodes)
    fail_if (fails 2) (failed "failed to list nodes")
    rows ← gets (λ (db : Db).
        page (clamp_size size) ((clamp_page p - 1) * clamp_size size)
          (order_by (λ (n : Node). n.created_at) (select (in_cluster tenant cluster) db.nodes)))
    fail_if (fails 3) (failed "failed to iterate nodes")
    pure (record {
      cluster_id = cluster;
      nodes = map summary rows;
      total = total;
      page = clamp_page p;
      per_page = clamp_size size;
    })

  abbrev pub get_node_summary : Faults → ℕ → String → String → String → Exec Db NodeSummary
  get_node_summary fails k tenant cluster node = do
    fail_if (fails k) (failed "failed to load node summary")
    row ← gets (λ (db : Db). find (is_node tenant cluster node) db.nodes)
    n ← or_raise row node_not_found
    pure (summary n)

  -- The UPDATE of `mtu` fails the CHECK of the column if it reaches a row.
  unfoldable pub update_mtu : Faults → String → String → String → ℕ → Exec Db NodeSummary
  unfolding validate_mtu
  update_mtu fails tenant cluster node mtu = do
    fail_if (not (validate_mtu mtu)) invalid_mtu
    rows ← gets (λ (db : Db). count (is_node tenant cluster node) db.nodes)
    fail_if (fails 0 || not (rows == 0) && not (mtu_allowed mtu)) (failed "failed to update MTU")
    modify (λ db. record db {
      nodes = update (is_node tenant cluster node) (λ n. record n { mtu = mtu }) db.nodes;
    })
    fail_if (fails 1) (failed "failed to check MTU update result")
    fail_if (rows == 0) node_not_found
    bump_config_version fails 2 tenant cluster
    get_node_summary fails 4 tenant cluster node

  unfoldable pub rotate_node_token :
      Faults → ℕ → String → String → String → Exec Db NodeTokenRotateResponse
  rotate_node_token fails now tenant cluster node = do
    token ← lift (with_text "failed to generate node token" (Token.generate go))
    fail_if (fails 0) (failed "failed to rotate token")
    rows ← gets (λ (db : Db). count (is_node tenant cluster node) db.nodes)
    modify (λ db. record db {
      nodes =
          update (is_node tenant cluster node)
            (λ n. record n { token_hash = Token.hash go token secret }) db.nodes;
    })
    fail_if (fails 1) (failed "failed to check token rotation result")
    fail_if (rows == 0) node_not_found
    bump_config_version fails 2 tenant cluster
    pure (record { node_id = node; node_token = token; rotated_at = now })

unfoldable pub delete_node : Faults → String → String → String → Exec Db (Unit {0})
delete_node fails tenant cluster node = do
  fail_if (fails 0) (failed "failed to delete node")
  rows ← gets (λ (db : Db). count (is_node tenant cluster node) db.nodes)
  modify (λ db. record db { nodes = delete (is_node tenant cluster node) db.nodes })
  fail_if (fails 1) (failed "failed to check delete result")
  fail_if (rows == 0) node_not_found
  bump_config_version fails 2 tenant cluster
