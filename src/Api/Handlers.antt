-- ===== src/Api/Handlers.antt =====
-- server/internal/api/handlers: node.go, topology.go and health.go, on the context that the gates
-- have set; the handlers for bundles are those of Bundle/Handler. `fails` are the faults of the
-- service's database calls.
use Prim.Native.String.{count}
use nebula_gc.Prelude.{
  ℕ, String, Bool, not, ◌&&◌, ◌||◌, Option, none, some, List, str_eq, ltb, ◌==◌, if◌then◌else◌,
}
use nebula_gc.Errors.{Result, ok, err, invalid_request}
use nebula_gc.Exec.{Faults}
use nebula_gc.Golib.{Golib}
use nebula_gc.Store.{Db}
use nebula_gc.Http.{map_error_to_response}
use nebula_gc.Auth.{Context}
use nebula_gc.Node
use nebula_gc.Node.{NodeCreateRequest}
use nebula_gc.Topology
use nebula_gc.Api.{
  LighthouseRequest, Response, failure, done, credentials, nodes, summary, rotated, topology,
  routes, cluster_routes, token, master_status,
}

abbrev or_empty : Option String → String
or_empty none = ""
or_empty (some s) = s

-- `getTenantID`, `getClusterID` and `getNodeID`
abbrev pub tenant_id : Context → String
tenant_id c = or_empty c.tenant_id

abbrev pub cluster_id : Context → String
cluster_id c = or_empty c.cluster_id

abbrev pub node_id : Context → String
node_id c = or_empty c.node_id

-- The end of a handler: the error of a service by `mapErrorToResponse`, or its data.
abbrev pub respond {ℓ} : {A : Type ℓ} → (A → Response) → Result A × Db → Response × Db
respond f (ok a, db) = (f a, db)
respond f (err e, db) = (failure (map_error_to_response e), db)

-- `respondError` with 401 where the gate has set no id
abbrev pub authenticated : String → Response × Db → Db → Response × Db
authenticated id r db = if str_eq id "" then (failure 401, db) else r

-- The binding of a name: required, at most 255 characters.
abbrev pub name_binds : String → Bool
name_binds name = not (str_eq name "") && not (ltb 255 (count name))

-- The binding of an MTU: required, from 1280 to 9000.
abbrev pub mtu_binds : ℕ → Bool
mtu_binds mtu = not (mtu == 0) && not (ltb mtu 1280) && not (ltb 9000 mtu)

module _ (go : Golib) (secret : String) where
  unfoldable pub create_node :
      Faults → ℕ → String → Context → String → Option NodeCreateRequest → Db → Response × Db
  unfolding map_error_to_response
  create_node fails now new_id c cluster_token none db =
      (failure (map_error_to_response invalid_request), db)
  create_node fails now new_id c cluster_token (some req) db =
      if name_binds req.name
      then respond credentials (
          Node.create_node go secret fails now new_id (tenant_id c) (cluster_id c) cluster_token req
            db)
      else (failure (map_error_to_response invalid_request), db)

  unfoldable pub list_nodes : Faults → Context → ℕ → ℕ → Db → Response × Db
  unfolding map_error_to_response
  list_nodes fails c page size db =
      respond nodes (Node.list_nodes go secret fails (tenant_id c) (cluster_id c) page size db)

  unfoldable pub update_mtu : Faults → Context → String → Option ℕ → Db → Response × Db
  unfolding map_error_to_response
  update_mtu fails c node none db = (failure (map_error_to_response invalid_request), db)
  update_mtu fails c node (some mtu) db =
      if mtu_binds mtu
      then respond summary
          (Node.update_mtu go secret fails (tenant_id c) (cluster_id c) node mtu db)
      else (failure (map_error_to_response invalid_request), db)

  unfoldable pub rotate_node_token : Faults → ℕ → Context → String → Db → Response × Db
  unfolding map_error_to_response
  rotate_node_token fails now c node db =
      respond rotated
        (Node.rotate_node_token go secret fails now (tenant_id c) (cluster_id c) node db)

unfoldable pub delete_node : Faults → Context → String → Db → Response × Db
unfolding map_error_to_response
delete_node fails c node db =
    respond (λ _. done 204) (Node.delete_node fails (tenant_id c) (cluster_id c) node db)

module _ (go : Golib) where
  unfoldable pub update_routes : Faults → ℕ → Context → Option (List String) → Db → Response × Db
  unfolding map_error_to_response
  update_routes fails now c none db = authenticated (node_id c) (failure 400, db) db
  update_routes fails now c (some rs) db =
      authenticated (node_id c)
        (respond (λ _. done 200) (Topology.update_routes go fails now (node_id c) rs db)) db

  unfoldable pub get_routes : Faults → Context → Db → Response × Db
  unfolding map_error_to_response
  get_routes fails c db =
      authenticated (node_id c) (respond routes (Topology.get_node_routes go fails (node_id c) db))
        db

  unfoldable pub get_cluster_routes : Faults → Context → Db → Response × Db
  unfolding map_error_to_response
  get_cluster_routes fails c db =
      authenticated (cluster_id c)
        (respond cluster_routes (Topology.get_cluster_routes go fails (cluster_id c) db)) db

  -- The binding asks for a node and an address that are not empty.
  unfoldable pub assign_lighthouse :
      Faults → ℕ → Context → Option LighthouseRequest → Db → Response × Db
  unfolding map_error_to_response
  assign_lighthouse fails now c none db = authenticated (cluster_id c) (failure 400, db) db
  assign_lighthouse fails now c (some r) db =
      authenticated (cluster_id c)
        (if str_eq r.node_id "" || str_eq r.public_ip ""
          then (failure 400, db)
          else respond (λ _. done 200)
              (Topology.set_lighthouse go fails now (cluster_id c) r.node_id r.public_ip r.port db))
        db

  unfoldable pub get_topology : Faults → Context → Db → Response × Db
  unfolding map_error_to_response
  get_topology fails c db =
      authenticated (cluster_id c)
        (respond topology (Topology.get_topology go fails (cluster_id c) db)) db

  unfoldable pub rotate_cluster_token : Faults → String → Context → Db → Response × Db
  unfolding map_error_to_response
  rotate_cluster_token fails secret c db =
      authenticated (cluster_id c)
        (respond token (Topology.rotate_cluster_token go fails secret (cluster_id c) db)) db

unfoldable pub unassign_lighthouse : Faults → ℕ → Context → String → Db → Response × Db
unfolding map_error_to_response
unassign_lighthouse fails now c node db =
    authenticated (cluster_id c)
      (if str_eq node ""
        then (failure 400, db)
        else respond (λ _. done 200) (Topology.unset_lighthouse fails now (cluster_id c) node db))
      db

unfoldable pub assign_relay : Faults → ℕ → Context → Option String → Db → Response × Db
unfolding map_error_to_response
assign_relay fails now c none db = authenticated (cluster_id c) (failure 400, db) db
assign_relay fails now c (some node) db =
    authenticated (cluster_id c)
      (if str_eq node ""
        then (failure 400, db)
        else respond (λ _. done 200) (Topology.set_relay fails now (cluster_id c) node db))
      db

unfoldable pub unassign_relay : Faults → ℕ → Context → String → Db → Response × Db
unfolding map_error_to_response
unassign_relay fails now c node db =
    authenticated (cluster_id c)
      (if str_eq node ""
        then (failure 400, db)
        else respond (λ _. done 200) (Topology.unset_relay fails now (cluster_id c) node db))
      db

-- GET /health/ready: `ping` says whether the database answers.
abbrev pub readiness : Bool → Response
readiness ping = if ping then done 200 else failure 503

-- GET /health/master
abbrev pub master : Result (Bool × String) → Response
master (err e) = failure 503
master (ok (is_master, master_url)) = master_status is_master (if is_master then "" else master_url)
