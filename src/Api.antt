-- ===== src/Api.antt =====
-- server/internal/api: the requests that router.go serves, and the responses of the handlers. A
-- response is its status and its data; headers and texts of errors are left out. `none` for a body
-- is one that is not JSON of the right shape. CORS, metrics, logging and the rate limits of
-- golang.org/x/time come before the gates and are left out.
pub mod Handlers
pub mod Router
pub mod Routes
pub mod WellFormed
pub mod Steps
pub mod Services
pub mod Transactions
pub mod Gates
pub mod Reads
pub mod Refusals
pub mod Writers
pub mod Refinement
pub mod Runs
pub mod Versions
pub mod Isolation
use nebula_gc.Prelude.{
  ℕ, zero, suc, ◌+◌, ◌-◌, ◌*◌, ◌/◌, ◌%◌, ◌≤◌, ◌<◌, String, ◌≡◌, refl, sym, ap, subst, ◌∙◌, ◌≢◌, ◌↔◌,
  ◌⊎◌, inl, inr, Bool, true, false, not, ◌&&◌, ◌||◌, Option, none, some, List, [], ◌∷◌, ◌++◌, map,
  arith, str_eq, eq_iff, eq_refl, ltb, leb, ◌==◌, if◌then◌else◌, ltb→lt, lt→ltb, leb→le, le→leb,
  Bool-cases, Option-cases, length, head?, take, drop, all, any, length-append, length-take-le, All,
  All-append,
}
use nebula_gc.Bundle.Handler.{Query}
use nebula_gc.Bundle.Handler
use nebula_gc.Node.{
  NodeCreateRequest, NodeCredentials, NodeSummary, NodeListResponse, NodeTokenRotateResponse,
}
use nebula_gc.Topology.{TopologyInfo}

pub record LighthouseRequest : Type 0 where
  pub node_id : String
  pub public_ip : String
  pub port : ℕ

pub data Request : Type 0 where
  -- POST /api/v1/nodes, with the header of the cluster token
  post_nodes : String → Option NodeCreateRequest → Request
  -- GET /api/v1/nodes: the page and its size, 0 where `Atoi` fails
  get_nodes : ℕ → ℕ → Request
  -- PATCH /api/v1/nodes/:id/mtu
  patch_mtu : String → Option ℕ → Request
  -- POST /api/v1/nodes/:id/token
  post_node_token : String → Request
  -- DELETE /api/v1/nodes/:id
  delete_nodes : String → Request
  -- GET /api/v1/config/version
  get_config_version : Request
  -- GET /api/v1/config/bundle, with If-None-Match
  get_config_bundle : Query → Option ℕ → Request
  -- POST /api/v1/config/bundle: Content-Type and what reading the body gives
  post_config_bundle : String → Option (List ℕ) → Request
  -- /api/v1/topology
  get_topology : Request
  post_lighthouse : Option LighthouseRequest → Request
  delete_lighthouse : String → Request
  post_relay : Option String → Request
  delete_relay : String → Request
  -- /api/v1/routes
  get_routes : Request
  put_routes : Option (List String) → Request
  get_routes_cluster : Request
  -- POST /api/v1/tokens/cluster/rotate
  post_cluster_rotate : Request
  -- /health
  get_live : Request
  get_ready : Request
  get_master : Request

pub data Response : Type 0 where
  failure : ℕ → Response
  done : ℕ → Response
  bundle_reply : Handler.Response → Response
  credentials : NodeCredentials → Response
  nodes : NodeListResponse → Response
  summary : NodeSummary → Response
  rotated : NodeTokenRotateResponse → Response
  topology : TopologyInfo → Response
  routes : List String → Response
  cluster_routes : List (String × List String) → Response
  token : String → Response
  master_status : Bool → String → Response

-- The methods that the write guard lets through everywhere.
abbrev pub method : Request → String
method (post_nodes _ _) = "POST"
method (get_nodes _ _) = "GET"
method (patch_mtu _ _) = "PATCH"
method (post_node_token _) = "POST"
method (delete_nodes _) = "DELETE"
method get_config_version = "GET"
method (get_config_bundle _ _) = "GET"
method (post_config_bundle _ _) = "POST"
method get_topology = "GET"
method (post_lighthouse _) = "POST"
method (delete_lighthouse _) = "DELETE"
method (post_relay _) = "POST"
method (delete_relay _) = "DELETE"
method get_routes = "GET"
method (put_routes _) = "PUT"
method get_routes_cluster = "GET"
method post_cluster_rotate = "POST"
method get_live = "GET"
method get_ready = "GET"
method get_master = "GET"
