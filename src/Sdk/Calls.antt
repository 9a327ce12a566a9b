-- ===== src/Sdk/Calls.antt =====
-- sdk/client.go: the request that each method of the client sends, by `doJSONRequest` or, for the
-- bundles, by a loop of its own. Queries and bodies are left out; a path is the list of its parts.
pub mod Routed
pub mod Unrouted
use nebula_gc.Prelude.{
  ℕ, zero, suc, ◌+◌, ◌-◌, ◌*◌, ◌/◌, ◌%◌, ◌≤◌, ◌<◌, String, ◌≡◌, refl, sym, ap, subst, ◌∙◌, ◌≢◌, ◌↔◌,
  ◌⊎◌, inl, inr, Bool, true, false, not, ◌&&◌, ◌||◌, Option, none, some, List, [], ◌∷◌, ◌++◌, map,
  arith, str_eq, eq_iff, eq_refl, ltb, leb, ◌==◌, if◌then◌else◌, ltb→lt, lt→ltb, leb→le, le→leb,
  Bool-cases, Option-cases, length, head?, take, drop, all, any, length-append, length-take-le, All,
  All-append,
}
use nebula_gc.Sdk.{
  AuthType, auth_type_none, auth_type_node, auth_type_cluster, Client, Reply, Outcome, answered,
  no_base_urls, missing_auth, unauthorized, rate_limited, all_instances_failed, do_request,
}

pub record Call : Type 0 where
  pub method : String
  pub path : List String
  pub auth : AuthType
  pub prefer_master : Bool

-- The configured ids of the client
pub record Ids : Type 0 where
  pub tenant_id : String
  pub cluster_id : String
  pub node_id : String

abbrev call : String → List String → AuthType → Bool → Call
call method path auth prefer_master = record {
  method = method;
  path = path;
  auth = auth;
  prefer_master = prefer_master;
}

abbrev in_cluster : Ids → List String → List String
in_cluster ids rest = "api" ∷ "v1" ∷ "tenants" ∷ ids.tenant_id ∷ "clusters" ∷ ids.cluster_id ∷ rest

module _ (ids : Ids) where
  unfoldable pub create_node : Call
  create_node = call "POST" (in_cluster ids ("nodes" ∷ [])) auth_type_cluster true

  unfoldable pub delete_node : String → Call
  delete_node node = call "DELETE" (in_cluster ids ("nodes" ∷ node ∷ [])) auth_type_cluster true

  unfoldable pub list_nodes : Call
  list_nodes = call "GET" (in_cluster ids ("nodes" ∷ [])) auth_type_cluster false

  unfoldable pub update_mtu : String → Call
  update_mtu node = call "PUT" (in_cluster ids ("nodes" ∷ node ∷ "mtu" ∷ [])) auth_type_cluster true

  unfoldable pub rotate_node_token : String → Call
  rotate_node_token node =
      call "POST" (in_cluster ids ("nodes" ∷ node ∷ "rotate-token" ∷ [])) auth_type_cluster true

  unfoldable pub get_latest_version : Call
  get_latest_version = call "GET" (in_cluster ids ("config" ∷ "version" ∷ [])) auth_type_node false

  unfoldable pub download_bundle : Call
  download_bundle = call "GET" (in_cluster ids ("config" ∷ "bundle" ∷ [])) auth_type_node false

  unfoldable pub upload_bundle : Call
  upload_bundle = call "POST" (in_cluster ids ("config" ∷ "bundle" ∷ [])) auth_type_node true

  unfoldable pub register_routes : Call
  register_routes =
      call "PUT" (in_cluster ids ("nodes" ∷ ids.node_id ∷ "routes" ∷ [])) auth_type_node true

  unfoldable pub get_routes : Call
  get_routes =
      call "GET" (in_cluster ids ("nodes" ∷ ids.node_id ∷ "routes" ∷ [])) auth_type_node false

  unfoldable pub list_cluster_routes : Call
  list_cluster_routes = call "GET" (in_cluster ids ("routes" ∷ [])) auth_type_cluster false

  unfoldable pub set_lighthouse : String → Call
  set_lighthouse node =
      call "PUT" (in_cluster ids ("nodes" ∷ node ∷ "lighthouse" ∷ [])) auth_type_cluster true

  unfoldable pub set_relay : String → Call
  set_relay node =
      call "PUT" (in_cluster ids ("nodes" ∷ node ∷ "relay" ∷ [])) auth_type_cluster true

  unfoldable pub get_topology : Call
  get_topology = call "GET" (in_cluster ids ("topology" ∷ [])) auth_type_node false

  unfoldable pub rotate_cluster_token : Call
  rotate_cluster_token = call "POST" (in_cluster ids ("rotate-token" ∷ [])) auth_type_cluster true

  unfoldable pub get_cluster_replicas : Call
  get_cluster_replicas = call "GET" (in_cluster ids ("replicas" ∷ [])) auth_type_cluster false

-- The request of `DiscoverMaster`, and that of `CheckMaster`
unfoldable pub discover_master : Call
discover_master = call "GET" ("api" ∷ "v1" ∷ "check-master" ∷ []) auth_type_none false

unfoldable pub check_master : Call
check_master = call "GET" ("health" ∷ "master" ∷ []) auth_type_none false

-- The calls by `doJSONRequest`
abbrev pub json_calls : Ids → String → List Call
json_calls ids node =
    create_node ids
    ∷ delete_node ids node
    ∷ list_nodes ids
    ∷ update_mtu ids node
    ∷ rotate_node_token ids node
    ∷ get_latest_version ids
    ∷ register_routes ids
    ∷ get_routes ids
    ∷ list_cluster_routes ids
    ∷ set_lighthouse ids node
    ∷ set_relay ids node
    ∷ get_topology ids
    ∷ rotate_cluster_token ids
    ∷ get_cluster_replicas ids
    ∷ []

-- What `doJSONRequest` returns: nil, the error of a status, or that of `doRequest`. An error on the
-- way from or to JSON is left out.
pub data JsonOutcome : Type 0 where
  succeeded : JsonOutcome
  api_error : ℕ → JsonOutcome
  not_answered : Outcome → JsonOutcome

abbrev pub json_outcome : Outcome → JsonOutcome
json_outcome (answered url code) =
    if ltb code 200 || leb 300 code then api_error code else succeeded
json_outcome no_base_urls = not_answered no_base_urls
json_outcome missing_auth = not_answered missing_auth
json_outcome unauthorized = not_answered unauthorized
json_outcome rate_limited = not_answered rate_limited
json_outcome all_instances_failed = not_answered all_instances_failed

unfoldable pub do_json_request :
    (String → ℕ → Reply) → (String → ℕ → Bool) → Call → Client → JsonOutcome × Client
unfolding do_request
do_json_request answer done c client =
    let (outcome, client') = do_request answer done c.auth c.prefer_master client in
    (json_outcome outcome, client')
