-- ===== src/Sdk/Calls/Routed.antt =====
-- The calls of the client and the routes of the server.
use nebula_gc.Prelude.{String, ◌≡◌, refl, false, All}
use nebula_gc.Api.Routes.{has_route, routes}
use nebula_gc.Sdk.Calls.{
  Call, Ids, create_node, delete_node, list_nodes, update_mtu, rotate_node_token,
  get_latest_version, download_bundle, upload_bundle, register_routes, get_routes,
  list_cluster_routes, set_lighthouse, set_relay, get_topology, rotate_cluster_token,
  get_cluster_replicas, discover_master, json_calls,
}

pub has_route-json_calls :
    (ids : Ids) (node : String)
    → All (λ (c : Call). has_route c.method c.path ≡ false) (json_calls ids node)
unfolding has_route routes create_node delete_node list_nodes update_mtu rotate_node_token
    get_latest_version register_routes get_routes list_cluster_routes set_lighthouse set_relay
    get_topology rotate_cluster_token get_cluster_replicas
has_route-json_calls ids node = (
  refl,
  (
    refl,
    (
      refl,
      (refl, (refl, (refl, (refl, (refl, (refl, (refl, (refl, (refl, (refl, (refl, tt))))))))))),
    ),
  ),
)

pub has_route-discover_master : has_route discover_master.method discover_master.path ≡ false
unfolding has_route routes discover_master
has_route-discover_master = refl

pub has_route-bundles :
    (ids : Ids)
    → (has_route (download_bundle ids).method (download_bundle ids).path ≡ false)
      × (has_route (upload_bundle ids).method (upload_bundle ids).path ≡ false)
unfolding has_route routes download_bundle upload_bundle
has_route-bundles ids = (refl, refl)
