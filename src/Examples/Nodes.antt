-- ===== src/Examples/Nodes.antt =====
-- Tokens, and the nodes of the cluster.
use nebula_gc.Prelude.{
  ◌*◌, ◌≤◌, String, ◌≡◌, refl, true, false, List, [], ◌∷◌, map, arith, str_eq, eq_iff, ◌==◌, All,
}
use nebula_gc.Errors.{ok, err, failed, duplicate_name}
use nebula_gc.Sql.{select, find, count, order_by}
use nebula_gc.Golib.{IsJson}
use nebula_gc.Store.{Node}
use nebula_gc.Token
use nebula_gc.Token.{generate, generate_with_length, is_too_short}
use nebula_gc.Node.{
  NodeCreateRequest, NodeCredentials, NodeTokenRotateResponse, is_cluster, in_cluster, is_node,
  summary, clamp_size, create_node, rotate_node_token, validate_mtu,
}
use nebula_gc.Node.Create.{Created, create_node-Created, create_node-retry}
use nebula_gc.Node.Paging.{pages, pages-all}
use nebula_gc.Topology.{
  TopologyInfo, is_member, lighthouse_columns, no_lighthouse_columns, relay_columns, set_lighthouse,
  unset_lighthouse, set_relay, unset_relay, update_routes, get_node_routes,
}
use nebula_gc.Topology.Atomic.{AllOrNothing, RoutesSet, roles-atomic, update_routes-RoutesSet}
use nebula_gc.Topology.Routes.{get_node_routes-update_routes}
use nebula_gc.Auth.{has_token, abort, require_node_token}
use nebula_gc.Auth.Tokens.{no_context, require_node_token-revoked}
use nebula_gc.Examples.{no_faults, letters, go, db}

roles-atomic_example :
    AllOrNothing db "c"
      (is_member "c" "a")
      (lighthouse_columns 9 "ip" 4242)
      (set_lighthouse go (λ k. k == 3) 9 "c" "a" "ip" 4242 db)
    × AllOrNothing db "c"
        (is_member "c" "a")
        (no_lighthouse_columns 9)
        (unset_lighthouse (λ k. k == 3) 9 "c" "a" db)
    × AllOrNothing db "c"
        (is_member "c" "a")
        (relay_columns true 9)
        (set_relay (λ k. k == 3) 9 "c" "a" db)
    × AllOrNothing db "c"
        (is_member "c" "a")
        (relay_columns false 9)
        (unset_relay (λ k. k == 3) 9 "c" "a" db)
roles-atomic_example = roles-atomic go (λ k. k == 3) 9 "c" "a" "ip" 4242 db

abbrev routes : List String
routes = "10.0.0.0/8" ∷ []

update_routes-RoutesSet_example :
    RoutesSet go 9 "a" routes db (update_routes go no_faults 9 "a" routes db)
update_routes-RoutesSet_example = update_routes-RoutesSet go no_faults 9 "a" routes db

routes-IsJson : IsJson go routes
routes-IsJson = record {
  unmarshal-marshal = refl;
  marshal-ne = λ e. ground (arith, e, eq_iff "10.0.0.0/8" "");
}

routes_set : (update_routes go no_faults 9 "a" routes db).0 ≡ ok tt
unfolding update_routes find count
routes_set = refl

get_node_routes-update_routes_example :
    (get_node_routes go no_faults "a" (update_routes go no_faults 9 "a" routes db).1).0 ≡ ok routes
get_node_routes-update_routes_example =
    get_node_routes-update_routes go no_faults 9 "a" "a" routes db routes-IsJson routes_set

abbrev no_lighthouse : TopologyInfo
no_lighthouse = record { lighthouses = []; relays = []; routes = [] }

abbrev one_lighthouse : TopologyInfo
one_lighthouse = record {
  lighthouses = record { node_id = "a"; name = "a"; public_ip = "ip"; port = 4242 } ∷ [];
  relays = [];
  routes = [];
}

abbrev req : NodeCreateRequest
req = record { name = "d"; is_admin = false; mtu = 0 }

create_node-Created_example :
    Created go "secret" no_faults 9 "d" "t" "c" "token" req db
      (create_node go "secret" no_faults 9 "d" "t" "c" "token" req db)
create_node-Created_example = create_node-Created go "secret" no_faults 9 "d" "t" "c" "token" req db

abbrev creds : NodeCredentials
creds = record { node_id = "d"; node_token = letters 44; cluster_token = "token"; created_at = 9 }

d_is_created : (create_node go "secret" no_faults 9 "d" "t" "c" "token" req db).0 ≡ ok creds
unfolding create_node generate generate_with_length validate_mtu count
d_is_created = refl

create_node-retry_example :
    ((create_node go "secret" (λ k. k == 2) 9 "d" "t" "c" "token" req db).0
      ≡ err (failed "failed to bump config version"))
    × ((create_node go "secret" no_faults 10 "e" "t" "c" "token" req
          (create_node go "secret" (λ k. k == 2) 9 "d" "t" "c" "token" req db).1).0
        ≡ err duplicate_name)
create_node-retry_example =
    create_node-retry go "secret" 9 10 "d" "e" "t" "c" "token" req db creds d_is_created

cluster_exists : (count (is_cluster "t" "c") db.clusters == 0) ≡ false
unfolding count
cluster_exists = refl

two_nodes : count (in_cluster "t" "c") db.nodes ≤ 2 * clamp_size 1
unfolding count
two_nodes = omega arith

pages-all_example :
    (pages go "secret" "t" "c" 2 1 db
      ≡ map
          (summary go "secret")
          (order_by (λ (n : Node). n.created_at) (select (in_cluster "t" "c") db.nodes)))
    × (1 ≤ clamp_size 1)
    × (clamp_size 1 ≤ 500)
pages-all_example = pages-all go "secret" "t" "c" 2 1 db cluster_exists two_nodes

abbrev rotated : NodeTokenRotateResponse
rotated = record { node_id = "a"; node_token = letters 44; rotated_at = 9 }

a_is_rotated : (rotate_node_token go "secret" no_faults 9 "t" "c" "a" db).0 ≡ ok rotated
unfolding rotate_node_token generate generate_with_length count
a_is_rotated = refl

tokens_differ :
    str_eq (Token.hash go rotated.node_token "secret") (Token.hash go "old" "secret") ≡ false
unfolding Token.hash
tokens_differ = refl

only_a_has_it :
    All
      (λ k. has_token (Token.hash go "old" "secret") k ≡ true → is_node "t" "c" "a" k ≡ true)
      db.nodes
unfolding Token.hash
only_a_has_it = ((λ e. refl), ((λ e. ground (arith, e)), tt))

require_node_token-revoked_example :
    require_node_token go "secret" no_faults "old"
      (rotate_node_token go "secret" no_faults 9 "t" "c" "a" db).1
      no_context
    ≡ abort 401
require_node_token-revoked_example =
    require_node_token-revoked go "secret" no_faults 9 "t" "c" "a" "old" db rotated tokens_differ
      only_a_has_it a_is_rotated
