-- ===== src/Api/Refinement.antt =====
-- What a request does to the tables, from the acting cluster: that of its node token or its
-- cluster token.
use nebula_gc.Prelude.{
  ℕ, String, ◌≡◌, refl, inl, inr, Bool, true, ◌||◌, Option, none, some, List, arith, str_eq,
  if◌then◌else◌, Bool-cases, Option-cases,
}
use nebula_gc.Errors.{Result}
use nebula_gc.Golib.{Golib}
use nebula_gc.Archive.{Archiver}
use nebula_gc.Token
use nebula_gc.Store.{Cluster, Node, Db}
use nebula_gc.Node.{mtu_allowed, NodeCreateRequest}
use nebula_gc.Topology.{has_id}
use nebula_gc.Bundle.Handler
use nebula_gc.Auth.{has_token, node_context, cluster_context, write_guard}
use nebula_gc.Api.{
  Request, LighthouseRequest, post_nodes, get_nodes, patch_mtu, post_node_token, delete_nodes,
  get_config_version, get_config_bundle, post_config_bundle, get_topology, post_lighthouse,
  delete_lighthouse, post_relay, delete_relay, get_routes, put_routes, get_routes_cluster,
  post_cluster_rotate, get_live, get_ready, get_master, failure, done, method, credentials, summary,
  rotated, token,
}
use nebula_gc.Api.Handlers
use nebula_gc.Api.Handlers.{mtu_binds, name_binds}
use nebula_gc.Api.Router.{World, empty_context, route, serve}
use nebula_gc.Api.Steps.{Changes, start, Within, unchanged}
use nebula_gc.Api.WellFormed.{Apart}
use nebula_gc.Api.Reads.{
  list_nodes-same, get_topology-same, get_routes-same, get_cluster_routes-same,
}
use nebula_gc.Api.Services.{
  update_mtu-Changes, rotate_node_token-Changes, delete_node-Changes, create_node-Changes,
  rotate_cluster_token-Changes,
}
use nebula_gc.Api.Transactions.{
  set_lighthouse-Changes, unset_lighthouse-Changes, set_relay-Changes, unset_relay-Changes,
  update_routes-Changes, upload-Changes,
}
use nebula_gc.Api.Gates.{
  Effect, Effect-same, node_owner, cluster_owner, authenticated_lem, either_lem, respond_lem,
  upload_bundle-keeps, with_node-Effect, with_admin-Effect, with_cluster-Effect, Within-own,
}

abbrev pub acting : String → Request → Db → Option String
acting hash (post_nodes _ _) db = node_owner hash db
acting hash (get_nodes _ _) db = node_owner hash db
acting hash (patch_mtu _ _) db = node_owner hash db
acting hash (post_node_token _) db = node_owner hash db
acting hash (delete_nodes _) db = node_owner hash db
acting hash get_config_version db = node_owner hash db
acting hash (get_config_bundle _ _) db = node_owner hash db
acting hash (post_config_bundle _ _) db = node_owner hash db
acting hash get_topology db = cluster_owner hash db
acting hash (post_lighthouse _) db = cluster_owner hash db
acting hash (delete_lighthouse _) db = cluster_owner hash db
acting hash (post_relay _) db = cluster_owner hash db
acting hash (delete_relay _) db = cluster_owner hash db
acting hash get_routes db = node_owner hash db
acting hash (put_routes _) db = node_owner hash db
acting hash get_routes_cluster db = node_owner hash db
acting hash post_cluster_rotate db = cluster_owner hash db
acting hash get_live db = none
acting hash get_ready db = none
acting hash get_master db = none

mtu_allowed_binds : (mtu : ℕ) → mtu_binds mtu ≡ true → mtu_allowed mtu ≡ true
mtu_allowed_binds mtu e = ground arith

-- The handlers that write, for a context of the cluster
module _ (go : Golib) (secret : String) (w : World) (db : Db) where
  module _ (n : Node) where
    abbrev P : Db → Type 0
    P = Changes n.cluster_id db

    create_node-Effect :
        (cluster_token : String) (body : Option NodeCreateRequest)
        → P
            (Handlers.create_node go secret w.faults w.now w.new_id
              (node_context empty_context n)
              cluster_token
              body
              db).1
    unfolding Handlers.create_node
    create_node-Effect cluster_token none = start
    create_node-Effect cluster_token (some req) =
        either_lem P db (name_binds req.name) _ _
          (respond_lem P db credentials _ (
            create_node-Changes n.tenant_id n.cluster_id go secret w.faults w.now w.new_id
              cluster_token req db))
          start

    update_mtu-Effect :
        (node : String) (body : Option ℕ)
        → P (Handlers.update_mtu go secret w.faults (node_context empty_context n) node body db).1
    unfolding Handlers.update_mtu
    update_mtu-Effect node none = start
    update_mtu-Effect node (some mtu) = elim (Bool-cases (mtu_binds mtu)) [
      | inl e ↦ rw e (
          respond_lem P db summary _ (
            update_mtu-Changes n.tenant_id n.cluster_id node go secret w.faults w.now db mtu
              (mtu_allowed_binds mtu e)))
      | inr e ↦ rw e start
    ]

    rotate_node_token-Effect :
        (node : String)
        → P
            (Handlers.rotate_node_token go secret w.faults w.now
              (node_context empty_context n)
              node
              db).1
    unfolding Handlers.rotate_node_token
    rotate_node_token-Effect node =
        respond_lem P db rotated _
          (rotate_node_token-Changes n.tenant_id n.cluster_id node go secret w.faults w.now db)

    delete_node-Effect :
        (node : String) → P (Handlers.delete_node w.faults (node_context empty_context n) node db).1
    unfolding Handlers.delete_node
    delete_node-Effect node =
        respond_lem P db (λ _. done 204) _
          (delete_node-Changes n.tenant_id n.cluster_id node w.faults db)

    update_routes-Effect :
        (body : Option (List String))
        → Within n.cluster_id (has_id n.id) db.nodes
        → P (Handlers.update_routes go w.faults w.now (node_context empty_context n) body db).1
    unfolding Handlers.update_routes
    update_routes-Effect none i = authenticated_lem P db n.id (failure 400, db) start start
    update_routes-Effect (some rs) i = authenticated_lem P db n.id _ start (
        respond_lem P db (λ _. done 200) _
          (update_routes-Changes n.cluster_id n.id go w.faults w.now rs db i))

    upload_bundle-Effect :
        (ar : Archiver) (tenant_required : Bool) (content_type : String) (body : Option (List ℕ))
        → P
            (Handler.upload_bundle ar tenant_required w.faults w.now n.cluster_id content_type body
              db).1
    unfolding Handler.upload_bundle
    upload_bundle-Effect ar tenant_required content_type body =
        upload_bundle-keeps P db ar tenant_required w.faults w.now n.cluster_id content_type body
          start
          (λ content. upload-Changes n.cluster_id ar tenant_required w.faults w.now content db)

  module _ (c : Cluster) where
    abbrev Q : Db → Type 0
    Q = Changes c.id db

    assign_lighthouse-Effect :
        (body : Option LighthouseRequest)
        → Q
            (Handlers.assign_lighthouse go w.faults w.now
              (cluster_context empty_context c)
              body
              db).1
    unfolding Handlers.assign_lighthouse
    assign_lighthouse-Effect none = authenticated_lem Q db c.id (failure 400, db) start start
    assign_lighthouse-Effect (some r) = authenticated_lem Q db c.id _ start (
        either_lem Q db (str_eq r.node_id "" || str_eq r.public_ip "") (failure 400, db) _ start
          (respond_lem Q db (λ _. done 200) _
            (set_lighthouse-Changes go c.id r.node_id w.faults w.now db r.public_ip r.port)))

    role-Effect :
        (node : String) (r : Result (Unit {0}) × Db)
        → Q r.1
        → Q
            (Handlers.authenticated c.id
              (if str_eq node "" then (failure 400, db) else Handlers.respond (λ _. done 200) r)
              db).1
    role-Effect node r h = authenticated_lem Q db c.id _ start (
        either_lem Q db (str_eq node "") (failure 400, db) _ start
          (respond_lem Q db (λ _. done 200) r h))

    unassign_lighthouse-Effect :
        (node : String)
        → Q
            (Handlers.unassign_lighthouse w.faults w.now
              (cluster_context empty_context c)
              node
              db).1
    unfolding Handlers.unassign_lighthouse
    unassign_lighthouse-Effect node =
        role-Effect node _ (unset_lighthouse-Changes go c.id node w.faults w.now db)

    assign_relay-Effect :
        (body : Option String)
        → Q (Handlers.assign_relay w.faults w.now (cluster_context empty_context c) body db).1
    unfolding Handlers.assign_relay
    assign_relay-Effect none = authenticated_lem Q db c.id (failure 400, db) start start
    assign_relay-Effect (some node) =
        role-Effect node _ (set_relay-Changes go c.id node w.faults w.now db)

    unassign_relay-Effect :
        (node : String)
        → Q (Handlers.unassign_relay w.faults w.now (cluster_context empty_context c) node db).1
    unfolding Handlers.unassign_relay
    unassign_relay-Effect node =
        role-Effect node _ (unset_relay-Changes go c.id node w.faults w.now db)

    rotate_cluster_token-Effect :
        Q (Handlers.rotate_cluster_token go w.faults secret (cluster_context empty_context c) db).1
    unfolding Handlers.rotate_cluster_token
    rotate_cluster_token-Effect =
        authenticated_lem Q db c.id _ start
          (respond_lem Q db token _ (rotate_cluster_token-Changes c.id go secret w.faults db))

module _ (go : Golib) (ar : Archiver) (secret : String) (tenant_required : Bool) (w : World)
    (db : Db) where
  route-Effect :
      (r : Request)
      → Apart db.nodes
      → Effect
          (acting (Token.hash go w.header secret) r db)
          db
          (route go ar secret tenant_required w r db).1
  unfolding route
  route-Effect (post_nodes cluster_token body) a =
      with_admin-Effect go secret w db _
        (λ n f. create_node-Effect go secret w db n cluster_token body)
  route-Effect (get_nodes page size) a =
      with_admin-Effect go secret w db _
        (λ n f. unchanged n.cluster_id db _ (list_nodes-same go secret w _ db page size))
  route-Effect (patch_mtu node body) a =
      with_admin-Effect go secret w db _ (λ n f. update_mtu-Effect go secret w db n node body)
  route-Effect (post_node_token node) a =
      with_admin-Effect go secret w db _ (λ n f. rotate_node_token-Effect go secret w db n node)
  route-Effect (delete_nodes node) a =
      with_admin-Effect go secret w db _ (λ n f. delete_node-Effect go secret w db n node)
  route-Effect get_config_version a = with_node-Effect go secret w db _ (λ n f. start)
  route-Effect (get_config_bundle query etag) a = with_node-Effect go secret w db _ (λ n f. start)
  route-Effect (post_config_bundle content_type body) a =
      with_admin-Effect go secret w db _
        (λ n f. upload_bundle-Effect go secret w db n ar tenant_required content_type body)
  route-Effect get_topology a = with_cluster-Effect go secret w db _ (λ c f.
      unchanged c.id db _ (get_topology-same go secret w (cluster_context empty_context c) db))
  route-Effect (post_lighthouse body) a =
      with_cluster-Effect go secret w db _ (λ c f. assign_lighthouse-Effect go secret w db c body)
  route-Effect (delete_lighthouse node) a =
      with_cluster-Effect go secret w db _ (λ c f. unassign_lighthouse-Effect go secret w db c node)
  route-Effect (post_relay body) a =
      with_cluster-Effect go secret w db _ (λ c f. assign_relay-Effect go secret w db c body)
  route-Effect (delete_relay node) a =
      with_cluster-Effect go secret w db _ (λ c f. unassign_relay-Effect go secret w db c node)
  route-Effect get_routes a = with_node-Effect go secret w db _ (λ n f.
      unchanged n.cluster_id db _ (get_routes-same go secret w (node_context empty_context n) db))
  route-Effect (put_routes body) a = with_node-Effect go secret w db _ (λ n f.
      update_routes-Effect go secret w db n body
        (Within-own (has_token (Token.hash go w.header secret)) n db.nodes a f))
  route-Effect get_routes_cluster a = with_node-Effect go secret w db _ (λ n f.
      unchanged n.cluster_id db _
        (get_cluster_routes-same go secret w (node_context empty_context n) db))
  route-Effect post_cluster_rotate a =
      with_cluster-Effect go secret w db _ (λ c f. rotate_cluster_token-Effect go secret w db c)
  route-Effect get_live a = refl
  route-Effect get_ready a = refl
  route-Effect get_master a = refl

  -- Where no two nodes share an id, or a name in one cluster, a request of any sort, whatever
  -- fails, does a sequence of the writes of `Change` on the cluster of its node token or of its
  -- cluster token, and no write at all if no row has that token or the request has none.
  pub serve-Effect :
      (r : Request)
      → Apart db.nodes
      → Effect
          (acting (Token.hash go w.header secret) r db)
          db
          (serve go ar secret tenant_required w r db).1
  unfolding serve
  serve-Effect r a = elim (Option-cases (write_guard (method r) w.verdict)) [
    | inl e ↦ rw e (route-Effect r a)
    | inr (code, e) ↦ rw e (Effect-same (acting (Token.hash go w.header secret) r db) db db refl)
  ]
