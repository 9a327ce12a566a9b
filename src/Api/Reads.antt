-- ===== src/Api/Reads.antt =====
-- The handlers that only read, as functions on the tables.
use nebula_gc.Prelude.{ℕ, String, ◌≡◌, refl, arith}
use nebula_gc.Golib.{Golib}
use nebula_gc.Store.{Db}
use nebula_gc.Node
use nebula_gc.Topology
use nebula_gc.Auth.{Context}
use nebula_gc.Api.{nodes, topology, routes, cluster_routes}
use nebula_gc.Api.Handlers
use nebula_gc.Api.Router.{World}
use nebula_gc.Api.Gates.{authenticated_lem, respond_lem}

module _ (go : Golib) (secret : String) (w : World) (c : Context) (db : Db) where
  abbrev Same : Db → Type 0
  Same d = d ≡ db

  pub list_nodes-same :
      (page size : ℕ) → Same (Handlers.list_nodes go secret w.faults c page size db).1
  unfolding Handlers.list_nodes Node.list_nodes
  list_nodes-same page size =
      respond_lem Same db nodes
        (Node.list_nodes go secret w.faults (Handlers.tenant_id c) (Handlers.cluster_id c) page size
          db)
        (ground arith)

  pub get_topology-same : Same (Handlers.get_topology go w.faults c db).1
  unfolding Handlers.get_topology Topology.get_topology
  get_topology-same = authenticated_lem Same db (Handlers.cluster_id c) _ refl (
      respond_lem Same db topology (Topology.get_topology go w.faults (Handlers.cluster_id c) db)
        (ground arith))

  pub get_routes-same : Same (Handlers.get_routes go w.faults c db).1
  unfolding Handlers.get_routes Topology.get_node_routes
  get_routes-same = authenticated_lem Same db (Handlers.node_id c) _ refl (
      respond_lem Same db routes (Topology.get_node_routes go w.faults (Handlers.node_id c) db)
        (ground arith))

  pub get_cluster_routes-same : Same (Handlers.get_cluster_routes go w.faults c db).1
  unfolding Handlers.get_cluster_routes Topology.get_cluster_routes
  get_cluster_routes-same = authenticated_lem Same db (Handlers.cluster_id c) _ refl (
      respond_lem Same db cluster_routes
        (Topology.get_cluster_routes go w.faults (Handlers.cluster_id c) db) (ground arith))
