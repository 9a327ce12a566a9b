-- ===== src/Topology/Roles.antt =====
-- The lighthouses and relays that GetTopology lists, and the methods that change them.
use nebula_gc.Prelude.{
  ℕ, String, ◌≡◌, refl, ◌≢◌, Bool, true, false, not, ◌&&◌, ◌||◌, List, [], ◌∷◌, ◌++◌, arith, str_eq,
  eq_iff, ◌==◌, if◌then◌else◌, any,
}
use nebula_gc.Errors.{ok}
use nebula_gc.Exec.{Faults}
use nebula_gc.Sql.{select, update, count}
use nebula_gc.Golib.{Golib}
use nebula_gc.Store.{Node, Db}
use nebula_gc.Topology.{
  is_member, no_lighthouse_columns, lighthouse_columns, LighthouseInfo, TopologyInfo, collect,
  get_topology, set_lighthouse, unset_lighthouse,
}

-- No database call fails.
abbrev pub no_faults : Faults
no_faults k = false

-- Does the list have the node?
abbrev pub lists : String → List LighthouseInfo → Bool
lists node [] = false
lists node (l ∷ ls) = str_eq l.node_id node || lists node ls

lists-append :
    (node : String) (xs ys : List LighthouseInfo)
    → lists node (xs ++ ys) ≡ (lists node xs || lists node ys)
lists-append node [] ys = refl
lists-append node (x ∷ xs) ys = ground (arith, lists-append node xs ys)

abbrev of_cluster : String → Node → Bool
of_cluster cluster n = str_eq n.cluster_id cluster

-- A row that makes `GetTopology` of the cluster list the node.
abbrev shows : String → String → Node → Bool
shows cluster node n = of_cluster cluster n && n.is_lighthouse && str_eq n.id node

lists-collect :
    (go : Golib) (cluster node : String) (ns : List Node)
    → lists node (collect go (select (of_cluster cluster) ns)).lighthouses
      ≡ any (shows cluster node) ns
unfolding collect select
lists-collect go cluster node [] = refl
lists-collect go cluster node (n ∷ ns) = ground (arith, lists-collect go cluster node ns)

any-set :
    (now : ℕ) (cluster node public_ip : String) (port : ℕ) (j : String) (ns : List Node)
    → any
        (shows cluster j)
        (update (is_member cluster node) (lighthouse_columns now public_ip port) ns)
      ≡ (if str_eq j node
          then not (count (is_member cluster node) ns == 0)
          else any (shows cluster j) ns)
unfolding update count
any-set now cluster node public_ip port j [] = ground arith
any-set now cluster node public_ip port j (n ∷ ns) = ground (
  arith,
  any-set now cluster node public_ip port j ns,
  eq_iff j node,
  eq_iff n.id node,
  eq_iff n.id j,
)

any-unset :
    (now : ℕ) (cluster node j : String) (ns : List Node)
    → any (shows cluster j) (update (is_member cluster node) (no_lighthouse_columns now) ns)
      ≡ (if str_eq j node then false else any (shows cluster j) ns)
unfolding update
any-unset now cluster node j [] = ground arith
any-unset now cluster node j (n ∷ ns) =
    ground (arith, any-unset now cluster node j ns, eq_iff j node, eq_iff n.id node, eq_iff n.id j)

-- A SetLighthouse that returns no error makes GetTopology list the node as a lighthouse, and every
-- other node as before.
pub get_topology-set_lighthouse :
    (go : Golib) (f g h : Faults) (now : ℕ) (cluster node public_ip : String) (port : ℕ) (db : Db)
    (s t : TopologyInfo) (j : String)
    → (get_topology go g cluster db).0 ≡ ok s
    → (set_lighthouse go f now cluster node public_ip port db).0 ≡ ok tt
    → (get_topology go h cluster (set_lighthouse go f now cluster node public_ip port db).1).0
      ≡ ok t
    → lists j t.lighthouses ≡ (if str_eq j node then true else lists j s.lighthouses)
unfolding get_topology set_lighthouse
get_topology-set_lighthouse go f g h now cluster node public_ip port db s t j es e et = ground (
  arith,
  lists-collect go cluster j db.nodes,
  lists-collect go cluster j
      (update (is_member cluster node) (lighthouse_columns now public_ip port) db.nodes),
  any-set now cluster node public_ip port j db.nodes,
)

-- An UnsetLighthouse that returns no error makes GetTopology no longer list the node as a lighthouse, and list every
-- other node as before.
pub get_topology-unset_lighthouse :
    (go : Golib) (f g h : Faults) (now : ℕ) (cluster node : String) (db : Db) (s t : TopologyInfo)
    (j : String)
    → (get_topology go g cluster db).0 ≡ ok s
    → (unset_lighthouse f now cluster node db).0 ≡ ok tt
    → (get_topology go h cluster (unset_lighthouse f now cluster node db).1).0 ≡ ok t
    → lists j t.lighthouses ≡ (if str_eq j node then false else lists j s.lighthouses)
unfolding get_topology unset_lighthouse
get_topology-unset_lighthouse go f g h now cluster node db s t j es e et = ground (
  arith,
  lists-collect go cluster j db.nodes,
  lists-collect go cluster j (update (is_member cluster node) (no_lighthouse_columns now) db.nodes),
  any-unset now cluster node j db.nodes,
)

-- With no fault, on a node of the cluster and an address that parses, SetLighthouse returns no error.
pub set_lighthouse-total :
    (go : Golib) (now : ℕ) (cluster node public_ip : String) (port : ℕ) (db : Db)
    → go.parse_ip public_ip ≡ true
    → count (is_member cluster node) db.nodes ≢ 0
    → (set_lighthouse go no_faults now cluster node public_ip port db).0 ≡ ok tt
unfolding set_lighthouse
set_lighthouse-total go now cluster node public_ip port db p m = ground arith
