-- ===== src/Api/Steps.antt =====
-- The writes that a request on behalf of one cluster may do, as a step relation on the tables, and
-- sequences of them: the abstract specification of the services.
use nebula_gc.Prelude.{
  ℕ, ◌+◌, ◌≤◌, String, ◌≡◌, Bool, true, false, some, List, [], ◌∷◌, ◌++◌, str_eq, any, All,
}
use nebula_gc.Sql.{find, update, delete}
use nebula_gc.Store.{Cluster, Node, Db}
use nebula_gc.Node.{conflicts, mtu_allowed}
use nebula_gc.Bundle.Service.{cluster_has_id, at_version, new_bundle}

abbrev pub in_cluster : String → Node → Bool
in_cluster cluster n = str_eq n.cluster_id cluster

-- An update of nodes leaves the keys and an allowed MTU.
pub record Keeps (f : Node → Node) : Type 0 where
  pub id : (n : Node) → (f n).id ≡ n.id
  pub tenant : (n : Node) → (f n).tenant_id ≡ n.tenant_id
  pub name : (n : Node) → (f n).name ≡ n.name
  pub cluster : (n : Node) → (f n).cluster_id ≡ n.cluster_id
  pub mtu : (n : Node) → mtu_allowed n.mtu ≡ true → mtu_allowed (f n).mtu ≡ true

-- An update of clusters leaves the id and takes no version back.
pub record Raises (f : Cluster → Cluster) : Type 0 where
  pub id : (c : Cluster) → (f c).id ≡ c.id
  pub version : (c : Cluster) → c.config_version ≤ (f c).config_version

-- The predicate holds only for nodes of the cluster, among those.
abbrev pub Within : String → (Node → Bool) → List Node → Type 0
Within cluster p ns = All (λ n. p n ≡ true → in_cluster cluster n ≡ true) ns

pub data Change (cluster : String) (db db' : Db) : Type 0 where
  nothing : db' ≡ db → Change cluster db db'
  alter_nodes :
      (p : Node → Bool) (f : Node → Node)
      → Keeps f
      → Within cluster p db.nodes
      → db' ≡ record db { nodes = update p f db.nodes }
      → Change cluster db db'
  add_node :
      (n : Node)
      → any (conflicts n) db.nodes ≡ false
      → in_cluster cluster n ≡ true
      → mtu_allowed n.mtu ≡ true
      → db' ≡ record db { nodes = db.nodes ++ n ∷ [] }
      → Change cluster db db'
  remove_nodes :
      (p : Node → Bool)
      → Within cluster p db.nodes
      → db' ≡ record db { nodes = delete p db.nodes }
      → Change cluster db db'
  alter_clusters :
      (p : Cluster → Bool) (f : Cluster → Cluster)
      → Raises f
      → ((c : Cluster) → p c ≡ true → cluster_has_id cluster c ≡ true)
      → db' ≡ record db { clusters = update p f db.clusters }
      → Change cluster db db'
  publish :
      (c : Cluster) (now : ℕ) (content : List ℕ)
      → find (cluster_has_id cluster) db.clusters ≡ some c
      → any (at_version cluster (c.config_version + 1)) db.bundles ≡ false
      → db' ≡ record db {
        clusters =
            update
              (cluster_has_id cluster)
              (λ d. record d { config_version = c.config_version + 1 })
              db.clusters;
        bundles = db.bundles ++ new_bundle now cluster (c.config_version + 1) content ∷ [];
      }
      → Change cluster db db'

pub data Changes (cluster : String) (db : Db) : Db → Type 0 where
  start : Changes cluster db db
  later : {a b : Db} → Changes cluster db a → Change cluster a b → Changes cluster db b

pub one : (cluster : String) (db db' : Db) → Change cluster db db' → Changes cluster db db'
one cluster db db' c = later start c

pub unchanged : (cluster : String) (db db' : Db) → db' ≡ db → Changes cluster db db'
unchanged cluster db db' e = later start (nothing e)

pub Within-all :
    (cluster : String) (p : Node → Bool) (ns : List Node)
    → ((n : Node) → p n ≡ true → in_cluster cluster n ≡ true)
    → Within cluster p ns
Within-all cluster p [] h = tt
Within-all cluster p (n ∷ ns) h = (h n, Within-all cluster p ns h)
