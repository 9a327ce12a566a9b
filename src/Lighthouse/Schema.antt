-- ===== src/Lighthouse/Schema.antt =====
-- The columns of the tables of server/migrations, and those that the statements of
-- server/internal/lighthouse/manager.go name. A statement that names a column which its table does
-- not have fails.
use nebula_gc.Prelude.{String, Bool, not, ◌||◌, List, [], ◌∷◌, str_eq, any, all}

-- The columns of each table
pub record Tables : Type 0 where
  pub clusters : List String
  pub replicas : List String
  pub cluster_state : List String

abbrev pub lacks : List String → List String → Bool
lacks table named = not (all (λ n. any (λ c. str_eq c n) table) named)

-- The query of `checkClusters`
unfoldable pub lacks_query_columns : Tables → Bool
lacks_query_columns t =
    lacks t.clusters ("id" ∷ "config_version" ∷ "provide_lighthouse" ∷ [])
    || lacks t.cluster_state ("cluster_id" ∷ "instance_id" ∷ "running_config_version" ∷ [])

abbrev pub cluster_columns : List String
cluster_columns =
    "id" ∷ "name" ∷ "config_version" ∷ "ca_cert" ∷ "crl" ∷ "lighthouse_cert" ∷ "lighthouse_key"
    ∷ "lighthouse_port" ∷ []

-- The queries of `loadClusterConfig`
unfoldable pub lacks_cluster_columns : Tables → Bool
lacks_cluster_columns t = lacks t.clusters cluster_columns

unfoldable pub lacks_replica_columns : Tables → Bool
lacks_replica_columns t = lacks t.replicas ("instance_id" ∷ "address" ∷ [])

-- The statement of `updateClusterState`
unfoldable pub lacks_state_columns : Tables → Bool
lacks_state_columns t =
    lacks t.cluster_state
      ("cluster_id" ∷ "instance_id" ∷ "running_config_version" ∷ "last_updated_at" ∷ [])

abbrev pub clusters_table : List String
clusters_table =
    "id" ∷ "tenant_id" ∷ "name" ∷ "cluster_token_hash" ∷ "provide_lighthouse" ∷ "lighthouse_port"
    ∷ "config_version" ∷ "pki_ca_cert" ∷ "pki_ca_key" ∷ "pki_crl" ∷ "created_at" ∷ []

abbrev pub cluster_state_table : List String
cluster_state_table = "cluster_id" ∷ "instance_id" ∷ "running_config_version" ∷ "updated_at" ∷ []

abbrev pub replicas_table : List String
replicas_table = "id" ∷ "address" ∷ "role" ∷ "created_at" ∷ "last_seen_at" ∷ []

abbrev pub migrated : Tables
migrated = record {
  clusters = clusters_table;
  replicas = replicas_table;
  cluster_state = cluster_state_table;
}
