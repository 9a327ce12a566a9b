-- ===== src/Store.antt =====
-- The tables that the services share, after server/migrations: a column is a field, `Option` where
-- it may be NULL. Columns that no modelled statement reads or writes are left out. A version is a
-- number of any size. Foreign keys are not tests of the statements: no modelled statement deletes a
-- tenant or a cluster.
use nebula_gc.Prelude.{ℕ, String, Bool, Option, List}

pub record Cluster : Type 0 where
  pub id : String
  pub tenant_id : String
  pub cluster_token_hash : String
  pub provide_lighthouse : Bool
  pub config_version : ℕ

pub record Node : Type 0 where
  pub id : String
  pub tenant_id : String
  pub cluster_id : String
  pub name : String
  pub is_admin : Bool
  pub token_hash : String
  pub mtu : ℕ
  pub routes : Option String
  pub routes_updated_at : Option ℕ
  pub is_lighthouse : Bool
  pub lighthouse_public_ip : Option String
  pub lighthouse_port : Option ℕ
  pub is_relay : Bool
  pub lighthouse_relay_updated_at : Option ℕ
  pub created_at : ℕ

-- A row of `config_bundles`; the data are its bytes.
pub record Bundle : Type 0 where
  pub tenant_id : Option String
  pub cluster_id : String
  pub version : ℕ
  pub content : List ℕ
  pub created_at : ℕ

pub record Db : Type 0 where
  pub clusters : List Cluster
  pub nodes : List Node
  pub bundles : List Bundle
