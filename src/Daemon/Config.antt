-- ===== src/Daemon/Config.antt =====
-- cmd/nebulagc/daemon/config.go, init.go and manager.go: the configuration, its validation, and the
-- clients and managers that are made from it. What the file holds, once read and parsed, is a
-- parameter: a configuration, or the error of os.ReadFile or of json.Unmarshal. The maps by name are
-- lists of rows; a client is the configuration of the cluster that it was made with, and `connects`
-- says whether sdk.NewClient accepts it.
pub mod Managers
use Prim.Native.String.{len}
use nebula_gc.Prelude.{
  ℕ, zero, suc, ◌+◌, ◌-◌, ◌*◌, ◌/◌, ◌%◌, ◌≤◌, ◌<◌, String, ◌≡◌, refl, sym, ap, subst, ◌∙◌, ◌≢◌, ◌↔◌,
  ◌⊎◌, inl, inr, Bool, true, false, not, ◌&&◌, ◌||◌, Option, none, some, List, [], ◌∷◌, ◌++◌, map,
  arith, str_eq, eq_iff, eq_refl, ltb, leb, ◌==◌, if◌then◌else◌, ltb→lt, lt→ltb, leb→le, le→leb,
  Bool-cases, Option-cases, length, head?, take, drop, all, any, length-append, length-take-le, All,
  All-append,
}
use nebula_gc.Errors.{Error, Result, ok, err, failed}
use nebula_gc.Sql.{find, delete}

pub record ClusterConfig : Type 0 where
  pub name : String
  pub tenant_id : String
  pub cluster_id : String
  pub node_id : String
  pub node_token : String
  pub cluster_token : String
  pub config_dir : String

pub record DaemonConfig : Type 0 where
  pub control_plane_urls : List String
  pub clusters : List ClusterConfig

-- regexp.MatchString with the pattern of a UUID, url.Parse and filepath.IsAbs
pub record Checks : Type 0 where
  pub is_valid_uuid : String → Bool
  pub parse_url : String → Bool
  pub is_abs : String → Bool

abbrev pub min_token_length : ℕ
min_token_length = 41

abbrev check : Bool → String → Result (Unit {0}) → Result (Unit {0})
check true text rest = err (failed text)
check false text rest = rest

module _ (checks : Checks) where
  unfoldable pub validate_cluster : ClusterConfig → Result (Unit {0})
  validate_cluster c = check (str_eq c.name "") "name cannot be empty" (
      check (not (checks.is_valid_uuid c.tenant_id)) "tenant_id is not a valid UUID" (
        check (not (checks.is_valid_uuid c.cluster_id)) "cluster_id is not a valid UUID" (
          check (not (checks.is_valid_uuid c.node_id)) "node_id is not a valid UUID" (
            check (ltb (len c.node_token) min_token_length) "node_token is too short" (
              check (not (str_eq c.cluster_token "") && ltb (len c.cluster_token) min_token_length)
                "cluster_token is too short"
                (check (str_eq c.config_dir "") "config_dir cannot be empty" (
                  check (not (checks.is_abs c.config_dir)) "config_dir must be an absolute path"
                    (ok tt))))))))

  unfoldable pub validate_clusters : List ClusterConfig → Result (Unit {0})
  unfolding validate_cluster
  validate_clusters [] = ok tt
  validate_clusters (c ∷ cs) =
      let rest = validate_clusters cs in elim (validate_cluster c) [ ok u ↦ rest | err e ↦ err e ]

  unfoldable pub validate_urls : List String → Result (Unit {0}) → Result (Unit {0})
  validate_urls [] rest = rest
  validate_urls (url ∷ urls) rest =
      check (str_eq url "") "control_plane_urls is empty" (
        check (not (checks.parse_url url)) "control_plane_urls is invalid"
          (validate_urls urls rest))

  unfoldable pub validate : DaemonConfig → Result (Unit {0})
  unfolding validate_urls validate_clusters
  validate c = check (length c.control_plane_urls == 0) "control_plane_urls cannot be empty" (
      validate_urls c.control_plane_urls
        (check (length c.clusters == 0) "clusters cannot be empty" (validate_clusters c.clusters)))

pub record Client : Type 0 where
  pub name : String
  pub made_with : ClusterConfig

pub record Manager : Type 0 where
  pub name : String
  pub config : Option ClusterConfig
  pub client : Option Client

abbrev pub has_name : String → ClusterConfig → Bool
has_name name c = str_eq c.name name

abbrev pub client_of : String → Client → Bool
client_of name c = str_eq c.name name

abbrev pub manager_of : String → Manager → Bool
manager_of name m = str_eq m.name name

module _ (checks : Checks) where
  abbrev pub checked : DaemonConfig → Result (Unit {0}) → Result DaemonConfig
  checked c (ok u) = ok c
  checked c (err e) = err (failed "config validation failed")

  -- `loadConfigFromFile`, from what the file holds
  unfoldable pub load_config : Result DaemonConfig → Result DaemonConfig
  unfolding validate
  load_config (err e) = err e
  load_config (ok c) = checked c (validate checks c)

module _ (connects : ClusterConfig → Bool) where
  -- The loop of `Initialize`
  unfoldable pub make_clients : List Client → List ClusterConfig → Result (List Client)
  make_clients made [] = ok made
  make_clients made (c ∷ cs) =
      let rest =
        make_clients
          (delete (client_of c.name) made ++ record { name = c.name; made_with = c } ∷ []) cs in
      if connects c then rest else err (failed "failed to create SDK client")

  -- The loop of `NewManager` over the names
  unfoldable pub make_managers :
      List ClusterConfig → List Client → List Manager → List ClusterConfig → List Manager
  make_managers all_clusters clients made [] = made
  make_managers all_clusters clients made (c ∷ cs) =
      make_managers all_clusters clients
        (delete (manager_of c.name) made
          ++ record {
            name = c.name;
            config = find (has_name c.name) all_clusters;
            client = find (client_of c.name) clients;
          }
            ∷ [])
        cs

  abbrev pub with_clients : DaemonConfig → Result (List Client) → Result (List Manager)
  with_clients c (ok clients) = ok (make_managers c.clusters clients [] c.clusters)
  with_clients c (err e) = err (failed "failed to initialize daemon")

  -- `Initialize` on the configuration that was loaded, and what `NewManager` does after it
  abbrev pub with_config : Result DaemonConfig → Result (List Manager)
  with_config (err e) = err (failed "failed to initialize daemon")
  with_config (ok c) = with_clients c (make_clients [] c.clusters)

module _ (checks : Checks) (connects : ClusterConfig → Bool) where
  unfoldable pub new_manager : Result DaemonConfig → Result (List Manager)
  unfolding make_clients make_managers load_config
  new_manager file = with_config connects (load_config checks file)
