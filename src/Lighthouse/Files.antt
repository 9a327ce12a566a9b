-- ===== src/Lighthouse/Files.antt =====
-- server/internal/lighthouse/config.go: the configuration of a lighthouse, and its files.
use Prim.Native.String.{slice, ◌++◌ as str_append}
use nebula_gc.Prelude.{String, Bool, true, false, List, [], ◌∷◌, ◌++◌, str_eq}
use nebula_gc.Errors.{failed}
use nebula_gc.Exec.{Exec, Faults, pure, fail_if, modify, or_raise, ◌>>=◌, ◌>>◌}
use nebula_gc.Sql.{delete}
use nebula_gc.Lighthouse.{ClusterConfig, NebulaConfig, FirewallRule, Oslib}

-- A file is its path and its content; modes and the directories themselves are left out.
pub record File : Type 0 where
  pub path : String
  pub content : String

abbrev pub has_path : String → File → Bool
has_path path f = str_eq f.path path

-- os.WriteFile
abbrev pub write_file : String → String → List File → List File
write_file path content fs =
    delete (has_path path) fs ++ record { path = path; content = content } ∷ []

abbrev any_rule : String → FirewallRule
any_rule proto = record { port = "any"; proto = proto; host = "any" }

module _ (os : Oslib) where
  -- `clusterConfig.ClusterID[:8]` panics on an id of less than 8 bytes, which a UUID is not.
  unfoldable pub generate_config : ClusterConfig → String → NebulaConfig
  generate_config c base_path =
      let cluster_dir = os.join base_path c.cluster_id in
      record {
        pki = record {
          ca = os.join cluster_dir "ca.crt";
          cert = os.join cluster_dir "host.crt";
          key = os.join cluster_dir "host.key";
          crl = os.join cluster_dir "crl.pem";
        };
        lighthouse = record { am_lighthouse = true; serve_dns = false; interval = 60 };
        listen = record { host = "0.0.0.0"; port = c.lighthouse_port };
        punchy = record { punch = true; respond = true };
        tun = record {
          disabled = false;
          dev = str_append "nebula-" (slice c.cluster_id 0 8);
          mtu = 1300;
        };
        logging = record { level = "info"; format = "text" };
        firewall = record { outbound = any_rule "any" ∷ []; inbound = any_rule "icmp" ∷ [] };
      }

  -- Faults 2 to 7 of an update: the directory, the four files, which the source's map leaves in an
  -- open order, and config.yml.
  unfoldable pub write_config_files : Faults → ClusterConfig → String → Exec (List File) String
  unfolding generate_config
  write_config_files fails c base_path =
      let dir = os.join base_path c.cluster_id in
      do
        fail_if (fails 2) (failed "failed to create cluster directory")
        fail_if (fails 3) (failed "failed to write ca.crt")
        modify (write_file (os.join dir "ca.crt") c.ca_cert)
        fail_if (fails 4) (failed "failed to write crl.pem")
        modify (write_file (os.join dir "crl.pem") c.crl)
        fail_if (fails 5) (failed "failed to write host.crt")
        modify (write_file (os.join dir "host.crt") c.host_cert)
        fail_if (fails 6) (failed "failed to write host.key")
        modify (write_file (os.join dir "host.key") c.host_key)
        text ←
            or_raise (os.marshal_yaml (generate_config c base_path))
              (failed "failed to marshal config")
        fail_if (fails 7) (failed "failed to write config.yml")
        modify (write_file (os.join dir "config.yml") text)
        pure (os.join dir "config.yml")
