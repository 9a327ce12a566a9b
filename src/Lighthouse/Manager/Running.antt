-- ===== src/Lighthouse/Manager/Running.antt =====
-- The versions that the lighthouses run at.
use nebula_gc.Prelude.{
  ℕ, ◌≤◌, String, ◌≡◌, refl, ap, ◌∙◌, inl, inr, false, some, List, [], ◌∷◌, ◌++◌, arith,
  Option-cases, All,
}
use nebula_gc.Errors.{ok}
use nebula_gc.Exec.{Faults}
use nebula_gc.Sql.{select, find, delete}
use nebula_gc.Lighthouse.{Config, ClusterConfig, ProcessInfo, Oslib}
use nebula_gc.Lighthouse.Schema.{
  Tables, lacks_query_columns, lacks_cluster_columns, lacks_replica_columns, lacks_state_columns,
}
use nebula_gc.Lighthouse.Files.{File, generate_config, write_config_files}
use nebula_gc.Lighthouse.Manager.{
  ClusterRow, StateRow, System, World, has_id, of_cluster, provides, running, started, upsert_state,
  load_cluster_config, stop_process, start_process, update_cluster_state, update_lighthouse,
  cluster_config, check_rows, check_clusters, watch_loop,
}

-- The tables have the columns that the statements name.
abbrev pub IsComplete : Tables → Type 0
IsComplete t =
    (lacks_query_columns t ≡ false)
    × (lacks_cluster_columns t ≡ false)
    × (lacks_replica_columns t ≡ false)
    × (lacks_state_columns t ≡ false)

abbrev pub no_faults : Faults
no_faults k = false

module _ (os : Oslib) (config : Config) where
  abbrev IsCurrent : List StateRow → ClusterRow → Type 0
  IsCurrent states c = c.config_version ≤ running config.instance_id c.id states

  module _ (tables : Tables) where
    check_rows-idle :
        (w : World) (states : List StateRow) (cs : List ClusterRow) (s : System)
        → All (IsCurrent states) cs
        → check_rows os tables config w states cs s ≡ s
    unfolding check_rows
    check_rows-idle w states [] s h = refl
    check_rows-idle w states (c ∷ cs) s h =
        ap (check_rows os tables config w states cs) (ground (arith, h.0))
        ∙ check_rows-idle w states cs s h.1

    -- As long as cluster_state holds this instance's version of each lighthouse cluster, no check
    -- changes anything, whatever fails and whichever processes there are: after a crash of one, or
    -- after a restart of the instance, which starts without any, no process is started.
    pub watch_loop-idle :
        (w : World) (ws : List World) (s : System)
        → All (IsCurrent s.states) (select provides s.clusters)
        → watch_loop os tables config w ws s ≡ s
    unfolding watch_loop check_clusters
    watch_loop-idle w [] s h =
        ground (arith, check_rows-idle w s.states (select provides s.clusters) s h)
    watch_loop-idle w (v ∷ vs) s h =
        ap (watch_loop os tables config v vs)
          (ground (arith, check_rows-idle w s.states (select provides s.clusters) s h))
        ∙ watch_loop-idle v vs s h

  -- An update without faults
  abbrev pub Updated : String → ℕ → ℕ → ℕ → System → System → Type 0
  Updated id now pid version s t =
      (t.clusters ≡ s.clusters)
      × (t.states ≡ upsert_state config.instance_id id version now s.states)
      × (t.processes ≡ delete (of_cluster id) s.processes ++ started id pid version now ∷ [])

  delete_twice :
      (id : String) (ps : List ProcessInfo)
      → delete (of_cluster id) (delete (of_cluster id) ps) ≡ delete (of_cluster id) ps
  unfolding delete
  delete_twice id [] = refl
  delete_twice id (p ∷ ps) = ground (arith, delete_twice id ps)

  module _ (marshals : (c : _) → (text : String) × (os.marshal_yaml c ≡ some text)) where
    written :
        (c : ClusterConfig) (fs : List File)
        → (write_config_files os no_faults c config.base_path fs).0
          ≡ ok (os.join (os.join config.base_path c.cluster_id) "config.yml")
    unfolding write_config_files
    written c fs =
        let (text, m) = marshals (generate_config os c config.base_path) in ground (arith, m)

    pub update-Updated :
        (tables : Tables)
        → IsComplete tables
        → (now pid : ℕ) (id : String) (s : System) (c : ClusterRow)
        → find (has_id id) s.clusters ≡ some c
        → Updated id now pid c.config_version s
            (update_lighthouse os tables config no_faults now pid id s).1
    unfolding update_lighthouse load_cluster_config stop_process start_process update_cluster_state
    update-Updated tables (query, cluster, replica, state) now pid id s c e =
        let w = written (cluster_config c s.replicas) s.files in
        elim (Option-cases (find (of_cluster id) s.processes)) [
          | inl f ↦ (
            ground (arith, cluster, replica, state, e, f, w),
            ground (arith, cluster, replica, state, e, f, w),
            ground (arith, cluster, replica, state, e, f, w),
          )
          | inr (p, f) ↦ (
            ground (arith, cluster, replica, state, e, f, w),
            ground (arith, cluster, replica, state, e, f, w),
            ground (arith, cluster, replica, state, e, f, w, delete_twice id s.processes),
          )
        ]
