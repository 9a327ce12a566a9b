-- ===== src/Lighthouse/Manager/Columns.antt =====
-- The columns that the tables of the migrations lack.
use nebula_gc.Prelude.{ℕ, String, ◌≡◌, refl, ap, ◌∙◌, true, List, [], ◌∷◌, arith, ◌||◌}
use nebula_gc.Exec.{Faults}
use nebula_gc.Sql.{select}
use nebula_gc.Lighthouse.{Config, Oslib}
use nebula_gc.Lighthouse.Schema.{
  Tables, lacks_cluster_columns, lacks_replica_columns, lacks_state_columns, cluster_columns,
  migrated, cluster_state_table,
}
use nebula_gc.Lighthouse.Manager.{
  ClusterRow, StateRow, System, World, provides, running, load_cluster_config, stop_process,
  start_process, update_cluster_state, update_lighthouse, check_row, check_rows, check_clusters,
  watch_loop,
}

-- The migrations' tables, but for a table of clusters with the columns of its statement
abbrev pub renamed_clusters : Tables
renamed_clusters = record migrated { clusters = cluster_columns }

module _ (os : Oslib) (config : Config) where
  module _ (tables : Tables)
      (missing : (lacks_cluster_columns tables || lacks_replica_columns tables) ≡ true) where
    update-no_columns :
        (f : Faults) (now pid : ℕ) (id : String) (s : System)
        → (update_lighthouse os tables config f now pid id s).1 ≡ s
    unfolding update_lighthouse load_cluster_config
    update-no_columns f now pid id s = ground (arith, missing)

    check_rows-no_columns :
        (w : World) (states : List StateRow) (cs : List ClusterRow) (s : System)
        → check_rows os tables config w states cs s ≡ s
    unfolding check_rows
    check_rows-no_columns w states [] s = refl
    check_rows-no_columns w states (c ∷ cs) s =
        ap (check_rows os tables config w states cs)
          (ground (arith, update-no_columns (w.faults c.id) w.now (w.pid c.id) c.id s))
        ∙ check_rows-no_columns w states cs s

    watch_loop-no_columns :
        (w : World) (ws : List World) (s : System) → watch_loop os tables config w ws s ≡ s
    unfolding watch_loop check_clusters
    watch_loop-no_columns w [] s =
        ground (arith, check_rows-no_columns w s.states (select provides s.clusters) s)
    watch_loop-no_columns w (v ∷ vs) s =
        ap (watch_loop os tables config v vs)
          (ground (arith, check_rows-no_columns w s.states (select provides s.clusters) s))
        ∙ watch_loop-no_columns v vs s

  module _ (tables : Tables) (missing : lacks_state_columns tables ≡ true) where
    update-states :
        (f : Faults) (now pid : ℕ) (id : String) (s : System)
        → (update_lighthouse os tables config f now pid id s).1.states ≡ s.states
    unfolding update_lighthouse load_cluster_config stop_process start_process update_cluster_state
    update-states f now pid id s = ground (arith, missing)

    check_rows-states :
        (w : World) (states : List StateRow) (cs : List ClusterRow) (s : System)
        → (check_rows os tables config w states cs s).states ≡ s.states
    unfolding check_rows
    check_rows-states w states [] s = refl
    check_rows-states w states (c ∷ cs) s =
        check_rows-states w states cs
          (check_row os tables config w c (running config.instance_id c.id states) s)
        ∙ ground (arith, update-states (w.faults c.id) w.now (w.pid c.id) c.id s)

    check_clusters-states :
        (w : World) (s : System) → (check_clusters os tables config w s).states ≡ s.states
    unfolding check_clusters
    check_clusters-states w s =
        ground (arith, check_rows-states w s.states (select provides s.clusters) s)

    watch_loop-states :
        (w : World) (ws : List World) (s : System)
        → (watch_loop os tables config w ws s).states ≡ s.states
    unfolding watch_loop
    watch_loop-states w [] s = check_clusters-states w s
    watch_loop-states w (v ∷ vs) s =
        watch_loop-states v vs (check_clusters os tables config w s) ∙ check_clusters-states w s

  migrated_clusters : (lacks_cluster_columns migrated || lacks_replica_columns migrated) ≡ true
  unfolding lacks_cluster_columns lacks_replica_columns
  migrated_clusters = refl

  migrated_replicas :
      (lacks_cluster_columns renamed_clusters || lacks_replica_columns renamed_clusters) ≡ true
  unfolding lacks_cluster_columns lacks_replica_columns
  migrated_replicas = refl

  migrated_states :
      (tables : Tables)
      → tables.cluster_state ≡ cluster_state_table
      → lacks_state_columns tables ≡ true
  unfolding lacks_state_columns
  migrated_states tables e = rw e refl

  -- With the tables of the migrations, no check changes anything, so that no lighthouse ever
  -- starts; neither does one if clusters had each column that its statement names. With any tables
  -- of clusters and replicas, beside that of cluster_state in the migrations, no check records a
  -- version.
  pub watch_loop-migrated :
      (w : World) (ws : List World) (s : System) (clusters replicas : List String)
      → (watch_loop os migrated config w ws s ≡ s)
        × (watch_loop os renamed_clusters config w ws s ≡ s)
        × ((watch_loop os
              (record migrated { clusters = clusters; replicas = replicas })
              config
              w
              ws
              s).states
            ≡ s.states)
  watch_loop-migrated w ws s clusters replicas = (
    watch_loop-no_columns migrated migrated_clusters w ws s,
    watch_loop-no_columns renamed_clusters migrated_replicas w ws s,
    watch_loop-states (record migrated { clusters = clusters; replicas = replicas })
        (migrated_states (record migrated { clusters = clusters; replicas = replicas }) refl) w ws
        s,
  )
