-- ===== src/Lighthouse/Manager/Stopped.antt =====
-- The processes that run, after checks and a stop.
use nebula_gc.Prelude.{
  ℕ, String, ◌≡◌, refl, sym, ap, subst, ◌∙◌, inl, inr, true, false, ◌||◌, Option, none, some, List,
  [], ◌∷◌, arith, ltb, ◌==◌, Bool-cases, any, All,
}
use nebula_gc.Exec.{Faults}
use nebula_gc.Exec.Triples.{Post, Post-continue, Post-same, same-Post}
use nebula_gc.Sql.{select, find, delete}
use nebula_gc.Sql.Unique.{Absent}
use nebula_gc.Lighthouse.{Config, ProcessInfo, Oslib}
use nebula_gc.Lighthouse.Files.{write_config_files}
use nebula_gc.Lighthouse.Manager.Owned.{
  has_pid, Owned, Absent-delete, Absent-none, forget-Owned, put-Owned,
}
use nebula_gc.Lighthouse.Schema.{Tables, lacks_query_columns, lacks_state_columns}
use nebula_gc.Lighthouse.Manager.{
  ClusterRow, StateRow, System, World, of_cluster, provides, running, started, load_cluster_config,
  stop_process, start_process, update_cluster_state, update_lighthouse, check_row, check_rows,
  check_clusters, stop_existing, on_files, forget, watch_loop, stop_each, stop,
}

abbrev Holds : System → Type 0
Holds s = Owned s.processes s.alive

-- Also without a process of the cluster
abbrev Free : String → System → Type 0
Free id s = Holds s × Absent (λ (p : ProcessInfo). p.cluster_id) id s.processes

abbrev Always : {A : Type 0} → A → System → Type 0
Always _ = Holds

module _ (f : Faults) (id : String) where
  load-Post :
      (tables : Tables) (s : System)
      → Holds s
      → Post Always Holds (load_cluster_config tables f id s)
  unfolding load_cluster_config
  load-Post tables s h = Post-same Holds (load_cluster_config tables f id s) (
      subst Holds
        (sym (let same : (load_cluster_config tables f id s).1 ≡ s = ground arith in same)) h)

  stop-Post :
      (s : System)
      → Holds s
      → Post (λ _. Free id) Holds (stop_existing f id (find (of_cluster id) s.processes) s)
  unfolding stop_process
  stop-Post s h = stopped (find (of_cluster id) s.processes) refl
    where
      stopped :
          (o : Option ProcessInfo)
          → find (of_cluster id) s.processes ≡ o
          → Post (λ _. Free id) Holds (stop_existing f id o s)
      stopped none e = (h, Absent-none id s.processes e)
      stopped (some info) e = elim (Bool-cases (f 8)) [
        | inl t ↦ rw t h
        | inr t ↦ elim (Bool-cases (f 9)) [
          | inl u ↦ rw (t, u) h
          | inr u ↦
              rw (t, u) (forget-Owned id info s.processes s.alive e h, Absent-delete id s.processes)
        ]
      ]

  start-Post :
      (now pid version : ℕ) (s : System)
      → Free id s
      → Post Always Holds (start_process f now pid id version s)
  unfolding start_process
  start-Post now pid version s (h, a) = elim (Bool-cases (f 10)) [
    | inl t ↦ rw t h
    | inr t ↦ rw t (put-Owned id (started id pid version now) s.processes s.alive a refl h)
  ]

  state-Post :
      (tables : Tables) (now version : ℕ) (instance_id : String) (s : System)
      → Holds s
      → Post Always Holds (update_cluster_state tables f now instance_id id version s)
  unfolding update_cluster_state
  state-Post tables now version instance_id s h =
      elim (Bool-cases (f 11 || lacks_state_columns tables)) [ inl t ↦ rw t h | inr t ↦ rw t h ]

others :
    (p : ProcessInfo) (ps : List ProcessInfo) (qs : List ℕ)
    → All (λ q. any (has_pid q) (p ∷ ps) ≡ true) qs
    → All (λ q. any (has_pid q) ps ≡ true) (delete (λ q. q == p.pid) qs)
unfolding delete
others p ps [] h = tt
others p ps (q ∷ qs) h = elim (Bool-cases (q == p.pid)) [
  | inl t ↦ rw t (others p ps qs h.1)
  | inr t ↦ rw t (let known = h.0 in ground (arith, known, t), others p ps qs h.1)
]

module _ (os : Oslib) (tables : Tables) (config : Config) where
  update-Holds :
      (f : Faults) (now pid : ℕ) (id : String) (s : System)
      → Holds s
      → Holds (update_lighthouse os tables config f now pid id s).1
  unfolding update_lighthouse
  update-Holds f now pid id s h =
      same-Post Holds (update_lighthouse os tables config f now pid id s) (
        Post-continue Always Always Holds (load_cluster_config tables f id s) _
          (load-Post f id tables s h)
          (λ c t i.
            Post-continue Always Always Holds
              (on_files (write_config_files os f c config.base_path t.files) t) _
              (Post-same Holds (on_files (write_config_files os f c config.base_path t.files) t) i)
              (λ path u j.
                Post-continue (λ _. Free id) Always Holds
                  (stop_existing f id (find (of_cluster id) u.processes) u) _ (stop-Post f id u j)
                  (λ _ v k.
                    Post-continue Always Always Holds
                      (start_process f now pid id c.config_version v) _
                      (start-Post f id now pid c.config_version v k)
                      (λ _ x l.
                        state-Post f id tables now c.config_version config.instance_id x l)))))

  check_row-Holds :
      (w : World) (c : ClusterRow) (v : ℕ) (s : System)
      → Holds s
      → Holds (check_row os tables config w c v s)
  check_row-Holds w c v s h = elim (Bool-cases (w.scan_fails c.id)) [
    | inl e ↦ rw e h
    | inr e ↦ elim (Bool-cases (ltb v c.config_version)) [
      | inl t ↦ rw (e, t) (update-Holds (w.faults c.id) w.now (w.pid c.id) c.id s h)
      | inr t ↦ rw (e, t) h
    ]
  ]

  check_rows-Holds :
      (w : World) (states : List StateRow) (cs : List ClusterRow) (s : System)
      → Holds s
      → Holds (check_rows os tables config w states cs s)
  unfolding check_rows
  check_rows-Holds w states [] s h = h
  check_rows-Holds w states (c ∷ cs) s h =
      check_rows-Holds w states cs _
        (check_row-Holds w c (running config.instance_id c.id states) s h)

  check_clusters-Holds :
      (w : World) (s : System) → Holds s → Holds (check_clusters os tables config w s)
  unfolding check_clusters
  check_clusters-Holds w s h = elim (Bool-cases (w.query_fails || lacks_query_columns tables)) [
    | inl e ↦ rw e h
    | inr e ↦ rw e (check_rows-Holds w s.states (select provides s.clusters) s h)
  ]

  watch_loop-Holds :
      (w : World) (ws : List World) (s : System)
      → Holds s
      → Holds (watch_loop os tables config w ws s)
  unfolding watch_loop
  watch_loop-Holds w [] s h = check_clusters-Holds w s h
  watch_loop-Holds w (v ∷ vs) s h = watch_loop-Holds v vs _ (check_clusters-Holds w s h)

  stop_each-alive :
      (fails : String → Faults) (ps : List ProcessInfo) (s : System)
      → ((id : String) → (fails id 8 ≡ false) × (fails id 9 ≡ false))
      → All (λ q. any (has_pid q) ps ≡ true) s.alive
      → (stop_each fails ps s).alive ≡ []
  unfolding stop_each stop_process
  stop_each-alive fails [] s quiet h = none_left s.alive h
    where
      none_left : (qs : List ℕ) → All (λ q. any (has_pid q) [] ≡ true) qs → qs ≡ []
      none_left [] h = refl
      none_left (q ∷ qs) h = absurd (let bad = h.0 in cc)
  stop_each-alive fails (p ∷ ps) s quiet h =
      let (found, sent) = quiet p.cluster_id in
      let gone : (stop_process (fails p.cluster_id) p.cluster_id p s).1
          ≡ forget p.cluster_id p.pid s =
        ground (arith, found, sent) in
      ap (λ t. (stop_each fails ps t).alive) gone
      ∙ stop_each-alive fails ps (forget p.cluster_id p.pid s) quiet (others p ps s.alive h)

  -- A manager that starts with no process, in any number of checks, whatever fails, and then stops
  -- with each of its signals sent, leaves no process running.
  pub stop-watch_loop :
      (w : World) (ws : List World) (s : System) (fails : String → Faults)
      → s.processes ≡ []
      → s.alive ≡ []
      → ((id : String) → (fails id 8 ≡ false) × (fails id 9 ≡ false))
      → (stop fails (watch_loop os tables config w ws s)).alive ≡ []
  unfolding stop
  stop-watch_loop w ws s fails no_process none_alive quiet =
      let t = watch_loop os tables config w ws s in
      stop_each-alive fails t.processes t quiet
        (watch_loop-Holds w ws s (
          subst (λ ps. Owned ps s.alive) (sym no_process)
            (subst (Owned []) (sym none_alive) (tt, tt)))).1
