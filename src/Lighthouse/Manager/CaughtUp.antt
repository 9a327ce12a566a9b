-- ===== src/Lighthouse/Manager/CaughtUp.antt =====
-- A check without faults, cluster by cluster.
use nebula_gc.Prelude.{
  ℕ, String, ◌≡◌, refl, ap, subst, ◌∙◌, inl, inr, Bool, true, false, some, List, [], ◌∷◌, arith,
  str_eq, eq_iff, eq_refl, ltb, Bool-cases, All,
}
use nebula_gc.Sql.{select, find}
use nebula_gc.Sql.Laws.{All-select}
use nebula_gc.Sql.Unique.{Unique, Absent}
use nebula_gc.Lighthouse.{Config, NebulaConfig, Oslib}
use nebula_gc.Lighthouse.Schema.{Tables}
use nebula_gc.Lighthouse.Manager.{
  ClusterRow, StateRow, System, World, has_id, of_cluster, provides, running, started, check_row,
  check_rows, check_clusters,
}
use nebula_gc.Lighthouse.Manager.Lookups.{
  running-upsert_state, running-upsert_other, find-put, find-put_other,
}
use nebula_gc.Lighthouse.Manager.Running.{IsComplete, no_faults, update-Updated}

-- The first where the test holds, the second where not
abbrev pub OneOf : Bool → Type 0 → Type 0 → Type 0
OneOf true P Q = P
OneOf false P Q = Q

one_of : (b : Bool) (P Q : Type 0) → (b ≡ true → P) → (b ≡ false → Q) → OneOf b P Q
one_of true P Q h i = h refl
one_of false P Q h i = i refl

abbrev pub quiet : (String → ℕ) → ℕ → World
quiet pid now = record {
  query_fails = false;
  scan_fails = λ _. false;
  faults = λ _. no_faults;
  pid = pid;
  now = now;
}

module _ (os : Oslib) (tables : Tables) (complete : IsComplete tables) (config : Config)
    (pid : String → ℕ) (now : ℕ)
    (marshals : (c : NebulaConfig) → (text : String) × (os.marshal_yaml c ≡ some text)) where
  -- The state of one cluster
  abbrev Same : String → System → System → Type 0
  Same id s t =
      (running config.instance_id id t.states ≡ running config.instance_id id s.states)
      × (find (of_cluster id) t.processes ≡ find (of_cluster id) s.processes)

  -- After a row: its cluster is at the higher version, by a process of its own where it was behind
  abbrev Follows : ClusterRow → ℕ → System → System → Type 0
  Follows c v s t =
      (ltb v c.config_version ≡ true
        → (running config.instance_id c.id t.states ≡ c.config_version)
          × (find (of_cluster c.id) t.processes
              ≡ some (started c.id (pid c.id) c.config_version now)))
      × (ltb v c.config_version ≡ false → Same c.id s t)

  check_row-Follows :
      (c : ClusterRow) (v : ℕ) (s : System)
      → find (has_id c.id) s.clusters ≡ some c
      → (Follows c v s (check_row os tables config (quiet pid now) c v s))
        × ((other : String)
            → str_eq c.id other ≡ false
            → Same other s (check_row os tables config (quiet pid now) c v s))
        × ((check_row os tables config (quiet pid now) c v s).clusters ≡ s.clusters)
  check_row-Follows c v s e = elim (Bool-cases (ltb v c.config_version)) [
    | inr b ↦ rw b (((λ t. absurd (cc)), (λ _. (refl, refl))), (λ other ne. (refl, refl)), refl)
    | inl b ↦
        let (same, states, processes) =
          update-Updated os config marshals tables complete now (pid c.id) c.id s c e in
        rw b (
          (
            (λ _. (
              ap (running config.instance_id c.id) states
                  ∙ running-upsert_state config.instance_id c.id c.config_version now s.states,
              ap (find (of_cluster c.id)) processes
                  ∙ find-put c.id (started c.id (pid c.id) c.config_version now) (eq_refl c.id)
                      s.processes,
            )),
            (λ t. absurd (cc)),
          ),
          (λ other ne. (
            ap (running config.instance_id other) states
                ∙ running-upsert_other config.instance_id c.id c.config_version now other ne
                    s.states,
            ap (find (of_cluster other)) processes
                ∙ find-put_other c.id (started c.id (pid c.id) c.config_version now) (eq_refl c.id)
                    other s.processes ne,
          )),
          same,
        )
  ]

  join_rows :
      (c : ClusterRow) (v : ℕ) (s t u : System) → Follows c v s t → Same c.id t u → Follows c v s u
  join_rows c v s t u h same = (
    (λ b. let (r, p) = h.0 b in (same.0 ∙ r, same.1 ∙ p)),
    (λ b. let (r, p) = h.1 b in (same.0 ∙ r, same.1 ∙ p)),
  )

  start_rows :
      (c : ClusterRow) (v : ℕ) (s t u : System) → Same c.id s t → Follows c v t u → Follows c v s u
  start_rows c v s t u same h = (h.0, (λ b. let (r, p) = h.1 b in (r ∙ same.0, p ∙ same.1)))

  module _ (states : List StateRow) (table : List ClusterRow) where
    abbrev version : ClusterRow → ℕ
    version c = running config.instance_id c.id states

    abbrev IsRow : ClusterRow → Type 0
    IsRow c = find (has_id c.id) table ≡ some c

    abbrev after_row : ClusterRow → System → System
    after_row c s = check_row os tables config (quiet pid now) c (version c) s

    abbrev after_rows : List ClusterRow → System → System
    after_rows cs s = check_rows os tables config (quiet pid now) states cs s

    row :
        (c : ClusterRow) (s : System)
        → s.clusters ≡ table
        → IsRow c
        → (Follows c (version c) s (after_row c s))
          × ((other : String) → str_eq c.id other ≡ false → Same other s (after_row c s))
          × ((after_row c s).clusters ≡ table)
    row c s k e =
        let (up, others, same) = check_row-Follows c (version c) s (rw k e) in
        (up, others, same ∙ k)

    absent_rows :
        (other : String) (cs : List ClusterRow) (s : System)
        → s.clusters ≡ table
        → Absent (λ (c : ClusterRow). c.id) other cs
        → All IsRow cs
        → Same other s (after_rows cs s)
    unfolding check_rows
    absent_rows other [] s k a h = (refl, refl)
    absent_rows other (c ∷ cs) s k a h =
        let (_, others, k') = row c s k h.0 in
        let first = others other a.0 in
        let rest = absent_rows other cs (after_row c s) k' a.1 h.1 in
        (rest.0 ∙ first.0, rest.1 ∙ first.1)

    earlier :
        (s t u : System) (id : String) (cs : List ClusterRow)
        → ((other : String) → str_eq id other ≡ false → Same other s t)
        → Absent (λ (c : ClusterRow). c.id) id cs
        → All (λ c. Follows c (version c) t u) cs
        → All (λ c. Follows c (version c) s u) cs
    earlier s t u id [] same a h = tt
    earlier s t u id (c ∷ cs) same a h = (
      start_rows c (version c) s t u
          (same c.id (let apart = a.0 in ground (arith, apart, eq_iff c.id id, eq_iff id c.id)))
          h.0,
      earlier s t u id cs same a.1 h.1,
    )

    all_rows :
        (cs : List ClusterRow) (s : System)
        → s.clusters ≡ table
        → Unique (λ (c : ClusterRow). c.id) cs
        → All IsRow cs
        → All (λ c. Follows c (version c) s (after_rows cs s)) cs
    unfolding check_rows
    all_rows [] s k u h = tt
    all_rows (c ∷ cs) s k u h =
        let (up, others, k') = row c s k h.0 in
        (
          join_rows c (version c) s (after_row c s) (after_rows cs (after_row c s)) up
              (absent_rows c.id cs (after_row c s) k' u.0 h.1),
          earlier s (after_row c s) (after_rows cs (after_row c s)) c.id cs others u.0
              (all_rows cs (after_row c s) k' u.1 h.1),
        )

  own_rows :
      (cs : List ClusterRow)
      → Unique (λ (c : ClusterRow). c.id) cs
      → All (λ c. find (has_id c.id) cs ≡ some c) cs
  unfolding find
  own_rows [] u = tt
  own_rows (c ∷ cs) u = (ground (arith, eq_refl c.id), later cs cs u.0 (own_rows cs u.1))
    where
      later :
          (ds es : List ClusterRow)
          → Absent (λ (d : ClusterRow). d.id) c.id ds
          → All (λ d. find (has_id d.id) es ≡ some d) ds
          → All (λ d. find (has_id d.id) (c ∷ es) ≡ some d) ds
      later [] es a h = tt
      later (d ∷ ds) es a h =
          let apart = a.0 in
          (ground (arith, apart, h.0, eq_iff c.id d.id, eq_iff d.id c.id), later ds es a.1 h.1)

  Unique-select :
      (p : ClusterRow → Bool) (cs : List ClusterRow)
      → Unique (λ (c : ClusterRow). c.id) cs
      → Unique (λ (c : ClusterRow). c.id) (select p cs)
  unfolding select
  Unique-select p [] u = tt
  Unique-select p (c ∷ cs) u = elim (Bool-cases (p c)) [
    | inl e ↦
        rw e (
          All-select (λ (d : ClusterRow). str_eq d.id c.id ≡ false) p cs u.0,
          Unique-select p cs u.1,
        )
    | inr e ↦ rw e (Unique-select p cs u.1)
  ]

  -- A cluster that was behind is at its version, run by a new process; another is as it was.
  abbrev pub CaughtUp : ClusterRow → ℕ → System → System → Type 0
  CaughtUp c v s t =
      OneOf (ltb v c.config_version)
        ((running config.instance_id c.id t.states ≡ c.config_version)
          × (find (of_cluster c.id) t.processes
              ≡ some (started c.id (pid c.id) c.config_version now)))
        (Same c.id s t)

  decided : (c : ClusterRow) (v : ℕ) (s t : System) → Follows c v s t → CaughtUp c v s t
  decided c v s t h =
      one_of (ltb v c.config_version)
        ((running config.instance_id c.id t.states ≡ c.config_version)
          × (find (of_cluster c.id) t.processes
              ≡ some (started c.id (pid c.id) c.config_version now)))
        (Same c.id s t) h.0 h.1

  all_decided :
      (v : ClusterRow → ℕ) (s t : System) (cs : List ClusterRow)
      → All (λ c. Follows c (v c) s t) cs
      → All (λ c. CaughtUp c (v c) s t) cs
  all_decided v s t [] h = tt
  all_decided v s t (c ∷ cs) h = (decided c (v c) s t h.0, all_decided v s t cs h.1)

  -- With unique ids, tables that have the columns of the statements, a configuration that marshals
  -- and no fault, a check brings each lighthouse cluster whose version of this instance is lower to
  -- the version of the cluster, run by a new process, and leaves version and process of the others.
  pub check_clusters-CaughtUp :
      (s : System)
      → Unique (λ (c : ClusterRow). c.id) s.clusters
      → All
          (λ c.
            CaughtUp c
              (running config.instance_id c.id s.states)
              s
              (check_clusters os tables config (quiet pid now) s))
          (select provides s.clusters)
  unfolding check_clusters
  check_clusters-CaughtUp s u =
      let checks : check_rows os tables config (quiet pid now) s.states (select provides s.clusters)
            s
          ≡ check_clusters os tables config (quiet pid now) s =
        rw complete.0 refl in
      all_decided (λ c. running config.instance_id c.id s.states) s
        (check_clusters os tables config (quiet pid now) s) (select provides s.clusters)
        (subst
          (λ t.
            All (λ (c : ClusterRow). Follows c (running config.instance_id c.id s.states) s t)
              (select provides s.clusters))
          checks
          (all_rows s.states s.clusters (select provides s.clusters) s refl
            (Unique-select provides s.clusters u)
            (All-select (λ c. find (has_id c.id) s.clusters ≡ some c) provides s.clusters
              (own_rows s.clusters u))))
