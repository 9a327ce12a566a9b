-- ===== src/Ha/Manager/Laws.antt =====
-- What `Start` and the loops do, over any registry.
use nebula_gc.Prelude.{ℕ, ◌<◌, ◌≡◌, refl, inl, inr, true, arith, str_eq, eq_refl, Bool-cases}
use nebula_gc.Errors.{failed, Result, ok, err}
use nebula_gc.Exec.{Faults}
use nebula_gc.Ha.{Config, validate_mode, mode_master}
use nebula_gc.Ha.Manager.{
  ReplicaRegistry, Manager, with_defaults, launch, after_validation, after_register, start,
}

-- A manager that is ready to run: a known role, and no interval of 0, on which a Go ticker panics.
pub record IsReady (m : Manager) : Type 0 where
  pub mode : validate_mode m.config.mode ≡ true
  pub heartbeat : 0 < m.config.heartbeat_interval
  pub threshold : 0 < m.config.heartbeat_threshold
  pub prune : 0 < m.config.prune_interval

module _ (service : ReplicaRegistry) (f g : Faults) (now : ℕ) (m : Manager)
    (s : service.State) where
  -- What `Start` has done when it returns.
  abbrev pub Started : Result (Unit {0}) × Manager × service.State → Type 0
  Started (ok _, m', s') = IsReady m' × (m'.beating ≡ true) × (m'.pruning ≡ m.config.enable_pruning)
  Started (err e, m', s') = (m'.beating ≡ m.beating) × (m'.pruning ≡ m.pruning)

  with_defaults-IsReady :
      validate_mode m.config.mode ≡ true → IsReady (record m { config = with_defaults m.config })
  unfolding with_defaults validate_mode
  with_defaults-IsReady v = record {
    mode = v;
    heartbeat = ground arith;
    threshold = ground arith;
    prune = ground arith;
  }

  launch-Started :
      validate_mode m.config.mode ≡ true
      → (t : service.State)
      → Started (launch service (record m { config = with_defaults m.config }) t)
  unfolding launch with_defaults
  launch-Started v t = (
    record {
      mode = (with_defaults-IsReady v).mode;
      heartbeat = (with_defaults-IsReady v).heartbeat;
      threshold = (with_defaults-IsReady v).threshold;
      prune = (with_defaults-IsReady v).prune;
    },
    refl,
    refl,
  )

  after_validation-Started :
      validate_mode m.config.mode ≡ true
      → (r : Result (Unit {0}) × service.State)
      → Started (after_validation service (record m { config = with_defaults m.config }) r)
  unfolding after_validation
  after_validation-Started v (ok _, t) = launch-Started v t
  after_validation-Started v (err e, t) = (refl, refl)

  after_register-Started :
      validate_mode m.config.mode ≡ true
      → (r : Result (Unit {0}) × service.State)
      → Started (after_register service g (record m { config = with_defaults m.config }) r)
  unfolding after_register
  after_register-Started v (ok _, t) =
      elim (Bool-cases (str_eq (with_defaults m.config).mode mode_master)) [
        | inl e ↦ rw e (after_validation-Started v (service.validate_single_master g t))
        | inr e ↦ rw e (launch-Started v t)
      ]
  after_register-Started v (err e, t) = (refl, refl)

  -- If `Start` returns no error, the manager is ready, the heartbeat loop runs, and the pruning loop
  -- runs exactly if it is enabled; if it returns an error, it has started no loop.
  pub start-Started : Started (start service f g now m s)
  unfolding start
  start-Started = elim (Bool-cases (validate_mode m.config.mode)) [
    | inl e ↦ rw e (
        after_register-Started e
          (service.register f now m.config.instance_id m.config.address m.config.mode s))
    | inr e ↦ rw e (refl, refl)
  ]

  -- The two database calls of `Start` on a master.
  abbrev pub registered : Result (Unit {0}) × service.State
  registered = service.register f now m.config.instance_id m.config.address m.config.mode s

  abbrev pub validated : Result (Unit {0}) × service.State
  validated = service.validate_single_master g registered.1

  -- What a master's `Start` returns, by those calls.
  abbrev pub MasterStart :
      Result (Unit {0}) × Manager × service.State
      → Result (Unit {0})
      → Result (Unit {0}) × service.State
      → Type 0
  MasterStart r (ok _) (ok _, t) = (r.0 ≡ ok tt) × (r.2 ≡ t)
  MasterStart r (ok _) (err e, t) = (r.0 ≡ err (failed "master validation failed")) × (r.2 ≡ t)
  MasterStart r (err e) v = (r.0 ≡ err (failed "failed to register replica")) × (r.2 ≡ registered.1)

  is_mode : (k : Config) → k.mode ≡ mode_master → str_eq k.mode mode_master ≡ true
  is_mode k e = rw e (eq_refl mode_master)

  after_validation-MasterStart :
      (m' : Manager) (v : Result (Unit {0}) × service.State)
      → MasterStart (after_validation service m' v) (ok tt) v
  unfolding after_validation launch
  after_validation-MasterStart m' (ok _, t) = (refl, refl)
  after_validation-MasterStart m' (err e, t) = (refl, refl)

  after_register-MasterStart :
      (m' : Manager) (r : Result (Unit {0}) × service.State)
      → m'.config.mode ≡ mode_master
      → r.1 ≡ registered.1
      → MasterStart (after_register service g m' r) r.0 (service.validate_single_master g r.1)
  unfolding after_register
  after_register-MasterStart m' (ok _, t) e same =
      rw (is_mode m'.config e)
        (after_validation-MasterStart m' (service.validate_single_master g t))
  after_register-MasterStart m' (err x, t) e same = (refl, same)

  pub start-MasterStart :
      m.config.mode ≡ mode_master → MasterStart (start service f g now m s) registered.0 validated
  unfolding start
  start-MasterStart e =
      let known : validate_mode m.config.mode ≡ true = unfold validate_mode in rw e refl in
      rw known (
        after_register-MasterStart (record m { config = with_defaults m.config }) registered
          (unfold with_defaults in e) refl)
