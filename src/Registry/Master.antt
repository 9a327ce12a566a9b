-- ===== src/Registry/Master.antt =====
-- The choice of the master: `GetMaster` against `ListReplicas`, its minimality, and agreement.
use mathlib.Core.List.{Memᴰ}
use nebula_gc.Prelude.{
  ℕ, ◌≤◌, String, ◌≡◌, refl, sym, ap, ◌∙◌, ◌⊎◌, inl, inr, true, false, Option, none, some, List, [],
  ◌∷◌, arith, head?, All, subst, Option-cases, eq_iff, str_eq, if◌then◌else◌,
}
use nebula_gc.Errors.{ok}
use nebula_gc.Exec.{Faults}
use nebula_gc.Sql.{select, order_by}
use nebula_gc.Sql.Order.{head?-order_by, All-order_by, order_by-empty}
use nebula_gc.Sql.Members.{All-head, All-of_select, select-mem, select-nil}
use nebula_gc.Ha.{ReplicaInfo, MasterInfo}
use nebula_gc.Registry.{
  Replica, Registry, is_healthy, healthy, master_of, get_master, scan, list_replicas,
}

-- The instances that a list of replicas calls master.
pub masters : List ReplicaInfo → List String
masters [] = []
masters (r ∷ rs) = let rest = masters rs in if r.is_master then r.instance_id ∷ rest else rest

masters-scan-false : (rs : List Replica) → masters (scan false rs) ≡ []
unfolding masters scan
masters-scan-false [] = refl
masters-scan-false (r ∷ rs) = masters-scan-false rs

-- What a list of replicas and a report of the master, read from one registry, have to do with
-- one another.
abbrev pub Agree : String → List ReplicaInfo → MasterInfo → Type 0
Agree self infos m =
    ((infos ≡ []) × (m.instance_id ≡ self) × (m.is_self ≡ true))
    ⊎ ((masters infos ≡ m.instance_id ∷ []) × (m.is_self ≡ str_eq m.instance_id self))

scan-master_of :
    (self : String) (rs : List Replica) → Agree self (scan true rs) (master_of self (head? rs))
unfolding masters scan
scan-master_of self [] = inl (refl, refl, refl)
scan-master_of self (r ∷ rs) = inr (ap (λ ids. r.id ∷ ids) (masters-scan-false rs), refl)

-- From one registry at one time, `GetMaster` names the one instance that `ListReplicas` marks as
-- master, and says that it is the caller exactly when it is; if the list is empty, it names the
-- caller.
pub get_master-list_replicas :
    (f g : Faults) (now threshold : ℕ) (self : String) (rs : Registry) (m : MasterInfo)
    (infos : List ReplicaInfo)
    → (get_master f now threshold self rs).0 ≡ ok m
    → (list_replicas g now threshold self rs).0 ≡ ok infos
    → Agree self infos m
unfolding get_master list_replicas
get_master-list_replicas f g now threshold self rs m infos em el =
    let same_m : master_of self (head? (healthy now threshold rs)) ≡ m = ground arith in
    let same_i : scan true (healthy now threshold rs) ≡ infos = ground arith in
    subst (λ i. Agree self i m) same_i
      (subst (λ n. Agree self (scan true (healthy now threshold rs)) n) same_m
        (scan-master_of self (healthy now threshold rs)))

-- The master that a registry chooses: the caller where no row is healthy, and else the oldest
-- healthy row.
abbrev pub Chosen : ℕ → ℕ → String → Registry → MasterInfo → Type 0
Chosen now threshold self rs m =
    ((select (is_healthy now threshold) rs ≡ [])
      × (m ≡ record { instance_id = self; address = ""; is_self = true }))
    ⊎ ((r : Replica) × Memᴰ r rs
        × (is_healthy now threshold r ≡ true)
        × (m ≡ record { instance_id = r.id; address = r.address; is_self = str_eq r.id self })
        × All (λ (q : Replica). is_healthy now threshold q ≡ true → r.created_at ≤ q.created_at) rs)

-- `GetMaster` returns the oldest of the healthy rows, at its address; with no healthy row it
-- returns the caller.
pub get_master-oldest :
    (f : Faults) (now threshold : ℕ) (self : String) (rs : Registry) (m : MasterInfo)
    → (get_master f now threshold self rs).0 ≡ ok m
    → Chosen now threshold self rs m
unfolding get_master healthy
get_master-oldest f now threshold self rs m e =
    let same : master_of self (head? (healthy now threshold rs)) ≡ m = ground arith in
    subst (Chosen now threshold self rs) same (chosen (head? (healthy now threshold rs)) refl)
  where
    key : Replica → ℕ
    key r = r.created_at

    chosen :
        (o : Option Replica)
        → head? (healthy now threshold rs) ≡ o
        → Chosen now threshold self rs (master_of self o)
    chosen none e = inl (order_by-empty key (select (is_healthy now threshold) rs) e, refl)
    chosen (some r) e =
        let picked =
          All-head (λ q. Memᴰ q rs × (is_healthy now threshold q ≡ true)) (healthy now threshold rs)
            r e (All-order_by key _ _ (select-mem (is_healthy now threshold) rs)) in
        inr (
          r,
          picked.0,
          picked.1,
          refl,
          All-of_select (is_healthy now threshold) (λ q. r.created_at ≤ q.created_at) rs
              (head?-order_by key (select (is_healthy now threshold) rs) r e),
        )

no_healthy :
    (now threshold : ℕ) (rs : Registry)
    → head? (healthy now threshold rs) ≡ none
    → select (is_healthy now threshold) rs ≡ []
unfolding healthy
no_healthy now threshold rs e = order_by-empty (λ (r : Replica). r.created_at) _ e

-- If two instances read one registry at one time and each is told that it is the master, then they
-- are one instance, or no row is healthy.
pub get_master_unique :
    (f g : Faults) (now threshold : ℕ) (a b : String) (rs : Registry) (m n : MasterInfo)
    → (get_master f now threshold a rs).0 ≡ ok m
    → (get_master g now threshold b rs).0 ≡ ok n
    → m.is_self ≡ true
    → n.is_self ≡ true
    → (a ≡ b) ⊎ (select (is_healthy now threshold) rs ≡ [])
unfolding get_master
get_master_unique f g now threshold a b rs m n em en sm sn =
    elim (Option-cases (head? (healthy now threshold rs))) [
      | inl e ↦ inr (no_healthy now threshold rs e)
      | inr (r, e) ↦ inl (ground (arith, eq_iff r.id a, eq_iff r.id b))
    ]

-- With no healthy row every instance is told that it is the master.
pub get_master-All_stale :
    (f : Faults) (now threshold : ℕ) (a : String) (rs : Registry) (m : MasterInfo)
    → All (λ r. is_healthy now threshold r ≡ false) rs
    → (get_master f now threshold a rs).0 ≡ ok m
    → m ≡ record { instance_id = a; address = ""; is_self = true }
unfolding get_master healthy
get_master-All_stale f now threshold a rs m h e =
    let none_left : select (is_healthy now threshold) rs ≡ [] =
      select-nil (is_healthy now threshold) rs h in
    let same : master_of a
          (head? (order_by (λ (r : Replica). r.created_at) (select (is_healthy now threshold) rs)))
        ≡ m =
      ground arith in
    sym same ∙ rw none_left (unfold order_by in refl)
