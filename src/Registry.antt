-- ===== src/Registry.antt =====
-- server/internal/service/replica.go: the table of control plane instances. Times are nanoseconds,
-- and `now` is what `time.Now()` returns in the call; every row has a `last_seen_at`, since only
-- these methods write the table. `fails k` says whether the k-th database call of a method fails.
-- Log lines are left out. The UNIQUE address of server/migrations is a test of the INSERT and the
-- UPDATE; a method runs alone, between two calls no other one writes.
pub mod Master
pub mod Calls
pub mod Invariant
pub mod Absent
pub mod Pruning
pub mod Service
use nebula_gc.Prelude.{
  ℕ, ◌+◌, ◌*◌, String, Bool, true, false, not, ◌&&◌, ◌||◌, Option, none, some, List, [], ◌∷◌, ◌++◌,
  ltb, ◌==◌, any, head?, str_eq, if◌then◌else◌,
}
use nebula_gc.Errors.{Result, ok, err, failed}
use nebula_gc.Exec.{Exec, Faults, pure, raise, gets, fail_if, modify, ◌>>=◌, ◌>>◌}
use nebula_gc.Sql.{select, find, update, delete, count, order_by}
use nebula_gc.Ha.{Mode, mode_master, mode_replica, validate_mode, ReplicaInfo, MasterInfo}

pub record Replica : Type 0 where
  pub id : String
  pub address : String
  pub role : Mode
  pub last_seen_at : ℕ
  pub created_at : ℕ

abbrev pub Registry : Type 0
Registry = List Replica

abbrev pub has_id : String → Replica → Bool
has_id id r = str_eq r.id id

-- Another row holds the address: what the UNIQUE column refuses.
abbrev pub address_taken : String → String → Replica → Bool
address_taken id address r = str_eq r.address address && not (str_eq r.id id)

-- The INSERT or the UPDATE of `Register`, by what the query for the instance found.
unfoldable pub save :
    Faults → ℕ → String → String → Mode → Option Replica → Exec Registry (Unit {0})
save fails now id address mode none rs =
    if fails 1 || any (address_taken id address) rs
    then (err (failed "failed to register replica"), rs)
    else (
      ok tt,
      rs
          ++ record {
            id = id;
            address = address;
            role = mode;
            last_seen_at = now;
            created_at = now;
          }
            ∷ [],
    )
save fails now id address mode (some _) rs =
    if fails 1 || any (address_taken id address) rs
    then (err (failed "failed to update replica"), rs)
    else (
      ok tt,
      update (has_id id) (λ r. record r { address = address; role = mode; last_seen_at = now }) rs,
    )

unfoldable pub register : Faults → ℕ → String → String → Mode → Exec Registry (Unit {0})
unfolding save validate_mode
register fails now id address mode = do
  fail_if (not (validate_mode mode)) (failed "invalid mode")
  fail_if (fails 0) (failed "failed to check replica existence")
  existing ← gets (find (has_id id))
  save fails now id address mode existing

unfoldable pub send_heartbeat : Faults → ℕ → String → Exec Registry (Unit {0})
send_heartbeat fails now id = do
  fail_if (fails 0) (failed "failed to send heartbeat")
  rows ← gets (count (has_id id))
  modify (update (has_id id) (λ r. record r { last_seen_at = now }))
  fail_if (fails 1) (failed "failed to check heartbeat result")
  fail_if (rows == 0) (failed "replica not found for heartbeat")

-- last_seen_at > now - threshold
abbrev pub is_healthy : ℕ → ℕ → Replica → Bool
is_healthy now threshold r = ltb now (r.last_seen_at + threshold)

-- The healthy rows, oldest first.
unfoldable pub healthy : ℕ → ℕ → Registry → List Replica
healthy now threshold rs =
    order_by (λ (r : Replica). r.created_at) (select (is_healthy now threshold) rs)

abbrev pub master_of : String → Option Replica → MasterInfo
master_of self none = record { instance_id = self; address = ""; is_self = true }
master_of self (some r) = record {
  instance_id = r.id;
  address = r.address;
  is_self = str_eq r.id self;
}

unfoldable pub get_master : Faults → ℕ → ℕ → String → Exec Registry MasterInfo
get_master fails now threshold self = do
  fail_if (fails 0) (failed "failed to query master")
  gets (λ rs. master_of self (head? (healthy now threshold rs)))

-- One round of the loop over the rows; `first` is the source's variable.
abbrev pub info : Bool → Replica → ReplicaInfo
info first r = record {
  instance_id = r.id;
  address = r.address;
  role = if validate_mode r.role then r.role else mode_replica;
  is_master = first;
  last_heartbeat = r.last_seen_at;
  created_at = r.created_at;
}

unfoldable pub scan : Bool → List Replica → List ReplicaInfo
scan first [] = []
scan first (r ∷ rs) = info first r ∷ scan false rs

-- `fails 1` is `rows.Err()`, or a row that cannot be scanned.
unfoldable pub list_replicas : Faults → ℕ → ℕ → String → Exec Registry (List ReplicaInfo)
unfolding scan
list_replicas fails now threshold self = do
  fail_if (fails 0) (failed "failed to list replicas")
  fail_if (fails 1) (failed "error iterating replicas")
  gets (λ rs. scan true (healthy now threshold rs))

-- last_seen_at < now - threshold * multiplier
abbrev pub is_stale : ℕ → ℕ → ℕ → Replica → Bool
is_stale now threshold multiplier r = ltb (r.last_seen_at + threshold * multiplier) now

unfoldable pub prune_stale : Faults → ℕ → ℕ → ℕ → Exec Registry ℕ
prune_stale fails now threshold multiplier = do
  fail_if (fails 0) (failed "failed to prune stale replicas")
  rows ← gets (count (is_stale now threshold multiplier))
  modify (delete (is_stale now threshold multiplier))
  fail_if (fails 1) (failed "failed to check prune result")
  pure rows

unfoldable pub unregister : Faults → String → Exec Registry (Unit {0})
unregister fails id = do
  fail_if (fails 0) (failed "failed to unregister replica")
  modify (delete (has_id id))
  fail_if (fails 1) (failed "failed to check unregister result")

abbrev pub is_master_row : Replica → Bool
is_master_row r = str_eq r.role mode_master

unfoldable pub validate_single_master : Faults → Exec Registry (Unit {0})
validate_single_master fails = do
  fail_if (fails 0) (failed "failed to count masters")
  masters ← gets (count is_master_row)
  fail_if (ltb 1 masters) (failed "detected several masters in registry")
