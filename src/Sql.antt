-- ===== src/Sql.antt =====
-- The SQL statements that the services send, as functions on a table's rows: SELECT, UPDATE and
-- DELETE with a WHERE test, COUNT, ORDER BY … ASC, and LIMIT … OFFSET. A row that no column of the
-- ORDER BY tells apart from another keeps its place; SQL leaves that order open.
pub mod Laws
pub mod Order
pub mod Unique
pub mod Members
use nebula_gc.Prelude.{
  ℕ, suc, Bool, Option, none, some, List, [], ◌∷◌, leb, take, drop, if◌then◌else◌,
}

module _ {ℓ} {A : Type ℓ} where
  -- SELECT … WHERE p
  unfoldable pub select : (A → Bool) → List A → List A
  select p [] = []
  select p (r ∷ rs) = let rest = select p rs in if p r then r ∷ rest else rest

  -- SELECT … WHERE p LIMIT 1, by `QueryRow`
  unfoldable pub find : (A → Bool) → List A → Option A
  find p [] = none
  find p (r ∷ rs) = if p r then some r else find p rs

  -- UPDATE … SET f WHERE p
  unfoldable pub update : (A → Bool) → (A → A) → List A → List A
  update p f [] = []
  update p f (r ∷ rs) = (if p r then f r else r) ∷ update p f rs

  -- DELETE … WHERE p
  unfoldable pub delete : (A → Bool) → List A → List A
  delete p [] = []
  delete p (r ∷ rs) = let rest = delete p rs in if p r then rest else r ∷ rest

  -- SELECT COUNT(*) … WHERE p, and `RowsAffected` of an UPDATE or a DELETE
  unfoldable pub count : (A → Bool) → List A → ℕ
  count p [] = 0
  count p (r ∷ rs) = let n = count p rs in if p r then suc n else n

  unfoldable pub insert_by : (A → ℕ) → A → List A → List A
  insert_by key r [] = r ∷ []
  insert_by key r (q ∷ qs) =
      let later = q ∷ insert_by key r qs in if leb (key r) (key q) then r ∷ q ∷ qs else later

  -- ORDER BY key ASC
  unfoldable pub order_by : (A → ℕ) → List A → List A
  unfolding insert_by
  order_by key [] = []
  order_by key (r ∷ rs) = insert_by key r (order_by key rs)

  -- LIMIT n OFFSET k
  unfoldable pub page : ℕ → ℕ → List A → List A
  page n k rs = take n (drop k rs)
