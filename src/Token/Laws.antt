-- ===== src/Token/Laws.antt =====
-- What a generated token satisfies.
use nebula_gc.Prelude.{ℕ, ◌≤◌, ◌≡◌, String, false, some, List, arith}
use nebula_gc.Errors.{ok}
use nebula_gc.Golib.{Golib, IsRandom}
use nebula_gc.Token.{generate, generate_with_length, is_too_short}

-- A token of 32 random bytes or more is always long enough: generation fails only if `Read` fails.
pub generate_with_length-total :
    (go : Golib) (n : ℕ) (b : List ℕ)
    → IsRandom go
    → 32 ≤ n
    → go.random n ≡ some b
    → (generate_with_length go n ≡ ok (go.encode b)) × (is_too_short (go.encode b) ≡ false)
unfolding generate_with_length is_too_short
generate_with_length-total go n b r h e = ground (arith, r.fills n b e, r.encode_len b)

-- Every token that `Generate` returns passes `ValidateLength`.
pub is_too_short-generate :
    (go : Golib) (token : String) → generate go ≡ ok token → is_too_short token ≡ false
unfolding generate is_too_short
is_too_short-generate go token e = ground arith
