-- ===== src/Auth/Tokens.antt =====
-- Which node or cluster a token stands for, before and after a rotation.
use nebula_gc.Prelude.{
  ℕ, String, ◌≡◌, refl, ap, subst, ◌∙◌, ◌⊎◌, inl, inr, Bool, true, false, none, some, List, [], ◌∷◌,
  arith, str_eq, eq_iff, eq_refl, Bool-cases, All,
}
use nebula_gc.Errors.{ok}
use nebula_gc.Exec.{Faults}
use nebula_gc.Sql.{find, update}
use nebula_gc.Golib.{Golib}
use nebula_gc.Token
use nebula_gc.Store.{Node, Db}
use nebula_gc.Node.{is_node, rotate_node_token, NodeTokenRotateResponse}
use nebula_gc.Auth.{Context, abort, next, has_token, node_context, require_node_token}

-- The row of the node, and no row beside it, matches.
abbrev pub Only : (Node → Bool) → Node → List Node → Type 0
Only p n [] = ⊥
Only p n (m ∷ ms) = ((m ≡ n) × All (λ k. p k ≡ false) ms) ⊎ ((p m ≡ false) × Only p n ms)

abbrev pub no_context : Context
no_context = record { tenant_id = none; cluster_id = none; node_id = none; is_admin = none }

abbrev rehash : String → Node → Node
rehash hash n = record n { token_hash = hash }

find-rehash :
    (hash : String) (p : Node → Bool) (n : Node) (ns : List Node)
    → p n ≡ true
    → Only p n ns
    → find (has_token hash) ns ≡ none
    → find (has_token hash) (update p (rehash hash) ns) ≡ some (rehash hash n)
unfolding find update
find-rehash hash p n [] e o f = absurd o
find-rehash hash p n (m ∷ ms) e (inl (same, rest)) f = ground (arith, same, eq_refl hash, ap p same)
find-rehash hash p n (m ∷ ms) e (inr (other, rest)) f =
    ground (arith, find-rehash hash p n ms e rest)

-- Rows that match have the old hash, so that no row has it when they have another.
find-old :
    (old hash : String) (p : Node → Bool) (ns : List Node)
    → str_eq hash old ≡ false
    → All (λ k. has_token old k ≡ true → p k ≡ true) ns
    → find (has_token old) (update p (rehash hash) ns) ≡ none
unfolding find update
find-old old hash p [] ne h = refl
find-old old hash p (m ∷ ms) ne h = ground (arith, h.0, find-old old hash p ms ne h.1)

not_empty : (token : String) → Token.is_too_short token ≡ false → str_eq token "" ≡ false
unfolding Token.is_too_short
not_empty token long = elim (Bool-cases (str_eq token "")) [
  | inr e ↦ e
  | inl e ↦
      let empty : token ≡ "" = (eq_iff token "").0 e in
      let short : Token.is_too_short "" ≡ false =
        subst (λ t. Token.is_too_short t ≡ false) empty long in
      absurd (ground (arith, short))
]

module _ (go : Golib) (secret : String) where
  rotated :
      (f : Faults) (now : ℕ) (tenant cluster node : String) (db : Db)
      (resp : NodeTokenRotateResponse)
      → (rotate_node_token go secret f now tenant cluster node db).0 ≡ ok resp
      → (Token.is_too_short resp.node_token ≡ false)
        × ((rotate_node_token go secret f now tenant cluster node db).1.nodes
            ≡ update
                (is_node tenant cluster node)
                (rehash (Token.hash go resp.node_token secret))
                db.nodes)
  unfolding rotate_node_token Token.generate Token.is_too_short
  rotated f now tenant cluster node db resp e = ground arith

  accepts :
      (token : String) (db : Db) (n : Node)
      → Token.is_too_short token ≡ false
      → find (has_token (Token.hash go token secret)) db.nodes ≡ some n
      → str_eq n.token_hash (Token.hash go token secret) ≡ true
      → require_node_token go secret (λ k. false) token db no_context
        ≡ next (node_context no_context n)
  unfolding require_node_token Token.validate
  accepts token db n long e same =
      let named = not_empty token long in
      ground (
        arith,
        named,
        eq_iff n.token_hash (Token.hash go token secret),
        eq_refl (Token.hash go token secret),
      )

  rejects :
      (token : String) (db : Db)
      → find (has_token (Token.hash go token secret)) db.nodes ≡ none
      → require_node_token go secret (λ k. false) token db no_context ≡ abort 401
  unfolding require_node_token
  rejects token db e = ground arith

  -- A RotateNodeToken without error on the one row of a node, giving a token whose hash no row has
  -- yet, makes that token stand for the node, with its tenant, its cluster and its admin flag.
  pub require_node_token-rotated :
      (f : Faults) (now : ℕ) (tenant cluster node : String) (db : Db) (n : Node)
      (resp : NodeTokenRotateResponse)
      → is_node tenant cluster node n ≡ true
      → Only (is_node tenant cluster node) n db.nodes
      → find (has_token (Token.hash go resp.node_token secret)) db.nodes ≡ none
      → (rotate_node_token go secret f now tenant cluster node db).0 ≡ ok resp
      → require_node_token go secret
          (λ k. false)
          resp.node_token
          (rotate_node_token go secret f now tenant cluster node db).1
          no_context
        ≡ next (node_context no_context n)
  require_node_token-rotated f now tenant cluster node db n resp is_it only fresh e =
      let done = rotated f now tenant cluster node db resp e in
      let hash = Token.hash go resp.node_token secret in
      accepts resp.node_token (rotate_node_token go secret f now tenant cluster node db).1
        (rehash hash n) done.0
        (ap (find (has_token hash)) done.1
          ∙ find-rehash hash (is_node tenant cluster node) n db.nodes is_it only fresh)
        (eq_refl hash)

  -- After a RotateNodeToken without error on a node, a token whose hash only the node had is
  -- answered with 401, if the hash of the new token is another.
  pub require_node_token-revoked :
      (f : Faults) (now : ℕ) (tenant cluster node old : String) (db : Db)
      (resp : NodeTokenRotateResponse)
      → str_eq (Token.hash go resp.node_token secret) (Token.hash go old secret) ≡ false
      → All
          (λ k.
            has_token (Token.hash go old secret) k ≡ true → is_node tenant cluster node k ≡ true)
          db.nodes
      → (rotate_node_token go secret f now tenant cluster node db).0 ≡ ok resp
      → require_node_token go secret
          (λ k. false)
          old
          (rotate_node_token go secret f now tenant cluster node db).1
          no_context
        ≡ abort 401
  require_node_token-revoked f now tenant cluster node old db resp differ only e =
      let done = rotated f now tenant cluster node db resp e in
      rejects old (rotate_node_token go secret f now tenant cluster node db).1 (
        ap (find (has_token (Token.hash go old secret))) done.1
        ∙ find-old (Token.hash go old secret) (Token.hash go resp.node_token secret)
            (is_node tenant cluster node) db.nodes differ only)
