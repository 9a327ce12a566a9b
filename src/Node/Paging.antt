-- ===== src/Node/Paging.antt =====
-- The pages of ListNodes.
use nebula_gc.Prelude.{
  ℕ, zero, suc, ◌+◌, ◌-◌, ◌*◌, ◌≤◌, String, ◌≡◌, refl, sym, ap, ◌∙◌, Bool, false, List, [], ◌∷◌,
  ◌++◌, map, arith, ltb, ◌==◌, length, take, drop,
}
use nebula_gc.Errors.{Result, ok, err}
use nebula_gc.Sql.{select, count, order_by, page, insert_by}
use nebula_gc.Golib.{Golib}
use nebula_gc.Store.{Node, Db}
use nebula_gc.Node.{
  NodeSummary, NodeListResponse, is_cluster, in_cluster, summary, clamp_size, list_nodes,
}

module _ {ℓ} {A : Type ℓ} where
  take-none : (k : ℕ) → take {A = A} k [] ≡ []
  take-none zero = refl
  take-none (suc k) = refl

  take-more : (n k : ℕ) (xs : List A) → take n xs ++ take k (drop n xs) ≡ take (n + k) xs
  take-more zero k xs = ap (λ n. take n xs) (let plus : k ≡ 0 + k = omega arith in plus)
  take-more (suc n) k [] = take-none k ∙ sym (take-none (suc n + k))
  take-more (suc n) k (x ∷ xs) =
      ap (λ ys. x ∷ ys) (take-more n k xs)
      ∙ ap (λ m. take m (x ∷ xs)) (let plus : suc (n + k) ≡ suc n + k = omega arith in plus)

  take-enough : (n : ℕ) (xs : List A) → length xs ≤ n → take n xs ≡ xs
  take-enough zero [] le = refl
  take-enough zero (x ∷ xs) le = absurd (omega arith)
  take-enough (suc n) [] le = refl
  take-enough (suc n) (x ∷ xs) le = ap (λ ys. x ∷ ys) (take-enough n xs (omega arith))

  length-select : (p : A → Bool) (xs : List A) → length (select p xs) ≡ count p xs
  unfolding select count
  length-select p [] = refl
  length-select p (x ∷ xs) = ground (arith, length-select p xs)

  length-insert_by :
      (key : A → ℕ) (x : A) (xs : List A) → length (insert_by key x xs) ≡ suc (length xs)
  unfolding insert_by
  length-insert_by key x [] = refl
  length-insert_by key x (y ∷ ys) = ground (arith, length-insert_by key x ys)

  length-order_by : (key : A → ℕ) (xs : List A) → length (order_by key xs) ≡ length xs
  unfolding order_by
  length-order_by key [] = refl
  length-order_by key (x ∷ xs) =
      omega (arith, length-order_by key xs, length-insert_by key x (order_by key xs))

  map-append {κ} :
      {B : Type κ} (f : A → B) (xs ys : List A) → map f (xs ++ ys) ≡ map f xs ++ map f ys
  map-append f [] ys = refl
  map-append f (x ∷ xs) ys = ap (λ zs. f x ∷ zs) (map-append f xs ys)

  length-map {κ} : {B : Type κ} (f : A → B) (xs : List A) → length (map f xs) ≡ length xs
  length-map f [] = refl
  length-map f (x ∷ xs) = omega (arith, length-map f xs)

no_page : (s : ℕ) → 0 ≡ 0 * s
no_page s = omega arith

next_page : (n s : ℕ) → n * s + s ≡ suc n * s
next_page n s = omega arith

module _ (go : Golib) (secret tenant cluster : String) where
  abbrev by_creation : Db → List Node
  by_creation db =
      order_by (λ (n : Node). n.created_at) (select (in_cluster tenant cluster) db.nodes)

  abbrev nodes_of : Result NodeListResponse → List NodeSummary
  nodes_of (ok r) = r.nodes
  nodes_of (err e) = []

  -- The nodes of the pages 1 to n, each read without faults.
  unfoldable pub pages : ℕ → ℕ → Db → List NodeSummary
  pages zero size db = []
  pages (suc n) size db =
      pages n size db
      ++ nodes_of (list_nodes go secret (λ k. false) tenant cluster (suc n) size db).0

  page-map :
      (n size : ℕ) (db : Db)
      → (count (is_cluster tenant cluster) db.clusters == 0) ≡ false
      → nodes_of (list_nodes go secret (λ k. false) tenant cluster (suc n) size db).0
        ≡ map
            (summary go secret)
            (take (clamp_size size) (drop (n * clamp_size size) (by_creation db)))
  unfolding list_nodes page
  page-map n size db e =
      let at_least : ltb (suc n) 1 ≡ false = ground arith in
      let before : suc n - 1 ≡ n = omega arith in rw (e, at_least, before) refl

  pages-take :
      (n size : ℕ) (db : Db)
      → (count (is_cluster tenant cluster) db.clusters == 0) ≡ false
      → pages n size db ≡ map (summary go secret) (take (n * clamp_size size) (by_creation db))
  unfolding pages
  pages-take zero size db e =
      ap (λ m. map (summary go secret) (take m (by_creation db))) (no_page (clamp_size size))
  pages-take (suc n) size db e =
      ap (λ xs. xs ++ nodes_of (list_nodes go secret (λ k. false) tenant cluster (suc n) size db).0)
        (pages-take n size db e)
      ∙ ap (λ xs. map (summary go secret) (take (n * clamp_size size) (by_creation db)) ++ xs)
          (page-map n size db e)
      ∙ sym (
          map-append (summary go secret) (take (n * clamp_size size) (by_creation db))
            (take (clamp_size size) (drop (n * clamp_size size) (by_creation db))))
      ∙ ap (map (summary go secret))
          (take-more (n * clamp_size size) (clamp_size size) (by_creation db))
      ∙ ap (λ m. map (summary go secret) (take m (by_creation db)))
          (let next : n * clamp_size size + clamp_size size ≡ suc n * clamp_size size =
              next_page n (clamp_size size) in
            next)

  -- In a cluster that exists, the pages 1 to n, where n times the page size reaches the number of
  -- its nodes, are the summaries of all its nodes in the order of their creation, each once; the
  -- page size is at least 1 and at most 500.
  pub pages-all :
      (n size : ℕ) (db : Db)
      → (count (is_cluster tenant cluster) db.clusters == 0) ≡ false
      → count (in_cluster tenant cluster) db.nodes ≤ n * clamp_size size
      → (pages n size db ≡ map (summary go secret) (by_creation db))
        × (1 ≤ clamp_size size)
        × (clamp_size size ≤ 500)
  pages-all n size db e le = (
    pages-take n size db e
        ∙ ap (map (summary go secret)) (
            take-enough (n * clamp_size size) (by_creation db) (
              omega (
                arith,
                length-order_by (λ (k : Node). k.created_at)
                    (select (in_cluster tenant cluster) db.nodes),
                length-select (in_cluster tenant cluster) db.nodes,
              ))),
    ground arith,
    ground arith,
  )
