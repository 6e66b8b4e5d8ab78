-- ===== src/Rpc/Queries.antt =====
-- Open queries and their promises.
use electrumz.Base.{
  ℕ, zero, suc, ◌<◌, ◌≤◌, Bool, true, false, ◌≡◌, ◌≢◌, refl, ap, sym, ◌∙◌, inl, inr, Option, none,
  some, none-ne-some, some-injective, List, [], ◌∷◌, ◌++◌, length, get_elem?, ℤ, Bool-cases,
  if◌then◌else◌, arith,
}
use electrumz.Rpc.{same_int, find_id, erase_id, set_nth}

module _ {V : Type 0} where
  pub length-set_nth : (i : ℕ) (v : V) (xs : List V) → length (set_nth i v xs) ≡ length xs
  length-set_nth i v [] = refl
  length-set_nth zero v (x ∷ xs) = refl
  length-set_nth (suc i) v (x ∷ xs) = ap suc (length-set_nth i v xs)

  pub get_elem?-set_nth :
      (i j : ℕ) (v : V) (xs : List V) → i ≢ j → get_elem? (set_nth i v xs) j ≡ get_elem? xs j
  get_elem?-set_nth i j v [] h = refl
  get_elem?-set_nth zero zero v (x ∷ xs) h = absurd (h refl)
  get_elem?-set_nth zero (suc j) v (x ∷ xs) h = refl
  get_elem?-set_nth (suc i) zero v (x ∷ xs) h = refl
  get_elem?-set_nth (suc i) (suc j) v (x ∷ xs) h = get_elem?-set_nth i j v xs (λ e. h (ap suc e))

  get_elem?-append_front :
      (xs ys : List V) (i : ℕ) → i < length xs → get_elem? (xs ++ ys) i ≡ get_elem? xs i
  get_elem?-append_front [] ys i h = absurd (omega arith)
  get_elem?-append_front (x ∷ xs) ys zero h = refl
  get_elem?-append_front (x ∷ xs) ys (suc i) h = get_elem?-append_front xs ys i (omega arith)

  pub get_elem?-append_end : (xs : List V) (y : V) → get_elem? (xs ++ (y ∷ [])) (length xs) ≡ some y
  get_elem?-append_end [] y = refl
  get_elem?-append_end (x ∷ xs) y = get_elem?-append_end xs y

  pub set_nth-append_end :
      (xs : List V) (y v : V) → set_nth (length xs) v (xs ++ (y ∷ [])) ≡ xs ++ (v ∷ [])
  set_nth-append_end [] y v = refl
  set_nth-append_end (x ∷ xs) y v = ap (◌∷◌ x) (set_nth-append_end xs y v)

find_id_head :
    (b : Bool) (p q : ℕ) (rest : Option ℕ)
    → b ≡ true
    → (if b then some p else rest) ≡ some q
    → p ≡ q
find_id_head true p q rest e h = some-injective p q h
find_id_head false p q rest e h = absurd (ground arith)

module _ {V : Type 0} where
  -- The promises of the queries are distinct, the newest first, all below `n`, and none is set yet.
  abbrev pub IsWaiting : ℕ → List (ℤ × ℕ) → List (Option V) → Type 0
  IsWaiting n [] promises = Unit
  IsWaiting n ((id, p) ∷ queries) promises =
      (p < n) × (get_elem? promises p ≡ some none) × IsWaiting p queries promises

  pub IsWaiting-below :
      (m n : ℕ) (queries : List (ℤ × ℕ)) (promises : List (Option V))
      → m ≤ n
      → IsWaiting m queries promises
      → IsWaiting n queries promises
  IsWaiting-below m n [] promises l h = tt
  IsWaiting-below m n ((id, p) ∷ queries) promises l (b, u, h) = (omega arith, u, h)

  pub IsWaiting-append :
      (n : ℕ) (queries : List (ℤ × ℕ)) (promises : List (Option V))
      → n ≤ length promises
      → IsWaiting n queries promises
      → IsWaiting n queries (promises ++ (none ∷ []))
  IsWaiting-append n [] promises l h = tt
  IsWaiting-append n ((id, p) ∷ queries) promises l (b, u, h) = (
    b,
    get_elem?-append_front promises (none ∷ []) p (omega arith) ∙ u,
    IsWaiting-append p queries promises (omega arith) h,
  )

  pub IsWaiting-cons :
      (id : ℤ) (queries : List (ℤ × ℕ)) (promises : List (Option V))
      → IsWaiting (length promises) queries promises
      → IsWaiting
          (suc (length promises))
          ((id, length promises) ∷ queries)
          (promises ++ (none ∷ []))
  IsWaiting-cons id queries promises h = (
    omega arith,
    get_elem?-append_end promises none,
    IsWaiting-append (length promises) queries promises (omega arith) h,
  )

  IsWaiting-set :
      (n q : ℕ) (v : Option V) (queries : List (ℤ × ℕ)) (promises : List (Option V))
      → n ≤ q
      → IsWaiting n queries promises
      → IsWaiting n queries (set_nth q v promises)
  IsWaiting-set n q v [] promises l h = tt
  IsWaiting-set n q v ((id, p) ∷ queries) promises l (b, u, h) = (
    b,
    get_elem?-set_nth q p v promises (λ e. absurd (omega arith)) ∙ u,
    IsWaiting-set p q v queries promises (omega arith) h,
  )

  pub found_below :
      (k : ℤ) (q n : ℕ) (queries : List (ℤ × ℕ)) (promises : List (Option V))
      → IsWaiting n queries promises
      → find_id k queries ≡ some q
      → (q < n) × (get_elem? promises q ≡ some none)
  found_below k q n [] promises h e = absurd (none-ne-some q e)
  found_below k q n ((id, p) ∷ queries) promises (b, u, h) e = elim (Bool-cases (same_int id k)) [
    | inl same ↦
        let here = find_id_head (same_int id k) p q (find_id k queries) same e in
        (omega arith, ap (get_elem? promises) (sym here) ∙ u)
    | inr other ↦
        let (l, w) =
          found_below k q p queries promises h
            (ap (λ (b : Bool). if b then some p else find_id k queries) (sym other) ∙ e) in
        (omega arith, w)
  ]

  -- Completing a query leaves the others waiting.
  pub IsWaiting-erase_id :
      (k : ℤ) (q n : ℕ) (v : Option V) (queries : List (ℤ × ℕ)) (promises : List (Option V))
      → IsWaiting n queries promises
      → find_id k queries ≡ some q
      → IsWaiting n (erase_id k queries) (set_nth q v promises)
  IsWaiting-erase_id k q n v [] promises h e = tt
  IsWaiting-erase_id k q n v ((id, p) ∷ queries) promises (b, u, h) e =
      elim (Bool-cases (same_int id k)) [
        | inl same ↦
            let here = find_id_head (same_int id k) p q (find_id k queries) same e in
            rw same (
              IsWaiting-below p n queries (set_nth q v promises) (omega arith)
                (IsWaiting-set p q v queries promises (omega arith) h))
        | inr other ↦
            let later =
              ap (λ (b : Bool). if b then some p else find_id k queries) (sym other) ∙ e in
            let (l, w) = found_below k q p queries promises h later in
            rw other (
              b,
              get_elem?-set_nth q p v promises (λ e. absurd (omega arith)) ∙ u,
              IsWaiting-erase_id k q p v queries promises h later,
            )
      ]
