-- ===== src/Txo/Preload/Loaders/Sums.antt =====
-- Sums over the threads and over lists.
use electrumz.Base.{
  ℕ, zero, suc, ◌+◌, ◌≡◌, refl, ap, sym, subst, some, List, [], ◌∷◌, ◌++◌, get_elem?, none-ne-some,
  some-injective, if◌then◌else◌, arith, All, Bool, true, false, not, ◌∙◌, Bool-cases, inl, inr,
  ◌||◌, ltb, lt→ltb,
}
use electrumz.Txo.Preload.Loaders.{Loader, idle, set, idles}

module _ {A : Type 0} where
  -- How many pass a test.
  abbrev pub count : (A → Bool) → List A → ℕ
  count p [] = 0
  count p (x ∷ xs) = (if p x then 1 else 0) + count p xs

  pub count-append : (p : A → Bool) (xs ys : List A) → count p (xs ++ ys) ≡ count p xs + count p ys
  count-append p [] ys = omega arith
  count-append p (x ∷ xs) ys = omega (arith, count-append p xs ys)

  count_zero :
      (p : A → Bool) (xs : List A) → All (λ x. p x ≡ true) xs → count (λ x. not (p x)) xs ≡ 0
  count_zero p [] h = refl
  count_zero p (x ∷ xs) (h, hs) = rw h (omega (arith, count_zero p xs hs))

  zero_count :
      (p : A → Bool) (xs : List A) → count (λ x. not (p x)) xs ≡ 0 → All (λ x. p x ≡ true) xs
  zero_count p [] h = tt
  zero_count p (x ∷ xs) h = elim (Bool-cases (p x)) [
    | inl e ↦ (e, zero_count p xs (omega (arith, rest_of true e, h)))
    | inr e ↦ absurd (too_many (sym (rest_of false e) ∙ h))
  ]
    where
      rest_of :
          (b : Bool)
          → p x ≡ b
          → count (λ x. not (p x)) (x ∷ xs) ≡ (if not b then 1 else 0) + count (λ x. not (p x)) xs
      rest_of b e = ap (λ (b : Bool). (if not b then 1 else 0) + count (λ x. not (p x)) xs) e

      too_many : 1 + count (λ x. not (p x)) xs ≡ 0 → ⊥
      too_many d = omega (arith, d)

  abbrev pub any : (A → Bool) → List A → Bool
  any p [] = false
  any p (x ∷ xs) = p x || any p xs

  any-count : (p : A → Bool) (xs : List A) → any p xs ≡ ltb 0 (count p xs)
  any-count p [] = refl
  any-count p (x ∷ xs) = by_test (p x) (count p xs) (any p xs) (any-count p xs)
    where
      by_test :
          (b : Bool) (k : ℕ) (a : Bool) → a ≡ ltb 0 k → (b || a) ≡ ltb 0 ((if b then 1 else 0) + k)
      by_test true k a h = sym (lt→ltb 0 (1 + k) (omega arith))
      by_test false k a h = h ∙ ap (ltb 0) (omega arith)

  pub any-same : (p : A → Bool) (xs ys : List A) → count p xs ≡ count p ys → any p xs ≡ any p ys
  any-same p xs ys e = any-count p xs ∙ ap (ltb 0) e ∙ sym (any-count p ys)

  -- A test that all of one list pass is passed by all of a list that has the same counts.
  pub All-count :
      (p : A → Bool) (xs ys : List A)
      → ((q : A → Bool) → count q xs ≡ count q ys)
      → All (λ y. p y ≡ true) ys
      → All (λ x. p x ≡ true) xs
  All-count p xs ys same h = zero_count p xs (same (λ x. not (p x)) ∙ count_zero p ys h)

abbrev pub sum_threads : (Loader → ℕ) → List Loader → ℕ
sum_threads f [] = 0
sum_threads f (t ∷ ts) = f t + sum_threads f ts

-- A step of one thread changes the sum by what it changes for that thread.
pub sum_threads-set :
    (f : Loader → ℕ) (ts : List Loader) (i : ℕ) (t t' : Loader)
    → get_elem? ts i ≡ some t
    → sum_threads f (set ts i t') + f t ≡ sum_threads f ts + f t'
sum_threads-set f [] i t t' e = absurd (none-ne-some t e)
sum_threads-set f (x ∷ ts) zero t t' e = omega (arith, ap f (some-injective x t e))
sum_threads-set f (x ∷ ts) (suc i) t t' e = omega (arith, sum_threads-set f ts i t t' e)

pub sum_threads-idles : (f : Loader → ℕ) (n : ℕ) → f idle ≡ 0 → sum_threads f (idles n) ≡ 0
sum_threads-idles f zero h = refl
sum_threads-idles f (suc n) h = omega (arith, h, sum_threads-idles f n h)

-- What holds for all threads behind a step, and for the thread before it, held for all before it.
pub All-unset :
    (P : Loader → Type 0) (ts : List Loader) (i : ℕ) (t t' : Loader)
    → get_elem? ts i ≡ some t
    → P t
    → All P (set ts i t')
    → P t' × All P ts
All-unset P [] i t t' e h all = absurd (none-ne-some t e)
All-unset P (x ∷ ts) zero t t' e h (k, all) = (k, (subst P (sym (some-injective x t e)) h, all))
All-unset P (x ∷ ts) (suc i) t t' e h (k, all) =
    let (l, r) = All-unset P ts i t t' e h all in (l, (k, r))
