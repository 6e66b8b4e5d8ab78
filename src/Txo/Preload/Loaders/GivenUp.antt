-- ===== src/Txo/Preload/Loaders/GivenUp.antt =====
-- The threads that run, and those that have returned with a code.
use electrumz.Base.{
  ℕ, zero, suc, ◌≡◌, refl, sym, subst, some, some-injective, List, [], ◌∷◌, get_elem?, ◌⊎◌, inl,
  inr, All, arith,
}
use electrumz.Txo.Preload.Loaders.{Loader, idle, reading, storing, ended, gave_up, set, IsRunning}

-- A thread that returned with a code.
abbrev pub GaveUp : Loader → Type 0
GaveUp (gave_up file code) = Unit
GaveUp _ = ⊥

abbrev pub HasGivenUp : List Loader → Type 0
HasGivenUp [] = ⊥
HasGivenUp (t ∷ ts) = GaveUp t ⊎ HasGivenUp ts

pub set-HasGivenUp :
    (ts : List Loader) (i : ℕ) (t t' : Loader)
    → get_elem? ts i ≡ some t
    → GaveUp t'
    → HasGivenUp (set ts i t')
set-HasGivenUp [] i t t' e g = absurd (ground arith)
set-HasGivenUp (x ∷ ts) zero t t' e g = inl g
set-HasGivenUp (x ∷ ts) (suc i) t t' e g = inr (set-HasGivenUp ts i t t' e g)

not_both : (t : Loader) → IsRunning t → GaveUp t → ⊥
not_both idle r g = g
not_both (reading file rest) r g = g
not_both (storing file blk rest) r g = g
not_both ended r g = g
not_both (gave_up file code) r g = r

pub HasGivenUp-set :
    (ts : List Loader) (i : ℕ) (t t' : Loader)
    → get_elem? ts i ≡ some t
    → IsRunning t
    → HasGivenUp ts
    → HasGivenUp (set ts i t')
HasGivenUp-set [] i t t' e r h = absurd h
HasGivenUp-set (x ∷ ts) zero t t' e r (inl g) =
    absurd (not_both x (subst IsRunning (sym (some-injective x t e)) r) g)
HasGivenUp-set (x ∷ ts) zero t t' e r (inr h) = inr h
HasGivenUp-set (x ∷ ts) (suc i) t t' e r (inl g) = inl g
HasGivenUp-set (x ∷ ts) (suc i) t t' e r (inr h) = inr (HasGivenUp-set ts i t t' e r h)

running? : (t : Loader) → (¬ IsRunning t) ⊎ IsRunning t
running? idle = inr tt
running? (reading file rest) = inr tt
running? (storing file blk rest) = inr tt
running? ended = inl (λ h. h)
running? (gave_up file code) = inl (λ h. h)

pub first-IsRunning :
    (ts : List Loader)
    → All (λ t. ¬ IsRunning t) ts
      ⊎ ((i : ℕ) × (t : Loader) × (get_elem? ts i ≡ some t) × IsRunning t)
first-IsRunning [] = inl tt
first-IsRunning (t ∷ ts) = by_head (running? t) (first-IsRunning ts)
  where
    by_head :
        (¬ IsRunning t) ⊎ IsRunning t
        → All (λ t. ¬ IsRunning t) ts
          ⊎ ((i : ℕ) × (t : Loader) × (get_elem? ts i ≡ some t) × IsRunning t)
        → All (λ t. ¬ IsRunning t) (t ∷ ts)
          ⊎ ((i : ℕ) × (t' : Loader) × (get_elem? (t ∷ ts) i ≡ some t') × IsRunning t')
    by_head (inr r) rest = inr (0, t, refl, r)
    by_head (inl n) (inl all) = inl (n, all)
    by_head (inl n) (inr (i, t', e, r)) = inr (suc i, t', e, r)
