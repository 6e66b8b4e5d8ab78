-- ===== src/Base/Search.antt =====
-- Boolean tests on bytes with what they decide, and what is left of bytes.
use Prim.Native.Nat.{ℕ, ◌≤◌, zero, suc}
use mathlib.Core.Bool.{Bool, true, false, ◌&&◌, ◌||◌}
use mathlib.Core.List.{[], ◌∷◌, ◌++◌, append_assoc, append-nil}
use mathlib.Core.Logic.{◌⊎◌, inl, inr}
use mathlib.Core.Path.{◌≡◌, refl, ap, ap₂, ◌∙◌, subst}
use native.Mathlib.Omega.{arith}
use electrumz.Base.Tests.{◌==◌, ==_iff}
use electrumz.Base.Lists.{length, length-append, drop}
use electrumz.Base.Text.{Bytes}

pub and_true : (a b : Bool) → (a && b) ≡ true → (a ≡ true) × (b ≡ true)
and_true a b h = (ground arith, ground arith)

pub true_and : (a b : Bool) → a ≡ true → b ≡ true → (a && b) ≡ true
true_and a b h k = ground arith

pub or_true : (a b : Bool) → (a || b) ≡ true → (a ≡ true) ⊎ (b ≡ true)
or_true true b h = inl refl
or_true false b h = inr h

pub true_or : (a b : Bool) → (a ≡ true) ⊎ (b ≡ true) → (a || b) ≡ true
true_or true b h = refl
true_or false b (inl h) = absurd (ground arith)
true_or false b (inr h) = h

abbrev pub same_bytes : Bytes → Bytes → Bool
same_bytes [] [] = true
same_bytes (a ∷ as') (b ∷ bs) = (a == b) && same_bytes as' bs
same_bytes _ _ = false

pub same_bytes-eq : (as' bs : Bytes) → same_bytes as' bs ≡ true → as' ≡ bs
same_bytes-eq [] [] h = refl
same_bytes-eq (a ∷ as') (b ∷ bs) h =
    let (e, f) = and_true (a == b) (same_bytes as' bs) h in
    ap₂ (λ (x : ℕ) (xs : Bytes). x ∷ xs) ((==_iff a b).0 e) (same_bytes-eq as' bs f)
same_bytes-eq [] (b ∷ bs) h = cc
same_bytes-eq (a ∷ as') [] h = cc

pub same_bytes_refl : (as' : Bytes) → same_bytes as' as' ≡ true
same_bytes_refl [] = refl
same_bytes_refl (a ∷ as') = rw ((==_iff a a).1 refl) (same_bytes_refl as')

pub eq-same_bytes : (as' bs : Bytes) → as' ≡ bs → same_bytes as' bs ≡ true
eq-same_bytes as' bs e = subst (λ (x : Bytes). same_bytes as' x ≡ true) e (same_bytes_refl as')

abbrev pub starts_with : Bytes → Bytes → Bool
starts_with [] bs = true
starts_with (a ∷ as') (b ∷ bs) = (a == b) && starts_with as' bs
starts_with (a ∷ as') [] = false

starts_with-inv : (as' bs : Bytes) → starts_with as' bs ≡ true → (rest : Bytes) × (as' ++ rest ≡ bs)
starts_with-inv [] bs h = (bs, refl)
starts_with-inv (a ∷ as') (b ∷ bs) h =
    let (e, f) = and_true (a == b) (starts_with as' bs) h in
    let (rest, d) = starts_with-inv as' bs f in
    (rest, ap₂ (λ (x : ℕ) (xs : Bytes). x ∷ xs) ((==_iff a b).0 e) d)
starts_with-inv (a ∷ as') [] h = cc

starts_with-append : (as' rest : Bytes) → starts_with as' (as' ++ rest) ≡ true
starts_with-append [] rest = refl
starts_with-append (a ∷ as') rest = rw ((==_iff a a).1 refl) (starts_with-append as' rest)

-- The bytes of the second have those of the first somewhere, one behind the other.
abbrev pub contains : Bytes → Bytes → Bool
contains as' [] = starts_with as' []
contains as' (b ∷ bs) = starts_with as' (b ∷ bs) || contains as' bs

abbrev pub Contains : Bytes → Bytes → Type 0
Contains as' bs = (front : Bytes) × (rest : Bytes) × (front ++ (as' ++ rest) ≡ bs)

pub contains-Contains : (as' bs : Bytes) → contains as' bs ≡ true → Contains as' bs
contains-Contains as' [] h = let (rest, e) = starts_with-inv as' [] h in ([], rest, e)
contains-Contains as' (b ∷ bs) h = elim (or_true (starts_with as' (b ∷ bs)) (contains as' bs) h) [
  | inl s ↦ let (rest, e) = starts_with-inv as' (b ∷ bs) s in ([], rest, e)
  | inr c ↦
      let (front, rest, e) = contains-Contains as' bs c in
      (b ∷ front, rest, ap (λ (xs : Bytes). b ∷ xs) e)
]

pub Contains-contains : (as' bs : Bytes) → Contains as' bs → contains as' bs ≡ true
Contains-contains as' bs (front, rest, e) =
    subst (λ (x : Bytes). contains as' x ≡ true) e (behind front rest)
  where
    here : (bs : Bytes) → starts_with as' bs ≡ true → contains as' bs ≡ true
    here [] h = h
    here (b ∷ bs) h = true_or _ _ (inl h)

    behind : (front rest : Bytes) → contains as' (front ++ (as' ++ rest)) ≡ true
    behind [] rest = here (as' ++ rest) (starts_with-append as' rest)
    behind (b ∷ front) rest = true_or _ _ (inr (behind front rest))

-- The second is what is left of the first behind some bytes.
abbrev pub IsBehind : Bytes → Bytes → Type 0
IsBehind whole rest = (front : Bytes) × (front ++ rest ≡ whole)

pub IsBehind-trans : (a b c : Bytes) → IsBehind a b → IsBehind b c → IsBehind a c
IsBehind-trans a b c (f, e) (g, d) = (f ++ g, append_assoc f g c ∙ ap (λ (x : Bytes). f ++ x) d ∙ e)

pub IsBehind-le : (a b : Bytes) → IsBehind a b → length b ≤ length a
IsBehind-le a b (f, e) = omega (arith, length-append f b, ap (length {A = ℕ}) e)

pub IsBehind-self : (a : Bytes) → IsBehind a a
IsBehind-self a = ([], refl)

pub behind_all : (a : Bytes) → IsBehind a []
behind_all a = (a, append-nil a)

pub IsBehind-drop : (n : ℕ) (a : Bytes) → IsBehind a (drop n a)
IsBehind-drop zero a = ([], refl)
IsBehind-drop (suc n) [] = ([], refl)
IsBehind-drop (suc n) (x ∷ a) = let (f, e) = IsBehind-drop n a in (x ∷ f, ap (◌∷◌ x) e)
