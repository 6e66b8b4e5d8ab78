-- ===== src/Base/Outcome.antt =====
-- How a piece of C++ ends: with a value, with an exception of the JSON library, or with undefined
-- behaviour or a failed assertion. What was done before an exception stays done, so the state comes
-- back beside it too.
use electrumz.Base.Tests.{if◌then◌else◌}
use mathlib.Core.Bool.{Bool, true, false}
use mathlib.Core.Path.{◌≡◌, refl}

pub data Outcome (S A : Type 0) : Type 0 where
  done : S → A → Outcome S A
  threw : S → Outcome S A
  fault : Outcome S A

abbrev pub Exec : Type 0 → Type 0 → Type 0
Exec S A = S → Outcome S A

module _ {S A B : Type 0} where
  -- What follows a step that has ended in some way.
  abbrev pub continue : Outcome S A → (A → Exec S B) → Outcome S B
  continue (done s a) f = f a s
  continue (threw s) f = threw s
  continue fault f = fault

  infixl 5 ◌>>=◌ ◌>>◌
  abbrev pub ◌>>=◌ : Exec S A → (A → Exec S B) → Exec S B
  ◌>>=◌ m f s = continue (m s) f

  abbrev pub ◌>>◌ : Exec S A → Exec S B → Exec S B
  m >> k = m >>= λ _. k

module _ {S A : Type 0} where
  abbrev pub pure : A → Exec S A
  pure a s = done s a

  abbrev pub raise : Exec S A
  raise s = threw s

  abbrev pub crash : Exec S A
  crash s = fault

module _ {S A : Type 0} where
  -- The state that a step leaves, whether it returns or throws, satisfies `P`.
  abbrev pub After : (S → Type 0) → Outcome S A → Type 0
  After P (done s a) = P s
  After P (threw s) = P s
  After P fault = Unit

pub continue-After :
    {S A B : Type 0} {P Q : S → Type 0} (o : Outcome S A) (f : A → Exec S B)
    → After P o
    → ((s : S) → P s → Q s)
    → ((a : A) (s : S) → P s → After Q (f a s))
    → After Q (continue o f)
continue-After (done s a) f h k n = n a s h
continue-After (threw s) f h k n = k s h
continue-After fault f h k n = tt

-- Both branches of a test, where each may use which one it is.
pub if-After :
    {S A : Type 0} (P : S → Type 0) (b : Bool) (o r : Outcome S A)
    → (b ≡ true → After P o)
    → (b ≡ false → After P r)
    → After P (if b then o else r)
if-After P true o r h k = h refl
if-After P false o r h k = k refl

-- Not an exception, and defined.
abbrev pub Returns : {S A : Type 0} → Outcome S A → Type 0
Returns (done s a) = Unit
Returns (threw s) = ⊥
Returns fault = ⊥

pub continue-Returns :
    {S A B : Type 0} (o : Outcome S A) (f : A → Exec S B)
    → Returns o
    → ((a : A) (s : S) → Returns (f a s))
    → Returns (continue o f)
continue-Returns (done s a) f h k = k a s
continue-Returns (threw s) f h k = absurd h
continue-Returns fault f h k = absurd h

pub if-Returns :
    {S A : Type 0} (b : Bool) (o r : Outcome S A)
    → Returns o
    → Returns r
    → Returns (if b then o else r)
if-Returns true o r h k = h
if-Returns false o r h k = k
