-- ===== src/Bitcoin/Header/Parts.antt =====
-- The bytes that the members of a header are read from.
use electrumz.Base.{
  ℕ, zero, suc, ◌+◌, ◌*◌, ◌/◌, ◌%◌, ◌<◌, Bytes, Option, none, some, [], ◌∷◌, ◌++◌, ◌≡◌, refl, sym,
  ap, ap₂, ◌∙◌, subst, length, take, drop, leb, arith, All, Bool-cases, inl, inr, append_assoc,
  length-append, take-append_front, drop-append_front, length-take, leb→le, some-injective,
  none-ne-some,
}
use electrumz.Bitcoin.Hash.{join}
use electrumz.Txo.Record.{le_bytes, from_le, read_bytes}
use electrumz.Bitcoin.Header.{◌>>=◌}

abbrev pub IsByte : ℕ → Type 0
IsByte b = b < 256

-- Bytes are those of the number that they stand for.
pub le_bytes-from_le :
    (k : ℕ) (bytes : Bytes)
    → length bytes ≡ k
    → All IsByte bytes
    → le_bytes k (from_le bytes) ≡ bytes
le_bytes-from_le zero [] e h = refl
le_bytes-from_le zero (b ∷ bytes) e h = absurd (omega arith)
le_bytes-from_le (suc k) [] e h = absurd (omega arith)
le_bytes-from_le (suc k) (b ∷ bytes) e (h, hs) =
    ap₂ (λ (x : ℕ) (xs : Bytes). x ∷ xs) (low b (from_le bytes) h)
      (ap (le_bytes k) (high b (from_le bytes) h) ∙ le_bytes-from_le k bytes (omega arith) hs)
  where
    low : (b n : ℕ) → b < 256 → (b + 256 * n) % 256 ≡ b
    low b n h = omega arith

    high : (b n : ℕ) → b < 256 → (b + 256 * n) / 256 ≡ n
    high b n h = omega arith

pub bind-some :
    {A B : Type 0} (m : Option A) (f : A → Option B) (b : B)
    → (m >>= f) ≡ some b
    → (a : A) × (m ≡ some a) × (f a ≡ some b)
bind-some none f b e = absurd (none-ne-some b e)
bind-some (some a) f b e = (a, refl, e)

take-append-drop : (n : ℕ) (bytes : Bytes) → take n bytes ++ drop n bytes ≡ bytes
take-append-drop zero bytes = refl
take-append-drop (suc n) [] = refl
take-append-drop (suc n) (b ∷ bytes) = ap (◌∷◌ b) (take-append-drop n bytes)

-- What a read of `k` bytes gives.
pub read_bytes-inv :
    (k : ℕ) (bytes : Bytes) (r : Bytes × Bytes)
    → read_bytes k bytes ≡ some r
    → (length r.0 ≡ k) × (r.0 ++ r.1 ≡ bytes)
read_bytes-inv k bytes r e = elim (Bool-cases (leb k (length bytes))) [
  | inl l ↦
      let f : Option.some (take k bytes, drop k bytes) ≡ some r = rw l at e in
      let g = some-injective (take k bytes, drop k bytes) r f in
      (
        subst (λ (q : Bytes × Bytes). length q.0 ≡ k) g
            (omega (arith, length-take k bytes, leb→le k (length bytes) l)),
        subst (λ (q : Bytes × Bytes). q.0 ++ q.1 ≡ bytes) g (take-append-drop k bytes),
      )
  | inr l ↦
      let f : ◌≡◌ {A = Option (Bytes × Bytes)} none (some r) = rw l at e in
      absurd (none-ne-some r f)
]

pub All-front : (xs ys : Bytes) → All IsByte (xs ++ ys) → All IsByte xs × All IsByte ys
All-front [] ys h = (tt, h)
All-front (x ∷ xs) ys (h, hs) = let (a, b) = All-front xs ys hs in ((h, a), b)

-- A read, and both parts made of bytes.
pub read_bytes-IsByte :
    (k : ℕ) (bytes : Bytes) (r : Bytes × Bytes)
    → read_bytes k bytes ≡ some r
    → All IsByte bytes
    → (length r.0 ≡ k) × (r.0 ++ r.1 ≡ bytes) × All IsByte r.0 × All IsByte r.1
read_bytes-IsByte k bytes r e h =
    let (l, f) = read_bytes-inv k bytes r e in
    let (a, b) = All-front r.0 r.1 (subst (All IsByte) (sym f) h) in (l, f, a, b)

-- A part in front of what is put together already.
pub put_front :
    (part part' tail rest bytes whole : Bytes)
    → part' ≡ part
    → part ++ bytes ≡ whole
    → tail ++ rest ≡ bytes
    → (part' ++ tail) ++ rest ≡ whole
put_front part part' tail rest bytes whole e f g =
    append_assoc part' tail rest ∙ ap₂ (λ (a b : Bytes). a ++ b) e g ∙ f

pub take-front :
    (k : ℕ) (front rest bytes : Bytes)
    → front ++ rest ≡ bytes
    → length front ≡ k
    → take k bytes ≡ front
take-front k front rest bytes e l =
    subst (λ (n : ℕ). take n bytes ≡ front) l
      (subst (λ (b : Bytes). take (length front) b ≡ front) e (take-append_front front rest))

pub drop-front :
    (k : ℕ) (front rest bytes : Bytes)
    → front ++ rest ≡ bytes
    → length front ≡ k
    → drop k bytes ≡ rest
drop-front k front rest bytes e l =
    subst (λ (n : ℕ). drop n bytes ≡ rest) l
      (subst (λ (b : Bytes). drop (length front) b ≡ rest) e (drop-append_front front rest))

pub length-join :
    (a b c d e f : Bytes)
    → length a ≡ 4
    → length b ≡ 32
    → length c ≡ 32
    → length d ≡ 4
    → length e ≡ 4
    → length f ≡ 4
    → length (join (a ∷ b ∷ c ∷ d ∷ e ∷ f ∷ [])) ≡ 80
length-join a b c d e f ha hb hc hd he hf = omega (
  arith,
  length-append a (join (b ∷ c ∷ d ∷ e ∷ f ∷ [])),
  length-append b (join (c ∷ d ∷ e ∷ f ∷ [])),
  length-append c (join (d ∷ e ∷ f ∷ [])),
  length-append d (join (e ∷ f ∷ [])),
  length-append e (join (f ∷ [])),
  length-append f [],
)
