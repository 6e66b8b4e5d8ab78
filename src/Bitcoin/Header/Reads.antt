-- ===== src/Bitcoin/Header/Reads.antt =====
-- Reading a block header, against its bytes and its hash.
use electrumz.Base.{
  ℕ, Bytes, some, [], ◌∷◌, ◌++◌, ◌≡◌, refl, sym, ap, ◌∙◌, subst, length, take, drop, All,
  some-injective, IsBehind, IsBehind-trans,
}
use electrumz.Bitcoin.Hash.{Digests, serialize_hash-join, join}
use electrumz.Txo.Record.RoundTrip.{length-le_bytes}
use electrumz.Txo.Record.{le_bytes, from_le, read_bytes}
use electrumz.Bitcoin.Header.{Header, pieces, write_header, get_hash, read_header}
use electrumz.Bitcoin.Header.Parts.{
  IsByte, le_bytes-from_le, bind-some, read_bytes-inv, read_bytes-IsByte, put_front, take-front,
  drop-front, length-join,
}

-- The members that were read, put together again.
module _ (bytes : Bytes) (v p m t b n : Bytes × Bytes) (all : All IsByte bytes)
    (e₁ : read_bytes 4 bytes ≡ some v) (e₂ : read_bytes 32 v.1 ≡ some p)
    (e₃ : read_bytes 32 p.1 ≡ some m) (e₄ : read_bytes 4 m.1 ≡ some t)
    (e₅ : read_bytes 4 t.1 ≡ some b) (e₆ : read_bytes 4 b.1 ≡ some n) where
  abbrev of_parts : Header
  of_parts = record {
    version = from_le v.0;
    prev_block = p.0;
    merkle_root = m.0;
    time = from_le t.0;
    bits = from_le b.0;
    nonce = from_le n.0;
  }

  write_header-of_parts :
      (write_header of_parts ++ n.1 ≡ bytes) × (length (write_header of_parts) ≡ 80)
  unfolding write_header
  write_header-of_parts =
      let (l₁, f₁, a₁, r₁) = read_bytes-IsByte 4 bytes v e₁ all in
      let (l₂, f₂, a₂, r₂) = read_bytes-IsByte 32 v.1 p e₂ r₁ in
      let (l₃, f₃, a₃, r₃) = read_bytes-IsByte 32 p.1 m e₃ r₂ in
      let (l₄, f₄, a₄, r₄) = read_bytes-IsByte 4 m.1 t e₄ r₃ in
      let (l₅, f₅, a₅, r₅) = read_bytes-IsByte 4 t.1 b e₅ r₄ in
      let (l₆, f₆, a₆, r₆) = read_bytes-IsByte 4 b.1 n e₆ r₅ in
      let four = λ (part : Bytes). le_bytes 4 (from_le part) in
      (
        put_front v.0 (four v.0) _ n.1 v.1 bytes (le_bytes-from_le 4 v.0 l₁ a₁) f₁ (
            put_front p.0 p.0 _ n.1 p.1 v.1 refl f₂ (
              put_front m.0 m.0 (join (four t.0 ∷ four b.0 ∷ four n.0 ∷ [])) n.1 m.1 p.1 refl f₃ (
                put_front t.0 (four t.0) (join (four b.0 ∷ four n.0 ∷ [])) n.1 t.1 m.1
                  (le_bytes-from_le 4 t.0 l₄ a₄) f₄
                  (put_front b.0 (four b.0) (join (four n.0 ∷ [])) n.1 b.1 t.1
                    (le_bytes-from_le 4 b.0 l₅ a₅) f₅
                    (put_front n.0 (four n.0) [] n.1 n.1 b.1 (le_bytes-from_le 4 n.0 l₆ a₆) f₆
                      refl))))),
        length-join (four v.0) p.0 m.0 (four t.0) (four b.0) (four n.0)
            (length-le_bytes 4 (from_le v.0)) l₂ l₃ (length-le_bytes 4 (from_le t.0))
            (length-le_bytes 4 (from_le b.0)) (length-le_bytes 4 (from_le n.0)),
      )

-- A header that is read is written as the bytes it was read from.
abbrev pub Rewrites : Bytes → Header × Bytes → Type 0
Rewrites bytes (h, rest) = (write_header h ++ rest ≡ bytes) × (length (write_header h) ≡ 80)

pub write_header-read_header :
    (bytes : Bytes) (r : Header × Bytes)
    → All IsByte bytes
    → read_header bytes ≡ some r
    → Rewrites bytes r
unfolding read_header
write_header-read_header bytes r all e =
    let (v, e₁, k₁) = bind-some (read_bytes 4 bytes) _ r e in
    let (p, e₂, k₂) = bind-some (read_bytes 32 v.1) _ r k₁ in
    let (m, e₃, k₃) = bind-some (read_bytes 32 p.1) _ r k₂ in
    let (t, e₄, k₄) = bind-some (read_bytes 4 m.1) _ r k₃ in
    let (b, e₅, k₅) = bind-some (read_bytes 4 t.1) _ r k₄ in
    let (n, e₆, k₆) = bind-some (read_bytes 4 b.1) _ r k₅ in
    subst (Rewrites bytes)
      (some-injective (of_parts bytes v p m t b n all e₁ e₂ e₃ e₄ e₅ e₆, n.1) r k₆)
      (write_header-of_parts bytes v p m t b n all e₁ e₂ e₃ e₄ e₅ e₆)

-- A header that is read stands in front of what is left.
pub read_header-IsBehind :
    (bytes : Bytes) (h : Header) (rest : Bytes)
    → read_header bytes ≡ some (h, rest)
    → IsBehind bytes rest
unfolding read_header
read_header-IsBehind bytes h rest e =
    let r : Header × Bytes = (h, rest) in
    let (v, e₁, k₁) = bind-some (read_bytes 4 bytes) _ r e in
    let (p, e₂, k₂) = bind-some (read_bytes 32 v.1) _ r k₁ in
    let (m, e₃, k₃) = bind-some (read_bytes 32 p.1) _ r k₂ in
    let (t, e₄, k₄) = bind-some (read_bytes 4 m.1) _ r k₃ in
    let (b, e₅, k₅) = bind-some (read_bytes 4 t.1) _ r k₄ in
    let (n, e₆, k₆) = bind-some (read_bytes 4 b.1) _ r k₅ in
    let to_n = IsBehind-trans bytes v.1 n.1 (behind 4 bytes v e₁) (
      IsBehind-trans v.1 p.1 n.1 (behind 32 v.1 p e₂) (
        IsBehind-trans p.1 m.1 n.1 (behind 32 p.1 m e₃) (
          IsBehind-trans m.1 t.1 n.1 (behind 4 m.1 t e₄)
            (IsBehind-trans t.1 b.1 n.1 (behind 4 t.1 b e₅) (behind 4 b.1 n e₆))))) in
    subst (IsBehind bytes) (ap (λ (q : Header × Bytes). q.1) (some-injective _ r k₆)) to_n
  where
    behind :
        (k : ℕ) (bytes : Bytes) (r : Bytes × Bytes)
        → read_bytes k bytes ≡ some r
        → IsBehind bytes r.1
    behind k bytes r e = let (_, f) = read_bytes-inv k bytes r e in (r.0, f)

-- A header read from the bytes of a file is written as the 80 bytes that it was read from, and its
-- hash is the two rounds of SHA-256 over them; the stream goes on behind them.
pub get_hash-read_header :
    (digests : Digests) (bytes : Bytes) (h : Header) (rest : Bytes)
    → All IsByte bytes
    → read_header bytes ≡ some (h, rest)
    → (write_header h ≡ take 80 bytes)
      × (rest ≡ drop 80 bytes)
      × (get_hash digests h ≡ some (digests.sha256 (digests.sha256 (take 80 bytes))))
unfolding get_hash write_header
get_hash-read_header digests bytes h rest all e =
    let (f, l) = write_header-read_header bytes (h, rest) all e in
    let front = take-front 80 (write_header h) rest bytes f l in
    (
      sym front,
      sym (drop-front 80 (write_header h) rest bytes f l),
      serialize_hash-join digests (pieces h)
          ∙ ap (λ (b : Bytes). some (digests.sha256 (digests.sha256 b))) (sym front),
    )
