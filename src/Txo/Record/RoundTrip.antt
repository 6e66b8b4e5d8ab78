-- ===== src/Txo/Record/RoundTrip.antt =====
-- Writing an output and reading it, and the number of its bytes.
use electrumz.Base.{
  [], ℕ, zero, suc, ◌/◌, ◌<◌, Bytes, some, ◌++◌, ◌≡◌, refl, ap, ◌∙◌, length, arith, length-append,
  take-append_front, drop-append_front, append_assoc, le→leb, subst, sym,
}
use electrumz.Txo.Record.{
  le_bytes, from_le, OutPoint, write_out_point, Txo, approx_size, write_txo, read_bytes,
  read_out_point, read_txo,
}

pub length-le_bytes : (k n : ℕ) → length (le_bytes k n) ≡ k
length-le_bytes zero n = refl
length-le_bytes (suc k) n = ap suc (length-le_bytes k (n / 256))

-- What fits in `k` bytes.
abbrev pub Fits : ℕ → ℕ → Type 0
Fits zero n = n ≡ 0
Fits (suc k) n = Fits k (n / 256)

pub from_le-le_bytes : (k n : ℕ) → Fits k n → from_le (le_bytes k n) ≡ n
from_le-le_bytes zero n h = sym h
from_le-le_bytes (suc k) n h = rw (from_le-le_bytes k (n / 256) h) (omega arith)

pub four_bytes : (n : ℕ) → n < 4294967296 → Fits 4 n
four_bytes n h = omega arith

pub eight_bytes : (n : ℕ) → n < 18446744073709551616 → Fits 8 n
eight_bytes n h = omega arith

-- Reading exactly the bytes that stand in front.
pub read_bytes_front :
    (k : ℕ) (front rest : Bytes)
    → length front ≡ k
    → read_bytes k (front ++ rest) ≡ some (front, rest)
read_bytes_front k front rest e =
    subst (λ (n : ℕ). read_bytes n (front ++ rest) ≡ some (front, rest)) e
      (rw (le→leb (length front) (length (front ++ rest)) (omega (arith, length-append front rest)))
        (rw (take-append_front front rest, drop-append_front front rest) refl))

-- The members in range.
pub record IsTxo (t : Txo) : Type 0 where
  pub n : t.n < 4294967296
  pub value : t.value < 18446744073709551616
  pub hash : length t.spend.hash ≡ 32
  pub spend_n : t.spend.n < 4294967296

read_out_point-write_out_point :
    (p : OutPoint) (rest : Bytes)
    → length p.hash ≡ 32
    → p.n < 4294967296
    → read_out_point (write_out_point p ++ rest) ≡ some (p, rest)
unfolding read_out_point
read_out_point-write_out_point p rest h l =
    rw
      (
        append_assoc p.hash (le_bytes 4 p.n) rest,
        read_bytes_front 32 p.hash (le_bytes 4 p.n ++ rest) h,
        read_out_point,
      )
      (rw
        (
          read_bytes_front 4 (le_bytes 4 p.n) rest (length-le_bytes 4 p.n),
          read_out_point,
          from_le-le_bytes 4 p.n (four_bytes p.n l),
        )
        refl)

-- The bytes of an output point are read as one, whatever its index.
pub read_out_point-write_out_point_whole :
    (p : OutPoint)
    → length p.hash ≡ 32
    → (q : OutPoint × Bytes) × (read_out_point (write_out_point p) ≡ some q)
unfolding read_out_point
read_out_point-write_out_point_whole p h = (
  (record { hash = p.hash; n = from_le (le_bytes 4 p.n) }, []),
  rw (read_bytes_front 32 p.hash (le_bytes 4 p.n) h, read_out_point) refl,
)

-- An output whose members fit their types is read back from its bytes, whatever stands behind
-- them: the members that are written come back, and the two hashes are those of the object
-- read into.
pub read_txo-write_txo :
    (t into : Txo) (rest : Bytes)
    → IsTxo t
    → read_txo into (write_txo t ++ rest)
      ≡ some (record into { n = t.n; value = t.value; spend = t.spend }, rest)
unfolding read_txo write_txo
read_txo-write_txo t into rest v =
    let spend = write_out_point t.spend in
    let whole =
      append_assoc (le_bytes 4 t.n) (le_bytes 8 t.value ++ spend) rest
      ∙ ap (λ (b : Bytes). le_bytes 4 t.n ++ b) (append_assoc (le_bytes 8 t.value) spend rest) in
    ap (read_txo into) whole
    ∙ rw
        (
          read_bytes_front 4 (le_bytes 4 t.n) (le_bytes 8 t.value ++ (spend ++ rest))
              (length-le_bytes 4 t.n),
          read_txo,
        )
        (rw
          (
            read_bytes_front 8 (le_bytes 8 t.value) (spend ++ rest) (length-le_bytes 8 t.value),
            read_txo,
          )
          (rw (read_out_point-write_out_point t.spend rest v.hash v.spend_n, read_txo)
            (rw
              (
                from_le-le_bytes 4 t.n (four_bytes t.n v.n),
                from_le-le_bytes 8 t.value (eight_bytes t.value v.value),
              )
              refl)))

-- An output takes exactly `ApproxSize` bytes when the hash of its spending output point has 32
-- bytes.
pub length-write_txo : (t : Txo) → length t.spend.hash ≡ 32 → length (write_txo t) ≡ approx_size
unfolding write_txo
length-write_txo t h = omega (
  arith,
  length-append (le_bytes 4 t.n) (le_bytes 8 t.value ++ write_out_point t.spend),
  length-append (le_bytes 8 t.value) (write_out_point t.spend),
  length-append t.spend.hash (le_bytes 4 t.spend.n),
  length-le_bytes 4 t.n,
  length-le_bytes 8 t.value,
  length-le_bytes 4 t.spend.n,
)
