-- ===== src/Txo/Record.antt =====
-- Transaction outputs and their bytes: include/electrumz/TXO.h, and the serialization of numbers
-- and output points that it uses (include/electrumz/bitcoin/serialize.h and transaction.h).
pub mod RoundTrip
pub mod Order
use electrumz.Base.{
  ℕ, zero, suc, ◌+◌, ◌-◌, ◌*◌, ◌/◌, ◌%◌, Bytes, Option, none, some, [], ◌∷◌, ◌++◌, length, take,
  drop, leb, ltb, if◌then◌else◌, ℤ, pos, negsuc,
}

-- `ser_writedata32` and `ser_writedata64` for 4 and 8 bytes.
abbrev pub le_bytes : ℕ → ℕ → Bytes
le_bytes zero n = []
le_bytes (suc k) n = (n % 256) ∷ le_bytes k (n / 256)

abbrev pub from_le : Bytes → ℕ
from_le [] = 0
from_le (b ∷ bs) = b + 256 * from_le bs

pub record OutPoint : Type 0 where
  pub hash : Bytes
  pub n : ℕ

abbrev pub write_out_point : OutPoint → Bytes
write_out_point p = p.hash ++ le_bytes 4 p.n

-- `value` is the pattern of 64 bits of a `CAmount`.
pub record Txo : Type 0 where
  pub tx_hash : Bytes
  pub script_hash : Bytes
  pub n : ℕ
  pub value : ℕ
  pub spend : OutPoint

-- `TXO::ApproxSize`, from the sizes of a `uint32_t`, an `int64_t` and a `COutPoint`.
abbrev pub approx_size : ℕ
approx_size = 4 + 8 + 36

unfoldable pub write_txo : Txo → Bytes
write_txo t = le_bytes 4 t.n ++ (le_bytes 8 t.value ++ write_out_point t.spend)

-- `n` bytes of a stream, `none` where it throws.
abbrev pub read_bytes : ℕ → Bytes → Option (Bytes × Bytes)
read_bytes n bytes = if leb n (length bytes) then some (take n bytes, drop n bytes) else none

unfoldable pub read_out_point : Bytes → Option (OutPoint × Bytes)
read_out_point bytes = elim (read_bytes 32 bytes) [
  | none ↦ none
  | some (hash, rest) ↦ elim (read_bytes 4 rest) [
    | none ↦ none
    | some (n, rest') ↦ some (record { hash = hash; n = from_le n }, rest')
  ]
]

-- `Unserialize` into `t`, which keeps its hashes.
unfoldable pub read_txo : Txo → Bytes → Option (Txo × Bytes)
unfolding read_out_point
read_txo t bytes = elim (read_bytes 4 bytes) [
  | none ↦ none
  | some (n, rest) ↦ elim (read_bytes 8 rest) [
    | none ↦ none
    | some (value, rest') ↦ elim (read_out_point rest') [
      | none ↦ none
      | some (spend, rest'') ↦
          some (record t { n = from_le n; value = from_le value; spend = spend }, rest'')
    ]
  ]
]

-- The comparison of `mdb_set_dupsort`: the difference of two `uint32_t`, returned as an `int`.
unfoldable pub compare_outputs : Bytes → Bytes → ℤ
compare_outputs a b =
    let d = (from_le (take 4 a) + 4294967296 - from_le (take 4 b)) % 4294967296 in
    if ltb d 2147483648 then pos d else negsuc (4294967295 - d)
