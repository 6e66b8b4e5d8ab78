-- ===== src/Bitcoin/Header.antt =====
-- Block headers: include/electrumz/bitcoin/block.h, and `CBlockHeader::GetHash` of
-- src/blockchain/bitcoin/block.cpp.
pub mod Parts
pub mod Reads
use electrumz.Base.{
  ℕ, zero, suc, ◌+◌, ◌*◌, ◌/◌, ◌%◌, ◌<◌, ◌==◌, Bytes, Bool, true, false, Option, none, some, List,
  [], ◌∷◌, ◌++◌, ◌≡◌, refl, sym, ap, ap₂, ◌∙◌, subst, length, take, drop, leb, arith, All,
  Bool-cases, inl, inr, append_assoc, append-nil, length-append, take-append_front,
  drop-append_front, length-take, leb→le, some-injective, none-ne-some, if◌then◌else◌,
}
use electrumz.Bitcoin.Hash.{Digests, serialize_hash, serialize_hash-join, join}
use electrumz.Txo.Record.RoundTrip.{length-le_bytes}
use electrumz.Txo.Record.{le_bytes, from_le, read_bytes}

-- `CBlockHeader`; numbers are patterns of 32 bits.
pub record Header : Type 0 where
  pub version : ℕ
  pub prev_block : Bytes
  pub merkle_root : Bytes
  pub time : ℕ
  pub bits : ℕ
  pub nonce : ℕ

abbrev zeros : ℕ → Bytes
zeros zero = []
zeros (suc n) = 0 ∷ zeros n

-- `SetNull` and `IsNull`.
abbrev pub null_header : Header
null_header = record {
  version = 0;
  prev_block = zeros 32;
  merkle_root = zeros 32;
  time = 0;
  bits = 0;
  nonce = 0;
}

abbrev pub is_null : Header → Bool
is_null h = h.bits == 0

-- The members in the order of `SerializationOp`.
abbrev pub pieces : Header → List Bytes
pieces h =
    le_bytes 4 h.version
    ∷ h.prev_block
    ∷ h.merkle_root
    ∷ le_bytes 4 h.time
    ∷ le_bytes 4 h.bits
    ∷ le_bytes 4 h.nonce
    ∷ []

unfoldable pub write_header : Header → Bytes
write_header h = join (pieces h)

-- `GetHash`.
unfoldable pub get_hash : Digests → Header → Option Bytes
get_hash digests h = serialize_hash digests (pieces h)

infixl 5 ◌>>=◌
abbrev pub ◌>>=◌ : {A B : Type 0} → Option A → (A → Option B) → Option B
none >>= f = none
some a >>= f = f a

-- The members read, and the bytes behind them; none where the stream throws.
unfoldable pub read_header : Bytes → Option (Header × Bytes)
read_header bytes = do
  version ← read_bytes 4 bytes
  prev_block ← read_bytes 32 version.1
  merkle_root ← read_bytes 32 prev_block.1
  time ← read_bytes 4 merkle_root.1
  bits ← read_bytes 4 time.1
  nonce ← read_bytes 4 bits.1
  some (
    record {
      version = from_le version.0;
      prev_block = prev_block.0;
      merkle_root = merkle_root.0;
      time = from_le time.0;
      bits = from_le bits.0;
      nonce = from_le nonce.0;
    },
    nonce.1,
  )
