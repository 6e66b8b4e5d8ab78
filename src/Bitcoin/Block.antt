-- ===== src/Bitcoin/Block.antt =====
-- `CBlock` and `CBlockLocator` of include/electrumz/bitcoin/block.h. The vectors and the transactions
-- are serialized by Bitcoin Core's serialize.h and transaction.h, which are parameters here.
use electrumz.Base.{
  ℕ, ◌%◌, ◌/◌, ◌==◌, Bytes, Bool, true, false, Option, none, some, List, [], ◌∷◌, ◌++◌, ℤ, pos,
  if◌then◌else◌,
}
use electrumz.Bitcoin.Header.{Header, null_header, write_header, read_header}
use electrumz.Txo.Record.{le_bytes, read_bytes}

module _ (Tx : Type 0) where
  pub record CBlock : Type 0 where
    pub header : Header
    pub vtx : List Tx
    pub checked : Bool

  -- `SetNull`.
  abbrev pub null_block : CBlock
  null_block = record { header = null_header; vtx = []; checked = false }

  -- The constructor from a header, and `GetBlockHeader`.
  abbrev pub block_of_header : Header → CBlock
  block_of_header h = record null_block { header = h }

  abbrev pub get_block_header : CBlock → Header
  get_block_header b = b.header

  module _ (write_txs : List Tx → Bytes) where
    -- `SerializationOp` to a stream.
    unfoldable pub write_cblock : CBlock → Bytes
    write_cblock b = write_header b.header ++ write_txs b.vtx

  module _ (read_txs : Bytes → Bytes × Option (List Tx)) where
    -- The vector behind a header.
    unfoldable pub read_vtx : CBlock → Header → Bytes × Option (List Tx) → Bytes × Option CBlock
    read_vtx b h (behind, none) = (behind, none)
    read_vtx b h (behind, some txs) = (behind, some (record b { header = h; vtx = txs }))

    -- The stream throws, at its end, when the header is not whole.
    unfoldable pub read_behind : CBlock → Option (Header × Bytes) → Bytes × Option CBlock
    unfolding read_vtx
    read_behind b none = ([], none)
    read_behind b (some (h, rest)) = read_vtx b h (read_txs rest)

    -- `SerializationOp` from a stream into a block: where the stream is then, and the block unless
    -- it throws.
    unfoldable pub read_cblock : CBlock → Bytes → Bytes × Option CBlock
    unfolding read_behind
    read_cblock b bytes = read_behind b (read_header bytes)

-- `GetBlockTime`: the 32 bits as an `int64_t`.
abbrev pub get_block_time : Header → ℤ
get_block_time h = pos h.time

-- `CBlockLocator`, whose hashes are `vHave`.
abbrev pub Locator : Type 0
Locator = List Bytes

abbrev pub null_locator : Locator
null_locator = []

abbrev pub is_null_locator : Locator → Bool
is_null_locator [] = true
is_null_locator (_ ∷ _) = false

-- `type & SER_GETHASH`.
abbrev pub is_get_hash : ℕ → Bool
is_get_hash type = (type / 4) % 2 == 1

module _ (write_hashes : List Bytes → Bytes) (read_hashes : Bytes → Option (List Bytes × Bytes))
    (type version : ℕ) where
  -- Its `SerializationOp`, to a stream and from one; the version that is read is not kept.
  unfoldable pub write_locator : Locator → Bytes
  write_locator hashes =
      if is_get_hash type then write_hashes hashes else le_bytes 4 version ++ write_hashes hashes

  unfoldable pub read_locator : Bytes → Option (Locator × Bytes)
  read_locator bytes =
      if is_get_hash type
      then read_hashes bytes
      else elim (read_bytes 4 bytes) [ none ↦ none | some (_, rest) ↦ read_hashes rest ]
