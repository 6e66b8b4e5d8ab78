-- ===== src/Txo/Preload/Reader.antt =====
-- What the threads of `PreLoadBlocks` take of a block that they read: its hash, the bytes of its
-- header, and its transactions.
pub mod Headers
pub mod Stored
use electrumz.Base.{Bytes, Bool, true, false, Option, none, some, List, [], ◌∷◌}
use electrumz.Bitcoin.Block.{CBlock, null_block, get_block_header, read_cblock}
use electrumz.Bitcoin.Hash.{Digests}
use electrumz.Bitcoin.Header.{Header, write_header, get_hash}
use electrumz.Txo.Preload.Blocks.{Transaction, Block}

-- `blk.GetHash()` and the bytes of `blk.GetBlockHeader()`, for a hash that is defined.
unfoldable pub to_store : List Transaction → Header → Option Bytes → Option Block
to_store txs h none = none
to_store txs h (some hash) = some (record { hash = hash; header = write_header h; txs = txs })

module _ (digests : Digests) where
  unfoldable pub block_to_store : Option (CBlock Transaction) → Option Block
  unfolding to_store
  block_to_store none = none
  block_to_store (some b) =
      to_store b.vtx (get_block_header Transaction b) (get_hash digests b.header)

module _ (digests : Digests) (read_txs : Bytes → Bytes × Option (List Transaction)) where
  -- `bf >> blk` behind `blk.SetNull()`.
  unfoldable pub load_block : Bytes → Bytes × Option Block
  unfolding block_to_store
  load_block body =
      let (behind, b) = read_cblock Transaction read_txs (null_block Transaction) body in
      (behind, block_to_store digests b)
