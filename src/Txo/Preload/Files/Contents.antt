-- ===== src/Txo/Preload/Files/Contents.antt =====
-- The blocks that a file holds, as the loop of `PreLoadBlocks` comes to them.
use electrumz.Base.{
  ℕ, zero, suc, ◌<◌, ◌≤◌, Bytes, ◌≡◌, refl, ap, Option, List, [], ◌∷◌, ◌++◌, length, arith,
}
use electrumz.Txo.Preload.Blocks.{Block}
use electrumz.Txo.Preload.Files.{Round, at_end, skipped, holds, next_record}
use electrumz.Txo.Preload.Files.Fuel.{Leaves, next_record-Leaves}

module _ (read_block : Bytes → Bytes × Option Block) where
  -- In so many rounds.
  abbrev pub blocks_in : ℕ → Bytes → List Block
  blocks_in zero bytes = []
  blocks_in (suc rounds) bytes = elim (next_record read_block bytes) [
    | at_end ↦ []
    | skipped behind ↦ blocks_in rounds behind
    | holds blk behind ↦ blk ∷ blocks_in rounds behind
  ]

  -- A round goes past a byte at least.
  abbrev pub file_blocks : Bytes → List Block
  file_blocks file = blocks_in (suc (length file)) file

  abbrev pub all_blocks : List Bytes → List Block
  all_blocks [] = []
  all_blocks (file ∷ files) = file_blocks file ++ all_blocks files

  -- The blocks from a round on.
  abbrev pub blocks_from : Round → List Block
  blocks_from at_end = []
  blocks_from (skipped behind) = file_blocks behind
  blocks_from (holds blk behind) = blk ∷ file_blocks behind

  module _ (reads_on : (body : Bytes) → length (read_block body).0 ≤ length body) where
    blocks_in_enough :
        (m n : ℕ) (bytes : Bytes)
        → length bytes < m
        → length bytes < n
        → blocks_in m bytes ≡ blocks_in n bytes
    blocks_in_enough zero n bytes h k = absurd (omega arith)
    blocks_in_enough (suc m) zero bytes h k = absurd (omega arith)
    blocks_in_enough (suc m) (suc n) bytes h k =
        by_round (next_record read_block bytes) (next_record-Leaves read_block reads_on bytes)
          (λ behind l. blocks_in_enough m n behind (omega arith) (omega arith))
      where
        rounds : ℕ → Round → List Block
        rounds i at_end = []
        rounds i (skipped behind) = blocks_in i behind
        rounds i (holds blk behind) = blk ∷ blocks_in i behind

        by_round :
            (r : Round)
            → Leaves (length bytes) r
            → ((behind : Bytes)
                → length behind < length bytes
                → blocks_in m behind ≡ blocks_in n behind)
            → rounds m r ≡ rounds n r
        by_round at_end l ih = refl
        by_round (skipped behind) l ih = ih behind l
        by_round (holds blk behind) l ih = ap (◌∷◌ blk) (ih behind l)

    pub file_blocks-next_record :
        (bytes : Bytes) → file_blocks bytes ≡ blocks_from (next_record read_block bytes)
    file_blocks-next_record bytes =
        by_round (next_record read_block bytes) (next_record-Leaves read_block reads_on bytes)
      where
        rounds : Round → List Block
        rounds at_end = []
        rounds (skipped behind) = blocks_in (length bytes) behind
        rounds (holds blk behind) = blk ∷ blocks_in (length bytes) behind

        by_round : (r : Round) → Leaves (length bytes) r → rounds r ≡ blocks_from r
        by_round at_end l = refl
        by_round (skipped behind) l =
            blocks_in_enough (length bytes) (suc (length behind)) behind l (omega arith)
        by_round (holds blk behind) l =
            ap (◌∷◌ blk)
              (blocks_in_enough (length bytes) (suc (length behind)) behind l (omega arith))
