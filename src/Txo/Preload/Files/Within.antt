-- ===== src/Txo/Preload/Files/Within.antt =====
-- Where in its file a block stands.
use electrumz.Base.{
  ℕ, zero, suc, ◌==◌, Bytes, Bool, true, false, ◌≡◌, refl, Option, none, some, [], ◌∷◌, length,
  take, drop, leb, if◌then◌else◌, All, Bool-cases, inl, inr, IsBehind, IsBehind-trans,
  IsBehind-self, IsBehind-drop, behind_all,
}
use electrumz.Txo.Preload.Blocks.{Block}
use electrumz.Txo.Preload.Files.{
  Round, at_end, skipped, holds, is_magic, block_of, read_record, next_record,
}
use electrumz.Txo.Preload.Files.Contents.{blocks_in, file_blocks}
use electrumz.Txo.Record.{from_le, read_bytes}

-- What holds of the blocks that a reader gives at places of a file holds of the blocks of the file.
module _ (read_block : Bytes → Bytes × Option Block) (P : Block → Type 0) (file : Bytes)
    (moves_on : (body : Bytes) → IsBehind body (read_block body).0)
    (gives : (body : Bytes) (blk : Block)
      → IsBehind file body
      → (read_block body).1 ≡ some blk
      → P blk) where
  abbrev RoundIn : Round → Type 0
  RoundIn at_end = Unit
  RoundIn (skipped behind) = IsBehind file behind
  RoundIn (holds blk behind) = IsBehind file behind × P blk

  if-RoundIn : (b : Bool) (r q : Round) → RoundIn r → RoundIn q → RoundIn (if b then r else q)
  if-RoundIn true r q h k = h
  if-RoundIn false r q h k = k

  read-RoundIn :
      (bytes : Bytes) (k : Option (Bytes × Bytes) → Round)
      → RoundIn (k none)
      → ((front : Bytes) → RoundIn (k (some (front, drop 4 bytes))))
      → RoundIn (k (read_bytes 4 bytes))
  read-RoundIn bytes k h m = elim (Bool-cases (leb 4 (length bytes))) [
    | inl e ↦ rw e (m (take 4 bytes))
    | inr e ↦ rw e h
  ]

  block_of-RoundIn :
      (body : Bytes) → IsBehind file body → RoundIn (block_of read_block (read_block body))
  block_of-RoundIn body at =
      by_block (read_block body) (IsBehind-trans file body (read_block body).0 at (moves_on body))
        (λ blk e. gives body blk at e)
    where
      by_block :
          (r : Bytes × Option Block)
          → IsBehind file r.0
          → ((blk : Block) → r.1 ≡ some blk → P blk)
          → RoundIn (block_of read_block r)
      by_block (behind, none) h k = h
      by_block (behind, some blk) h k = (h, k blk refl)

  read_record-RoundIn :
      (magic : Bytes) (len : ℕ) (body : Bytes)
      → IsBehind file body
      → RoundIn (read_record read_block magic len body)
  unfolding read_record
  read_record-RoundIn magic len body at = if-RoundIn (len == 0) _ _ tt (
      if-RoundIn (is_magic magic) _ _
        (read-RoundIn body
          (λ o. elim o [
            | none ↦ skipped []
            | some (peeked, _) ↦
                if is_magic peeked then skipped body else block_of read_block (read_block body)
          ])
          (behind_all file)
          (λ peeked. if-RoundIn (is_magic peeked) _ _ at (block_of-RoundIn body at)))
        at)

  next_record-RoundIn :
      (bytes : Bytes) → IsBehind file bytes → RoundIn (next_record read_block bytes)
  unfolding next_record
  next_record-RoundIn [] at = tt
  next_record-RoundIn (b ∷ bytes) at =
      read-RoundIn (b ∷ bytes)
        (λ o. elim o [
          | none ↦ skipped []
          | some (magic, rest) ↦ elim (read_bytes 4 rest) [
            | none ↦ skipped []
            | some (len, body) ↦ read_record read_block magic (from_le len) body
          ]
        ])
        (behind_all file)
        (λ magic.
          let rest = drop 4 (b ∷ bytes) in
          let at_rest = IsBehind-trans file (b ∷ bytes) rest at (IsBehind-drop 4 (b ∷ bytes)) in
          read-RoundIn rest
            (λ o. elim o [
              | none ↦ skipped []
              | some (len, body) ↦ read_record read_block magic (from_le len) body
            ])
            (behind_all file)
            (λ len.
              read_record-RoundIn magic (from_le len) (drop 4 rest)
                (IsBehind-trans file rest (drop 4 rest) at_rest (IsBehind-drop 4 rest))))

  blocks_in-All :
      (rounds : ℕ) (bytes : Bytes) → IsBehind file bytes → All P (blocks_in read_block rounds bytes)
  blocks_in-All zero bytes at = tt
  blocks_in-All (suc rounds) bytes at =
      by_round (next_record read_block bytes) (next_record-RoundIn bytes at)
        (λ behind. blocks_in-All rounds behind)
    where
      by_round :
          (r : Round)
          → RoundIn r
          → ((behind : Bytes) → IsBehind file behind → All P (blocks_in read_block rounds behind))
          → All P (elim r [
            | at_end ↦ []
            | skipped behind ↦ blocks_in read_block rounds behind
            | holds blk behind ↦ blk ∷ blocks_in read_block rounds behind
          ])
      by_round at_end h k = tt
      by_round (skipped behind) h k = k behind h
      by_round (holds blk behind) (h, p) k = (p, k behind h)

  pub file_blocks-All : All P (file_blocks read_block file)
  file_blocks-All = blocks_in-All (suc (length file)) file (IsBehind-self file)
