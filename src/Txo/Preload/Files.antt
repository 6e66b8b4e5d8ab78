-- ===== src/Txo/Preload/Files.antt =====
-- A block file: records of four magic bytes, a length, and a block.
pub mod Fuel
pub mod Contents
pub mod Within
use electrumz.Base.{
  ℕ, zero, suc, ◌==◌, Bytes, Bool, true, false, Option, none, some, List, [], ◌∷◌, ℤ, length,
  if◌then◌else◌,
}
use electrumz.Base.Outcome.{Outcome, done, Exec, pure, ◌>>=◌, ◌>>◌}
use electrumz.Bitcoin.{BitcoinLib}
use electrumz.Lmdb.{Lmdb, run}
use electrumz.Txo.Preload.Blocks.{Block, Step, next, again, stopped, store_block}
use electrumz.Txo.Record.{from_le, read_bytes}

-- The network's magic bytes.
abbrev pub is_magic : Bytes → Bool
is_magic (a ∷ b ∷ c ∷ d ∷ []) =
    if a == 0xfa then if b == 0xbf then if c == 0xb5 then d == 0xda else false else false else false
is_magic _ = false

-- What a round of the loop over a file comes to: the end of the file, bytes that are gone past, or
-- a block and the bytes behind it.
pub data Round : Type 0 where
  at_end : Round
  skipped : Bytes → Round
  holds : Block → Bytes → Round

-- How the loading of a file ends: at its end, with a code, with a block that needs more attempts, or
-- out of fuel.
pub data FileEnd : Type 0 where
  loaded : FileEnd
  returned : ℤ → FileEnd
  unfinished : FileEnd
  stuck : FileEnd

module _ (read_block : Bytes → Bytes × Option Block) where
  -- `bf >> blk`: the bytes behind the place that it gets to, and the block unless it throws.
  abbrev pub block_of : Bytes × Option Block → Round
  block_of (behind, none) = skipped behind
  block_of (behind, some blk) = holds blk behind

  -- Behind the magic bytes and the length. Magic bytes instead of a block mean that it is missing.
  unfoldable pub read_record : Bytes → ℕ → Bytes → Round
  read_record magic len body =
      if len == 0
      then at_end
      else if is_magic magic
      then elim (read_bytes 4 body) [
        | none ↦ skipped []
        | some (peeked, _) ↦ if is_magic peeked then skipped body else block_of (read_block body)
      ]
      else skipped body

  -- The head of the inner loop; `bytes` is the rest of the file. A read past the end throws at the
  -- end of the file, and the loop goes on there.
  unfoldable pub next_record : Bytes → Round
  unfolding read_record
  next_record [] = at_end
  next_record (b ∷ bytes) = elim (read_bytes 4 (b ∷ bytes)) [
    | none ↦ skipped []
    | some (magic, rest) ↦ elim (read_bytes 4 rest) [
      | none ↦ skipped []
      | some (len, body) ↦ read_record magic (from_le len) body
    ]
  ]

module _ (lmdb : Lmdb) (bitcoin : BitcoinLib) (read_block : Bytes → Bytes × Option Block)
    (tries : ℕ) where
  open lmdb use {Env, sync}

  abbrev pub after_step : Exec Env FileEnd → Step → Exec Env FileEnd
  after_step on next = on
  after_step on again = pure unfinished
  after_step on (stopped code) = pure (returned code)

  -- The inner loop.
  unfoldable pub load_file : ℕ → ℕ → Bytes → Exec Env FileEnd
  load_file zero mode bytes = pure stuck
  load_file (suc fuel) mode bytes = elim (next_record read_block bytes) [
    | at_end ↦ pure loaded
    | skipped behind ↦ load_file fuel mode behind
    | holds blk behind ↦ do
      s ← store_block lmdb bitcoin tries mode blk
      after_step (load_file fuel mode behind) s
  ]

  abbrev pub after_file : Exec Env FileEnd → FileEnd → Exec Env FileEnd
  after_file files loaded = do run (λ env. (sync env, tt)); files
  after_file files (returned code) = pure (returned code)
  after_file files unfinished = pure unfinished
  after_file files stuck = pure stuck

  -- The files one after the other, each synced at its end; a code ends the thread.
  unfoldable pub load_files : ℕ → List Bytes → Exec Env FileEnd
  load_files mode [] = pure loaded
  load_files mode (file ∷ files) = do
    e ← load_file (suc (length file)) mode file
    after_file (load_files mode files) e
