-- ===== src/Txo/Preload/Files/Fuel.antt =====
-- The rounds of the loops over files in `PreLoadBlocks`.
use electrumz.Base.{
  ℕ, zero, suc, ◌+◌, ◌<◌, ◌≤◌, ◌==◌, Bytes, Bool, true, false, ◌≡◌, Option, none, some, List, [],
  ◌∷◌, length, take, drop, leb, leb→le, if◌then◌else◌, arith, length-drop, Bool-cases, inl, inr,
}
use electrumz.Base.Outcome.{Outcome, done, threw, fault, Exec, pure, ◌>>=◌, continue}
use electrumz.Bitcoin.{BitcoinLib}
use electrumz.Lmdb.{Lmdb}
use electrumz.Txo.Preload.Blocks.{Block, Step, next, again, stopped, store_block}
use electrumz.Txo.Preload.Blocks.Growth.{Suffices}
use electrumz.Txo.Preload.Blocks.Retries.{IsSettled, store_block-IsSettled}
use electrumz.Txo.Preload.Files.{
  Round, at_end, skipped, holds, FileEnd, loaded, returned, unfinished, stuck, is_magic, block_of,
  read_record, next_record, load_file, load_files, after_step, after_file,
}
use electrumz.Txo.Record.{from_le, read_bytes}

-- Neither the loop nor the attempts at a block ran out.
abbrev pub IsEnded : {S : Type 0} → Outcome S FileEnd → Type 0
IsEnded (done s stuck) = ⊥
IsEnded (done s unfinished) = ⊥
IsEnded _ = Unit

module _ {S : Type 0} where
  continue-IsEnded :
      {A : Type 0} (o : Outcome S A) (f : A → Exec S FileEnd)
      → ((a : A) (s : S) → IsEnded (f a s))
      → IsEnded (continue o f)
  continue-IsEnded (done s a) f h = h a s
  continue-IsEnded (threw s) f h = tt
  continue-IsEnded fault f h = tt

-- The bytes that a round leaves are fewer.
abbrev pub Leaves : ℕ → Round → Type 0
Leaves n at_end = Unit
Leaves n (skipped behind) = length behind < n
Leaves n (holds blk behind) = length behind < n

if-Leaves :
    (n : ℕ) (b : Bool) (r q : Round) → Leaves n r → Leaves n q → Leaves n (if b then r else q)
if-Leaves n true r q h k = h
if-Leaves n false r q h k = k

-- Reading four bytes, with either outcome.
read-Leaves :
    (n : ℕ) (bytes : Bytes) (k : Option (Bytes × Bytes) → Round)
    → Leaves n (k none)
    → ((front rest : Bytes) → length rest + 4 ≡ length bytes → Leaves n (k (some (front, rest))))
    → Leaves n (k (read_bytes 4 bytes))
read-Leaves n bytes k h m = elim (Bool-cases (leb 4 (length bytes))) [
  | inl e ↦ rw e (m (take 4 bytes) (drop 4 bytes) (shorter (leb→le 4 (length bytes) e)))
  | inr e ↦ rw e h
]
  where
    shorter : 4 ≤ length bytes → length (drop 4 bytes) + 4 ≡ length bytes
    shorter h = omega (arith, length-drop 4 bytes)

module _ (read_block : Bytes → Bytes × Option Block)
    (reads_on : (body : Bytes) → length (read_block body).0 ≤ length body) where
  block_of-Leaves :
      (n : ℕ) (body : Bytes) → length body < n → Leaves n (block_of read_block (read_block body))
  block_of-Leaves n body h = by_block (read_block body) (reads_on body)
    where
      by_block :
          (r : Bytes × Option Block) → length r.0 ≤ length body → Leaves n (block_of read_block r)
      by_block (behind, none) l = omega arith
      by_block (behind, some blk) l = omega arith

  read_record-Leaves :
      (n : ℕ) (magic : Bytes) (len : ℕ) (body : Bytes)
      → length body < n
      → Leaves n (read_record read_block magic len body)
  unfolding read_record
  read_record-Leaves n magic len body h = if-Leaves n (len == 0) _ _ tt (
      if-Leaves n (is_magic magic) _ _
        (read-Leaves n body
          (λ o. elim o [
            | none ↦ skipped []
            | some (peeked, _) ↦
                if is_magic peeked then skipped body else block_of read_block (read_block body)
          ])
          (omega arith)
          (λ peeked rest _. if-Leaves n (is_magic peeked) _ _ h (block_of-Leaves n body h)))
        h)

  pub next_record-Leaves : (bytes : Bytes) → Leaves (length bytes) (next_record read_block bytes)
  unfolding next_record
  next_record-Leaves [] = tt
  next_record-Leaves (b ∷ bytes) =
      read-Leaves (length (b ∷ bytes)) (b ∷ bytes)
        (λ o. elim o [
          | none ↦ skipped []
          | some (magic, rest) ↦ elim (read_bytes 4 rest) [
            | none ↦ skipped []
            | some (len, body) ↦ read_record read_block magic (from_le len) body
          ]
        ])
        (omega arith)
        (λ magic rest shorter.
          read-Leaves (length (b ∷ bytes)) rest
            (λ o. elim o [
              | none ↦ skipped []
              | some (len, body) ↦ read_record read_block magic (from_le len) body
            ])
            (omega arith)
            (λ len body shorter'.
              read_record-Leaves (length (b ∷ bytes)) magic (from_le len) body (omega arith)))

module _ (lmdb : Lmdb) (bitcoin : BitcoinLib) (read_block : Bytes → Bytes × Option Block)
    (need tries : ℕ) (db : Suffices lmdb need) (enough : need < tries)
    (reads_on : (body : Bytes) → length (read_block body).0 ≤ length body) where
  open lmdb use {Env}

  load_file-IsEnded :
      (fuel mode : ℕ) (bytes : Bytes) (env : Env)
      → length bytes < fuel
      → IsEnded (load_file lmdb bitcoin read_block tries fuel mode bytes env)
  unfolding load_file
  load_file-IsEnded zero mode bytes env h = absurd (omega arith)
  load_file-IsEnded (suc fuel) mode bytes env h =
      by_round (next_record read_block bytes) (next_record-Leaves read_block reads_on bytes)
        (λ behind env' l. load_file-IsEnded fuel mode behind env' (omega arith))
    where
      by_step :
          (on : Exec Env FileEnd)
          → ((env' : Env) → IsEnded (on env'))
          → (o : Outcome Env Step) → IsSettled lmdb bitcoin need db o
          → IsEnded (continue o (after_step lmdb bitcoin read_block tries on))
      by_step on k (done env' next) h = k env'
      by_step on k (done env' again) h = absurd h
      by_step on k (done env' (stopped code)) h = tt
      by_step on k (threw env') h = tt
      by_step on k fault h = tt

      by_round :
          (r : Round)
          → Leaves (length bytes) r
          → ((behind : Bytes) (env' : Env)
              → length behind < length bytes
              → IsEnded (load_file lmdb bitcoin read_block tries fuel mode behind env'))
          → IsEnded (
              (elim r as (λ _. Exec Env FileEnd) [
                | at_end ↦ pure loaded
                | skipped behind ↦ load_file lmdb bitcoin read_block tries fuel mode behind
                | holds blk behind ↦ do
                  s ← store_block lmdb bitcoin tries mode blk
                  after_step lmdb bitcoin read_block tries
                      (load_file lmdb bitcoin read_block tries fuel mode behind)
                      s
              ])
                env)
      by_round at_end l on = tt
      by_round (skipped behind) l on = on behind env l
      by_round (holds blk behind) l on =
          by_step (load_file lmdb bitcoin read_block tries fuel mode behind)
            (λ env'. on behind env' l) (store_block lmdb bitcoin tries mode blk env)
            (store_block-IsSettled lmdb bitcoin need db tries mode blk env (omega arith))

  after_file-IsEnded :
      (files : Exec Env FileEnd) (o : Outcome Env FileEnd)
      → IsEnded o
      → ((env : Env) → IsEnded (files env))
      → IsEnded (continue o (after_file lmdb bitcoin read_block tries files))
  after_file-IsEnded files (done s loaded) h k = k (lmdb.sync s)
  after_file-IsEnded files (done s (returned code)) h k = tt
  after_file-IsEnded files (done s unfinished) h k = absurd h
  after_file-IsEnded files (done s stuck) h k = h
  after_file-IsEnded files (threw s) h k = tt
  after_file-IsEnded files fault h k = tt

  -- A pass of one thread over the block files ends, whatever the files hold, and every block that it
  -- reaches is stored or ends the pass with a code: one round more than a file has bytes is
  -- enough for it, and the tries of a block are enough where they are more than the size of the
  -- map from which on the database is never full. Reading a block does not move backwards in the
  -- file, the size of the map changes as LMDB documents, and its calls return, as they do where no
  -- other transaction is open.
  pub load_files-IsEnded :
      (mode : ℕ) (files : List Bytes) (env : Env)
      → IsEnded (load_files lmdb bitcoin read_block tries mode files env)
  unfolding load_files
  load_files-IsEnded mode [] env = tt
  load_files-IsEnded mode (file ∷ files) env =
      after_file-IsEnded (load_files lmdb bitcoin read_block tries mode files)
        (load_file lmdb bitcoin read_block tries (suc (length file)) mode file env)
        (load_file-IsEnded (suc (length file)) mode file env (omega arith))
        (load_files-IsEnded mode files)
