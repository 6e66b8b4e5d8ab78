-- ===== src/Txo/Preload/Loaders/Progress.antt =====
-- How many steps the threads can make.
use electrumz.Base.{ℕ, ◌+◌, ◌-◌, ◌*◌, ◌≤◌, Bytes, ◌≡◌, Option, List, [], ◌∷◌, length}
use electrumz.Base.Outcome.{Outcome, done, threw, fault}
use electrumz.Bitcoin.{BitcoinLib}
use electrumz.Lmdb.{Lmdb}
use electrumz.Txo.Preload.Blocks.{Block}
use electrumz.Txo.Preload.Blocks.Growth.{Suffices}
use electrumz.Txo.Preload.Loaders.{Loader, idle, reading, storing, ended, gave_up, Shared, Loaders}
use electrumz.Txo.Preload.Loaders.Sums.{sum_threads}

-- The steps that a file can take: two for each of its bytes, and two more.
abbrev pub file_steps : List Bytes → ℕ
file_steps [] = 0
file_steps (file ∷ files) = 2 * length file + 2 + file_steps files

-- A thread that runs may still stop with a code, and then the map may have any size.
abbrev steps_of : ℕ → Loader → ℕ
steps_of need idle = need + 1
steps_of need (reading file rest) = 2 * length rest + 2 + need
steps_of need (storing file blk rest) = 2 * length rest + 3 + need
steps_of need ended = 0
steps_of need (gave_up file code) = 0

abbrev thread_steps : ℕ → List Loader → ℕ
thread_steps need = sum_threads (steps_of need)

module _ (lmdb : Lmdb) (bitcoin : BitcoinLib) (read_block : Bytes → Bytes × Option Block) (mode : ℕ)
    (need : ℕ) (db : Suffices lmdb need)
    (sync_size : (env : lmdb.Env) → db.size (lmdb.sync env) ≡ db.size env)
    (reads_on : (body : Bytes) → length (read_block body).0 ≤ length body) where
  open lmdb use {Env, sync}
  open db use {size}

  -- A step uses up steps, or goes to its block once more with a larger map.
  abbrev Uses : Loader → Shared Env → Outcome (Shared Env) Loader → Type 0
  Uses t s (done s' t') =
      file_steps s'.queue + steps_of need t' + (need - size s'.env) + 1
      ≤ file_steps s.queue + steps_of need t + (need - size s.env)
  Uses t s (threw s') = Unit
  Uses t s fault = Unit

  abbrev left : Loaders Env → ℕ
  left s = file_steps s.shared.queue + thread_steps need s.threads + (need - size s.shared.env)
