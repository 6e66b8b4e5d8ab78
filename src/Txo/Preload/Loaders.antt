-- ===== src/Txo/Preload/Loaders.antt =====
-- The threads of `PreLoadBlocks`, which take files off one list and store their blocks in turn.
pub mod Sums
pub mod Keeps
pub mod Shares
pub mod Stores
pub mod Stored
pub mod Progress
pub mod GivenUp
pub mod Endings
use electrumz.Base.{
  ℕ, zero, suc, ◌+◌, ◌%◌, ◌==◌, min, Bytes, Bool, true, false, ◌≡◌, Option, none, some, List, [],
  ◌∷◌, ℤ, get_elem?, if◌then◌else◌,
}
use electrumz.Base.Outcome.{Outcome, done, threw, fault, Exec}
use electrumz.Bitcoin.{BitcoinLib}
use electrumz.Lmdb.{Lmdb}
use electrumz.Txo.Preload.Blocks.{Block, Step, next, again, stopped, attempt_block}
use electrumz.Txo.Preload.Files.{Round, at_end, skipped, holds, next_record}

-- The files of a directory whose names begin with "blk", as names and contents.
abbrev is_block_file : Bytes → Bool
is_block_file (a ∷ b ∷ c ∷ name) =
    if a == b'b' then if b == b'l' then c == b'k' else false else false
is_block_file _ = false

unfoldable pub block_files : List (Bytes × Bytes) → List Bytes
block_files [] = []
block_files ((name, content) ∷ entries) =
    let files = block_files entries in if is_block_file name then content ∷ files else files

abbrev pub thread_count : ℕ → ℕ
thread_count hardware = min 4 hardware

-- Where a thread stands: before the lock, at the head of the inner loop with the rest of its file,
-- before an attempt to store a block, or at its end, behind the list or with a code in a file.
pub data Loader : Type 0 where
  idle : Loader
  reading : (file rest : Bytes) → Loader
  storing : (file : Bytes) → Block → (rest : Bytes) → Loader
  ended : Loader
  gave_up : (file : Bytes) → ℤ → Loader

-- What the threads share: the files from `pos_txo` on, the count of those taken, and the database.
-- `finished` is no variable of the code: it keeps the files that were read to their ends.
pub record Shared (E : Type 0) : Type 0 where
  pub queue : List Bytes
  pub files_done : ℕ
  pub finished : List Bytes
  pub env : E

abbrev pub u32 : ℕ → ℕ
u32 n = n % 4294967296

module _ (lmdb : Lmdb) (bitcoin : BitcoinLib) (read_block : Bytes → Bytes × Option Block)
    (mode : ℕ) where
  open lmdb use {Env, sync}

  -- The block under the lock.
  unfoldable pub take_file : Exec (Shared Env) Loader
  take_file s = elim s.queue [
    | [] ↦ done s ended
    | file ∷ files ↦
        done (record s { queue = files; files_done = u32 (s.files_done + 1) }) (reading file file)
  ]

  -- A round of the inner loop up to the block; at the end of the file the database is synced.
  unfoldable pub read_round : Bytes → Round → Exec (Shared Env) Loader
  read_round file at_end s = done (record s { finished = file ∷ s.finished; env = sync s.env }) idle
  read_round file (skipped rest) s = done s (reading file rest)
  read_round file (holds blk rest) s = done s (storing file blk rest)

  abbrev pub after_attempt : Bytes → Block → Bytes → Step → Loader
  after_attempt file blk rest next = reading file rest
  after_attempt file blk rest again = storing file blk rest
  after_attempt file blk rest (stopped code) = gave_up file code

  -- One step of a thread. LMDB lets one thread write at a time, so an attempt is one step, with the
  -- growing of the map where it was full; it is made where no transaction is open.
  unfoldable pub turn : Loader → Exec (Shared Env) Loader
  unfolding take_file read_round
  turn idle s = take_file s
  turn (reading file rest) s = read_round file (next_record read_block rest) s
  turn (storing file blk rest) s = elim (attempt_block lmdb bitcoin mode blk s.env) [
    | done env step ↦ done (record s { env = env }) (after_attempt file blk rest step)
    | threw env ↦ threw (record s { env = env })
    | fault ↦ fault
  ]
  turn ended s = done s ended
  turn (gave_up file code) s = done s (gave_up file code)

abbrev pub set : List Loader → ℕ → Loader → List Loader
set [] i t = []
set (x ∷ xs) zero t = t ∷ xs
set (x ∷ xs) (suc i) t = x ∷ set xs i t

pub record Loaders (E : Type 0) : Type 0 where
  pub shared : Shared E
  pub threads : List Loader

abbrev pub idles : ℕ → List Loader
idles zero = []
idles (suc n) = idle ∷ idles n

-- A pass over the files with `n` threads, at its start.
abbrev pub start : {E : Type 0} → ℕ → List Bytes → E → Loaders E
start n files env = record {
  shared = record { queue = files; files_done = 0; finished = []; env = env };
  threads = idles n;
}

abbrev pub retries : Loader → Loader → ℕ
retries (storing file blk rest) (storing file' blk' rest') = 1
retries _ _ = 0

-- The thread has not ended.
abbrev pub IsRunning : Loader → Type 0
IsRunning ended = ⊥
IsRunning (gave_up file code) = ⊥
IsRunning _ = Unit

module _ (lmdb : Lmdb) (bitcoin : BitcoinLib) (read_block : Bytes → Bytes × Option Block)
    (mode : ℕ) where
  open lmdb use {Env, is_writing}

  -- A thread that can make a step: `mdb_txn_begin` waits while a transaction that writes is open.
  abbrev pub IsReady : Loader → Env → Type 0
  IsReady (storing file blk rest) env = is_writing env ≡ false
  IsReady t env = IsRunning t

  pub IsReady-IsRunning : (t : Loader) (env : Env) → IsReady t env → IsRunning t
  IsReady-IsRunning idle env r = tt
  IsReady-IsRunning (reading file rest) env r = tt
  IsReady-IsRunning (storing file blk rest) env r = tt
  IsReady-IsRunning ended env r = r
  IsReady-IsRunning (gave_up file code) env r = r

  -- Any thread that is ready may be the next. The number is 1 where it has to try a block again.
  pub data Move (s : Loaders Env) : ℕ → Loaders Env → Type 0 where
    move :
        (i : ℕ) (t t' : Loader) (shared' : Shared Env)
        → get_elem? s.threads i ≡ some t
        → IsReady t s.shared.env
        → turn lmdb bitcoin read_block mode t s.shared ≡ done shared' t'
        → Move s (retries t t') (record { shared = shared'; threads = set s.threads i t' })

  -- What a number of steps comes to, and how many of them go to a block once more.
  pub data Moves (s : Loaders Env) : ℕ → ℕ → Loaders Env → Type 0 where
    here : Moves s 0 0 s
    more : {n r k : ℕ} {t u : Loaders Env} → Moves s n r t → Move t k u → Moves s (suc n) (r + k) u
