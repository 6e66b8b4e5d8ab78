-- ===== src/Txo/Preload/Loaders/Keeps.antt =====
-- What one step of a thread does with the files.
use electrumz.Base.{
  ℕ, ◌+◌, ◌-◌, ◌<◌, ◌≤◌, Bytes, Bool, ◌≡◌, refl, ap, Option, List, [], ◌∷◌, length, if◌then◌else◌,
  arith,
}
use electrumz.Base.Outcome.{Outcome, done, threw, fault}
use electrumz.Bitcoin.{BitcoinLib}
use electrumz.Lmdb.{Lmdb}
use electrumz.Txo.Preload.Blocks.{Block, Step, next, again, stopped, attempt_block}
use electrumz.Txo.Preload.Files.{Round, at_end, skipped, holds, next_record}
use electrumz.Txo.Preload.Loaders.{
  Loader, idle, reading, storing, ended, gave_up, Shared, u32, take_file, read_round, after_attempt,
  turn, IsRunning,
}
use electrumz.Txo.Preload.Loaders.Sums.{count, sum_threads}

-- How many of the files that threads are in pass it.
abbrev pub count_of : (Bytes → Bool) → Loader → ℕ
count_of p idle = 0
count_of p (reading file rest) = if p file then 1 else 0
count_of p (storing file blk rest) = if p file then 1 else 0
count_of p ended = 0
count_of p (gave_up file code) = if p file then 1 else 0

abbrev pub count_threads : (Bytes → Bool) → List Loader → ℕ
count_threads p = sum_threads (count_of p)

-- A thread that has ended found no file.
abbrev pub HasSeen : List Bytes → Loader → Type 0
HasSeen queue ended = queue ≡ []
HasSeen queue _ = Unit

module _ (lmdb : Lmdb) (bitcoin : BitcoinLib) (read_block : Bytes → Bytes × Option Block)
    (mode : ℕ) where
  open lmdb use {Env}

  -- What a step of a thread keeps, for each test.
  pub record Keeps (t t' : Loader) (s s' : Shared Env) : Type 0 where
    pub shares :
        (p : Bytes → Bool)
        → count p s'.queue + count_of p t' + count p s'.finished
          ≡ count p s.queue + count_of p t + count p s.finished
    pub fewer : length s'.queue ≤ length s.queue
    pub counted : s'.files_done ≡ u32 (s.files_done + (length s.queue - length s'.queue))
    pub seen : HasSeen s'.queue t'
    pub empty : s.queue ≡ [] → s'.queue ≡ []

  abbrev pub Kept : Loader → Shared Env → Outcome (Shared Env) Loader → Type 0
  Kept t s (done s' t') = Keeps t t' s s'
  Kept t s (threw s') = Unit
  Kept t s fault = Unit

  take_file-Kept :
      (s : Shared Env)
      → s.files_done < 4294967296
      → Kept idle s (take_file lmdb bitcoin read_block mode s)
  unfolding take_file
  take_file-Kept s h = by_queue s.queue refl
    where
      by_queue :
          (queue : List Bytes)
          → s.queue ≡ queue
          → Kept idle s (elim queue as (λ _. Outcome (Shared Env) Loader) [
            | [] ↦ done s ended
            | file ∷ files ↦
                done
                  (record s { queue = files; files_done = u32 (s.files_done + 1) })
                  (reading file file)
          ])
      by_queue [] e = record {
        shares = λ p. refl;
        fewer = omega arith;
        counted = omega arith;
        seen = e;
        empty = λ f. f;
      }
      by_queue (file ∷ files) e = record {
        shares = λ p. omega (arith, ap (count p) e);
        fewer = omega (arith, ap length e);
        counted = omega (arith, ap length e);
        seen = tt;
        empty = λ f. cc;
      }

  -- A step that leaves the files and the counter alone, in a file that the thread keeps.
  stays :
      (t t' : Loader) (s : Shared Env) (env : Env)
      → s.files_done < 4294967296
      → ((p : Bytes → Bool) → count_of p t' ≡ count_of p t)
      → HasSeen s.queue t'
      → Keeps t t' s (record s { env = env })
  stays t t' s env h c e = record {
    shares = λ p. omega (arith, c p);
    fewer = omega arith;
    counted = omega arith;
    seen = e;
    empty = λ f. f;
  }

  pub turn-Kept :
      (t : Loader) (s : Shared Env)
      → s.files_done < 4294967296
      → IsRunning t
      → Kept t s (turn lmdb bitcoin read_block mode t s)
  unfolding turn read_round
  turn-Kept idle s h r = take_file-Kept s h
  turn-Kept (reading file rest) s h r = by_round (next_record read_block rest)
    where
      by_round :
          (round : Round)
          → Kept (reading file rest) s (read_round lmdb bitcoin read_block mode file round s)
      by_round at_end = record {
        shares = λ p. omega arith;
        fewer = omega arith;
        counted = omega arith;
        seen = tt;
        empty = λ f. f;
      }
      by_round (skipped rest') =
          stays (reading file rest) (reading file rest') s s.env h (λ p. refl) tt
      by_round (holds blk rest') =
          stays (reading file rest) (storing file blk rest') s s.env h (λ p. refl) tt
  turn-Kept (storing file blk rest) s h r = by_attempt (attempt_block lmdb bitcoin mode blk s.env)
    where
      by_attempt :
          (o : Outcome Env Step)
          → Kept (storing file blk rest) s (elim o as (λ _. Outcome (Shared Env) Loader) [
            | done env step ↦
                done
                  (record s { env = env })
                  (after_attempt lmdb bitcoin read_block mode file blk rest step)
            | threw env ↦ threw (record s { env = env })
            | fault ↦ fault
          ])
      by_attempt (done env next) =
          stays (storing file blk rest) (reading file rest) s env h (λ p. refl) tt
      by_attempt (done env again) =
          stays (storing file blk rest) (storing file blk rest) s env h (λ p. refl) tt
      by_attempt (done env (stopped code)) =
          stays (storing file blk rest) (gave_up file code) s env h (λ p. refl) tt
      by_attempt (threw env) = tt
      by_attempt fault = tt
  turn-Kept ended s h r = absurd r
  turn-Kept (gave_up file code) s h r = absurd r
