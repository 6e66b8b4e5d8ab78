-- ===== src/Txo/Preload/Loaders/Endings.antt =====
-- The threads wait only for one that has left its transaction open.
use electrumz.Base.{
  ℕ, ◌+◌, Bytes, true, false, Bool-cases, ◌≡◌, refl, sym, ◌∙◌, subst, Option, some, List, [], ◌∷◌,
  get_elem?, ◌⊎◌, inl, inr, All, arith,
}
use electrumz.Base.Outcome.{Outcome, done, threw, fault, Returns}
use electrumz.Bitcoin.{BitcoinLib}
use electrumz.Lmdb.{Lmdb}
use electrumz.Txo.Preload.Blocks.{Block, Step, next, again, stopped, attempt_block}
use electrumz.Txo.Preload.Blocks.Atomic.{IsAllOrNone, attempt_block-IsAllOrNone}
use electrumz.Txo.Preload.Blocks.Journal.{Journal}
use electrumz.Txo.Preload.Blocks.Returns.{attempt_block-Returns}
use electrumz.Txo.Preload.Files.{Round, at_end, skipped, holds, next_record}
use electrumz.Txo.Preload.Loaders.GivenUp.{
  GaveUp, HasGivenUp, set-HasGivenUp, HasGivenUp-set, first-IsRunning,
}
use electrumz.Txo.Preload.Loaders.{
  Loader, idle, reading, storing, ended, gave_up, Shared, u32, take_file, read_round, after_attempt,
  turn, set, Loaders, start, IsRunning, IsReady, IsReady-IsRunning, retries, Move, move, Moves,
  here, more,
}

module _ (lmdb : Lmdb) (bitcoin : BitcoinLib) (read_block : Bytes → Bytes × Option Block)
    (mode : ℕ) where
  open lmdb use {Env, is_writing}

  take_file-Returns : (s : Shared Env) → Returns (take_file lmdb bitcoin read_block mode s)
  unfolding take_file
  take_file-Returns s = by_queue s.queue
    where
      by_queue :
          (queue : List Bytes)
          → Returns (elim queue as (λ _. Outcome (Shared Env) Loader) [
            | [] ↦ done s ended
            | file ∷ files ↦
                done
                  (record s { queue = files; files_done = u32 (s.files_done + 1) })
                  (reading file file)
          ])
      by_queue [] = tt
      by_queue (file ∷ files) = tt

  turn-Returns : (t : Loader) (s : Shared Env) → Returns (turn lmdb bitcoin read_block mode t s)
  unfolding turn read_round
  turn-Returns idle s = take_file-Returns s
  turn-Returns (reading file rest) s = by_round (next_record read_block rest)
    where
      by_round : (round : Round) → Returns (read_round lmdb bitcoin read_block mode file round s)
      by_round at_end = tt
      by_round (skipped rest') = tt
      by_round (holds blk rest') = tt
  turn-Returns (storing file blk rest) s =
      by_attempt (attempt_block lmdb bitcoin mode blk s.env)
        (attempt_block-Returns lmdb bitcoin mode blk s.env)
    where
      by_attempt :
          (o : Outcome Env Step)
          → Returns o
          → Returns (elim o as (λ _. Outcome (Shared Env) Loader) [
            | done env step ↦
                done
                  (record s { env = env })
                  (after_attempt lmdb bitcoin read_block mode file blk rest step)
            | threw env ↦ threw (record s { env = env })
            | fault ↦ fault
          ])
      by_attempt (done env step) h = tt
      by_attempt (threw env) h = absurd h
      by_attempt fault h = absurd h
  turn-Returns ended s = tt
  turn-Returns (gave_up file code) s = tt

  -- A thread that is ready makes a step.
  abbrev pub CanMove : Loaders Env → Type 0
  CanMove s = (k : ℕ) × (u : Loaders Env) × Move lmdb bitcoin read_block mode s k u

  turn_moves :
      (s : Loaders Env) (i : ℕ) (t : Loader)
      → get_elem? s.threads i ≡ some t
      → IsReady lmdb bitcoin read_block mode t s.shared.env
      → CanMove s
  turn_moves s i t e r = by_outcome _ refl (turn-Returns t s.shared)
    where
      by_outcome :
          (o : Outcome (Shared Env) Loader)
          → turn lmdb bitcoin read_block mode t s.shared ≡ o
          → Returns o
          → CanMove s
      by_outcome (done shared' t') f h = (retries t t', _, move i t t' shared' e r f)
      by_outcome (threw shared') f h = absurd h
      by_outcome fault f h = absurd h

  unwritten-IsReady :
      (t : Loader) (env : Env)
      → is_writing env ≡ false
      → IsRunning t
      → IsReady lmdb bitcoin read_block mode t env
  unwritten-IsReady idle env o r = r
  unwritten-IsReady (reading file rest) env o r = r
  unwritten-IsReady (storing file blk rest) env o r = o
  unwritten-IsReady ended env o r = r
  unwritten-IsReady (gave_up file code) env o r = r

  module _ (db : Journal lmdb) where
    -- No transaction is open between the steps, or a thread has returned with a code.
    abbrev IsFree : Env → List Loader → Type 0
    IsFree env ts = (is_writing env ≡ false) ⊎ HasGivenUp ts

    -- What a step of a thread leaves of the transactions.
    abbrev Leaves : Env → Loader → Env → Type 0
    Leaves env t' env' = (is_writing env ≡ false → is_writing env' ≡ false) ⊎ GaveUp t'

    abbrev Left : Shared Env → Outcome (Shared Env) Loader → Type 0
    Left s (done s' t') = Leaves s.env t' s'.env
    Left s (threw s') = Unit
    Left s fault = Unit

    take_file-Left : (s : Shared Env) → Left s (take_file lmdb bitcoin read_block mode s)
    unfolding take_file
    take_file-Left s = by_queue s.queue
      where
        by_queue :
            (queue : List Bytes)
            → Left s (elim queue as (λ _. Outcome (Shared Env) Loader) [
              | [] ↦ done s ended
              | file ∷ files ↦
                  done
                    (record s { queue = files; files_done = u32 (s.files_done + 1) })
                    (reading file file)
            ])
        by_queue [] = inl (λ o. o)
        by_queue (file ∷ files) = inl (λ o. o)

    turn-Left : (t : Loader) (s : Shared Env) → Left s (turn lmdb bitcoin read_block mode t s)
    unfolding turn read_round
    turn-Left idle s = take_file-Left s
    turn-Left (reading file rest) s = by_round (next_record read_block rest)
      where
        by_round : (round : Round) → Left s (read_round lmdb bitcoin read_block mode file round s)
        by_round at_end = inl (λ o. db.sync_writing s.env ∙ o)
        by_round (skipped rest') = inl (λ o. o)
        by_round (holds blk rest') = inl (λ o. o)
    turn-Left (storing file blk rest) s =
        let (env', step, e, h) = attempt_block-IsAllOrNone lmdb bitcoin db mode blk s.env in
        subst
          (λ (o : Outcome Env Step). Left s (elim o as (λ _. Outcome (Shared Env) Loader) [
            | done env step ↦
                done (record s { env = env })
                  (after_attempt lmdb bitcoin read_block mode file blk rest step)
            | threw env ↦ threw (record s { env = env })
            | fault ↦ fault
          ]))
          (sym e) (by_step env' step h)
      where
        by_step :
            (env' : Env) (step : Step)
            → IsAllOrNone lmdb bitcoin db mode blk s.env step env'
            → Leaves s.env (after_attempt lmdb bitcoin read_block mode file blk rest step) env'
        by_step env' next (w, k, o, h) = inl (λ _. o)
        by_step env' again (k, o) = inl (λ _. o)
        by_step env' (stopped code) k = inr tt
    turn-Left ended s = inl (λ o. o)
    turn-Left (gave_up file code) s = inl (λ o. o)

    Move-IsFree :
        {s u : Loaders Env} {k : ℕ}
        → Move lmdb bitcoin read_block mode s k u
        → IsFree s.shared.env s.threads
        → IsFree u.shared.env u.threads
    Move-IsFree {s} (move i t t' shared' e r f) free =
        by_left (subst (Left s.shared) f (turn-Left t s.shared)) free
      where
        running : IsRunning t
        running = IsReady-IsRunning lmdb bitcoin read_block mode t s.shared.env r

        by_left :
            Leaves s.shared.env t' shared'.env
            → IsFree s.shared.env s.threads
            → IsFree shared'.env (set s.threads i t')
        by_left (inl l) (inl o) = inl (l o)
        by_left (inr g) free = inr (set-HasGivenUp s.threads i t t' e g)
        by_left (inl l) (inr h) = inr (HasGivenUp-set s.threads i t t' e running h)

    Moves-IsFree :
        {s u : Loaders Env} {n r : ℕ}
        → Moves lmdb bitcoin read_block mode s n r u
        → IsFree s.shared.env s.threads
        → IsFree u.shared.env u.threads
    Moves-IsFree here free = free
    Moves-IsFree (more ms m) free = Move-IsFree m (Moves-IsFree ms free)

    -- The threads wait only for one that has returned with a code and left its transaction open: in
    -- every state that a pass comes to from a database with no transaction open, all of them have
    -- ended, or one of them can make its step, or a transaction is still open and a thread has
    -- returned with a code. A thread can begin no transaction while one is open; LMDB keeps what it
    -- documents of transactions, and its calls return.
    pub Moves-progress :
        {u : Loaders Env} {k r : ℕ} (n : ℕ) (files : List Bytes) (env : Env)
        → is_writing env ≡ false
        → Moves lmdb bitcoin read_block mode (start n files env) k r u
        → All (λ t. ¬ IsRunning t) u.threads
          ⊎ (CanMove u ⊎ ((is_writing u.shared.env ≡ true) × HasGivenUp u.threads))
    Moves-progress {u} n files env o ms =
        by_running (first-IsRunning u.threads) (Moves-IsFree ms (inl o))
          (Bool-cases (is_writing u.shared.env))
      where
        by_running :
            All (λ t. ¬ IsRunning t) u.threads
              ⊎ ((i : ℕ) × (t : Loader) × (get_elem? u.threads i ≡ some t) × IsRunning t)
            → IsFree u.shared.env u.threads
            → (is_writing u.shared.env ≡ true) ⊎ (is_writing u.shared.env ≡ false)
            → All (λ t. ¬ IsRunning t) u.threads
              ⊎ (CanMove u ⊎ ((is_writing u.shared.env ≡ true) × HasGivenUp u.threads))
        by_running (inl all) free w = inl all
        by_running (inr (i, t, e, r)) free (inr w) =
            inr (inl (turn_moves u i t e (unwritten-IsReady t u.shared.env w r)))
        by_running (inr (i, t, e, r)) (inl o) (inl w) = absurd (ground arith)
        by_running (inr (i, t, e, r)) (inr g) (inl w) = inr (inr (w, g))
