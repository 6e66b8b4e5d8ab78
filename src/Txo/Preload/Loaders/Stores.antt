-- ===== src/Txo/Preload/Loaders/Stores.antt =====
-- What one step of a thread stores.
use electrumz.Base.{
  ℕ, ◌+◌, ◌≤◌, Bytes, Bool, ◌≡◌, refl, ap, sym, ◌∙◌, subst, Option, List, [], ◌∷◌, ◌++◌, length,
  append-nil, append_assoc, arith,
}
use electrumz.Base.Outcome.{Outcome, done, threw, fault}
use electrumz.Bitcoin.{BitcoinLib}
use electrumz.Lmdb.{Lmdb}
use electrumz.Txo.Preload.Blocks.{Block, Step, next, again, stopped}
use electrumz.Txo.Preload.Blocks.Atomic.{IsAllOrNone, attempt_block-IsAllOrNone}
use electrumz.Txo.Preload.Blocks.Entries.{Then, IsBlock}
use electrumz.Txo.Preload.Blocks.Journal.{Entry, Journal}
use electrumz.Txo.Preload.Files.{Round, at_end, skipped, holds, next_record}
use electrumz.Txo.Preload.Files.Contents.{
  file_blocks, all_blocks, blocks_from, file_blocks-next_record,
}
use electrumz.Txo.Preload.Loaders.{
  Loader, idle, reading, storing, ended, gave_up, Shared, u32, take_file, read_round, after_attempt,
  turn, IsRunning,
}
use electrumz.Txo.Preload.Loaders.Sums.{count, count-append}

abbrev pub NotGivenUp : Loader → Type 0
NotGivenUp (gave_up file code) = ⊥
NotGivenUp _ = Unit

pub IsRunning-NotGivenUp : (t : Loader) → IsRunning t → NotGivenUp t
IsRunning-NotGivenUp idle h = tt
IsRunning-NotGivenUp (reading file rest) h = tt
IsRunning-NotGivenUp (storing file blk rest) h = tt
IsRunning-NotGivenUp ended h = absurd h
IsRunning-NotGivenUp (gave_up file code) h = absurd h

module _ (lmdb : Lmdb) (bitcoin : BitcoinLib) (db : Journal lmdb)
    (read_block : Bytes → Bytes × Option Block) (mode : ℕ)
    (reads_on : (body : Bytes) → length (read_block body).0 ≤ length body) where
  open lmdb use {Env, Dbi, sync}
  open db use {stored}

  abbrev Writes : Type 0
  Writes = List (Entry Dbi)

  -- The writes of these blocks, one block after the other, behind the entries `before`.
  abbrev pub AreBlocks : List Block → Writes → Writes → Type 0
  AreBlocks [] = λ before writes. writes ≡ []
  AreBlocks (blk ∷ blks) =
      λ before. Then before (IsBlock lmdb bitcoin db mode blk before) (AreBlocks blks)

  pub AreBlocks-append :
      (as' bs : List Block) (before v w : Writes)
      → AreBlocks as' before v
      → AreBlocks bs (before ++ v) w
      → AreBlocks (as' ++ bs) before (v ++ w)
  AreBlocks-append [] bs before v w h k =
      let same : before ++ v ≡ before = ap (λ (x : Writes). before ++ x) h ∙ append-nil before in
      subst (λ (x : Writes). AreBlocks bs before (x ++ w)) (sym h)
        (subst (λ (x : Writes). AreBlocks bs x w) same k)
  AreBlocks-append (a ∷ as') bs before v w (b, c, e, h, hs) k = (
    b,
    c ++ w,
    ap (λ (x : Writes). x ++ w) e ∙ append_assoc b c w,
    h,
    AreBlocks-append as' bs (before ++ b) c w hs (
        subst (λ (x : Writes). AreBlocks bs x w)
          (ap (λ (x : Writes). before ++ x) e ∙ sym (append_assoc before b c)) k),
  )

  -- The blocks that a thread has still to store.
  abbrev pub to_come : (Block → Bool) → Loader → ℕ
  to_come p idle = 0
  to_come p (reading file rest) = count p (file_blocks read_block rest)
  to_come p (storing file blk rest) = count p (blk ∷ file_blocks read_block rest)
  to_come p ended = 0
  to_come p (gave_up file code) = 0

  abbrev pub in_queue : (Block → Bool) → List Bytes → ℕ
  in_queue p files = count p (all_blocks read_block files)

  -- What a step stores, and that it loses no block.
  pub record Stores (t t' : Loader) (s s' : Shared Env) : Type 0 where
    pub blks : List Block
    pub writes : Writes
    pub kept : stored s'.env ≡ stored s.env ++ writes
    pub logged : AreBlocks blks (stored s.env) writes
    pub balance :
        NotGivenUp t'
        → (p : Block → Bool)
        → count p blks + to_come p t' + in_queue p s'.queue ≡ to_come p t + in_queue p s.queue

  abbrev pub Storing : Loader → Shared Env → Outcome (Shared Env) Loader → Type 0
  Storing t s (done s' t') = Stores t t' s s'
  Storing t s (threw s') = Unit
  Storing t s fault = Unit

  nothing_new :
      (t t' : Loader) (s s' : Shared Env)
      → stored s'.env ≡ stored s.env
      → (NotGivenUp t'
          → (p : Block → Bool)
          → to_come p t' + in_queue p s'.queue ≡ to_come p t + in_queue p s.queue)
      → Stores t t' s s'
  nothing_new t t' s s' h b = record {
    blks = [];
    writes = [];
    kept = h ∙ sym (append-nil (stored s.env));
    logged = refl;
    balance = λ g p. omega (arith, b g p);
  }

  take_file-Storing : (s : Shared Env) → Storing idle s (take_file lmdb bitcoin read_block mode s)
  unfolding take_file
  take_file-Storing s = by_queue s.queue refl
    where
      by_queue :
          (queue : List Bytes)
          → s.queue ≡ queue
          → Storing idle s (elim queue as (λ _. Outcome (Shared Env) Loader) [
            | [] ↦ done s ended
            | file ∷ files ↦
                done
                  (record s { queue = files; files_done = u32 (s.files_done + 1) })
                  (reading file file)
          ])
      by_queue [] e = nothing_new idle ended s s refl (λ g p. refl)
      by_queue (file ∷ files) e =
          nothing_new idle (reading file file) s
            (record s { queue = files; files_done = u32 (s.files_done + 1) }) refl
            (λ g p. omega (
              arith,
              ap (in_queue p) e,
              count-append p (file_blocks read_block file) (all_blocks read_block files),
            ))

  pub turn-Storing :
      (t : Loader) (s : Shared Env)
      → IsRunning t
      → Storing t s (turn lmdb bitcoin read_block mode t s)
  unfolding turn read_round
  turn-Storing idle s r = take_file-Storing s
  turn-Storing (reading file rest) s r =
      by_round (next_record read_block rest) (file_blocks-next_record read_block reads_on rest)
    where
      by_round :
          (round : Round)
          → file_blocks read_block rest ≡ blocks_from read_block round
          → Storing (reading file rest) s (read_round lmdb bitcoin read_block mode file round s)
      by_round at_end e =
          nothing_new (reading file rest) idle s
            (record s { finished = file ∷ s.finished; env = sync s.env }) (db.sync_keeps s.env)
            (λ g p. omega (arith, ap (count p) e))
      by_round (skipped rest') e =
          nothing_new (reading file rest) (reading file rest') s s refl
            (λ g p. omega (arith, ap (count p) e))
      by_round (holds blk rest') e =
          nothing_new (reading file rest) (storing file blk rest') s s refl
            (λ g p. omega (arith, ap (count p) e))
  turn-Storing (storing file blk rest) s r =
      let (env', step, e, h) = attempt_block-IsAllOrNone lmdb bitcoin db mode blk s.env in
      subst
        (λ (o : Outcome Env Step).
          Storing (storing file blk rest) s (elim o as (λ _. Outcome (Shared Env) Loader) [
            | done env step ↦
                done (record s { env = env })
                  (after_attempt lmdb bitcoin read_block mode file blk rest step)
            | threw env ↦ threw (record s { env = env })
            | fault ↦ fault
          ]))
        (sym e) (by_step env' step h)
    where
      by_step :
          (env' : Env) (step : Step)
          → IsAllOrNone lmdb bitcoin db mode blk s.env step env'
          → Stores
              (storing file blk rest)
              (after_attempt lmdb bitcoin read_block mode file blk rest step)
              s
              (record s { env = env' })
      by_step env' next (w, k, o, h) = record {
        blks = blk ∷ [];
        writes = w;
        kept = k;
        logged = (w, [], sym (append-nil w), h, refl);
        balance = λ g p. omega arith;
      }
      by_step env' again h = nothing_new _ (storing file blk rest) s _ h.0 (λ g p. refl)
      by_step env' (stopped code) h = nothing_new _ (gave_up file code) s _ h (λ g p. absurd g)
  turn-Storing ended s r = absurd r
  turn-Storing (gave_up file code) s r = absurd r
