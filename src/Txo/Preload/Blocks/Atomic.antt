-- ===== src/Txo/Preload/Blocks/Atomic.antt =====
-- Storing a block writes all of it or nothing.
use electrumz.Base.{ℕ, String, Bool, true, false, ◌≡◌, refl, ap, ◌∙◌, List, [], ◌∷◌, ◌++◌}
use electrumz.Base.Outcome.{Outcome, done, threw, fault, Exec, pure}
use electrumz.Bitcoin.{BitcoinLib}
use electrumz.Lmdb.{Lmdb, code_of, Result, ok, failed}
use electrumz.Txo.Database.{resize_if_full}
use electrumz.Txo.Preload.Blocks.{
  or_stop, Block, Step, next, again, stopped, full_or_stop, store_txs, write_block, attempt_block,
  and_next,
}
use electrumz.Txo.Preload.Blocks.Journal.{Entry, Journal}
use electrumz.Txo.Preload.Blocks.Steps.{
  Ends, and_next-Ends, resize_if_full-IsStored, full_or_stop-Ends, or_stop-Ends,
}
use electrumz.Base.Outcome.{Returns}
use electrumz.Txo.Preload.Blocks.Returns.{attempt_block-Returns}
use electrumz.Txo.Record.{compare_outputs}
use electrumz.Txo.Preload.Blocks.Entries.{Adds, AreTxs, IsBlock}
use electrumz.Txo.Preload.Blocks.Adds.{store_txs-Adds}

module _ (lmdb : Lmdb) (bitcoin : BitcoinLib) (db : Journal lmdb) where
  open lmdb use {
    Env, Txn, Dbi, Cursor, begin, open_dbi, set_dupsort, put, open_cursor, append_dup, close_cursor,
    commit, is_writing,
  }
  open db use {stored, pending, cursor_txn, cursor_dbi, handle}
  open bitcoin use {shash}

  abbrev Writes : Type 0
  Writes = List (Entry Dbi)

  -- The writes of the block are stored behind `s`, and the transaction is over.
  abbrev pub IsStoredBehind : Writes → ℕ → Block → Env → Type 0
  IsStoredBehind s mode blk env =
      (writes : Writes) × (stored env ≡ s ++ writes)
      × (is_writing env ≡ false)
      × IsBlock lmdb bitcoin db mode blk s writes

  write_block-Ends :
      (s : Writes) (mode : ℕ) (txn : Txn) (blk : Block) (env : Env)
      → stored env ≡ s
      → pending txn env ≡ []
      → Ends lmdb bitcoin db s
          (IsStoredBehind s mode blk)
          (write_block lmdb bitcoin mode txn (handle "txo") (handle "addr") (handle "blk") blk env)
  unfolding write_block
  write_block-Ends s mode txn blk env h p = by_put (put_it env).1 refl
    where
      put_it : Env → Env × Result (Unit {0})
      put_it = put txn (handle "blk") blk.hash blk.header true

      header : Writes
      header = record { dbi = handle "blk"; key = blk.hash; value = blk.header } ∷ []

      kept : stored (put_it env).0 ≡ s
      kept = db.put_keeps txn (handle "blk") blk.hash blk.header true env ∙ h

      committed :
          (env' : Env)
          → Adds lmdb bitcoin db txn s header
              (AreTxs lmdb bitcoin db mode blk.txs (s ++ header))
              env'
          → IsStoredBehind s mode blk (commit txn env')
      committed env' a = (
        header ++ a.added,
        db.commit_stores txn env' ∙ cc (a.keeps, a.pends),
        db.commit_ends txn env',
        (header, a.added, refl, refl, a.written),
      )

      by_put :
          (r : Result (Unit {0}))
          → (put_it env).1 ≡ r
          → Ends lmdb bitcoin db s (IsStoredBehind s mode blk) (
              (elim r as (λ _. Exec Env Step) [
                | failed e ↦ full_or_stop lmdb bitcoin txn e
                | ok _ ↦
                    and_next lmdb bitcoin
                      (store_txs lmdb bitcoin mode txn (handle "txo") (handle "addr") blk.txs)
                      (λ env. done (commit txn env) next)
              ])
                (put_it env).0)
      by_put (failed x) e =
          full_or_stop-Ends lmdb bitcoin db s (IsStoredBehind s mode blk) txn x (put_it env).0 kept
      by_put (ok _) e =
          and_next-Ends lmdb bitcoin db s
            (Adds lmdb bitcoin db txn s header (AreTxs lmdb bitcoin db mode blk.txs (s ++ header)))
            (IsStoredBehind s mode blk)
            (store_txs lmdb bitcoin mode txn (handle "txo") (handle "addr") blk.txs)
            (λ env. done (commit txn env) next) (put_it env).0
            (store_txs-Adds lmdb bitcoin db txn s mode header blk.txs (put_it env).0 kept (
              db.put_accepted txn (handle "blk") blk.hash blk.header true env e
              ∙ ap (λ (v : Writes). v ++ header) p))
            committed

  write_block-Ends_opened :
      (s : Writes) (mode : ℕ) (txn : Txn) (blk : Block) (dbi dbi_addr dbi_blk : Dbi)
      → dbi ≡ handle "txo"
      → dbi_addr ≡ handle "addr"
      → dbi_blk ≡ handle "blk"
      → (env : Env) → stored env ≡ s
      → pending txn env ≡ []
      → Ends lmdb bitcoin db s
          (IsStoredBehind s mode blk)
          (write_block lmdb bitcoin mode txn dbi dbi_addr dbi_blk blk env)
  write_block-Ends_opened s mode txn blk dbi dbi_addr dbi_blk e e' e'' env h p =
      rw (e, e', e'') (write_block-Ends s mode txn blk env h p)

  attempt_block-Ends :
      (mode : ℕ) (blk : Block) (env : Env)
      → Ends lmdb bitcoin db
          (stored env)
          (IsStoredBehind (stored env) mode blk)
          (attempt_block lmdb bitcoin mode blk env)
  unfolding attempt_block
  attempt_block-Ends mode blk env =
      or_stop-Ends lmdb bitcoin db s N begin (λ e. pure (code_of e)) _ env (db.begin_keeps env)
        (λ e env' h. h)
        (λ txn b.
          opens txn "txo" true _ _ (db.begin_keeps env) (db.begin_empty txn env b)
            (λ dbi is_txo h p. opens txn "addr" true _ _ h p (λ dbi_addr is_addr h' p'.
              opens txn "blk" false _ _ h' p' (λ dbi_blk is_blk h'' p''.
                or_stop-Ends lmdb bitcoin db s N (set_dupsort txn dbi compare_outputs)
                  (λ e. pure (code_of e)) _ _ ((db.dupsort_keeps txn dbi compare_outputs _).0 ∙ h'')
                  (λ e env' g. g)
                  (λ _ _.
                    write_block-Ends_opened s mode txn blk dbi dbi_addr dbi_blk is_txo is_addr
                      is_blk _ ((db.dupsort_keeps txn dbi compare_outputs _).0 ∙ h'')
                      ((db.dupsort_keeps txn dbi compare_outputs _).1 ∙ p''))))))
    where
      s : Writes
      s = stored env

      N : Env → Type 0
      N = IsStoredBehind s mode blk

      opens :
          (txn : Txn) (name : String) (dup : Bool) (k : Dbi → Exec Env Step) (env' : Env)
          → stored env' ≡ s
          → pending txn env' ≡ []
          → ((dbi : Dbi)
              → dbi ≡ handle name
              → stored (open_dbi txn name dup env').0 ≡ s
              → pending txn (open_dbi txn name dup env').0 ≡ []
              → Ends lmdb bitcoin db s N (k dbi (open_dbi txn name dup env').0))
          → Ends lmdb bitcoin db s N
              (or_stop lmdb bitcoin (open_dbi txn name dup) (resize_if_full lmdb) k env')
      opens txn name dup k env' h p f =
          or_stop-Ends lmdb bitcoin db s N (open_dbi txn name dup) (resize_if_full lmdb) k env'
            ((db.open_keeps txn name dup env').0 ∙ h) (resize_if_full-IsStored lmdb bitcoin db s)
            (λ dbi e.
              f dbi (db.open_handle txn name dup env' dbi e)
                ((db.open_keeps txn name dup env').0 ∙ h) ((db.open_keeps txn name dup env').1 ∙ p))

  -- What an attempt leaves: the whole block is stored, or nothing, and its transaction is over unless
  -- it stopped with a code.
  abbrev pub IsAllOrNone : ℕ → Block → Env → Step → Env → Type 0
  IsAllOrNone mode blk env next env' = IsStoredBehind (stored env) mode blk env'
  IsAllOrNone mode blk env again env' = (stored env' ≡ stored env) × (is_writing env' ≡ false)
  IsAllOrNone mode blk env (stopped code) env' = stored env' ≡ stored env

  -- An attempt to store a block always comes back. If it goes on, the database has behind what was
  -- stored before the header of the block under its hash and then, in order, the two entries of
  -- each output that its address does not have up to there, and no other; in the pass over the
  -- inputs only the header. If it starts again or stops with a code, the database has what it
  -- had, also when an error came in the middle of the block. Its transaction is over where it goes on
  -- or starts again. LMDB keeps what it documents of
  -- transactions and of pairs that a database has already, and a commit succeeds.
  pub attempt_block-IsAllOrNone :
      (mode : ℕ) (blk : Block) (env : Env)
      → (env' : Env) × (step : Step) × (attempt_block lmdb bitcoin mode blk env ≡ done env' step)
        × IsAllOrNone mode blk env step env'
  attempt_block-IsAllOrNone mode blk env =
      by_end (attempt_block lmdb bitcoin mode blk env) refl
        (attempt_block-Returns lmdb bitcoin mode blk env) (attempt_block-Ends mode blk env)
    where
      by_end :
          (o : Outcome Env Step)
          → attempt_block lmdb bitcoin mode blk env ≡ o
          → Returns o
          → Ends lmdb bitcoin db (stored env) (IsStoredBehind (stored env) mode blk) o
          → (env' : Env) × (step : Step) × (attempt_block lmdb bitcoin mode blk env
              ≡ done env' step)
            × IsAllOrNone mode blk env step env'
      by_end (done env' next) e r h = (env', next, e, h)
      by_end (done env' again) e r h = (env', again, e, h)
      by_end (done env' (stopped code)) e r h = (env', stopped code, e, h)
      by_end (threw env') e r h = absurd r
      by_end fault e r h = absurd r
