-- ===== src/Txo/Preload/Blocks/Retries.antt =====
-- How often a block is tried again.
use electrumz.Base.{ℕ, zero, suc, ◌-◌, ◌<◌, true, false, ◌≡◌, ap, ◌∙◌, subst, arith}
use electrumz.Base.Outcome.{Outcome, done, threw, fault, Exec, pure, continue, ◌>>=◌}
use electrumz.Bitcoin.{BitcoinLib}
use electrumz.Lmdb.{Lmdb, map_full, code_of, Result, ok, failed, run}
use electrumz.Txo.Database.{resize_if_full}
use electrumz.Txo.Preload.Blocks.{
  Block, Step, next, again, stopped, full_or_stop, store_txs, attempt_block, store_block, and_next,
}
use electrumz.Txo.Record.{compare_outputs}
use electrumz.Txo.Preload.Blocks.Growth.{
  Suffices, Grew, and_next-Grew, full_or_stop-Grew, or_stop-Grew,
}
use electrumz.Txo.Preload.Blocks.Outputs.{store_txs-Grew}

module _ (lmdb : Lmdb) (bitcoin : BitcoinLib) (need : ℕ) (db : Suffices lmdb need) where
  open lmdb use {
    Env, Txn, Dbi, Cursor, begin, open_dbi, set_dupsort, put, open_cursor, append_dup, close_cursor,
    commit, abort, map_size, set_map_size,
  }
  open db use {size}
  open bitcoin use {shash}

  abbrev Grows : ℕ → Outcome Env Step → Type 0
  Grows = Grew lmdb bitcoin need db

  put_header-Grew :
      (n mode : ℕ) (txn : Txn) (dbi dbi_addr dbi_blk : Dbi) (blk : Block) (env : Env)
      → size env ≡ n
      → Grows n (
          (do
            r ← run (put txn dbi_blk blk.hash blk.header true)
            elim r [
              | failed e ↦ full_or_stop lmdb bitcoin txn e
              | ok _ ↦
                  and_next lmdb bitcoin
                    (store_txs lmdb bitcoin mode txn dbi dbi_addr blk.txs)
                    (λ env. done (commit txn env) next)
            ])
            env)
  put_header-Grew n mode txn dbi dbi_addr dbi_blk blk env h =
      by_put (put txn dbi_blk blk.hash blk.header true env)
        (db.put_size txn dbi_blk blk.hash blk.header true env ∙ h)
        (λ e.
          subst (λ (m : ℕ). m < need) h (db.put_full txn dbi_blk blk.hash blk.header true env e))
    where
      by_put :
          (a : Env × Result (Unit {0}))
          → size a.0 ≡ n
          → (a.1 ≡ failed map_full → n < need)
          → Grows n (
              (elim a.1 as (λ _. Exec Env Step) [
                | failed e ↦ full_or_stop lmdb bitcoin txn e
                | ok _ ↦
                    and_next lmdb bitcoin
                      (store_txs lmdb bitcoin mode txn dbi dbi_addr blk.txs)
                      (λ env. done (commit txn env) next)
              ])
                a.0)
      by_put (s, failed e) k l =
          full_or_stop-Grew lmdb bitcoin need db n txn e s k (λ q. l (ap failed q))
      by_put (s, ok t) k l =
          and_next-Grew lmdb bitcoin need db n
            (store_txs lmdb bitcoin mode txn dbi dbi_addr blk.txs)
            (λ env. done (commit txn env) next) s
            (store_txs-Grew lmdb bitcoin need db n mode txn dbi dbi_addr blk.txs s k)
            (λ env' h'. db.commit_size txn env' ∙ h')

  pub attempt_block-Grew :
      (mode : ℕ) (blk : Block) (env : Env)
      → Grows (size env) (attempt_block lmdb bitcoin mode blk env)
  unfolding attempt_block
  attempt_block-Grew mode blk env =
      let n = size env in
      or_stop-Grew lmdb bitcoin need db n begin (λ e. pure (code_of e)) _ env (db.begin_size env)
        (λ txn env₁ h₁.
          or_stop-Grew lmdb bitcoin need db n (open_dbi txn "txo" true) (resize_if_full lmdb) _ env₁
            (db.open_size txn "txo" true env₁ ∙ h₁)
            (λ dbi env₂ h₂.
              or_stop-Grew lmdb bitcoin need db n (open_dbi txn "addr" true) (resize_if_full lmdb) _
                env₂ (db.open_size txn "addr" true env₂ ∙ h₂)
                (λ dbi_addr env₃ h₃.
                  or_stop-Grew lmdb bitcoin need db n (open_dbi txn "blk" false)
                    (resize_if_full lmdb) _ env₃ (db.open_size txn "blk" false env₃ ∙ h₃)
                    (λ dbi_blk env₄ h₄.
                      or_stop-Grew lmdb bitcoin need db n (set_dupsort txn dbi compare_outputs)
                        (λ e. pure (code_of e)) _ env₄
                        (db.dupsort_size txn dbi compare_outputs env₄ ∙ h₄)
                        (λ _ env₅ h₅.
                          put_header-Grew n mode txn dbi dbi_addr dbi_blk blk env₅ h₅)))))

  -- The attempts were enough.
  abbrev pub IsSettled : Outcome Env Step → Type 0
  IsSettled (done env again) = ⊥
  IsSettled _ = Unit

  follow_attempt :
      (n : ℕ) (o : Outcome Env Step) (rest : Exec Env Step)
      → Grows n o
      → ((env : Env) → n < size env → n < need → IsSettled (rest env))
      → IsSettled (
          continue o
            (λ s. elim s [ next ↦ pure next | again ↦ rest | stopped code ↦ pure (stopped code) ]))
  follow_attempt n (done env next) rest h k = tt
  follow_attempt n (done env again) rest (l, m) k = k env l m
  follow_attempt n (done env (stopped code)) rest h k = tt
  follow_attempt n (threw env) rest h k = tt
  follow_attempt n fault rest h k = tt

  -- Where the database is never full from some size of its map on, a block is stored, or its storing
  -- stops with a code, within one attempt more than the map is short of that size: each further
  -- attempt comes with a larger map. The calls keep the size but for the one that sets it, and no
  -- error of that one has the number of TXO_RESIZED.
  pub store_block-IsSettled :
      (tries mode : ℕ) (blk : Block) (env : Env)
      → need - size env < tries
      → IsSettled (store_block lmdb bitcoin tries mode blk env)
  unfolding store_block
  store_block-IsSettled zero mode blk env l = absurd (omega arith)
  store_block-IsSettled (suc tries) mode blk env l =
      follow_attempt (size env) (attempt_block lmdb bitcoin mode blk env)
        (store_block lmdb bitcoin tries mode blk) (attempt_block-Grew mode blk env)
        (λ env' g s. store_block-IsSettled tries mode blk env' (omega arith))
