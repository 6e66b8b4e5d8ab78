-- ===== src/Txo/Preload/Blocks/Returns.antt =====
-- An attempt to store a block always comes back, whatever the database answers.
use electrumz.Base.{
  ℕ, ◌+◌, ◌==◌, Bytes, Bool, true, false, sym, subst, List, [], ◌∷◌, ℤ, if◌then◌else◌,
}
use electrumz.Base.Outcome.{Returns, continue-Returns, if-Returns, done, Exec, pure, ◌>>=◌}
use electrumz.Bitcoin.{BitcoinLib}
use electrumz.Lmdb.{Lmdb, Error, Result, ok, failed, is_map_full, code_of, run}
use electrumz.Txo.Database.{increase_map_size, resize_if_full, or_code, next_size}
use electrumz.Txo.Preload.Blocks.{
  new_txo, Transaction, Block, Step, next, again, stopped, is_key_exist, full_or_stop, store_output,
  store_outputs, spend_inputs, store_tx, store_txs, write_block, attempt_block, and_next, or_stop,
}
use electrumz.Txo.Record.{write_txo, compare_outputs}
use electrumz.Txo.Preload.Blocks.Inputs.{spend_inputs_lem}

module _ (lmdb : Lmdb) (bitcoin : BitcoinLib) where
  open lmdb use {Env, Txn, Dbi, Cursor, open_cursor, close_cursor, put, append_dup, abort, commit}

  or_code-Returns :
      {A : Type 0} (call : Env → Env × Result A) (k : A → Exec Env ℤ) (env : Env)
      → ((a : A) (env' : Env) → Returns (k a env'))
      → Returns (or_code lmdb call k env)
  or_code-Returns {A} call k env h = by_result (call env).1
    where
      by_result :
          (r : Result A)
          → Returns (
              (elim r as (λ _. Exec Env ℤ) [ ok a ↦ k a | failed e ↦ pure (code_of e) ])
                (call env).0)
      by_result (ok a) = h a (call env).0
      by_result (failed e) = tt

  increase_map_size-Returns : (env : Env) → Returns (increase_map_size lmdb env)
  unfolding increase_map_size
  increase_map_size-Returns env =
      or_code-Returns lmdb.map_size _ env
        (λ m env'. or_code-Returns (lmdb.set_map_size (next_size m)) _ env' (λ _ env''. tt))

  full_or_stop-Returns :
      (txn : Txn) (e : Error) (env : Env) → Returns (full_or_stop lmdb bitcoin txn e env)
  unfolding full_or_stop
  full_or_stop-Returns txn e env =
      if-Returns (is_map_full e) _ _
        (continue-Returns (increase_map_size lmdb (abort txn env)) _
          (increase_map_size-Returns (abort txn env)) (λ code env'. tt))
        tt

  store_output-Returns :
      (txn : Txn) (cur : Cursor) (dbi_addr : Dbi) (tx_hash : Bytes) (n : ℕ) (output : Bytes × ℕ)
      (env : Env)
      → Returns (store_output lmdb bitcoin txn cur dbi_addr tx_hash n output env)
  unfolding store_output
  store_output-Returns txn cur dbi_addr tx_hash n (script, value) env = by_put _ _
    where
      by_append :
          (env' : Env) (r : Result (Unit {0}))
          → Returns (
              (elim r as (λ _. Exec Env Step) [
                | failed e ↦ full_or_stop lmdb bitcoin txn e
                | ok _ ↦ pure next
              ])
                env')
      by_append env' (ok _) = tt
      by_append env' (failed e) = full_or_stop-Returns txn e env'

      by_put :
          (env' : Env) (r : Result (Unit {0}))
          → Returns (
              (elim r as (λ _. Exec Env Step) [
                | failed e ↦ if is_key_exist e then pure next else full_or_stop lmdb bitcoin txn e
                | ok _ ↦ (do
                  r' ← run (
                      append_dup cur tx_hash
                        (write_txo (new_txo (bitcoin.shash script) tx_hash n value)))
                  elim r' [ failed e ↦ full_or_stop lmdb bitcoin txn e | ok _ ↦ pure next ])
              ])
                env')
      by_put env' (ok _) = by_append _ _
      by_put env' (failed e) = by_exist (is_key_exist e)
        where
          by_exist :
              (b : Bool) → Returns ((if b then pure next else full_or_stop lmdb bitcoin txn e) env')
          by_exist true = tt
          by_exist false = full_or_stop-Returns txn e env'

  and_next-Returns :
      (m k : Exec Env Step) (env : Env)
      → Returns (m env)
      → ((env' : Env) → Returns (k env'))
      → Returns (and_next lmdb bitcoin m k env)
  and_next-Returns m k env h l = continue-Returns (m env) _ h by_step
    where
      by_step :
          (s : Step) (env' : Env)
          → Returns (
              (elim s as (λ _. Exec Env Step) [
                | next ↦ k
                | again ↦ pure again
                | stopped code ↦ pure (stopped code)
              ])
                env')
      by_step next env' = l env'
      by_step again env' = tt
      by_step (stopped code) env' = tt

  store_outputs-Returns :
      (txn : Txn) (cur : Cursor) (dbi_addr : Dbi) (tx_hash : Bytes) (n : ℕ)
      (outputs : List (Bytes × ℕ)) (env : Env)
      → Returns (store_outputs lmdb bitcoin txn cur dbi_addr tx_hash n outputs env)
  unfolding store_outputs
  store_outputs-Returns txn cur dbi_addr tx_hash n [] env = tt
  store_outputs-Returns txn cur dbi_addr tx_hash n (output ∷ outputs) env =
      and_next-Returns (store_output lmdb bitcoin txn cur dbi_addr tx_hash n output)
        (store_outputs lmdb bitcoin txn cur dbi_addr tx_hash (n + 1) outputs) env
        (store_output-Returns txn cur dbi_addr tx_hash n output env)
        (store_outputs-Returns txn cur dbi_addr tx_hash (n + 1) outputs)

  store_tx-Returns :
      (mode : ℕ) (txn : Txn) (dbi dbi_addr : Dbi) (tx : Transaction) (env : Env)
      → Returns (store_tx lmdb bitcoin mode txn dbi dbi_addr tx env)
  unfolding store_tx
  store_tx-Returns mode txn dbi dbi_addr tx env =
      and_next-Returns
        (if mode == 1
          then spend_inputs lmdb bitcoin tx.hash 0 tx.inputs
          else store_outputs lmdb bitcoin txn cur dbi_addr tx.hash 0 tx.outputs)
        (λ env'. done (close_cursor cur env') next) (open_cursor txn dbi env).0
        (by_mode (mode == 1)) (λ env'. tt)
    where
      cur : Cursor
      cur = (open_cursor txn dbi env).1

      by_mode :
          (b : Bool)
          → Returns (
              (if b
                  then spend_inputs lmdb bitcoin tx.hash 0 tx.inputs
                  else store_outputs lmdb bitcoin txn cur dbi_addr tx.hash 0 tx.outputs)
                (open_cursor txn dbi env).0)
      by_mode true =
          subst Returns
            (sym (spend_inputs_lem lmdb bitcoin tx.hash 0 tx.inputs (open_cursor txn dbi env).0)) tt
      by_mode false =
          store_outputs-Returns txn cur dbi_addr tx.hash 0 tx.outputs (open_cursor txn dbi env).0

  store_txs-Returns :
      (mode : ℕ) (txn : Txn) (dbi dbi_addr : Dbi) (txs : List Transaction) (env : Env)
      → Returns (store_txs lmdb bitcoin mode txn dbi dbi_addr txs env)
  unfolding store_txs
  store_txs-Returns mode txn dbi dbi_addr [] env = tt
  store_txs-Returns mode txn dbi dbi_addr (tx ∷ txs) env =
      and_next-Returns (store_tx lmdb bitcoin mode txn dbi dbi_addr tx)
        (store_txs lmdb bitcoin mode txn dbi dbi_addr txs) env
        (store_tx-Returns mode txn dbi dbi_addr tx env)
        (store_txs-Returns mode txn dbi dbi_addr txs)

  or_stop-Returns :
      {A : Type 0} (call : Env → Env × Result A) (on_error : Error → Exec Env ℤ)
      (k : A → Exec Env Step) (env : Env)
      → ((e : Error) (env' : Env) → Returns (on_error e env'))
      → ((a : A) (env' : Env) → Returns (k a env'))
      → Returns (or_stop lmdb bitcoin call on_error k env)
  or_stop-Returns {A} call on_error k env h l = by_result (call env).1
    where
      by_result :
          (r : Result A)
          → Returns (
              (elim r as (λ _. Exec Env Step) [
                | ok a ↦ k a
                | failed e ↦ (do code ← on_error e; pure (stopped code))
              ])
                (call env).0)
      by_result (ok a) = l a (call env).0
      by_result (failed e) =
          continue-Returns (on_error e (call env).0) _ (h e (call env).0) (λ code env'. tt)

  resize_if_full-Returns : (e : Error) (env : Env) → Returns (resize_if_full lmdb e env)
  unfolding resize_if_full
  resize_if_full-Returns e env = by_full (is_map_full e)
    where
      by_full : (b : Bool) → Returns ((if b then increase_map_size lmdb else pure (code_of e)) env)
      by_full true = increase_map_size-Returns env
      by_full false = tt

  write_block-Returns :
      (mode : ℕ) (txn : Txn) (dbi dbi_addr dbi_blk : Dbi) (blk : Block) (env : Env)
      → Returns (write_block lmdb bitcoin mode txn dbi dbi_addr dbi_blk blk env)
  unfolding write_block
  write_block-Returns mode txn dbi dbi_addr dbi_blk blk env = by_put _ _
    where
      by_put :
          (env' : Env) (r : Result (Unit {0}))
          → Returns (
              (elim r as (λ _. Exec Env Step) [
                | failed e ↦ full_or_stop lmdb bitcoin txn e
                | ok _ ↦
                    and_next lmdb bitcoin
                      (store_txs lmdb bitcoin mode txn dbi dbi_addr blk.txs)
                      (λ env. done (commit txn env) next)
              ])
                env')
      by_put env' (failed e) = full_or_stop-Returns txn e env'
      by_put env' (ok _) =
          and_next-Returns (store_txs lmdb bitcoin mode txn dbi dbi_addr blk.txs) _ env'
            (store_txs-Returns mode txn dbi dbi_addr blk.txs env') (λ env''. tt)

  pub attempt_block-Returns :
      (mode : ℕ) (blk : Block) (env : Env) → Returns (attempt_block lmdb bitcoin mode blk env)
  unfolding attempt_block
  attempt_block-Returns mode blk env =
      or_stop-Returns lmdb.begin (λ e. pure (code_of e)) _ env (λ e env'. tt)
        (λ txn env₁.
          or_stop-Returns (lmdb.open_dbi txn "txo" true) _ _ env₁ resize_if_full-Returns
            (λ dbi env₂.
              or_stop-Returns (lmdb.open_dbi txn "addr" true) _ _ env₂ resize_if_full-Returns
                (λ dbi_addr env₃.
                  or_stop-Returns (lmdb.open_dbi txn "blk" false) _ _ env₃ resize_if_full-Returns
                    (λ dbi_blk env₄.
                      or_stop-Returns (lmdb.set_dupsort txn dbi compare_outputs)
                        (λ e. pure (code_of e)) _ env₄ (λ e env'. tt)
                        (λ _ env₅. write_block-Returns mode txn dbi dbi_addr dbi_blk blk env₅)))))
