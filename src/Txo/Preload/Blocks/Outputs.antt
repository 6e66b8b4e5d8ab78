-- ===== src/Txo/Preload/Blocks/Outputs.antt =====
-- The size of the map while outputs are stored.
use electrumz.Base.{
  ℕ, ◌+◌, ◌<◌, ◌==◌, Bytes, Bool, true, false, ◌≡◌, refl, ap, sym, ◌∙◌, subst, List, [], ◌∷◌,
  if◌then◌else◌,
}
use electrumz.Base.Outcome.{Outcome, done, Exec, pure, ◌>>=◌}
use electrumz.Bitcoin.{BitcoinLib}
use electrumz.Lmdb.{Lmdb, map_full, key_exist, not_found, invalid, other, Result, ok, failed, run}
use electrumz.Txo.Preload.Blocks.{
  Transaction, Step, next, is_key_exist, new_txo, full_or_stop, store_output, store_outputs,
  spend_inputs, store_tx, store_txs,
}
use electrumz.Txo.Preload.Blocks.Inputs.{spend_inputs_lem}
use electrumz.Txo.Record.{write_out_point, write_txo}
use electrumz.Txo.Preload.Blocks.Growth.{Suffices, Grew, and_next-Grew, full_or_stop-Grew}

module _ (lmdb : Lmdb) (bitcoin : BitcoinLib) (need : ℕ) (db : Suffices lmdb need) where
  open lmdb use {
    Env, Txn, Dbi, Cursor, begin, open_dbi, set_dupsort, put, open_cursor, append_dup, close_cursor,
    commit, abort, map_size, set_map_size,
  }
  open db use {size}
  open bitcoin use {shash}

  abbrev Grows : ℕ → Outcome Env Step → Type 0
  Grows = Grew lmdb bitcoin need db

  store_output-Grew :
      (n : ℕ) (txn : Txn) (cur : Cursor) (dbi : Dbi) (tx_hash : Bytes) (i : ℕ) (output : Bytes × ℕ)
      (env : Env)
      → size env ≡ n
      → Grows n (store_output lmdb bitcoin txn cur dbi tx_hash i output env)
  unfolding store_output
  store_output-Grew n txn cur dbi tx_hash i (script, value) env h =
      by_put (put txn dbi key point true env) (db.put_size txn dbi key point true env ∙ h)
        (λ e. subst (λ (m : ℕ). m < need) h (db.put_full txn dbi key point true env e))
    where
      key : Bytes
      key = shash script

      point : Bytes
      point = write_out_point (record { hash = tx_hash; n = i })

      bytes : Bytes
      bytes = write_txo (new_txo key tx_hash i value)

      by_append :
          (a : Env × Result (Unit {0}))
          → size a.0 ≡ n
          → (a.1 ≡ failed map_full → n < need)
          → Grows n (
              (elim a.1 as (λ _. Exec Env Step) [
                | failed e ↦ full_or_stop lmdb bitcoin txn e
                | ok _ ↦ pure next
              ])
                a.0)
      by_append (s, ok t) k l = k
      by_append (s, failed e) k l =
          full_or_stop-Grew lmdb bitcoin need db n txn e s k (λ q. l (ap failed q))

      by_put :
          (a : Env × Result (Unit {0}))
          → size a.0 ≡ n
          → (a.1 ≡ failed map_full → n < need)
          → Grows n (
              (elim a.1 as (λ _. Exec Env Step) [
                | failed e ↦ if is_key_exist e then pure next else full_or_stop lmdb bitcoin txn e
                | ok _ ↦ (do
                  r' ← run (append_dup cur tx_hash bytes)
                  elim r' [ failed e ↦ full_or_stop lmdb bitcoin txn e | ok _ ↦ pure next ])
              ])
                a.0)
      by_put (s, ok t) k l =
          by_append (append_dup cur tx_hash bytes s) (db.append_size cur tx_hash bytes s ∙ k)
            (λ e. subst (λ (m : ℕ). m < need) k (db.append_full cur tx_hash bytes s e))
      by_put (s, failed key_exist) k l = k
      by_put (s, failed map_full) k l =
          full_or_stop-Grew lmdb bitcoin need db n txn map_full s k (λ q. l refl)
      by_put (s, failed not_found) k l =
          full_or_stop-Grew lmdb bitcoin need db n txn not_found s k (λ q. l (ap failed q))
      by_put (s, failed invalid) k l =
          full_or_stop-Grew lmdb bitcoin need db n txn invalid s k (λ q. l (ap failed q))
      by_put (s, failed (other c)) k l =
          full_or_stop-Grew lmdb bitcoin need db n txn (other c) s k (λ q. l (ap failed q))

  store_outputs-Grew :
      (n : ℕ) (txn : Txn) (cur : Cursor) (dbi : Dbi) (tx_hash : Bytes) (i : ℕ)
      (outputs : List (Bytes × ℕ)) (env : Env)
      → size env ≡ n
      → Grows n (store_outputs lmdb bitcoin txn cur dbi tx_hash i outputs env)
  unfolding store_outputs
  store_outputs-Grew n txn cur dbi tx_hash i [] env h = h
  store_outputs-Grew n txn cur dbi tx_hash i (output ∷ outputs) env h =
      and_next-Grew lmdb bitcoin need db n (store_output lmdb bitcoin txn cur dbi tx_hash i output)
        (store_outputs lmdb bitcoin txn cur dbi tx_hash (i + 1) outputs) env
        (store_output-Grew n txn cur dbi tx_hash i output env h)
        (λ env' h'. store_outputs-Grew n txn cur dbi tx_hash (i + 1) outputs env' h')

  store_tx-Grew :
      (n mode : ℕ) (txn : Txn) (dbi dbi_addr : Dbi) (tx : Transaction) (env : Env)
      → size env ≡ n
      → Grows n (store_tx lmdb bitcoin mode txn dbi dbi_addr tx env)
  unfolding store_tx
  store_tx-Grew n mode txn dbi dbi_addr tx env h =
      and_next-Grew lmdb bitcoin need db n
        (if mode == 1
          then spend_inputs lmdb bitcoin tx.hash 0 tx.inputs
          else store_outputs lmdb bitcoin txn cur dbi_addr tx.hash 0 tx.outputs)
        (λ env. done (close_cursor cur env) next) (open_cursor txn dbi env).0 (by_mode (mode == 1))
        (λ env' h'. db.close_size cur env' ∙ h')
    where
      cur : Cursor
      cur = (open_cursor txn dbi env).1

      by_mode :
          (b : Bool)
          → Grows n (
              (if b
                  then spend_inputs lmdb bitcoin tx.hash 0 tx.inputs
                  else store_outputs lmdb bitcoin txn cur dbi_addr tx.hash 0 tx.outputs)
                (open_cursor txn dbi env).0)
      by_mode true =
          subst (Grows n)
            (sym (spend_inputs_lem lmdb bitcoin tx.hash 0 tx.inputs (open_cursor txn dbi env).0))
            (db.cursor_size txn dbi env ∙ h)
      by_mode false =
          store_outputs-Grew n txn cur dbi_addr tx.hash 0 tx.outputs (open_cursor txn dbi env).0
            (db.cursor_size txn dbi env ∙ h)

  pub store_txs-Grew :
      (n mode : ℕ) (txn : Txn) (dbi dbi_addr : Dbi) (txs : List Transaction) (env : Env)
      → size env ≡ n
      → Grows n (store_txs lmdb bitcoin mode txn dbi dbi_addr txs env)
  unfolding store_txs
  store_txs-Grew n mode txn dbi dbi_addr [] env h = h
  store_txs-Grew n mode txn dbi dbi_addr (tx ∷ txs) env h =
      and_next-Grew lmdb bitcoin need db n (store_tx lmdb bitcoin mode txn dbi dbi_addr tx)
        (store_txs lmdb bitcoin mode txn dbi dbi_addr txs) env
        (store_tx-Grew n mode txn dbi dbi_addr tx env h)
        (λ env' h'. store_txs-Grew n mode txn dbi dbi_addr txs env' h')
