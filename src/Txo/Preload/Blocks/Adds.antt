-- ===== src/Txo/Preload/Blocks/Adds.antt =====
-- What storing the outputs of a block adds to its transaction.
use electrumz.Base.{
  arith, ℕ, ◌+◌, ◌==◌, Bytes, Bool, true, false, ◌≡◌, refl, ap, sym, ◌∙◌, subst, List, [], ◌∷◌,
  ◌++◌, append-nil, append_assoc, if◌then◌else◌, inl, inr,
}
use electrumz.Base.Outcome.{done, Exec, pure, ◌>>=◌}
use electrumz.Bitcoin.{BitcoinLib}
use electrumz.Lmdb.{key_exist, Lmdb, Error, Result, ok, failed, run}
use electrumz.Txo.Preload.Blocks.{
  Transaction, Step, next, is_key_exist, new_txo, full_or_stop, store_output, store_outputs,
  spend_inputs, store_tx, store_txs,
}
use electrumz.Txo.Preload.Blocks.Journal.{Entry, Journal, IsIn}
use electrumz.Txo.Preload.Blocks.Steps.{and_next-Ends, full_or_stop-Ends}
use electrumz.Txo.Preload.Blocks.Inputs.{spend_inputs_lem}
use electrumz.Txo.Record.{write_out_point, write_txo}
use electrumz.Txo.Preload.Blocks.Entries.{
  Adds, EndsAdding, Adds-none, and_next-Adds, output_entries, IsOutput, AreOutputs, IsTx, AreTxs,
}

only_key_exist : (x : Error) → is_key_exist x ≡ true → x ≡ key_exist
only_key_exist x h = ground arith

module _ (lmdb : Lmdb) (bitcoin : BitcoinLib) (db : Journal lmdb) where
  open lmdb use {
    Env, Txn, Dbi, Cursor, begin, open_dbi, set_dupsort, put, open_cursor, append_dup, close_cursor,
    commit,
  }
  open db use {stored, pending, cursor_txn, cursor_dbi, handle}
  open bitcoin use {shash}

  abbrev Writes : Type 0
  Writes = List (Entry Dbi)

  module _ (txn : Txn) (s : Writes) where
    store_output-Adds :
        (w : Writes) (cur : Cursor) (tx_hash : Bytes) (n : ℕ) (output : Bytes × ℕ) (env : Env)
        → cursor_txn cur ≡ txn
        → cursor_dbi cur ≡ handle "txo"
        → stored env ≡ s
        → pending txn env ≡ w
        → EndsAdding lmdb bitcoin db txn s w
            (IsOutput lmdb bitcoin db tx_hash n output (s ++ w))
            (store_output lmdb bitcoin txn cur (handle "addr") tx_hash n output env)
    unfolding store_output
    store_output-Adds w cur tx_hash n (script, value) env ct cd h p = by_put (put_it env).1 refl
      where
        key : Bytes
        key = shash script

        point : Bytes
        point = write_out_point (record { hash = tx_hash; n = n })

        bytes : Bytes
        bytes = write_txo (new_txo key tx_hash n value)

        put_it : Env → Env × Result (Unit {0})
        put_it = put txn (handle "addr") key point true

        entry_of : Dbi → Bytes → Bytes → Entry Dbi
        entry_of d k v = record { dbi = d; key = k; value = v }

        env₁ : Env
        env₁ = (put_it env).0

        kept : stored env₁ ≡ s
        kept = db.put_keeps txn (handle "addr") key point true env ∙ h

        before : stored env ++ pending txn env ≡ s ++ w
        before = cc (h, p)

        by_append :
            (r : Result (Unit {0}))
            → pending txn env₁ ≡ w ++ (entry_of (handle "addr") key point ∷ [])
            → ¬ IsIn (entry_of (handle "addr") key point) (s ++ w)
            → (append_dup cur tx_hash bytes env₁).1 ≡ r
            → EndsAdding lmdb bitcoin db txn s w
                (IsOutput lmdb bitcoin db tx_hash n (script, value) (s ++ w))
                ((elim r as (λ _. Exec Env Step) [
                  | failed e ↦ full_or_stop lmdb bitcoin txn e
                  | ok _ ↦ pure next
                ])
                  (append_dup cur tx_hash bytes env₁).0)
        by_append (ok _) q fresh e = record {
          added = output_entries lmdb bitcoin db tx_hash n (script, value);
          keeps = db.append_keeps cur tx_hash bytes env₁ ∙ kept;
          pends =
              subst
                (λ (t : Txn).
                  pending t (append_dup cur tx_hash bytes env₁).0
                  ≡ pending t env₁ ++ (entry_of (cursor_dbi cur) tx_hash bytes ∷ []))
                ct (db.append_accepted cur tx_hash bytes env₁ e)
              ∙ ap (λ (d : Dbi). pending txn env₁ ++ (entry_of d tx_hash bytes ∷ [])) cd
              ∙ ap (λ (v : Writes). v ++ (entry_of (handle "txo") tx_hash bytes ∷ [])) q
              ∙ append_assoc w (entry_of (handle "addr") key point ∷ [])
                  (entry_of (handle "txo") tx_hash bytes ∷ []);
          written = inr (refl, fresh);
        }
        by_append (failed x) q fresh e =
            full_or_stop-Ends lmdb bitcoin db s _ txn x (append_dup cur tx_hash bytes env₁).0
              (db.append_keeps cur tx_hash bytes env₁ ∙ kept)

        by_exist :
            (b : Bool) (x : Error)
            → pending txn env₁ ≡ w
            → (b ≡ true → IsIn (entry_of (handle "addr") key point) (s ++ w))
            → EndsAdding lmdb bitcoin db txn s w
                (IsOutput lmdb bitcoin db tx_hash n (script, value) (s ++ w))
                ((if b then pure next else full_or_stop lmdb bitcoin txn x) env₁)
        by_exist true x q had = record {
          added = [];
          keeps = kept;
          pends = q ∙ sym (append-nil w);
          written = inl (refl, had refl);
        }
        by_exist false x q had = full_or_stop-Ends lmdb bitcoin db s _ txn x env₁ kept

        by_put :
            (r : Result (Unit {0}))
            → (put_it env).1 ≡ r
            → EndsAdding lmdb bitcoin db txn s w
                (IsOutput lmdb bitcoin db tx_hash n (script, value) (s ++ w))
                ((elim r as (λ _. Exec Env Step) [
                  | failed e ↦ if is_key_exist e then pure next else full_or_stop lmdb bitcoin txn e
                  | ok _ ↦ (do
                    r' ← run (append_dup cur tx_hash bytes)
                    elim r' [ failed e ↦ full_or_stop lmdb bitcoin txn e | ok _ ↦ pure next ])
                ])
                  (put_it env).0)
        by_put (ok _) e =
            by_append (append_dup cur tx_hash bytes env₁).1
              (db.put_accepted txn (handle "addr") key point true env e
                ∙ ap (λ (v : Writes). v ++ (entry_of (handle "addr") key point ∷ [])) p)
              (subst (λ (v : Writes). ¬ IsIn (entry_of (handle "addr") key point) v) before
                (db.put_fresh txn key point env e))
              refl
        by_put (failed x) e =
            by_exist (is_key_exist x) x
              (db.put_refused txn (handle "addr") key point true x env e ∙ p)
              (λ is.
                subst (IsIn (entry_of (handle "addr") key point)) before
                  (db.put_exists txn key point env (e ∙ ap failed (only_key_exist x is))))

    store_outputs-Adds :
        (w : Writes) (cur : Cursor) (tx_hash : Bytes) (n : ℕ) (outputs : List (Bytes × ℕ))
        (env : Env)
        → cursor_txn cur ≡ txn
        → cursor_dbi cur ≡ handle "txo"
        → stored env ≡ s
        → pending txn env ≡ w
        → EndsAdding lmdb bitcoin db txn s w
            (AreOutputs lmdb bitcoin db tx_hash n outputs (s ++ w))
            (store_outputs lmdb bitcoin txn cur (handle "addr") tx_hash n outputs env)
    unfolding store_outputs
    store_outputs-Adds w cur tx_hash n [] env ct cd h p = Adds-none lmdb bitcoin db txn s w env h p
    store_outputs-Adds w cur tx_hash n (output ∷ outputs) env ct cd h p =
        and_next-Adds lmdb bitcoin db txn s w (IsOutput lmdb bitcoin db tx_hash n output (s ++ w))
          (AreOutputs lmdb bitcoin db tx_hash (n + 1) outputs)
          (store_output lmdb bitcoin txn cur (handle "addr") tx_hash n output)
          (store_outputs lmdb bitcoin txn cur (handle "addr") tx_hash (n + 1) outputs) env
          (store_output-Adds w cur tx_hash n output env ct cd h p)
          (λ w' env' h' p'. store_outputs-Adds w' cur tx_hash (n + 1) outputs env' ct cd h' p')

    store_tx-Adds :
        (mode : ℕ) (w : Writes) (tx : Transaction) (env : Env)
        → stored env ≡ s
        → pending txn env ≡ w
        → EndsAdding lmdb bitcoin db txn s w
            (IsTx lmdb bitcoin db (mode == 1) tx (s ++ w))
            (store_tx lmdb bitcoin mode txn (handle "txo") (handle "addr") tx env)
    unfolding store_tx
    store_tx-Adds mode w tx env h p =
        and_next-Ends lmdb bitcoin db s
          (Adds lmdb bitcoin db txn s w (IsTx lmdb bitcoin db (mode == 1) tx (s ++ w))) _
          (if mode == 1
            then spend_inputs lmdb bitcoin tx.hash 0 tx.inputs
            else store_outputs lmdb bitcoin txn cur (handle "addr") tx.hash 0 tx.outputs)
          (λ env'. done (close_cursor cur env') next) env₁ (by_mode (mode == 1))
          (λ env' a. record {
            added = a.added;
            keeps = (db.close_keeps cur env').0 ∙ a.keeps;
            pends =
                subst (λ (t : Txn). pending t (close_cursor cur env') ≡ pending t env')
                  (db.cursor_of txn (handle "txo") env).0 (db.close_keeps cur env').1
                ∙ a.pends;
            written = a.written;
          })
      where
        cur : Cursor
        cur = (open_cursor txn (handle "txo") env).1

        env₁ : Env
        env₁ = (open_cursor txn (handle "txo") env).0

        kept : stored env₁ ≡ s
        kept = (db.cursor_keeps txn (handle "txo") env).0 ∙ h

        held : pending txn env₁ ≡ w
        held = (db.cursor_keeps txn (handle "txo") env).1 ∙ p

        by_mode :
            (b : Bool)
            → EndsAdding lmdb bitcoin db txn s w (IsTx lmdb bitcoin db b tx (s ++ w)) (
                (if b
                    then spend_inputs lmdb bitcoin tx.hash 0 tx.inputs
                    else store_outputs lmdb bitcoin txn cur (handle "addr") tx.hash 0 tx.outputs)
                  env₁)
        by_mode true =
            subst (EndsAdding lmdb bitcoin db txn s w (IsTx lmdb bitcoin db true tx (s ++ w)))
              (sym (spend_inputs_lem lmdb bitcoin tx.hash 0 tx.inputs env₁))
              (Adds-none lmdb bitcoin db txn s w env₁ kept held)
        by_mode false =
            store_outputs-Adds w cur tx.hash 0 tx.outputs env₁
              (db.cursor_of txn (handle "txo") env).0 (db.cursor_of txn (handle "txo") env).1 kept
              held

    pub store_txs-Adds :
        (mode : ℕ) (w : Writes) (txs : List Transaction) (env : Env)
        → stored env ≡ s
        → pending txn env ≡ w
        → EndsAdding lmdb bitcoin db txn s w
            (AreTxs lmdb bitcoin db mode txs (s ++ w))
            (store_txs lmdb bitcoin mode txn (handle "txo") (handle "addr") txs env)
    unfolding store_txs
    store_txs-Adds mode w [] env h p = Adds-none lmdb bitcoin db txn s w env h p
    store_txs-Adds mode w (tx ∷ txs) env h p =
        and_next-Adds lmdb bitcoin db txn s w (IsTx lmdb bitcoin db (mode == 1) tx (s ++ w))
          (AreTxs lmdb bitcoin db mode txs)
          (store_tx lmdb bitcoin mode txn (handle "txo") (handle "addr") tx)
          (store_txs lmdb bitcoin mode txn (handle "txo") (handle "addr") txs) env
          (store_tx-Adds mode w tx env h p) (λ w' env' h' p'. store_txs-Adds mode w' txs env' h' p')
