-- ===== src/Txo/Preload/Blocks/Entries.antt =====
-- The entries that a block comes to in the database, and the steps that add entries to a transaction.
use electrumz.Base.{
  subst, ℕ, ◌+◌, ◌==◌, Bytes, Bool, true, false, ◌≡◌, refl, sym, ◌∙◌, List, [], ◌∷◌, ◌++◌,
  append-nil, append_assoc, ◌⊎◌,
}
use electrumz.Base.Outcome.{Outcome, Exec}
use electrumz.Bitcoin.{BitcoinLib}
use electrumz.Lmdb.{Lmdb}
use electrumz.Txo.Preload.Blocks.{Transaction, Block, Step, new_txo, and_next}
use electrumz.Txo.Preload.Blocks.Journal.{Entry, Journal, IsIn}
use electrumz.Txo.Preload.Blocks.Steps.{Ends, and_next-Ends, Ends-map}
use electrumz.Txo.Record.{write_out_point, write_txo}

-- One part of the writes, then another, which has the first before it too.
abbrev pub Then :
    {A : Type 0} → List A → (List A → Type 0) → (List A → List A → Type 0) → List A → Type 0
Then before P Q writes = (b : _) × (c : _) × (writes ≡ b ++ c) × P b × Q (before ++ b) c

module _ (lmdb : Lmdb) (bitcoin : BitcoinLib) (db : Journal lmdb) where
  open lmdb use {
    Env, Txn, Dbi, Cursor, begin, open_dbi, set_dupsort, put, open_cursor, append_dup, close_cursor,
    commit,
  }
  open db use {stored, pending, cursor_txn, cursor_dbi, handle}
  open bitcoin use {shash}

  abbrev pub Writes : Type 0
  Writes = List (Entry Dbi)

  -- The transaction has writes of `P` more than `w`, and nothing more is stored than `s`.
  pub record Adds (txn : Txn) (s w : Writes) (P : Writes → Type 0) (env : Env) : Type 0 where
    pub added : Writes
    pub keeps : stored env ≡ s
    pub pends : pending txn env ≡ w ++ added
    pub written : P added

  abbrev pub EndsAdding : Txn → Writes → Writes → (Writes → Type 0) → Outcome Env Step → Type 0
  EndsAdding txn s w P = Ends lmdb bitcoin db s (Adds txn s w P)

  pub Adds-none :
      (txn : Txn) (s w : Writes) (env : Env)
      → stored env ≡ s
      → pending txn env ≡ w
      → Adds txn s w (λ a. a ≡ []) env
  Adds-none txn s w env h p = record {
    added = [];
    keeps = h;
    pends = p ∙ sym (append-nil w);
    written = refl;
  }

  pub and_next-Adds :
      (txn : Txn) (s w : Writes) (P : Writes → Type 0) (Q : Writes → Writes → Type 0)
      (m k : Exec Env Step) (env : Env)
      → EndsAdding txn s w P (m env)
      → ((w' : Writes) (env' : Env)
          → stored env' ≡ s
          → pending txn env' ≡ w'
          → EndsAdding txn s w' (Q (s ++ w')) (k env'))
      → EndsAdding txn s w (Then (s ++ w) P Q) (and_next lmdb bitcoin m k env)
  and_next-Adds txn s w P Q m k env h l =
      and_next-Ends lmdb bitcoin db s (Adds txn s w P) (Adds txn s w (Then (s ++ w) P Q)) m k env h
        (λ env' a.
          Ends-map lmdb bitcoin db s (Adds txn s (w ++ a.added) (Q (s ++ (w ++ a.added))))
            (Adds txn s w (Then (s ++ w) P Q)) (k env')
            (λ env'' b. record {
              added = a.added ++ b.added;
              keeps = b.keeps;
              pends = b.pends ∙ append_assoc w a.added b.added;
              written = (
                a.added,
                b.added,
                refl,
                a.written,
                subst (λ (v : Writes). Q v b.added) (sym (append_assoc s w a.added)) b.written,
              );
            })
            (l (w ++ a.added) env' a.keeps a.pends))

  -- The entries of an output: where it is, under its address, and itself, under its transaction.
  abbrev pub output_entries : Bytes → ℕ → Bytes × ℕ → Writes
  output_entries tx_hash n (script, value) =
      record {
        dbi = handle "addr";
        key = shash script;
        value = write_out_point (record { hash = tx_hash; n = n });
      }
      ∷ record {
        dbi = handle "txo";
        key = tx_hash;
        value = write_txo (new_txo (shash script) tx_hash n value);
      }
      ∷ []

  abbrev pub address_entry : Bytes → ℕ → Bytes → Entry Dbi
  address_entry tx_hash n script = record {
    dbi = handle "addr";
    key = shash script;
    value = write_out_point (record { hash = tx_hash; n = n });
  }

  -- Behind the entries `before`: none where the address has the output already, and else both.
  abbrev pub IsOutput : Bytes → ℕ → Bytes × ℕ → Writes → Writes → Type 0
  IsOutput tx_hash n (script, value) before writes =
      ((writes ≡ []) × IsIn (address_entry tx_hash n script) before)
      ⊎ ((writes ≡ output_entries tx_hash n (script, value))
          × ¬ IsIn (address_entry tx_hash n script) before)

  abbrev pub AreOutputs : Bytes → ℕ → List (Bytes × ℕ) → Writes → Writes → Type 0
  AreOutputs tx_hash n [] = λ before writes. writes ≡ []
  AreOutputs tx_hash n (output ∷ outputs) =
      λ before. Then before (IsOutput tx_hash n output before) (AreOutputs tx_hash (n + 1) outputs)

  -- The pass over the inputs writes nothing.
  abbrev pub IsTx : Bool → Transaction → Writes → Writes → Type 0
  IsTx true tx = λ before writes. writes ≡ []
  IsTx false tx = AreOutputs tx.hash 0 tx.outputs

  abbrev pub AreTxs : ℕ → List Transaction → Writes → Writes → Type 0
  AreTxs mode [] = λ before writes. writes ≡ []
  AreTxs mode (tx ∷ txs) = λ before. Then before (IsTx (mode == 1) tx before) (AreTxs mode txs)

  -- The header under the hash, then the transactions.
  abbrev pub IsBlock : ℕ → Block → Writes → Writes → Type 0
  IsBlock mode blk before =
      Then before
        (λ writes. writes ≡ record { dbi = handle "blk"; key = blk.hash; value = blk.header } ∷ [])
        (AreTxs mode blk.txs)
