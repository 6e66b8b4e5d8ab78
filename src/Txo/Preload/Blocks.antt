-- ===== src/Txo/Preload/Blocks.antt =====
-- One block: its header, then for every output the entry of its address and its own.
pub mod Inputs
pub mod Growth
pub mod Outputs
pub mod Retries
pub mod Returns
pub mod Journal
pub mod Steps
pub mod Entries
pub mod Adds
pub mod Atomic
use electrumz.Base.{
  ℕ, zero, suc, ◌+◌, ◌==◌, Bytes, Bool, true, false, Option, none, some, List, [], ◌∷◌, ◌++◌, ℤ,
  pos, negsuc, if◌then◌else◌,
}
use electrumz.Base.Outcome.{Outcome, done, threw, fault, Exec, pure, ◌>>=◌, ◌>>◌}
use electrumz.Bitcoin.{BitcoinLib}
use electrumz.Lmdb.{
  Lmdb, Error, map_full, key_exist, not_found, invalid, other, code_of, is_map_full, Result, ok,
  failed, run,
}
use electrumz.Txo.Database.{increase_map_size, resize_if_full, internal_spend_txo}
use electrumz.Txo.Record.{OutPoint, write_out_point, Txo, write_txo, compare_outputs}

-- What the code uses of a `CBlock`: an output is its script and its value.
pub record Transaction : Type 0 where
  pub hash : Bytes
  pub inputs : List OutPoint
  pub outputs : List (Bytes × ℕ)

pub record Block : Type 0 where
  pub hash : Bytes
  pub header : Bytes
  pub txs : List Transaction

-- `COutPoint()`, and `IsNull` for a hash of 32 bytes.
abbrev pub null_index : ℕ
null_index = 4294967295

abbrev zeros : ℕ → Bytes
zeros zero = []
zeros (suc n) = 0 ∷ zeros n

abbrev pub null_point : OutPoint
null_point = record { hash = zeros 32; n = null_index }

abbrev all_zero : Bytes → Bool
all_zero [] = true
all_zero (b ∷ bs) = if b == 0 then all_zero bs else false

abbrev pub is_null : OutPoint → Bool
is_null p = if all_zero p.hash then p.n == null_index else false

-- How a step ends: go on, `goto try_block_again`, or return a code.
pub data Step : Type 0 where
  next again : Step
  stopped : ℤ → Step

abbrev pub is_resized : ℤ → Bool
is_resized (pos n) = n == 3
is_resized (negsuc n) = false

abbrev pub is_key_exist : Error → Bool
is_key_exist key_exist = true
is_key_exist _ = false

-- The constructor `TXO(sh, txHash, n, value, 0)`.
abbrev pub new_txo : Bytes → Bytes → ℕ → ℕ → Txo
new_txo sh tx_hash n value = record {
  tx_hash = tx_hash;
  script_hash = sh;
  n = n;
  value = value;
  spend = null_point;
}

module _ (lmdb : Lmdb) (bitcoin : BitcoinLib) where
  open lmdb use {
    Env, Txn, Dbi, Cursor, begin, open_dbi, set_dupsort, put, open_cursor, append_dup, close_cursor,
    commit, abort,
  }
  open bitcoin use {shash}

  -- The step after this one, if it goes on.
  abbrev pub and_next : Exec Env Step → Exec Env Step → Exec Env Step
  and_next m k = do
    s ← m
    elim s [ next ↦ k | again ↦ pure again | stopped code ↦ pure (stopped code) ]

  -- A write that failed.
  unfoldable pub full_or_stop : Txn → Error → Exec Env Step
  full_or_stop txn e env =
      if is_map_full e
      then (do
        code ← increase_map_size lmdb
        pure (if is_resized code then again else stopped code))
          (abort txn env)
      else done env (stopped (code_of e))

  -- An output that an address has already is skipped.
  unfoldable pub store_output : Txn → Cursor → Dbi → Bytes → ℕ → Bytes × ℕ → Exec Env Step
  store_output txn cur dbi_addr tx_hash n (script, value) = do
    r ←
        run (
          put txn dbi_addr (shash script) (write_out_point (record { hash = tx_hash; n = n })) true)
    elim r [
      | failed e ↦ if is_key_exist e then pure next else full_or_stop txn e
      | ok _ ↦ (do
        r' ← run (append_dup cur tx_hash (write_txo (new_txo (shash script) tx_hash n value)))
        elim r' [ failed e ↦ full_or_stop txn e | ok _ ↦ pure next ])
    ]

  unfoldable pub store_outputs : Txn → Cursor → Dbi → Bytes → ℕ → List (Bytes × ℕ) → Exec Env Step
  store_outputs txn cur dbi_addr tx_hash n [] = pure next
  store_outputs txn cur dbi_addr tx_hash n (output ∷ outputs) =
      and_next (store_output txn cur dbi_addr tx_hash n output)
        (store_outputs txn cur dbi_addr tx_hash (n + 1) outputs)

  -- The inputs, which nothing is done with.
  unfoldable pub spend_inputs : Bytes → ℕ → List OutPoint → Exec Env Step
  spend_inputs tx_hash n [] = pure next
  spend_inputs tx_hash n (prevout ∷ inputs) =
      let this : OutPoint = record { hash = tx_hash; n = n } in
      let rest = spend_inputs tx_hash (n + 1) inputs in
      if is_null prevout then rest else (do
        code ← internal_spend_txo lmdb prevout this
        (if is_resized code then (do code' ← internal_spend_txo lmdb prevout this; rest) else rest))

  unfoldable pub store_tx : ℕ → Txn → Dbi → Dbi → Transaction → Exec Env Step
  store_tx mode txn dbi dbi_addr tx = do
    cur ← run (open_cursor txn dbi)
    and_next
        (if mode == 1
          then spend_inputs tx.hash 0 tx.inputs
          else store_outputs txn cur dbi_addr tx.hash 0 tx.outputs)
        (λ env. done (close_cursor cur env) next)

  unfoldable pub store_txs : ℕ → Txn → Dbi → Dbi → List Transaction → Exec Env Step
  store_txs mode txn dbi dbi_addr [] = pure next
  store_txs mode txn dbi dbi_addr (tx ∷ txs) =
      and_next (store_tx mode txn dbi dbi_addr tx) (store_txs mode txn dbi dbi_addr txs)

  -- A call whose error ends the thread.
  abbrev pub or_stop :
      {A : Type 0}
      → (Env → Env × Result A)
      → (Error → Exec Env ℤ)
      → (A → Exec Env Step)
      → Exec Env Step
  or_stop call on_error k = do
    r ← run call
    elim r [ ok a ↦ k a | failed e ↦ (do code ← on_error e; pure (stopped code)) ]

  -- From the header to the commit.
  unfoldable pub write_block : ℕ → Txn → Dbi → Dbi → Dbi → Block → Exec Env Step
  write_block mode txn dbi dbi_addr dbi_blk blk = do
    r ← run (put txn dbi_blk blk.hash blk.header true)
    elim r [
      | failed e ↦ full_or_stop txn e
      | ok _ ↦
          and_next (store_txs mode txn dbi dbi_addr blk.txs) (λ env. done (commit txn env) next)
    ]

  -- From `try_block_again` to the commit.
  unfoldable pub attempt_block : ℕ → Block → Exec Env Step
  unfolding write_block
  attempt_block mode blk =
      or_stop begin (λ e. pure (code_of e))
        (λ txn. or_stop (open_dbi txn "txo" true) (resize_if_full lmdb) (λ dbi.
          or_stop (open_dbi txn "addr" true) (resize_if_full lmdb) (λ dbi_addr.
            or_stop (open_dbi txn "blk" false) (resize_if_full lmdb) (λ dbi_blk.
              or_stop (set_dupsort txn dbi compare_outputs) (λ e. pure (code_of e))
                (λ _. write_block mode txn dbi dbi_addr dbi_blk blk)))))

  -- At most `tries` attempts; `again` at the end if they do not do.
  unfoldable pub store_block : ℕ → ℕ → Block → Exec Env Step
  store_block zero mode blk = pure again
  store_block (suc tries) mode blk = do
    s ← attempt_block mode blk
    elim s [
      | next ↦ pure next
      | again ↦ store_block tries mode blk
      | stopped code ↦ pure (stopped code)
    ]
