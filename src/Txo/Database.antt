-- ===== src/Txo/Database.antt =====
-- `TXODB` but for the loading of blocks: opening, the size of the map, and the lookups.
pub mod MapSize
pub mod Lookup
use electrumz.Base.{
  ℕ, ◌+◌, ◌-◌, ◌%◌, ◌==◌, String, Bytes, Bool, true, false, Option, none, some, List, ℤ, pos,
  negsuc, if◌then◌else◌, ltb,
}
use electrumz.Base.Outcome.{Outcome, done, threw, fault, Exec, pure, raise, crash, ◌>>=◌, ◌>>◌}
use electrumz.Lmdb.{
  Lmdb, Error, map_full, key_exist, not_found, invalid, other, code_of, is_map_full, Result, ok,
  failed, run,
}
use electrumz.Txo.Record.{Txo, OutPoint, write_out_point, write_txo, read_out_point}

-- MAPSIZE_BASE_UNIT.
abbrev pub map_unit : ℕ
map_unit = 104857600

-- `TXODB_ERR`, as the numbers of its members.
abbrev pub txo_ok : ℤ
txo_ok = pos 1

abbrev pub txo_not_found : ℤ
txo_not_found = pos 2

abbrev pub txo_resized : ℤ
txo_resized = pos 3

abbrev pub is_zero : ℤ → Bool
is_zero (pos n) = n == 0
is_zero (negsuc n) = false

-- The next size, in a `size_t`.
abbrev pub next_size : ℕ → ℕ
next_size m = ((m - m % map_unit) + map_unit) % 18446744073709551616

module _ (lmdb : Lmdb) where
  open lmdb use {
    Env, Txn, Dbi, Stat, create, set_maxdbs, open_env, map_size, set_map_size, begin, open_dbi,
    stat, get, put, commit, abort,
  }

  -- Goes on with what a call answers, or returns the code of its error.
  abbrev pub or_code : {A : Type 0} → (Env → Env × Result A) → (A → Exec Env ℤ) → Exec Env ℤ
  or_code call k = do r ← run call; elim r [ ok a ↦ k a | failed e ↦ pure (code_of e) ]

  abbrev pub finish : (Env → Env) → ℤ → Exec Env ℤ
  finish last code env = done (last env) code

  -- `IncreaseMapSize`.
  unfoldable pub increase_map_size : Exec Env ℤ
  increase_map_size =
      or_code map_size (λ m. or_code (set_map_size (next_size m)) (λ _. pure txo_resized))

  -- `Open`.
  unfoldable pub open_database : String → Exec Env ℤ
  open_database path = or_code create (λ _. or_code (set_maxdbs 3) (λ _.
      or_code (open_env path) (λ _. or_code map_size (λ m.
        if ltb m map_unit
        then or_code (set_map_size map_unit) (λ _. pure (pos 0))
        else pure (pos 0)))))

  -- `err == MDB_MAP_FULL && (err = this->IncreaseMapSize())`.
  unfoldable pub resize_if_full : Error → Exec Env ℤ
  resize_if_full e = if is_map_full e then increase_map_size else pure (code_of e)

  -- `StartTXOTxn`: the code, and what it stores through its two arguments, none where they are left
  -- as they are.
  unfoldable pub start_txn : String → Exec Env (ℤ × Option Txn × Option Dbi)
  start_txn dbn = do
    t ← run begin
    elim t [
      | failed e ↦ pure (code_of e, none, none)
      | ok txn ↦ (do
        d ← run (open_dbi txn dbn false)
        elim d [
          | failed e ↦ (do code ← resize_if_full e; pure (code, some txn, none))
          | ok dbi ↦ pure (txo_ok, some txn, some dbi)
        ])
    ]

  -- A variable that may not have been set.
  abbrev pub needed : {A : Type 0} → Option A → Exec Env A
  needed none = crash
  needed (some a) = pure a

  -- What `GetTXOs` does with the answer of `mdb_get`. Where there is no value its last branch reads
  -- one that was never set.
  unfoldable pub after_get : Txn → List Txo → Result Bytes → Exec Env (ℤ × List Txo)
  after_get txn ntx (failed not_found) env = done (abort txn env) (txo_not_found, ntx)
  after_get txn ntx (failed invalid) env = done (abort txn env) (code_of invalid, ntx)
  after_get txn ntx (failed _) env = fault
  after_get txn ntx (ok bytes) env = elim (read_out_point bytes) [
    | none ↦ threw env
    | some (point, rest) ↦ done (commit txn env) (txo_ok, ntx)
  ]

  -- `GetTXOs(scriptHash, ntx)`: the code and the vector.
  unfoldable pub get_txos : Bytes → List Txo → Exec Env (ℤ × List Txo)
  unfolding after_get
  get_txos script_hash ntx = do
    started ← start_txn "addr"
    if is_zero started.0 then pure (started.0, ntx) else (do
      txn ← needed started.1
      dbi ← needed started.2
      r ← run (get txn dbi script_hash)
      after_get txn ntx r)

  -- `GetTXOStats(stats, dbn)`: the code and the statistics, if they were filled.
  unfoldable pub get_txo_stats : String → Exec Env (ℤ × Option Stat)
  get_txo_stats dbn = do
    started ← start_txn dbn
    if is_zero started.0 then pure (started.0, none) else (do
      txn ← needed started.1
      dbi ← needed started.2
      r ← run (stat txn dbi)
      elim r [
        | failed e ↦ pure (code_of e, none)
        | ok stats ↦ (λ env. done (commit txn env) (pos 0, some stats))
      ])

  -- A write of `InternalAddTXO` that failed.
  unfoldable pub give_up : Txn → Error → Exec Env ℤ
  give_up txn e env =
      if is_map_full e then increase_map_size (abort txn env) else done env (code_of e)

  -- `InternalAddTXO`.
  unfoldable pub internal_add_txo : Txo → Txn → Dbi → Dbi → Exec Env ℤ
  internal_add_txo t txn dbi dbi_i2a = do
    r ←
        run
          (put txn dbi t.script_hash (write_out_point (record { hash = t.tx_hash; n = t.n })) false)
    elim r [
      | failed e ↦ give_up txn e
      | ok _ ↦ (do
        r' ← run (put txn dbi t.tx_hash (write_txo t) false)
        elim r' [ failed e ↦ give_up txn e | ok _ ↦ pure txo_ok ])
    ]

  -- `InternalSpendTXO`, whose body is commented out.
  unfoldable pub internal_spend_txo : OutPoint → OutPoint → Exec Env ℤ
  internal_spend_txo prevout spending_tx = pure txo_ok

  -- `PushBlockTip`, which does nothing yet.
  unfoldable pub push_block_tip : Txn → Bytes → Exec Env ℤ
  push_block_tip txn header = pure txo_ok
