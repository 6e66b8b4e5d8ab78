-- ===== src/Lmdb.antt =====
-- The key-value store LMDB, which the repository uses and does not hold, as the calls that the code
-- makes. A call changes the environment and succeeds or answers an error.
use electrumz.Base.{ℕ, String, Bytes, Bool, true, false, ℤ, pos, negsuc}
use electrumz.Base.Outcome.{done, Exec}

-- The errors that the code looks for, and all others by their number.
pub data Error : Type 0 where
  map_full key_exist not_found invalid : Error
  other : ℤ → Error

abbrev pub code_of : Error → ℤ
code_of map_full = negsuc 30791
code_of key_exist = negsuc 30798
code_of not_found = negsuc 30797
code_of invalid = pos 22
code_of (other n) = n

abbrev pub is_map_full : Error → Bool
is_map_full map_full = true
is_map_full _ = false

pub data Result (A : Type 0) : Type 0 where
  ok : A → Result A
  failed : Error → Result A

pub record Lmdb : Type 1 where
  pub Env : Type 0
  pub Txn : Type 0
  pub Dbi : Type 0
  pub Cursor : Type 0
  pub Stat : Type 0
  pub create : Env → Env × Result (Unit {0})
  pub set_maxdbs : ℕ → Env → Env × Result (Unit {0})
  pub open_env : String → Env → Env × Result (Unit {0})
  -- `me_mapsize` of `mdb_env_info`.
  pub map_size : Env → Env × Result ℕ
  pub set_map_size : ℕ → Env → Env × Result (Unit {0})
  pub begin : Env → Env × Result Txn
  -- Whether a write transaction is open; `mdb_txn_begin` waits until none is.
  pub is_writing : Env → Bool
  -- With MDB_CREATE, and MDB_DUPSORT where the flag says so.
  pub open_dbi : Txn → String → Bool → Env → Env × Result Dbi
  pub set_dupsort : Txn → Dbi → (Bytes → Bytes → ℤ) → Env → Env × Result (Unit {0})
  pub stat : Txn → Dbi → Env → Env × Result Stat
  pub get : Txn → Dbi → Bytes → Env → Env × Result Bytes
  -- The flag is MDB_NODUPDATA.
  pub put : Txn → Dbi → Bytes → Bytes → Bool → Env → Env × Result (Unit {0})
  pub open_cursor : Txn → Dbi → Env → Env × Cursor
  -- `mdb_cursor_put` with MDB_APPENDDUP.
  pub append_dup : Cursor → Bytes → Bytes → Env → Env × Result (Unit {0})
  pub close_cursor : Cursor → Env → Env
  pub commit : Txn → Env → Env
  pub abort : Txn → Env → Env
  pub sync : Env → Env
  -- `mdb_env_set_flags` with MDB_NOSYNC.
  pub set_no_sync : Env → Env

module _ {S A : Type 0} where
  -- A call as a step.
  abbrev pub run : (S → S × A) → Exec S A
  run call s = let (s', a) = call s in done s' a
