-- ===== src/Txo/Preload/Blocks/Journal.antt =====
-- The transactions of LMDB as the writes that are committed.
use electrumz.Base.{true, false, ◌⊎◌, ℕ, String, Bytes, Bool, ◌≡◌, List, [], ◌∷◌, ◌++◌, ℤ}
use electrumz.Lmdb.{key_exist, Lmdb, Error, ok, failed}

-- A write to a database of the environment: its key and its value.
pub record Entry (Dbi : Type 0) : Type 0 where
  pub dbi : Dbi
  pub key : Bytes
  pub value : Bytes

-- The entry is in the list.
abbrev pub IsIn : {Dbi : Type 0} → Entry Dbi → List (Entry Dbi) → Type 0
IsIn e [] = ⊥
IsIn e (x ∷ xs) = (e ≡ x) ⊎ IsIn e xs

module _ (lmdb : Lmdb) where
  open lmdb use {
    Env, Txn, Dbi, Cursor, begin, open_dbi, set_dupsort, put, open_cursor, append_dup, close_cursor,
    commit, abort, map_size, set_map_size, sync, set_no_sync, is_writing,
  }

  -- What LMDB documents of its transactions: the writes of a transaction that were accepted are pending
  -- in it, a commit makes them durable, all together, and an abort drops them. A commit succeeds.
  pub record Journal : Type 0 where
    pub stored : Env → List (Entry Dbi)
    pub pending : Txn → Env → List (Entry Dbi)
    pub cursor_txn : Cursor → Txn
    pub cursor_dbi : Cursor → Dbi
    pub map_size_keeps : (env : Env) → stored (map_size env).0 ≡ stored env
    pub set_map_size_keeps : (n : ℕ) (env : Env) → stored (set_map_size n env).0 ≡ stored env
    -- A commit and an abort end the transaction, and these calls neither begin nor end one.
    pub commit_ends : (txn : Txn) (env : Env) → is_writing (commit txn env) ≡ false
    pub abort_ends : (txn : Txn) (env : Env) → is_writing (abort txn env) ≡ false
    pub map_size_writing : (env : Env) → is_writing (map_size env).0 ≡ is_writing env
    pub set_map_size_writing :
        (n : ℕ) (env : Env) → is_writing (set_map_size n env).0 ≡ is_writing env
    pub sync_writing : (env : Env) → is_writing (sync env) ≡ is_writing env
    pub begin_keeps : (env : Env) → stored (begin env).0 ≡ stored env
    pub begin_empty :
        (txn : Txn) (env : Env) → (begin env).1 ≡ ok txn → pending txn (begin env).0 ≡ []
    pub open_keeps :
        (txn : Txn) (name : String) (dup : Bool) (env : Env)
        → (stored (open_dbi txn name dup env).0 ≡ stored env)
          × (pending txn (open_dbi txn name dup env).0 ≡ pending txn env)
    -- A database has one handle, however often it is opened.
    pub handle : String → Dbi
    pub open_handle :
        (txn : Txn) (name : String) (dup : Bool) (env : Env) (dbi : Dbi)
        → (open_dbi txn name dup env).1 ≡ ok dbi
        → dbi ≡ handle name
    pub dupsort_keeps :
        (txn : Txn) (dbi : Dbi) (cmp : Bytes → Bytes → ℤ) (env : Env)
        → (stored (set_dupsort txn dbi cmp env).0 ≡ stored env)
          × (pending txn (set_dupsort txn dbi cmp env).0 ≡ pending txn env)
    pub put_keeps :
        (txn : Txn) (dbi : Dbi) (k v : Bytes) (b : Bool) (env : Env)
        → stored (put txn dbi k v b env).0 ≡ stored env
    pub put_accepted :
        (txn : Txn) (dbi : Dbi) (k v : Bytes) (b : Bool) (env : Env)
        → (put txn dbi k v b env).1 ≡ ok tt
        → pending txn (put txn dbi k v b env).0
          ≡ pending txn env ++ (record { dbi = dbi; key = k; value = v } ∷ [])
    -- The database of addresses has several values for a key, and with MDB_NODUPDATA a pair that it
    -- has is refused.
    pub put_exists :
        (txn : Txn) (k v : Bytes) (env : Env)
        → (put txn (handle "addr") k v true env).1 ≡ failed key_exist
        → IsIn (record { dbi = handle "addr"; key = k; value = v }) (stored env ++ pending txn env)
    pub put_fresh :
        (txn : Txn) (k v : Bytes) (env : Env)
        → (put txn (handle "addr") k v true env).1 ≡ ok tt
        → ¬ IsIn
            (record { dbi = handle "addr"; key = k; value = v })
            (stored env ++ pending txn env)
    pub put_refused :
        (txn : Txn) (dbi : Dbi) (k v : Bytes) (b : Bool) (e : Error) (env : Env)
        → (put txn dbi k v b env).1 ≡ failed e
        → pending txn (put txn dbi k v b env).0 ≡ pending txn env
    pub cursor_keeps :
        (txn : Txn) (dbi : Dbi) (env : Env)
        → (stored (open_cursor txn dbi env).0 ≡ stored env)
          × (pending txn (open_cursor txn dbi env).0 ≡ pending txn env)
    pub cursor_of :
        (txn : Txn) (dbi : Dbi) (env : Env)
        → (cursor_txn (open_cursor txn dbi env).1 ≡ txn)
          × (cursor_dbi (open_cursor txn dbi env).1 ≡ dbi)
    pub append_keeps :
        (cur : Cursor) (k v : Bytes) (env : Env) → stored (append_dup cur k v env).0 ≡ stored env
    pub append_accepted :
        (cur : Cursor) (k v : Bytes) (env : Env)
        → (append_dup cur k v env).1 ≡ ok tt
        → pending (cursor_txn cur) (append_dup cur k v env).0
          ≡ pending (cursor_txn cur) env
            ++ (record { dbi = cursor_dbi cur; key = k; value = v } ∷ [])
    pub close_keeps :
        (cur : Cursor) (env : Env)
        → (stored (close_cursor cur env) ≡ stored env)
          × (pending (cursor_txn cur) (close_cursor cur env) ≡ pending (cursor_txn cur) env)
    pub commit_stores :
        (txn : Txn) (env : Env) → stored (commit txn env) ≡ stored env ++ pending txn env
    pub no_sync_keeps : (env : Env) → stored (set_no_sync env) ≡ stored env
    pub sync_keeps : (env : Env) → stored (sync env) ≡ stored env
    pub abort_drops : (txn : Txn) (env : Env) → stored (abort txn env) ≡ stored env
