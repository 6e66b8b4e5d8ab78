-- ===== src/Tests/Database.antt =====
-- The theorems on the database, on a store that takes everything and keeps what was put.
use electrumz.Base.{
  ℕ, ◌-◌, ◌≤◌, Bytes, true, false, ◌≡◌, refl, ◌++◌, ◌↔◌, Option, none, some, List, [], ◌∷◌, length,
  arith, ltb, ◌<◌, if◌then◌else◌,
}
use electrumz.Lmdb.{Lmdb, Error, Result, map_full, not_found, ok, failed}
use electrumz.Tests.Libraries.{no_bitcoin, zeros}
use electrumz.Txo.Database.{increase_map_size}
use electrumz.Txo.Database.MapSize.{IsNextSize, resized, increase_map_size-IsNextSize}
use electrumz.Txo.Preload.Blocks.{Block, store_block}
use electrumz.Txo.Preload.Blocks.Growth.{Suffices}
use electrumz.Txo.Preload.Blocks.Retries.{IsSettled, store_block-IsSettled}
use electrumz.Txo.Preload.Files.{load_files}
use electrumz.Txo.Preload.Files.Fuel.{IsEnded, load_files-IsEnded}
use electrumz.Txo.Record.{Txo, write_txo, read_txo, compare_outputs}
use electrumz.Txo.Record.Order.{is_negative, compare_outputs_iff}
use electrumz.Txo.Record.RoundTrip.{IsTxo, read_txo-write_txo}

-- The environment is the list of what was put, the last first.
abbrev pub Puts : Type 0
Puts = List (Bytes × Bytes)

abbrev pub accept {ℓ} : {A : Type ℓ} → A → Puts → Puts × A
accept a env = (env, a)

abbrev pub keeping : Lmdb
keeping = record {
  Env = Puts;
  Txn = Unit;
  Dbi = ℕ;
  Cursor = Unit;
  Stat = ℕ;
  create = accept (ok tt);
  set_maxdbs = λ n. accept (ok tt);
  open_env = λ path. accept (ok tt);
  map_size = accept (ok 5);
  set_map_size = λ n. accept (ok tt);
  begin = accept (ok tt);
  is_writing = λ env. false;
  open_dbi = λ txn name dup. accept (ok 0);
  set_dupsort = λ txn dbi cmp. accept (ok tt);
  stat = λ txn dbi env. (env, ok (length env));
  get = λ txn dbi key. accept (failed not_found);
  put = λ txn dbi key value b env. ((key, value) ∷ env, ok tt);
  open_cursor = λ txn dbi env. (env, tt);
  append_dup = λ cur key value env. ((key, value) ∷ env, ok tt);
  close_cursor = λ cur env. env;
  commit = λ txn env. env;
  abort = λ txn env. env;
  sync = λ env. env;
  set_no_sync = λ env. env;
}

abbrev pub one_output : Block
one_output = record {
  hash = 1 ∷ [];
  header = 2 ∷ [];
  txs = record { hash = 3 ∷ []; inputs = []; outputs = (4 ∷ [], 50) ∷ [] } ∷ [];
}

-- A block is one byte.
abbrev pub read_byte : Bytes → Bytes × Option Block
read_byte [] = ([], none)
read_byte (b ∷ bytes) = (bytes, some one_output)

pub reads_on : (body : Bytes) → length (read_byte body).0 ≤ length body
reads_on [] = omega arith
reads_on (b ∷ bytes) = omega arith

abbrev pub block_file : Bytes
block_file = 0xfa ∷ 0xbf ∷ 0xb5 ∷ 0xda ∷ 1 ∷ 0 ∷ 0 ∷ 0 ∷ zeros 5

abbrev output_of : ℕ → Txo
output_of n = record {
  tx_hash = [];
  script_hash = [];
  n = n;
  value = 50;
  spend = record { hash = zeros 32; n = 4294967295 };
}

output-IsTxo : IsTxo (output_of 7)
output-IsTxo = record { n = omega arith; value = omega arith; hash = refl; spend_n = omega arith }

read_txo-write_txo_example :
    read_txo (output_of 0) (write_txo (output_of 7) ++ (1 ∷ [])) ≡ some (output_of 7, 1 ∷ [])
read_txo-write_txo_example = read_txo-write_txo (output_of 7) (output_of 0) (1 ∷ []) output-IsTxo

compare_outputs_iff_example :
    (((is_negative (compare_outputs (write_txo (output_of 0)) (write_txo (output_of 7))) ≡ true)
        ↔ (0 < 7))
      × ((is_negative (compare_outputs (write_txo (output_of 7)) (write_txo (output_of 0))) ≡ true)
          ↔ (7 < 0)))
    ↔ ((0 - 7 < 2147483648) × (7 - 0 < 2147483648))
compare_outputs_iff_example =
    compare_outputs_iff (output_of 0) (output_of 7) (omega arith) (omega arith)

increase_map_size-IsNextSize_example :
    (n : ℕ) × IsNextSize 5 n × (increase_map_size keeping [] ≡ resized keeping ([], ok tt))
increase_map_size-IsNextSize_example =
    increase_map_size-IsNextSize keeping [] [] 5 refl (omega arith)

-- A database that has a map of its own size, and is full up to three units.
abbrev pub sized : Lmdb
sized = record keeping {
  Env = ℕ;
  create = λ env. (env, ok tt);
  set_maxdbs = λ n env. (env, ok tt);
  open_env = λ path env. (env, ok tt);
  map_size = λ env. (env, ok env);
  set_map_size = λ n env. (n, ok tt);
  begin = λ env. (env, ok tt);
  is_writing = λ env. false;
  open_dbi = λ txn name dup env. (env, ok 0);
  set_dupsort = λ txn dbi cmp env. (env, ok tt);
  stat = λ txn dbi env. (env, ok 0);
  get = λ txn dbi key env. (env, failed not_found);
  put = λ txn dbi key value b env. (env, if ltb env 314572800 then failed map_full else ok tt);
  open_cursor = λ txn dbi env. (env, tt);
  append_dup = λ cur key value env. (env, ok tt);
  close_cursor = λ cur env. env;
  commit = λ txn env. env;
  abort = λ txn env. env;
  sync = λ env. env;
  set_no_sync = λ env. env;
}

pub full_below :
    (env : ℕ)
    → Path
        (Result (Unit {0}))
        (if ltb env 314572800 then failed map_full else ok tt)
        (failed map_full)
    → env < 314572800
full_below env e = ground arith

pub never_failed : {A : Type 0} {a : A} (e : Error) → ¬ Path (Result A) (ok a) (failed e)
never_failed e h = cc

abbrev pub enough : Suffices sized 314572800
enough = record {
  size = λ env. env;
  fits = omega arith;
  asked = λ env. refl;
  asked_size = λ env. refl;
  set_size = λ n env e. refl;
  set_codes = λ n env e h. absurd (never_failed e h);
  begin_size = λ env. refl;
  open_size = λ txn name dup env. refl;
  dupsort_size = λ txn dbi cmp env. refl;
  put_size = λ txn dbi k v b env. refl;
  append_size = λ cur k v env. refl;
  cursor_size = λ txn dbi env. refl;
  close_size = λ cur env. refl;
  commit_size = λ txn env. refl;
  abort_size = λ txn env. refl;
  put_full = λ txn dbi k v b env e. full_below env e;
  append_full = λ cur k v env e. absurd (never_failed map_full e);
}

store_block-IsSettled_example :
    IsSettled sized no_bitcoin 314572800 enough
      (store_block sized no_bitcoin 3 0 one_output 314572798)
store_block-IsSettled_example =
    store_block-IsSettled sized no_bitcoin 314572800 enough 3 0 one_output 314572798 (omega arith)

-- Reading a file of one block into a map that is two bytes short.
load_files-IsEnded_example :
    IsEnded (load_files sized no_bitcoin read_byte 314572801 0 (block_file ∷ []) 314572798)
load_files-IsEnded_example =
    load_files-IsEnded sized no_bitcoin read_byte 314572800 314572801 enough (omega arith) reads_on
      0 (block_file ∷ []) 314572798
