-- ===== src/Txo/Database/MapSize.antt =====
-- The size that the map grows to.
use electrumz.Base.{ℕ, ◌+◌, ◌%◌, ◌<◌, ◌≤◌, ◌≡◌, refl, ℤ, arith}
use electrumz.Base.Outcome.{Outcome, done, pure}
use electrumz.Lmdb.{Lmdb, code_of, Result, ok, failed}
use electrumz.Txo.Database.{map_unit, txo_resized, or_code, next_size, increase_map_size}

pub record IsNextSize (m n : ℕ) : Type 0 where
  pub larger : m < n
  pub by_one_unit : n ≤ m + map_unit
  pub aligned : n % map_unit ≡ 0

next_size-IsNextSize : (m : ℕ) → m + map_unit < 18446744073709551616 → IsNextSize m (next_size m)
next_size-IsNextSize m h = record {
  larger = omega arith;
  by_one_unit = omega arith;
  aligned = omega arith;
}

module _ (lmdb : Lmdb) where
  open lmdb use {Env, map_size, set_map_size}

  -- What the answer of `mdb_env_set_mapsize` is turned to.
  abbrev pub resized : Env × Result (Unit {0}) → Outcome Env ℤ
  resized (env, ok _) = done env txo_resized
  resized (env, failed e) = done env (code_of e)

  -- Increasing the size of the map asks for the next multiple of 100 MiB above the current size,
  -- which is at most 100 MiB away, provided a `size_t` holds that.
  pub increase_map_size-IsNextSize :
      (env env' : Env) (m : ℕ)
      → map_size env ≡ (env', ok m)
      → m + map_unit < 18446744073709551616
      → (n : ℕ) × IsNextSize m n × (increase_map_size lmdb env ≡ resized (set_map_size n env'))
  unfolding increase_map_size
  increase_map_size-IsNextSize env env' m e h =
      (next_size m, next_size-IsNextSize m h, rw e (from_answer (set_map_size (next_size m) env')))
    where
      from_answer :
          (a : Env × Result (Unit {0}))
          → or_code lmdb (λ _. a) (λ _. pure txo_resized) env' ≡ resized a
      from_answer (s, ok _) = refl
      from_answer (s, failed e) = refl
