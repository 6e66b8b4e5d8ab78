-- ===== src/Txo/Preload/Blocks/Growth.antt =====
-- The size of the map while a block is stored.
use electrumz.Base.{
  ℕ, ◌+◌, ◌<◌, Bytes, String, Bool, false, ◌≡◌, refl, ap, sym, ◌∙◌, subst, ℤ, if◌then◌else◌, arith,
}
use electrumz.Base.Outcome.{Outcome, done, threw, fault, Exec, pure, continue, ◌>>=◌}
use electrumz.Bitcoin.{BitcoinLib}
use electrumz.Lmdb.{
  Lmdb, Error, map_full, key_exist, not_found, invalid, other, code_of, Result, ok, failed,
}
use electrumz.Txo.Database.{map_unit, increase_map_size}
use electrumz.Txo.Database.MapSize.{resized, increase_map_size-IsNextSize}
use electrumz.Txo.Preload.Blocks.{
  Step, next, again, stopped, is_resized, full_or_stop, and_next, or_stop,
}

-- A database whose map has the size `size`, which the calls keep but for the one that sets it, and
-- which is never full from the size `need` on.
pub record Suffices (lmdb : Lmdb) (need : ℕ) : Type 0 where
  pub size : lmdb.Env → ℕ
  pub fits : need + map_unit < 18446744073709551616
  pub asked : (env : lmdb.Env) → (lmdb.map_size env).1 ≡ ok (size env)
  pub asked_size : (env : lmdb.Env) → size (lmdb.map_size env).0 ≡ size env
  pub set_size :
      (n : ℕ) (env : lmdb.Env)
      → (lmdb.set_map_size n env).1 ≡ ok tt
      → size (lmdb.set_map_size n env).0 ≡ n
  -- No error of the call that sets the size has the number 3 of TXO_RESIZED.
  pub set_codes :
      (n : ℕ) (env : lmdb.Env) (e : Error)
      → (lmdb.set_map_size n env).1 ≡ failed e
      → is_resized (code_of e) ≡ false
  pub begin_size : (env : lmdb.Env) → size (lmdb.begin env).0 ≡ size env
  pub open_size :
      (txn : lmdb.Txn) (name : String) (dup : Bool) (env : lmdb.Env)
      → size (lmdb.open_dbi txn name dup env).0 ≡ size env
  pub dupsort_size :
      (txn : lmdb.Txn) (dbi : lmdb.Dbi) (cmp : Bytes → Bytes → ℤ) (env : lmdb.Env)
      → size (lmdb.set_dupsort txn dbi cmp env).0 ≡ size env
  pub put_size :
      (txn : lmdb.Txn) (dbi : lmdb.Dbi) (k v : Bytes) (b : Bool) (env : lmdb.Env)
      → size (lmdb.put txn dbi k v b env).0 ≡ size env
  pub append_size :
      (cur : lmdb.Cursor) (k v : Bytes) (env : lmdb.Env)
      → size (lmdb.append_dup cur k v env).0 ≡ size env
  pub cursor_size :
      (txn : lmdb.Txn) (dbi : lmdb.Dbi) (env : lmdb.Env)
      → size (lmdb.open_cursor txn dbi env).0 ≡ size env
  pub close_size :
      (cur : lmdb.Cursor) (env : lmdb.Env) → size (lmdb.close_cursor cur env) ≡ size env
  pub commit_size : (txn : lmdb.Txn) (env : lmdb.Env) → size (lmdb.commit txn env) ≡ size env
  pub abort_size : (txn : lmdb.Txn) (env : lmdb.Env) → size (lmdb.abort txn env) ≡ size env
  pub put_full :
      (txn : lmdb.Txn) (dbi : lmdb.Dbi) (k v : Bytes) (b : Bool) (env : lmdb.Env)
      → (lmdb.put txn dbi k v b env).1 ≡ failed map_full
      → size env < need
  pub append_full :
      (cur : lmdb.Cursor) (k v : Bytes) (env : lmdb.Env)
      → (lmdb.append_dup cur k v env).1 ≡ failed map_full
      → size env < need

module _ (lmdb : Lmdb) (bitcoin : BitcoinLib) (need : ℕ) (db : Suffices lmdb need) where
  open lmdb use {
    Env, Txn, Dbi, Cursor, begin, open_dbi, set_dupsort, put, open_cursor, append_dup, close_cursor,
    commit, abort, map_size, set_map_size,
  }
  open db use {size}
  open bitcoin use {shash}

  -- From the size `n`: going on keeps it, and trying again comes with a larger one, where it was too
  -- small.
  abbrev pub Grew : ℕ → Outcome Env Step → Type 0
  Grew n (done env next) = size env ≡ n
  Grew n (done env again) = (n < size env) × (n < need)
  Grew n (done env (stopped code)) = Unit
  Grew n (threw env) = Unit
  Grew n fault = Unit

  pub and_next-Grew :
      (n : ℕ) (m k : Exec Env Step) (env : Env)
      → Grew n (m env)
      → ((env' : Env) → size env' ≡ n → Grew n (k env'))
      → Grew n (and_next lmdb bitcoin m k env)
  and_next-Grew n m k env h l = by_end (m env) h
    where
      by_end :
          (o : Outcome Env Step)
          → Grew n o
          → Grew n (
              continue o (λ s. elim s [
                | next ↦ k
                | again ↦ pure again
                | stopped code ↦ pure (stopped code)
              ]))
      by_end (done env' next) h = l env' h
      by_end (done env' again) h = h
      by_end (done env' (stopped code)) h = tt
      by_end (threw env') h = tt
      by_end fault h = tt

  -- The map is increased where it was too small.
  increase-Grew :
      (n : ℕ) (env : Env)
      → size env ≡ n
      → n < need
      → Grew n (
          (do code ← increase_map_size lmdb; pure (if is_resized code then again else stopped code))
            env)
  increase-Grew n env e l =
      let (m, is_next, increased) =
        increase_map_size-IsNextSize lmdb env (map_size env).0 (size env)
          (whole (map_size env) (db.asked env)) (omega (arith, db.fits)) in
      subst
        (λ (o : Outcome Env ℤ).
          Grew n (continue o (λ code. pure (if is_resized code then again else stopped code))))
        (sym increased)
        (by_answer m (set_map_size m (map_size env).0) (db.set_size m (map_size env).0)
          (db.set_codes m (map_size env).0) (omega (arith, is_next.larger)))
    where
      whole : (a : Env × Result ℕ) → a.1 ≡ ok (size env) → a ≡ (a.0, ok (size env))
      whole (s, r) h = ap (λ (r : Result ℕ). (s, r)) h

      by_answer :
          (m : ℕ) (a : Env × Result (Unit {0}))
          → (a.1 ≡ ok tt → size a.0 ≡ m)
          → ((e : Error) → a.1 ≡ failed e → is_resized (code_of e) ≡ false)
          → n < m
          → Grew n (
              continue
                (resized lmdb a)
                (λ code. pure (if is_resized code then again else stopped code)))
      by_answer m (s, ok t) h c g = (omega (arith, h refl), l)
      by_answer m (s, failed e) h c g =
          subst (λ (b : Bool). Grew n (done s (if b then again else stopped (code_of e))))
            (sym (c e refl)) tt

  -- A failed write, which was full only where the map was too small.
  pub full_or_stop-Grew :
      (n : ℕ) (txn : Txn) (e : Error) (env : Env)
      → size env ≡ n
      → (e ≡ map_full → n < need)
      → Grew n (full_or_stop lmdb bitcoin txn e env)
  unfolding full_or_stop
  full_or_stop-Grew n txn map_full env h l =
      increase-Grew n (abort txn env) (db.abort_size txn env ∙ h) (l refl)
  full_or_stop-Grew n txn key_exist env h l = tt
  full_or_stop-Grew n txn not_found env h l = tt
  full_or_stop-Grew n txn invalid env h l = tt
  full_or_stop-Grew n txn (other k) env h l = tt

  stop_with : (n : ℕ) (o : Outcome Env ℤ) → Grew n (continue o (λ code. pure (stopped code)))
  stop_with n (done env code) = tt
  stop_with n (threw env) = tt
  stop_with n fault = tt

  pub or_stop-Grew :
      {A : Type 0} (n : ℕ) (call : Env → Env × Result A) (on_error : Error → Exec Env ℤ)
      (k : A → Exec Env Step) (env : Env)
      → size (call env).0 ≡ n
      → ((a : A) (env' : Env) → size env' ≡ n → Grew n (k a env'))
      → Grew n (or_stop lmdb bitcoin call on_error k env)
  or_stop-Grew {A = A} n call on_error k env h l = by_answer (call env) h
    where
      by_answer :
          (a : Env × Result A)
          → size a.0 ≡ n
          → Grew n (
              (elim a.1 as (λ _. Exec Env Step) [
                | ok a ↦ k a
                | failed e ↦ (do code ← on_error e; pure (stopped code))
              ])
                a.0)
      by_answer (s, ok a) h = l a s h
      by_answer (s, failed e) h = stop_with n (on_error e s)
