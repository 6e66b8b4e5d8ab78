-- ===== src/Txo/Preload/Blocks/Steps.antt =====
-- What the steps of storing a block leave in the database.
use electrumz.Base.{ℕ, Bool, true, false, ◌≡◌, refl, ◌∙◌, List, ℤ, if◌then◌else◌}
use electrumz.Base.Outcome.{Outcome, done, threw, fault, Exec, pure, continue, ◌>>=◌, After}
use electrumz.Bitcoin.{BitcoinLib}
use electrumz.Lmdb.{Lmdb, Error, code_of, is_map_full, Result, ok, failed}
use electrumz.Txo.Database.{increase_map_size, resize_if_full, or_code, next_size}
use electrumz.Txo.Preload.Blocks.{
  Step, next, again, stopped, is_resized, full_or_stop, and_next, or_stop,
}
use electrumz.Txo.Preload.Blocks.Journal.{Entry, Journal}

module _ (lmdb : Lmdb) (bitcoin : BitcoinLib) (db : Journal lmdb) where
  open lmdb use {Env, Txn, Dbi, abort, map_size, set_map_size, is_writing}
  open db use {stored, pending}

  -- A step that goes on ends in `N`, and one that does not leaves what is stored as it was; one that
  -- starts again has ended its transaction.
  abbrev pub Ends : List (Entry Dbi) → (Env → Type 0) → Outcome Env Step → Type 0
  Ends s N (done env next) = N env
  Ends s N (done env again) = (stored env ≡ s) × (is_writing env ≡ false)
  Ends s N (done env (stopped code)) = stored env ≡ s
  Ends s N (threw env) = Unit
  Ends s N fault = Unit

  abbrev pub IsStored : List (Entry Dbi) → Env → Type 0
  IsStored s env = stored env ≡ s

  abbrev IsUnwritten : List (Entry Dbi) → Env → Type 0
  IsUnwritten s env = (stored env ≡ s) × (is_writing env ≡ false)

  pub and_next-Ends :
      (s : List (Entry Dbi)) (M N : Env → Type 0) (m k : Exec Env Step) (env : Env)
      → Ends s M (m env)
      → ((env' : Env) → M env' → Ends s N (k env'))
      → Ends s N (and_next lmdb bitcoin m k env)
  and_next-Ends s M N m k env h l = by_end (m env) h
    where
      by_end :
          (o : Outcome Env Step)
          → Ends s M o
          → Ends s N (
              continue o (λ s. elim s [
                | next ↦ k
                | again ↦ pure again
                | stopped code ↦ pure (stopped code)
              ]))
      by_end (done env' next) h = l env' h
      by_end (done env' again) h = h
      by_end (done env' (stopped code)) h = h
      by_end (threw env') h = tt
      by_end fault h = tt

  or_code-After :
      {A : Type 0} (P : Env → Type 0) (call : Env → Env × Result A) (k : A → Exec Env ℤ) (env : Env)
      → P (call env).0
      → ((a : A) (env' : Env) → P env' → After P (k a env'))
      → After P (or_code lmdb call k env)
  or_code-After {A} P call k env h l = by_answer (call env) h
    where
      by_answer :
          (a : Env × Result A)
          → P a.0
          → After P
              ((elim a.1 as (λ _. Exec Env ℤ) [ ok a ↦ k a | failed e ↦ pure (code_of e) ]) a.0)
      by_answer (env', ok a) h = l a env' h
      by_answer (env', failed e) h = h

  increase_map_size-After :
      (P : Env → Type 0)
      → ((env : Env) → P env → P (map_size env).0)
      → ((n : ℕ) (env : Env) → P env → P (set_map_size n env).0)
      → (env : Env) → P env
      → After P (increase_map_size lmdb env)
  unfolding increase_map_size
  increase_map_size-After P asked set env h =
      or_code-After P map_size _ env (asked env h) (λ m env' h'.
        or_code-After P (set_map_size (next_size m)) _ env' (set (next_size m) env' h')
          (λ _ env'' h''. h''))

  increase_map_size-IsStored :
      (s : List (Entry Dbi)) (env : Env)
      → IsStored s env
      → After (IsStored s) (increase_map_size lmdb env)
  increase_map_size-IsStored s =
      increase_map_size-After (IsStored s) (λ env h. db.map_size_keeps env ∙ h)
        (λ n env h. db.set_map_size_keeps n env ∙ h)

  increase_map_size-IsUnwritten :
      (s : List (Entry Dbi)) (env : Env)
      → IsUnwritten s env
      → After (IsUnwritten s) (increase_map_size lmdb env)
  increase_map_size-IsUnwritten s =
      increase_map_size-After (IsUnwritten s)
        (λ env (h, w). (db.map_size_keeps env ∙ h, db.map_size_writing env ∙ w))
        (λ n env (h, w). (db.set_map_size_keeps n env ∙ h, db.set_map_size_writing n env ∙ w))

  pub resize_if_full-IsStored :
      (s : List (Entry Dbi)) (e : Error) (env : Env)
      → IsStored s env
      → After (IsStored s) (resize_if_full lmdb e env)
  unfolding resize_if_full
  resize_if_full-IsStored s e env h = by_full (is_map_full e)
    where
      by_full :
          (b : Bool)
          → After (IsStored s) ((if b then increase_map_size lmdb else pure (code_of e)) env)
      by_full true = increase_map_size-IsStored s env h
      by_full false = h

  -- A code ends the step, behind the end of its transaction maybe for another attempt.
  ends_with :
      (s : List (Entry Dbi)) (N : Env → Type 0) (o : Outcome Env ℤ)
      → After (IsUnwritten s) o
      → Ends s N (continue o (λ code. pure (if is_resized code then again else stopped code)))
  ends_with s N (done env code) h = by_test (is_resized code)
    where
      by_test : (b : Bool) → Ends s N (done env (if b then again else stopped code))
      by_test true = h
      by_test false = h.0
  ends_with s N (threw env) h = tt
  ends_with s N fault h = tt

  stops_with :
      (s : List (Entry Dbi)) (N : Env → Type 0) (o : Outcome Env ℤ)
      → After (IsStored s) o
      → Ends s N (continue o (λ code. pure (stopped code)))
  stops_with s N (done env code) h = h
  stops_with s N (threw env) h = tt
  stops_with s N fault h = tt

  -- A failed write never goes on.
  pub full_or_stop-Ends :
      (s : List (Entry Dbi)) (N : Env → Type 0) (txn : Txn) (e : Error) (env : Env)
      → IsStored s env
      → Ends s N (full_or_stop lmdb bitcoin txn e env)
  unfolding full_or_stop
  full_or_stop-Ends s N txn e env h = by_full (is_map_full e)
    where
      by_full :
          (b : Bool)
          → Ends s N (
              if b
              then (do
                code ← increase_map_size lmdb
                pure (if is_resized code then again else stopped code))
                  (abort txn env)
              else done env (stopped (code_of e)))
      by_full true = ends_with s N (increase_map_size lmdb (abort txn env)) (
          increase_map_size-IsUnwritten s (abort txn env)
            (db.abort_drops txn env ∙ h, db.abort_ends txn env))
      by_full false = h

  pub or_stop-Ends :
      {A : Type 0} (s : List (Entry Dbi)) (N : Env → Type 0) (call : Env → Env × Result A)
      (on_error : Error → Exec Env ℤ) (k : A → Exec Env Step) (env : Env)
      → stored (call env).0 ≡ s
      → ((e : Error) (env' : Env) → IsStored s env' → After (IsStored s) (on_error e env'))
      → ((a : A) → (call env).1 ≡ ok a → Ends s N (k a (call env).0))
      → Ends s N (or_stop lmdb bitcoin call on_error k env)
  or_stop-Ends {A} s N call on_error k env h l g = by_result (call env).1 refl
    where
      by_result :
          (r : Result A)
          → (call env).1 ≡ r
          → Ends s N (
              (elim r as (λ _. Exec Env Step) [
                | ok a ↦ k a
                | failed e ↦ (do code ← on_error e; pure (stopped code))
              ])
                (call env).0)
      by_result (ok a) e = g a e
      by_result (failed x) e = stops_with s N (on_error x (call env).0) (l x (call env).0 h)

  pub Ends-map :
      (s : List (Entry Dbi)) (M N : Env → Type 0) (o : Outcome Env Step)
      → ((env : Env) → M env → N env)
      → Ends s M o
      → Ends s N o
  Ends-map s M N (done env next) f h = f env h
  Ends-map s M N (done env again) f h = h
  Ends-map s M N (done env (stopped code)) f h = h
  Ends-map s M N (threw env) f h = h
  Ends-map s M N fault f h = h
