-- ===== src/Txo/Database/Lookup.antt =====
-- What `GetTXOs` answers.
use electrumz.Base.{Bytes, Bool, true, false, ◌≡◌, refl, Option, none, some, List, ℤ, if◌then◌else◌}
use electrumz.Base.Outcome.{Outcome, done, threw, fault, Exec, pure, continue, ◌>>=◌}
use electrumz.Lmdb.{
  Lmdb, Error, map_full, key_exist, not_found, invalid, other, code_of, Result, ok, failed, run,
}
use electrumz.Txo.Record.{Txo, OutPoint, read_out_point}
use electrumz.Txo.Database.{is_zero, start_txn, needed, after_get, get_txos, txo_ok, txo_not_found}

-- The vector that a lookup returns, if it returns, is the one that it was given.
abbrev pub IsUnfilled : {S : Type 0} → List Txo → Outcome S (ℤ × List Txo) → Type 0
IsUnfilled ntx (done s (code, out)) = out ≡ ntx
IsUnfilled ntx _ = Unit

module _ {S A : Type 0} where
  continue-IsUnfilled :
      (ntx : List Txo) (o : Outcome S A) (f : A → Exec S (ℤ × List Txo))
      → ((a : A) (s : S) → IsUnfilled ntx (f a s))
      → IsUnfilled ntx (continue o f)
  continue-IsUnfilled ntx (done s a) f h = h a s
  continue-IsUnfilled ntx (threw s) f h = tt
  continue-IsUnfilled ntx fault f h = tt

module _ (lmdb : Lmdb) where
  open lmdb use {Env, Txn, Dbi, begin, open_dbi, get, commit, abort}

  after_get-IsUnfilled :
      (txn : Txn) (ntx : List Txo) (r : Result Bytes) (env : Env)
      → IsUnfilled ntx (after_get lmdb txn ntx r env)
  unfolding after_get
  after_get-IsUnfilled txn ntx (failed not_found) env = refl
  after_get-IsUnfilled txn ntx (failed invalid) env = refl
  after_get-IsUnfilled txn ntx (failed map_full) env = tt
  after_get-IsUnfilled txn ntx (failed key_exist) env = tt
  after_get-IsUnfilled txn ntx (failed (other n)) env = tt
  after_get-IsUnfilled txn ntx (ok bytes) env = by_point (read_out_point bytes)
    where
      by_point :
          (o : Option (OutPoint × Bytes))
          → IsUnfilled ntx (elim o [
            | none ↦ threw env
            | some (point, rest) ↦ done (lmdb.commit txn env) (txo_ok, ntx)
          ])
      by_point none = tt
      by_point (some (point, rest)) = refl

  -- A lookup never adds an output to the caller's vector, whatever the database holds and answers.
  get_txos-IsUnfilled :
      (script_hash : Bytes) (ntx : List Txo) (env : Env)
      → IsUnfilled ntx (get_txos lmdb script_hash ntx env)
  unfolding get_txos
  get_txos-IsUnfilled script_hash ntx env =
      continue-IsUnfilled ntx (start_txn lmdb "addr" env) _
        (λ started env₁. by_code started env₁ (is_zero started.0))
    where
      by_code :
          (started : ℤ × Option Txn × Option Dbi) (env₁ : Env) (b : Bool)
          → IsUnfilled ntx (
              (if b then pure (started.0, ntx) else (do
                txn ← needed lmdb started.1
                dbi ← needed lmdb started.2
                r ← run (get txn dbi script_hash)
                after_get lmdb txn ntx r))
                env₁)
      by_code started env₁ true = refl
      by_code started env₁ false =
          continue-IsUnfilled ntx (needed lmdb started.1 env₁) _ (λ txn env₂.
            continue-IsUnfilled ntx (needed lmdb started.2 env₂) _ (λ dbi env₃.
              continue-IsUnfilled ntx (run (get txn dbi script_hash) env₃) _
                (λ r env₄. after_get-IsUnfilled txn ntx r env₄)))

  -- Where the transaction cannot be started, with an error code that is not 0, a lookup goes on with
  -- a transaction that was never set.
  get_txos_unstarted :
      (script_hash : Bytes) (ntx : List Txo) (env env' : Env) (e : Error)
      → begin env ≡ (env', failed e)
      → is_zero (code_of e) ≡ false
      → get_txos lmdb script_hash ntx env ≡ fault
  unfolding get_txos start_txn
  get_txos_unstarted script_hash ntx env env' e b z = rw (b, z) refl

  -- A lookup whose transaction is started.
  module _ (script_hash : Bytes) (ntx : List Txo) (env env₁ env₂ env₃ : Env) (txn : Txn) (dbi : Dbi)
      (b : begin env ≡ (env₁, ok txn)) (o : open_dbi txn "addr" false env₁ ≡ (env₂, ok dbi)) where
    pub get_txos_found :
        (v : Bytes) (q : OutPoint × Bytes)
        → get txn dbi script_hash env₂ ≡ (env₃, ok v)
        → read_out_point v ≡ some q
        → get_txos lmdb script_hash ntx env ≡ done (commit txn env₃) (txo_ok, ntx)
    unfolding get_txos start_txn after_get
    get_txos_found v q g r = rw (b, o, g) (rw (r, after_get) refl)

    pub get_txos_missing :
        get txn dbi script_hash env₂ ≡ (env₃, failed not_found)
        → get_txos lmdb script_hash ntx env ≡ done (abort txn env₃) (txo_not_found, ntx)
    unfolding get_txos start_txn after_get
    get_txos_missing g = rw (b, o, g) refl
