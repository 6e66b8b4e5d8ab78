-- ===== src/Worker/Status.antt =====
-- The exit status of the process (`main`).
use electrumz.Base.{ℕ, String, Bool, true, false, ◌≡◌, refl, Option, none, some, ltb, if◌then◌else◌}
use electrumz.Base.Outcome.{Outcome, done, threw, fault, Exec, pure, continue, ◌>>=◌, ◌>>◌}
use electrumz.Config.{Config}
use electrumz.Lmdb.{Lmdb}
use electrumz.Txo.Database.{is_zero, open_database, get_txo_stats}
use electrumz.Worker.{with_stats, main}

-- The step returns this number if it returns.
abbrev pub ExitsWith : {S : Type 0} → ℕ → Outcome S ℕ → Type 0
ExitsWith n (done s r) = r ≡ n
ExitsWith n _ = Unit

module _ {S : Type 0} where
  continue-ExitsWith :
      {A : Type 0} (n : ℕ) (o : Outcome S A) (f : A → Exec S ℕ)
      → ((a : A) (s : S) → ExitsWith n (f a s))
      → ExitsWith n (continue o f)
  continue-ExitsWith n (done s a) f h = h a s
  continue-ExitsWith n (threw s) f h = tt
  continue-ExitsWith n fault f h = tt

  if-ExitsWith :
      (n : ℕ) (b : Bool) (m k : Exec S ℕ) (s : S)
      → ExitsWith n (m s)
      → ExitsWith n (k s)
      → ExitsWith n ((if b then m else k) s)
  if-ExitsWith n true m k s h l = h
  if-ExitsWith n false m k s h l = l

module _ (lmdb : Lmdb) where
  open lmdb use {Env}

  with_stats-ExitsWith :
      (name : String) (rest : Exec Env ℕ) (env : Env)
      → ((env : Env) → ExitsWith 0 (rest env))
      → ExitsWith 0 (with_stats lmdb name rest env)
  with_stats-ExitsWith name rest env h =
      continue-ExitsWith 0 (get_txo_stats lmdb name env) _
        (λ stats env'. if-ExitsWith 0 (is_zero stats.0) rest (pure 0) env' (h env') refl)

  -- The process exits with 1 if its arguments have errors, and with 0 in all other cases in which
  -- `main` returns, also when the database cannot be opened or read.
  main-ExitsWith :
      (nerrors : ℕ) (help : Bool) (load : Exec Env Config) (preload : Option (Exec Env (Unit {0})))
      (work : Config → Exec Env (Unit {0})) (env : Env)
      → ExitsWith (if ltb 0 nerrors then 1 else 0) (main lmdb nerrors help load preload work env)
  unfolding main
  main-ExitsWith nerrors help load preload work env = by_errors (ltb 0 nerrors)
    where
      running :
          (cfg : Config) (o : Option (Exec Env (Unit {0}))) (env : Env)
          → ExitsWith 0 (
              (elim o as (λ _. Exec Env ℕ) [
                | none ↦ (do work cfg; pure 0)
                | some run ↦ (do run; pure 0)
              ])
                env)
      running cfg none env = continue-ExitsWith 0 (work cfg env) _ (λ _ env'. refl)
      running cfg (some run) env = continue-ExitsWith 0 (run env) _ (λ _ env'. refl)

      opened :
          (cfg : Config) (env : Env)
          → ExitsWith 0 (
              (with_stats lmdb "txo" (
                  with_stats lmdb "addr" (
                    with_stats lmdb "blk" (elim preload as (λ _. Exec Env ℕ) [
                      | none ↦ (do work cfg; pure 0)
                      | some run ↦ (do run; pure 0)
                    ]))))
                env)
      opened cfg env = with_stats-ExitsWith "txo" _ env (λ env₁.
          with_stats-ExitsWith "addr" _ env₁
            (λ env₂. with_stats-ExitsWith "blk" _ env₂ (λ env₃. running cfg preload env₃)))

      starting : ExitsWith 0 (
          (do
            cfg ← load
            err ← open_database lmdb "db"
            if is_zero err
                then with_stats lmdb "txo" (
                    with_stats lmdb "addr" (
                      with_stats lmdb "blk" (elim preload as (λ _. Exec Env ℕ) [
                        | none ↦ (do work cfg; pure 0)
                        | some run ↦ (do run; pure 0)
                      ])))
                else pure 0)
            env)
      starting = continue-ExitsWith 0 (load env) _ (λ cfg env₁.
          continue-ExitsWith 0 (open_database lmdb "db" env₁) _
            (λ err env₂. if-ExitsWith 0 (is_zero err) _ (pure 0) env₂ (opened cfg env₂) refl))

      by_help :
          (b : Bool)
          → ExitsWith 0 (
              (if b then pure 0 else (do
                cfg ← load
                err ← open_database lmdb "db"
                if is_zero err
                    then with_stats lmdb "txo" (
                        with_stats lmdb "addr" (
                          with_stats lmdb "blk" (elim preload as (λ _. Exec Env ℕ) [
                            | none ↦ (do work cfg; pure 0)
                            | some run ↦ (do run; pure 0)
                          ])))
                    else pure 0))
                env)
      by_help true = refl
      by_help false = starting

      by_errors :
          (b : Bool)
          → ExitsWith
              (if b then 1 else 0)
              ((if b then pure 1 else main lmdb 0 help load preload work) env)
      by_errors true = refl
      by_errors false = by_help help
