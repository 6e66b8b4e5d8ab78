-- ===== src/Txo/Preload/Passes.antt =====
-- `PreLoadBlocks` as a whole: without syncs, a pass over the files for the outputs, and when its
-- threads are joined another for the inputs.
use electrumz.Base.{ℕ, zero, suc, Bytes, ◌≡◌, refl, ◌∙◌, Option, List, [], ◌∷◌, All, length, arith}
use electrumz.Bitcoin.{BitcoinLib}
use electrumz.Lmdb.{Lmdb}
use electrumz.Txo.Preload.Blocks.{Block}
use electrumz.Txo.Preload.Loaders.{
  Loader, ended, Loaders, start, set, idles, Move, move, Moves, here, more, IsRunning,
}

module _ (lmdb : Lmdb) (bitcoin : BitcoinLib) (read_block : Bytes → Bytes × Option Block)
    (files : List Bytes) (n : ℕ) where
  open lmdb use {Env, set_no_sync}

  -- A pass with `n` new threads over all files, up to where they are joined.
  pub record Pass (mode : ℕ) (env : Env) : Type 0 where
    pub last : Loaders Env
    pub steps : ℕ
    pub retried : ℕ
    pub moves : Moves lmdb bitcoin read_block mode (start n files env) steps retried last
    pub joined : All (λ t. ¬ IsRunning t) last.threads

  pub record Preload (env : Env) : Type 0 where
    pub outputs : Pass 0 (set_no_sync env)
    pub inputs : Pass 1 outputs.last.shared.env

  -- The environment at the end.
  abbrev pub preloaded : {env : Env} → Preload env → Env
  preloaded p = p.inputs.last.shared.env

  -- No thread of the pass ended with a code.
  abbrev pub IsComplete : {mode : ℕ} {env : Env} → Pass mode env → Type 0
  IsComplete p = All (λ t. t ≡ ended) p.last.threads

length-set : (ts : List Loader) (i : ℕ) (t : Loader) → length (set ts i t) ≡ length ts
length-set [] i t = refl
length-set (x ∷ ts) zero t = refl
length-set (x ∷ ts) (suc i) t = omega (arith, length-set ts i t)

length-idles : (n : ℕ) → length (idles n) ≡ n
length-idles zero = refl
length-idles (suc n) = omega (arith, length-idles n)

module _ (lmdb : Lmdb) (bitcoin : BitcoinLib) (read_block : Bytes → Bytes × Option Block)
    (mode : ℕ) where
  open lmdb use {Env}

  Move-length :
      {s u : Loaders Env} {k : ℕ}
      → Move lmdb bitcoin read_block mode s k u
      → length u.threads ≡ length s.threads
  Move-length {s} (move i t t' shared' e r f) = length-set s.threads i t'

  Moves-length :
      {s u : Loaders Env} {k r : ℕ}
      → Moves lmdb bitcoin read_block mode s k r u
      → length u.threads ≡ length s.threads
  Moves-length here = refl
  Moves-length (more ms m) = Move-length m ∙ Moves-length ms

  -- A pass keeps its threads.
  pub Pass-length :
      (files : List Bytes) (n : ℕ) (env : Env) (p : Pass lmdb bitcoin read_block files n mode env)
      → length p.last.threads ≡ n
  Pass-length files n env p = Moves-length p.moves ∙ length-idles n
