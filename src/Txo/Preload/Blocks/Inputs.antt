-- ===== src/Txo/Preload/Blocks/Inputs.antt =====
-- The inputs of a transaction, which nothing is done with.
use electrumz.Base.{ℕ, ◌+◌, Bytes, ◌≡◌, refl, List, [], ◌∷◌, Bool-cases, inl, inr}
use electrumz.Base.Outcome.{done}
use electrumz.Bitcoin.{BitcoinLib}
use electrumz.Lmdb.{Lmdb}
use electrumz.Txo.Database.{internal_spend_txo}
use electrumz.Txo.Preload.Blocks.{next, is_null, spend_inputs}
use electrumz.Txo.Record.{OutPoint}

module _ (lmdb : Lmdb) (bitcoin : BitcoinLib) where
  open lmdb use {Env}

  pub spend_inputs_lem :
      (tx_hash : Bytes) (n : ℕ) (inputs : List OutPoint) (env : Env)
      → spend_inputs lmdb bitcoin tx_hash n inputs env ≡ done env next
  unfolding spend_inputs internal_spend_txo
  spend_inputs_lem tx_hash n [] env = refl
  spend_inputs_lem tx_hash n (prevout ∷ inputs) env = elim (Bool-cases (is_null prevout)) [
    | inl e ↦ rw e (spend_inputs_lem tx_hash (n + 1) inputs env)
    | inr e ↦ rw e (spend_inputs_lem tx_hash (n + 1) inputs env)
  ]
