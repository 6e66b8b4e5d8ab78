-- ===== src/Txo/Preload/Addresses/Blocks.antt =====
-- The entries of addresses among the writes of a block.
use electrumz.Base.{
  ℕ, ◌+◌, Bytes, false, ◌≡◌, refl, ap, sym, subst, List, [], ◌∷◌, ◌++◌, inl, inr, length, All,
  same_bytes, same_bytes-eq, eq-same_bytes, arith,
}
use electrumz.Bitcoin.{BitcoinLib}
use electrumz.Lmdb.{Lmdb}
use electrumz.Txo.Preload.Addresses.{
  IsIn-append, IsIn_front, IsIn_behind, outputs_pay, txs_pay, HasSizes, AreApart, entry_at, OnlyIf,
  HasIf, OnlyIf-none, OnlyIf-Then, HasIf-Then,
}
use electrumz.Txo.Preload.Blocks.{Transaction, Block}
use electrumz.Txo.Preload.Blocks.Entries.{address_entry, IsOutput, AreOutputs, AreTxs, IsBlock}
use electrumz.Txo.Preload.Blocks.Journal.{Entry, Journal, IsIn}
use electrumz.Txo.Record.{write_out_point}

module _ (lmdb : Lmdb) (bitcoin : BitcoinLib) (db : Journal lmdb) (key : Bytes) where
  open lmdb use {Dbi}
  open db use {handle}

  abbrev Writes : Type 0
  Writes = List (Entry Dbi)

  module _ (apart : AreApart lmdb db) where
    IsOutput-OnlyIf :
        (tx_hash : Bytes) (n : ℕ) (output : Bytes × ℕ) (before writes : Writes)
        → length tx_hash ≡ 32
        → IsOutput lmdb bitcoin db tx_hash n output before writes
        → OnlyIf lmdb db key (same_bytes (bitcoin.shash output.0) key) writes
    IsOutput-OnlyIf tx_hash n (script, value) before writes size h v i = elim h [
      | inl (e, _) ↦ absurd (subst (IsIn (entry_at lmdb db key v)) e i)
      | inr (e, _) ↦ elim (subst (IsIn (entry_at lmdb db key v)) e i) [
        | inl here ↦ (
          eq-same_bytes (bitcoin.shash script) key (sym (ap (λ (x : Entry Dbi). x.key) here)),
          (tx_hash, n, size, ap (λ (x : Entry Dbi). x.value) here),
        )
        | inr (inl there) ↦ absurd (apart.txo_apart (ap (λ (x : Entry Dbi). x.dbi) there))
        | inr (inr nowhere) ↦ absurd nowhere
      ]
    ]

    AreOutputs-OnlyIf :
        (tx_hash : Bytes) (n : ℕ) (outputs : List (Bytes × ℕ)) (before writes : Writes)
        → length tx_hash ≡ 32
        → AreOutputs lmdb bitcoin db tx_hash n outputs before writes
        → OnlyIf lmdb db key (outputs_pay bitcoin key outputs) writes
    AreOutputs-OnlyIf tx_hash n [] before writes size h = OnlyIf-none lmdb db key false writes h
    AreOutputs-OnlyIf tx_hash n (output ∷ outputs) before writes size h =
        OnlyIf-Then lmdb db key _ _ before _ _ writes
          (λ w. IsOutput-OnlyIf tx_hash n output before w size)
          (λ s w. AreOutputs-OnlyIf tx_hash (n + 1) outputs s w size) h

    AreTxs-OnlyIf :
        (txs : List Transaction) (before writes : Writes)
        → All (λ tx. length tx.hash ≡ 32) txs
        → AreTxs lmdb bitcoin db 0 txs before writes
        → OnlyIf lmdb db key (txs_pay bitcoin key txs) writes
    AreTxs-OnlyIf [] before writes sizes h = OnlyIf-none lmdb db key false writes h
    AreTxs-OnlyIf (tx ∷ txs) before writes (size, sizes) h =
        OnlyIf-Then lmdb db key _ _ before _ _ writes
          (λ w. AreOutputs-OnlyIf tx.hash 0 tx.outputs before w size)
          (λ s w. AreTxs-OnlyIf txs s w sizes) h

    -- An entry of a header is none of an address.
    not_header :
        (blk : Block) (writes : Writes) (v : Bytes)
        → writes ≡ record { dbi = handle "blk"; key = blk.hash; value = blk.header } ∷ []
        → ¬ IsIn (entry_at lmdb db key v) writes
    not_header blk writes v e i = elim (subst (IsIn (entry_at lmdb db key v)) e i) [
      | inl here ↦ apart.blk_apart (ap (λ (x : Entry Dbi). x.dbi) here)
      | inr nowhere ↦ nowhere
    ]

    pub IsBlock-OnlyIf :
        (blk : Block) (before writes : Writes)
        → HasSizes blk
        → IsBlock lmdb bitcoin db 0 blk before writes
        → OnlyIf lmdb db key (txs_pay bitcoin key blk.txs) writes
    IsBlock-OnlyIf blk before writes sizes h =
        OnlyIf-Then lmdb db key false _ before _ _ writes
          (λ w e v i. absurd (not_header blk w v e i)) (λ s w. AreTxs-OnlyIf blk.txs s w sizes) h

    -- The pass over the inputs writes none.
    inputs_write :
        (txs : List Transaction) (before writes : Writes) (v : Bytes)
        → AreTxs lmdb bitcoin db 1 txs before writes
        → ¬ IsIn (entry_at lmdb db key v) writes
    inputs_write [] before writes v e i = absurd (subst (IsIn (entry_at lmdb db key v)) e i)
    inputs_write (tx ∷ txs) before writes v (w, w', e, p, q) i =
        elim (IsIn-append (entry_at lmdb db key v) w w'
          (subst (IsIn (entry_at lmdb db key v)) e i)) [
            | inl l ↦ absurd (subst (IsIn (entry_at lmdb db key v)) p l)
            | inr r ↦ inputs_write txs (before ++ w) w' v q r
          ]

    pub IsBlock-inputs :
        (blk : Block) (before writes : Writes) (v : Bytes)
        → IsBlock lmdb bitcoin db 1 blk before writes
        → ¬ IsIn (entry_at lmdb db key v) writes
    IsBlock-inputs blk before writes v (w, w', e, p, q) i =
        elim (IsIn-append (entry_at lmdb db key v) w w'
          (subst (IsIn (entry_at lmdb db key v)) e i)) [
            | inl l ↦ not_header blk w v p l
            | inr r ↦ inputs_write blk.txs (before ++ w) w' v q r
          ]

  IsOutput-HasIf :
      (tx_hash : Bytes) (n : ℕ) (output : Bytes × ℕ) (before writes : Writes)
      → IsOutput lmdb bitcoin db tx_hash n output before writes
      → HasIf lmdb db key (same_bytes (bitcoin.shash output.0) key) before writes
  IsOutput-HasIf tx_hash n (script, value) before writes h t =
      let at_key = same_bytes-eq (bitcoin.shash script) key t in
      let point = write_out_point (record { hash = tx_hash; n = n }) in
      let moved : address_entry lmdb bitcoin db tx_hash n script ≡ entry_at lmdb db key point =
        ap (λ (k : Bytes). record { dbi = handle "addr"; key = k; value = point }) at_key in
      (
        point,
        subst (λ (x : Entry Dbi). IsIn x (before ++ writes)) moved
            (elim h [
              | inl (e, i) ↦ IsIn_front _ before writes i
              | inr (e, _) ↦
                  IsIn_behind _ before writes (
                    subst (IsIn (address_entry lmdb bitcoin db tx_hash n script)) (sym e)
                      (inl refl))
            ]),
      )

  AreOutputs-HasIf :
      (tx_hash : Bytes) (n : ℕ) (outputs : List (Bytes × ℕ)) (before writes : Writes)
      → AreOutputs lmdb bitcoin db tx_hash n outputs before writes
      → HasIf lmdb db key (outputs_pay bitcoin key outputs) before writes
  AreOutputs-HasIf tx_hash n [] before writes h t = absurd (ground arith)
  AreOutputs-HasIf tx_hash n (output ∷ outputs) before writes h t =
      HasIf-Then lmdb db key _ _ before _ _ writes (λ w. IsOutput-HasIf tx_hash n output before w)
        (λ s w. AreOutputs-HasIf tx_hash (n + 1) outputs s w) h t

  AreTxs-HasIf :
      (txs : List Transaction) (before writes : Writes)
      → AreTxs lmdb bitcoin db 0 txs before writes
      → HasIf lmdb db key (txs_pay bitcoin key txs) before writes
  AreTxs-HasIf [] before writes h t = absurd (ground arith)
  AreTxs-HasIf (tx ∷ txs) before writes h t =
      HasIf-Then lmdb db key _ _ before _ _ writes
        (λ w. AreOutputs-HasIf tx.hash 0 tx.outputs before w) (λ s w. AreTxs-HasIf txs s w) h t

  pub IsBlock-HasIf :
      (blk : Block) (before writes : Writes)
      → IsBlock lmdb bitcoin db 0 blk before writes
      → HasIf lmdb db key (txs_pay bitcoin key blk.txs) before writes
  IsBlock-HasIf blk before writes h =
      HasIf-Then lmdb db key false _ before _ _ writes (λ w _ t. absurd (ground arith))
        (λ s w. AreTxs-HasIf blk.txs s w) h
