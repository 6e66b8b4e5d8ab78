-- ===== src/Txo/Preload/Addresses.antt =====
-- The addresses that blocks pay to, and their entries among the writes of the blocks.
pub mod Blocks
use electrumz.Base.{
  ℕ, ◌+◌, Bytes, Bool, true, false, ◌||◌, ◌≡◌, refl, ap, sym, ◌∙◌, subst, Option, List, [], ◌∷◌,
  ◌++◌, ◌⊎◌, inl, inr, ◌≢◌, length, All, or_true, true_or, same_bytes, same_bytes-eq, eq-same_bytes,
  arith, append_assoc,
}
use electrumz.Bitcoin.{BitcoinLib}
use electrumz.Lmdb.{Lmdb}
use electrumz.Txo.Preload.Blocks.{Transaction, Block}
use electrumz.Txo.Preload.Blocks.Entries.{
  Then, address_entry, IsOutput, AreOutputs, IsTx, AreTxs, IsBlock,
}
use electrumz.Txo.Preload.Blocks.Journal.{Entry, Journal, IsIn}
use electrumz.Txo.Record.{write_out_point}

module _ {Dbi : Type 0} where
  pub IsIn-append :
      (e : Entry Dbi) (xs ys : List (Entry Dbi)) → IsIn e (xs ++ ys) → IsIn e xs ⊎ IsIn e ys
  IsIn-append e [] ys h = inr h
  IsIn-append e (x ∷ xs) ys (inl h) = inl (inl h)
  IsIn-append e (x ∷ xs) ys (inr h) = elim (IsIn-append e xs ys h) [
    | inl l ↦ inl (inr l)
    | inr r ↦ inr r
  ]

  pub IsIn_front : (e : Entry Dbi) (xs ys : List (Entry Dbi)) → IsIn e xs → IsIn e (xs ++ ys)
  IsIn_front e [] ys h = absurd h
  IsIn_front e (x ∷ xs) ys (inl h) = inl h
  IsIn_front e (x ∷ xs) ys (inr h) = inr (IsIn_front e xs ys h)

  pub IsIn_behind : (e : Entry Dbi) (xs ys : List (Entry Dbi)) → IsIn e ys → IsIn e (xs ++ ys)
  IsIn_behind e [] ys h = h
  IsIn_behind e (x ∷ xs) ys h = inr (IsIn_behind e xs ys h)

module _ (bitcoin : BitcoinLib) (key : Bytes) where
  open bitcoin use {shash}

  -- An output goes to the script hash.
  abbrev pub outputs_pay : List (Bytes × ℕ) → Bool
  outputs_pay [] = false
  outputs_pay ((script, value) ∷ outputs) = same_bytes (shash script) key || outputs_pay outputs

  abbrev pub txs_pay : List Transaction → Bool
  txs_pay [] = false
  txs_pay (tx ∷ txs) = outputs_pay tx.outputs || txs_pay txs

  abbrev pub block_pays : Block → Bool
  block_pays blk = txs_pay blk.txs

-- The bytes of an output of a transaction, whose hash has 32 bytes.
abbrev pub IsPoint : Bytes → Type 0
IsPoint v =
    (h : Bytes) × (n : ℕ) × (length h ≡ 32) × (v ≡ write_out_point (record { hash = h; n = n }))

abbrev pub HasSizes : Block → Type 0
HasSizes blk = All (λ tx. length tx.hash ≡ 32) blk.txs

module _ (lmdb : Lmdb) (db : Journal lmdb) where
  open db use {handle}

  -- Databases of different names have different handles.
  pub record AreApart : Type 0 where
    pub txo_apart : handle "addr" ≢ handle "txo"
    pub blk_apart : handle "addr" ≢ handle "blk"

module _ (lmdb : Lmdb) (db : Journal lmdb) (key : Bytes) where
  open lmdb use {Dbi}
  open db use {handle}

  abbrev pub Writes : Type 0
  Writes = List (Entry Dbi)

  abbrev pub entry_at : Bytes → Entry Dbi
  entry_at v = record { dbi = handle "addr"; key = key; value = v }

  -- The writes have an entry of the key only if there is a payment to it, and it is an output point.
  abbrev pub OnlyIf : Bool → Writes → Type 0
  OnlyIf b writes = (v : Bytes) → IsIn (entry_at v) writes → (b ≡ true) × IsPoint v

  -- There is one, among the writes or before them, if there is a payment.
  abbrev pub HasIf : Bool → Writes → Writes → Type 0
  HasIf b before writes = b ≡ true → (v : Bytes) × IsIn (entry_at v) (before ++ writes)

  pub OnlyIf-none : (b : Bool) (writes : Writes) → writes ≡ [] → OnlyIf b writes
  OnlyIf-none b writes e v i = absurd (subst (IsIn (entry_at v)) e i)

  pub OnlyIf-Then :
      (a b : Bool) (before : Writes) (P : Writes → Type 0) (Q : Writes → Writes → Type 0)
      (writes : Writes)
      → ((w : Writes) → P w → OnlyIf a w)
      → ((s w : Writes) → Q s w → OnlyIf b w)
      → Then before P Q writes
      → OnlyIf (a || b) writes
  OnlyIf-Then a b before P Q writes h k (w, w', e, p, q) v i =
      elim (IsIn-append (entry_at v) w w' (subst (IsIn (entry_at v)) e i)) [
        | inl l ↦ let (t, is) = h w p v l in (true_or a b (inl t), is)
        | inr r ↦ let (t, is) = k (before ++ w) w' q v r in (true_or a b (inr t), is)
      ]

  pub HasIf-Then :
      (a b : Bool) (before : Writes) (P : Writes → Type 0) (Q : Writes → Writes → Type 0)
      (writes : Writes)
      → ((w : Writes) → P w → HasIf a before w)
      → ((s w : Writes) → Q s w → HasIf b s w)
      → Then before P Q writes
      → HasIf (a || b) before writes
  HasIf-Then a b before P Q writes h k (w, w', e, p, q) t = elim (or_true a b t) [
    | inl l ↦
        let (v, i) = h w p l in
        (v, subst (IsIn (entry_at v)) (split w w' e) (IsIn_front (entry_at v) (before ++ w) w' i))
    | inr r ↦ let (v, i) = k (before ++ w) w' q r in (v, subst (IsIn (entry_at v)) (split w w' e) i)
  ]
    where
      split : (w w' : Writes) → writes ≡ w ++ w' → (before ++ w) ++ w' ≡ before ++ writes
      split w w' e = append_assoc before w w' ∙ ap (λ (x : Writes). before ++ x) (sym e)
