-- ===== src/Txo/Preload/Answers.antt =====
-- What a lookup answers when the block files have been loaded.
pub mod Loaded
use electrumz.Base.{
  ℕ, ◌≤◌, String, Bytes, Bool, true, false, ◌||◌, ◌≡◌, refl, ap, ap₂, sym, ◌∙◌, subst, Option, some,
  none, List, [], ◌∷◌, ◌++◌, ◌⊎◌, inl, inr, length, All, All-map, append_assoc, append-nil,
  Bool-cases, if◌then◌else◌, ℤ, arith, ==_iff, ◌==◌, and_true, true_and, ◌&&◌, IsBehind,
  IsBehind-le,
}
use electrumz.Base.Outcome.{done}
use electrumz.Bitcoin.{BitcoinLib}
use electrumz.Lmdb.{Lmdb, Error, not_found, Result, ok, failed}
use electrumz.Txo.Database.{get_txos, txo_ok, txo_not_found}
use electrumz.Txo.Database.Lookup.{get_txos_found, get_txos_missing}
use electrumz.Txo.Preload.Addresses.{
  block_pays, HasSizes, IsPoint, AreApart, entry_at, OnlyIf, HasIf, OnlyIf-none, OnlyIf-Then,
  HasIf-Then, IsIn-append, IsIn_front,
}
use electrumz.Txo.Preload.Addresses.Blocks.{IsBlock-OnlyIf, IsBlock-HasIf, IsBlock-inputs}
use electrumz.Txo.Preload.Blocks.{Transaction, Block}
use electrumz.Txo.Preload.Blocks.Journal.{Entry, Journal, IsIn}
use electrumz.Txo.Preload.Loaders.Stores.{AreBlocks}
use electrumz.Txo.Preload.Loaders.Sums.{any}
use electrumz.Txo.Record.{OutPoint, Txo, read_out_point}
use electrumz.Txo.Record.RoundTrip.{read_out_point-write_out_point_whole}

-- What LMDB documents of a lookup: it gives one of the values of the key, or that there is none.
module _ (lmdb : Lmdb) (db : Journal lmdb) where
  open lmdb use {Env, Txn, get}
  open db use {stored, pending, handle}

  pub record Finds : Type 0 where
    pub found :
        (txn : Txn) (k v : Bytes) (env : Env)
        → (get txn (handle "addr") k env).1 ≡ ok v
        → IsIn (record { dbi = handle "addr"; key = k; value = v }) (stored env ++ pending txn env)
    pub missing :
        (txn : Txn) (k v : Bytes) (env : Env)
        → (get txn (handle "addr") k env).1 ≡ failed not_found
        → ¬ IsIn
            (record { dbi = handle "addr"; key = k; value = v })
            (stored env ++ pending txn env)
    pub answers :
        (txn : Txn) (k : Bytes) (env : Env)
        → ((v : Bytes) × ((get txn (handle "addr") k env).1 ≡ ok v))
          ⊎ ((get txn (handle "addr") k env).1 ≡ failed not_found)

module _ (lmdb : Lmdb) (bitcoin : BitcoinLib) (db : Journal lmdb) (key : Bytes)
    (apart : AreApart lmdb db) (read_block : Bytes → Bytes × Option Block)
    (reads_on : (body : Bytes) → length (read_block body).0 ≤ length body) where
  open lmdb use {Env, Txn, Dbi, begin, open_dbi, get, commit, abort}
  open db use {stored, pending, handle}

  abbrev Writes : Type 0
  Writes = List (Entry Dbi)

  abbrev pay : List Block → Bool
  pay = any (block_pays bitcoin key)

  AreBlocks-OnlyIf :
      (blks : List Block) (before writes : Writes)
      → All HasSizes blks
      → AreBlocks lmdb bitcoin db read_block 0 reads_on blks before writes
      → OnlyIf lmdb db key (pay blks) writes
  AreBlocks-OnlyIf [] before writes sizes h = OnlyIf-none lmdb db key false writes h
  AreBlocks-OnlyIf (blk ∷ blks) before writes (size, sizes) h =
      OnlyIf-Then lmdb db key _ _ before _ _ writes
        (λ w. IsBlock-OnlyIf lmdb bitcoin db key apart blk before w size)
        (λ s w. AreBlocks-OnlyIf blks s w sizes) h

  AreBlocks-HasIf :
      (blks : List Block) (before writes : Writes)
      → AreBlocks lmdb bitcoin db read_block 0 reads_on blks before writes
      → HasIf lmdb db key (pay blks) before writes
  AreBlocks-HasIf [] before writes h t = absurd (ground arith)
  AreBlocks-HasIf (blk ∷ blks) before writes h t =
      HasIf-Then lmdb db key _ _ before _ _ writes
        (λ w. IsBlock-HasIf lmdb bitcoin db key blk before w) (λ s w. AreBlocks-HasIf blks s w) h t

  AreBlocks-inputs :
      (blks : List Block) (before writes : Writes) (v : Bytes)
      → AreBlocks lmdb bitcoin db read_block 1 reads_on blks before writes
      → ¬ IsIn (entry_at lmdb db key v) writes
  AreBlocks-inputs [] before writes v h i = absurd (subst (IsIn (entry_at lmdb db key v)) h i)
  AreBlocks-inputs (blk ∷ blks) before writes v (w, w', e, p, q) i =
      elim (IsIn-append (entry_at lmdb db key v) w w' (subst (IsIn (entry_at lmdb db key v)) e i)) [
        | inl l ↦ IsBlock-inputs lmdb bitcoin db key apart blk before w v p l
        | inr r ↦ AreBlocks-inputs blks (before ++ w) w' v q r
      ]

  -- The entries of the key in the database are output points, and there are some if and only if so
  -- it is said.
  pub record IsAnswered (paid : Bool) (env : Env) : Type 0 where
    pub only_if : OnlyIf lmdb db key paid (stored env)
    pub has_if : paid ≡ true → (v : Bytes) × IsIn (entry_at lmdb db key v) (stored env)

  pub passes-IsAnswered :
      (blks inputs : List Block) (env env' : Env) (w w' : Writes)
      → All HasSizes blks
      → ((v : Bytes) → ¬ IsIn (entry_at lmdb db key v) (stored env))
      → AreBlocks lmdb bitcoin db read_block 0 reads_on blks (stored env) w
      → AreBlocks lmdb bitcoin db read_block 1 reads_on inputs (stored env ++ w) w'
      → stored env' ≡ (stored env ++ w) ++ w'
      → IsAnswered (pay blks) env'
  passes-IsAnswered blks inputs env env' w w' sizes fresh h k e = record {
    only_if = λ v i.
        elim (IsIn-append (entry_at lmdb db key v) (stored env ++ w) w'
          (subst (IsIn (entry_at lmdb db key v)) e i)) [
            | inl l ↦ elim (IsIn-append (entry_at lmdb db key v) (stored env) w l) [
              | inl old ↦ absurd (fresh v old)
              | inr new ↦ AreBlocks-OnlyIf blks (stored env) w sizes h v new
            ]
            | inr r ↦ absurd (AreBlocks-inputs inputs (stored env ++ w) w' v k r)
          ];
    has_if = λ t.
        let (v, i) = AreBlocks-HasIf blks (stored env) w h t in
        (
          v,
          subst (IsIn (entry_at lmdb db key v)) (sym e)
              (IsIn_front (entry_at lmdb db key v) (stored env ++ w) w' i),
        );
  }

  module _ (finds : Finds lmdb db) (ntx : List Txo) (env env₁ env₂ : Env) (txn : Txn) (dbi : Dbi)
      (b : begin env ≡ (env₁, ok txn)) (o : open_dbi txn "addr" false env₁ ≡ (env₂, ok dbi)) where
    -- What the transaction sees is what is stored.
    seen : stored env₂ ++ pending txn env₂ ≡ stored env
    seen =
        ap₂ (λ (s w : Writes). s ++ w)
          (subst (λ (x : Env). stored x ≡ stored env₁) (ap (λ (x : Env × Result Dbi). x.0) o)
              (db.open_keeps txn "addr" false env₁).0
            ∙ subst (λ (x : Env). stored x ≡ stored env) (ap (λ (x : Env × Result Txn). x.0) b)
                (db.begin_keeps env))
          (subst (λ (x : Env). pending txn x ≡ pending txn env₁)
              (ap (λ (x : Env × Result Dbi). x.0) o) (db.open_keeps txn "addr" false env₁).1
            ∙ subst (λ (x : Env). pending txn x ≡ []) (ap (λ (x : Env × Result Txn). x.0) b)
                (db.begin_empty txn env (ap (λ (x : Env × Result Txn). x.1) b)))
        ∙ append-nil (stored env)

    one_handle : handle "addr" ≡ dbi
    one_handle =
        sym (db.open_handle txn "addr" false env₁ dbi (ap (λ (x : Env × Result Dbi). x.1) o))

    abbrev after : Env
    after = (get txn dbi key env₂).0

    get_at :
        (r : Result Bytes)
        → (get txn (handle "addr") key env₂).1 ≡ r
        → get txn dbi key env₂ ≡ (after, r)
    get_at r g =
        ap (λ (x : Result Bytes). (after, x))
          (subst (λ (d : Dbi). (get txn d key env₂).1 ≡ r) one_handle g)

    abbrev pub AnswersBy : Bool → Type 0
    AnswersBy paid =
        (env' : Env) × (get_txos lmdb key ntx env
          ≡ done env' (if paid then txo_ok else txo_not_found, ntx))

    pub get_txos-AnswersBy : (paid : Bool) → IsAnswered paid env → AnswersBy paid
    get_txos-AnswersBy paid h = elim (finds.answers txn key env₂) [
      | inl (v, g) ↦
          let (t, (hash, n, size, e)) =
            h.only_if v
              (subst (IsIn (entry_at lmdb db key v)) seen (finds.found txn key v env₂ g)) in
          let (q, r) = read_out_point-write_out_point_whole (record { hash = hash; n = n }) size in
          subst AnswersBy (sym t) (
            commit txn after,
            get_txos_found lmdb key ntx env env₁ env₂ after txn dbi b o v q (get_at (ok v) g)
                (ap read_out_point e ∙ r),
          )
      | inr g ↦ elim (Bool-cases paid) [
        | inl t ↦
            let (v, i) = h.has_if t in
            absurd
              (finds.missing txn key v env₂ g (subst (IsIn (entry_at lmdb db key v)) (sym seen) i))
        | inr t ↦ subst AnswersBy (sym t) (
          abort txn after,
          get_txos_missing lmdb key ntx env env₁ env₂ after txn dbi b o
              (get_at (failed not_found) g),
        )
      ]
    ]
