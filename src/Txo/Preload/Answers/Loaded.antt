-- ===== src/Txo/Preload/Answers/Loaded.antt =====
-- `PreLoadBlocks` and then `GetTXOs`.
use electrumz.Base.{
  ℕ, ◌≤◌, Bytes, Bool, true, false, ◌≡◌, refl, ap, ◌∙◌, subst, Option, some, List, [], ◌∷◌, ◌++◌,
  length, All, All-map, All-append, if◌then◌else◌, ◌==◌, ==_iff, ◌&&◌, and_true, true_and, IsBehind,
  IsBehind-le, arith,
}
use electrumz.Base.Outcome.{done}
use electrumz.Bitcoin.{BitcoinLib}
use electrumz.Lmdb.{Lmdb, ok}
use electrumz.Txo.Database.{get_txos, txo_ok, txo_not_found}
use electrumz.Txo.Preload.Addresses.{block_pays, HasSizes, AreApart, entry_at}
use electrumz.Txo.Preload.Answers.{Finds, IsAnswered, passes-IsAnswered, get_txos-AnswersBy}
use electrumz.Txo.Preload.Blocks.{Transaction, Block}
use electrumz.Txo.Preload.Blocks.Journal.{Entry, Journal, IsIn}
use electrumz.Txo.Preload.Files.Contents.{file_blocks, all_blocks}
use electrumz.Txo.Preload.Files.Within.{file_blocks-All}
use electrumz.Txo.Preload.Loaders.Stored.{AllEnded-stored}
use electrumz.Txo.Preload.Loaders.Stores.{AreBlocks}
use electrumz.Txo.Preload.Loaders.Sums.{any, any-same, All-count, count}
use electrumz.Txo.Preload.Passes.{Pass, Preload, preloaded, IsComplete, Pass-length}
use electrumz.Txo.Record.{Txo}

-- The hashes of the transactions of a block have 32 bytes, as a test.
abbrev txs_have_sizes : List Transaction → Bool
txs_have_sizes [] = true
txs_have_sizes (tx ∷ txs) = (length tx.hash == 32) && txs_have_sizes txs

sized_txs :
    (txs : List Transaction) → txs_have_sizes txs ≡ true → All (λ tx. length tx.hash ≡ 32) txs
sized_txs [] h = tt
sized_txs (tx ∷ txs) h =
    let (a, b) = and_true (length tx.hash == 32) (txs_have_sizes txs) h in
    ((==_iff (length tx.hash) 32).0 a, sized_txs txs b)

txs_sized :
    (txs : List Transaction) → All (λ tx. length tx.hash ≡ 32) txs → txs_have_sizes txs ≡ true
txs_sized [] h = refl
txs_sized (tx ∷ txs) (h, hs) =
    true_and (length tx.hash == 32) (txs_have_sizes txs) ((==_iff (length tx.hash) 32).1 h)
      (txs_sized txs hs)

module _ (lmdb : Lmdb) (bitcoin : BitcoinLib) (db : Journal lmdb)
    (read_block : Bytes → Bytes × Option Block)
    (moves_on : (body : Bytes) → IsBehind body (read_block body).0)
    (gives_sizes : (body : Bytes) (blk : Block)
      → (read_block body).1 ≡ some blk
      → HasSizes blk) where
  open lmdb use {Env, Txn, Dbi, begin, open_dbi, set_no_sync}
  open db use {stored}

  abbrev reads_on : (body : Bytes) → length (read_block body).0 ≤ length body
  reads_on body = IsBehind-le body (read_block body).0 (moves_on body)

  all_blocks-HasSizes : (files : List Bytes) → All HasSizes (all_blocks read_block files)
  all_blocks-HasSizes [] = tt
  all_blocks-HasSizes (file ∷ files) =
      All-append HasSizes (file_blocks read_block file) (all_blocks read_block files)
        (file_blocks-All read_block HasSizes file moves_on (λ body blk at. gives_sizes body blk))
        (all_blocks-HasSizes files)

  module _ (apart : AreApart lmdb db) (finds : Finds lmdb db) (files : List Bytes) (n : ℕ)
      (has_threads : 1 ≤ n) (env : Env) (p : Preload lmdb bitcoin read_block files n env)
      (outputs_done : IsComplete lmdb bitcoin read_block files n p.outputs)
      (inputs_done : IsComplete lmdb bitcoin read_block files n p.inputs) (key : Bytes)
      (fresh : (v : Bytes) → ¬ IsIn (entry_at lmdb db key v) (stored env)) where
    abbrev paid : Bool
    paid = any (block_pays bitcoin key) (all_blocks read_block files)

    preloaded-IsAnswered :
        IsAnswered lmdb bitcoin db key apart read_block reads_on paid
          (preloaded lmdb bitcoin read_block files n p)
    preloaded-IsAnswered =
        let start_env = set_no_sync env in
        let (blks, w, kept, logged, same) =
          AllEnded-stored lmdb bitcoin db read_block 0 reads_on files n start_env p.outputs.moves
            (enough (set_no_sync env) p.outputs) outputs_done in
        let (blks', w', kept', logged', same') =
          AllEnded-stored lmdb bitcoin db read_block 1 reads_on files n p.outputs.last.shared.env
            p.inputs.moves (enough p.outputs.last.shared.env p.inputs) inputs_done in
        subst
          (λ (b : Bool).
            IsAnswered lmdb bitcoin db key apart read_block reads_on b
              (preloaded lmdb bitcoin read_block files n p))
          (any-same (block_pays bitcoin key) blks (all_blocks read_block files)
            (same (block_pays bitcoin key)))
          (passes-IsAnswered lmdb bitcoin db key apart read_block reads_on blks blks' start_env
            (preloaded lmdb bitcoin read_block files n p) w w' (sizes blks same)
            (λ v i. fresh v (subst (IsIn (entry_at lmdb db key v)) (db.no_sync_keeps env) i)) logged
            (subst
              (λ (x : List (Entry Dbi)). AreBlocks lmdb bitcoin db read_block 1 reads_on blks' x w')
              kept logged')
            (kept' ∙ ap (λ (x : List (Entry Dbi)). x ++ w') kept))
      where
        enough :
            {mode : ℕ} (e : Env) (q : Pass lmdb bitcoin read_block files n mode e)
            → 1 ≤ length q.last.threads
        enough e q = omega (arith, Pass-length lmdb bitcoin read_block _ files n e q, has_threads)

        sizes :
            (blks : List Block)
            → ((q : Block → Bool) → count q blks ≡ count q (all_blocks read_block files))
            → All HasSizes blks
        sizes blks same =
            All-map (λ blk. txs_have_sizes blk.txs ≡ true) HasSizes blks (λ blk. sized_txs blk.txs)
              (All-count (λ blk. txs_have_sizes blk.txs) blks (all_blocks read_block files) same
                (All-map HasSizes (λ blk. txs_have_sizes blk.txs ≡ true)
                  (all_blocks read_block files) (λ blk. txs_sized blk.txs)
                  (all_blocks-HasSizes files)))

    -- When both passes of `PreLoadBlocks` have loaded the files without a code, a lookup of a script
    -- hash that was not in the database before returns TXO_OK if a block of the files has an output
    -- to it, and TXO_NOTFOUND if none has; it neither throws nor crashes, and the vector of the
    -- caller stays as it was. There is a thread, the transaction of the lookup and its database are
    -- opened, hashes of transactions have 32 bytes, reading a block does not move backwards, and
    -- LMDB keeps what it documents of transactions, handles and lookups.
    pub get_txos-preloaded :
        (ntx : List Txo) (env₁ env₂ : Env) (txn : Txn) (dbi : Dbi)
        → begin (preloaded lmdb bitcoin read_block files n p) ≡ (env₁, ok txn)
        → open_dbi txn "addr" false env₁ ≡ (env₂, ok dbi)
        → (env' : Env) × (get_txos lmdb key ntx (preloaded lmdb bitcoin read_block files n p)
            ≡ done env' (
              if any (block_pays bitcoin key) (all_blocks read_block files)
                  then txo_ok
                  else txo_not_found,
              ntx,
            ))
    get_txos-preloaded ntx env₁ env₂ txn dbi b o =
        get_txos-AnswersBy lmdb bitcoin db key apart read_block reads_on finds ntx
          (preloaded lmdb bitcoin read_block files n p) env₁ env₂ txn dbi b o paid
          preloaded-IsAnswered
