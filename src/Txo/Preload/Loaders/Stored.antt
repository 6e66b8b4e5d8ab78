-- ===== src/Txo/Preload/Loaders/Stored.antt =====
-- What the threads have stored when they end.
use electrumz.Base.{
  ℕ, ◌+◌, ◌≤◌, Bytes, Bool, ◌≡◌, refl, ap, sym, ◌∙◌, subst, Option, List, [], ◌∷◌, ◌++◌, length,
  append-nil, append_assoc, arith, All,
}
use electrumz.Bitcoin.{BitcoinLib}
use electrumz.Lmdb.{Lmdb}
use electrumz.Txo.Preload.Blocks.{Block}
use electrumz.Txo.Preload.Blocks.Journal.{Entry, Journal}
use electrumz.Txo.Preload.Files.Contents.{all_blocks}
use electrumz.Txo.Preload.Loaders.{
  Loader, ended, Loaders, start, IsRunning, IsReady-IsRunning, Move, move, Moves, here, more,
}
use electrumz.Txo.Preload.Loaders.Shares.{AllEnded, AllEnded-finished}
use electrumz.Txo.Preload.Loaders.Sums.{
  count, count-append, sum_threads, sum_threads-set, sum_threads-idles, All-unset,
}
use electrumz.Txo.Preload.Loaders.Stores.{
  NotGivenUp, IsRunning-NotGivenUp, AreBlocks, AreBlocks-append, to_come, in_queue, Stores, Storing,
  turn-Storing,
}

module _ (lmdb : Lmdb) (bitcoin : BitcoinLib) (db : Journal lmdb)
    (read_block : Bytes → Bytes × Option Block) (mode : ℕ)
    (reads_on : (body : Bytes) → length (read_block body).0 ≤ length body) where
  open lmdb use {Env, Dbi, sync}
  open db use {stored}

  abbrev Writes : Type 0
  Writes = List (Entry Dbi)

  -- What was stored so far, from the start with `env`.
  record IsLogged (files : List Bytes) (env : Env) (s : Loaders Env) : Type 0 where
    blks : List Block
    writes : Writes
    kept : stored s.shared.env ≡ stored env ++ writes
    logged : AreBlocks lmdb bitcoin db read_block mode reads_on blks (stored env) writes
    balance :
        All NotGivenUp s.threads
        → (p : Block → Bool)
        → count p blks
            + sum_threads (to_come lmdb bitcoin db read_block mode reads_on p) s.threads
            + in_queue lmdb bitcoin db read_block mode reads_on p s.shared.queue
          ≡ in_queue lmdb bitcoin db read_block mode reads_on p files

  Move-IsLogged :
      {files : List Bytes} {env : Env} {s u : Loaders Env} {k : ℕ}
      → Move lmdb bitcoin read_block mode s k u
      → IsLogged files env s
      → IsLogged files env u
  Move-IsLogged {files} {env} {s} (move i t t' shared' e r f) l = record {
    blks = l.blks ++ one.blks;
    writes = l.writes ++ one.writes;
    kept =
        one.kept
        ∙ ap (λ (x : Writes). x ++ one.writes) l.kept
        ∙ append_assoc (stored env) l.writes one.writes;
    logged =
        AreBlocks-append lmdb bitcoin db read_block mode reads_on l.blks one.blks (stored env)
          l.writes one.writes l.logged
          (subst
            (λ (x : Writes).
              AreBlocks lmdb bitcoin db read_block mode reads_on one.blks x one.writes)
            l.kept one.logged);
    balance = λ g p.
        let (h, before) =
          All-unset NotGivenUp s.threads i t t' e (IsRunning-NotGivenUp t running) g in
        omega (
          arith,
          count-append p l.blks one.blks,
          one.balance h p,
          l.balance before p,
          sum_threads-set (to_come lmdb bitcoin db read_block mode reads_on p) s.threads i t t' e,
        );
  }
    where
      running : IsRunning t
      running = IsReady-IsRunning lmdb bitcoin read_block mode t s.shared.env r

      one : Stores lmdb bitcoin db read_block mode reads_on t t' s.shared shared'
      one =
          subst (Storing lmdb bitcoin db read_block mode reads_on t s.shared) f
            (turn-Storing lmdb bitcoin db read_block mode reads_on t s.shared running)

  Moves-IsLogged :
      {files : List Bytes} {env : Env} {s u : Loaders Env} {n r : ℕ}
      → Moves lmdb bitcoin read_block mode s n r u
      → IsLogged files env s
      → IsLogged files env u
  Moves-IsLogged here l = l
  Moves-IsLogged (more ms m) l = Move-IsLogged m (Moves-IsLogged ms l)

  start-IsLogged : (files : List Bytes) (n : ℕ) (env : Env) → IsLogged files env (start n files env)
  start-IsLogged files n env = record {
    blks = [];
    writes = [];
    kept = sym (append-nil (stored env));
    logged = refl;
    balance = λ g p.
        omega
          (arith, sum_threads-idles (to_come lmdb bitcoin db read_block mode reads_on p) n refl);
  }

  ended-NotGivenUp : (ts : List Loader) → All (λ t. t ≡ ended) ts → All NotGivenUp ts
  ended-NotGivenUp [] h = tt
  ended-NotGivenUp (t ∷ ts) (h, hs) = (subst NotGivenUp (sym h) tt, ended-NotGivenUp ts hs)

  ended_sum :
      (p : Block → Bool) (ts : List Loader)
      → All (λ t. t ≡ ended) ts
      → sum_threads (to_come lmdb bitcoin db read_block mode reads_on p) ts ≡ 0
  ended_sum p [] h = refl
  ended_sum p (t ∷ ts) (h, hs) =
      omega (arith, ap (to_come lmdb bitcoin db read_block mode reads_on p) h, ended_sum p ts hs)

  -- When all threads have ended without a code, whatever the order of their steps, the database has
  -- behind what it had at the start the writes of some blocks, each whole and one after the other,
  -- and those are the blocks of the files, each as often as the files hold it, for any test of a
  -- block. The writes of a block are its header and the two entries of each output that its
  -- address does not have up to there, or in the pass over the inputs only its header. LMDB keeps
  -- what it documents of transactions and of pairs that a database has already, a commit succeeds,
  -- and reading a block does not move backwards in the file.
  pub AllEnded-stored :
      {u : Loaders Env} {k r : ℕ} (files : List Bytes) (n : ℕ) (env : Env)
      → Moves lmdb bitcoin read_block mode (start n files env) k r u
      → 1 ≤ length u.threads
      → AllEnded lmdb bitcoin read_block mode files u.threads
      → (blks : List Block) × (writes : Writes) × (stored u.shared.env ≡ stored env ++ writes)
        × AreBlocks lmdb bitcoin db read_block mode reads_on blks (stored env) writes
        × ((p : Block → Bool) → count p blks ≡ count p (all_blocks read_block files))
  AllEnded-stored {u} files n env ms l h =
      let log = Moves-IsLogged ms (start-IsLogged files n env) in
      let (none_waits, _) = AllEnded-finished lmdb bitcoin read_block mode files n env ms l h in
      (
        log.blks,
        log.writes,
        log.kept,
        log.logged,
        λ p. omega (
          arith,
          log.balance (ended-NotGivenUp u.threads h) p,
          ended_sum p u.threads h,
          ap (in_queue lmdb bitcoin db read_block mode reads_on p) none_waits,
        ),
      )
