-- ===== src/Txo/Preload/Loaders/Shares.antt =====
-- Which thread has which file.
use electrumz.Base.{
  ℕ, zero, suc, ◌+◌, ◌-◌, ◌≤◌, Bytes, Bool, ◌≡◌, refl, ap, subst, Option, List, [], ◌∷◌, length,
  arith, All,
}
use electrumz.Bitcoin.{BitcoinLib}
use electrumz.Lmdb.{Lmdb}
use electrumz.Txo.Preload.Blocks.{Block}
use electrumz.Txo.Preload.Loaders.{
  Loader, idle, reading, storing, ended, gave_up, u32, set, Loaders, idles, start, Move, move,
  IsReady-IsRunning, Moves, here, more,
}
use electrumz.Txo.Preload.Loaders.Keeps.{count_of, count_threads, HasSeen, Keeps, Kept, turn-Kept}
use electrumz.Txo.Preload.Loaders.Sums.{count, sum_threads-set, sum_threads-idles}

module _ {E : Type 0} (files : List Bytes) where
  -- The files that wait, those that threads are in and those finished are all files, each as often
  -- as it is given, and the counter says how many were taken.
  pub record IsShared (s : Loaders E) : Type 0 where
    pub shares :
        (p : Bytes → Bool)
        → count p s.shared.queue + count_threads p s.threads + count p s.shared.finished
          ≡ count p files
    pub fewer : length s.shared.queue ≤ length files
    pub counted : s.shared.files_done ≡ u32 (length files - length s.shared.queue)
    pub seen : All (HasSeen s.shared.queue) s.threads

module _ (lmdb : Lmdb) (bitcoin : BitcoinLib) (read_block : Bytes → Bytes × Option Block)
    (mode : ℕ) where
  open lmdb use {Env}

  HasSeen-mono :
      (queue queue' : List Bytes) (t : Loader)
      → (queue ≡ [] → queue' ≡ [])
      → HasSeen queue t
      → HasSeen queue' t
  HasSeen-mono queue queue' idle f h = tt
  HasSeen-mono queue queue' (reading file rest) f h = tt
  HasSeen-mono queue queue' (storing file blk rest) f h = tt
  HasSeen-mono queue queue' ended f h = f h
  HasSeen-mono queue queue' (gave_up file code) f h = tt

  All-set :
      (queue queue' : List Bytes) (ts : List Loader) (i : ℕ) (t' : Loader)
      → (queue ≡ [] → queue' ≡ [])
      → HasSeen queue' t'
      → All (HasSeen queue) ts
      → All (HasSeen queue') (set ts i t')
  All-set queue queue' [] i t' f h all = tt
  All-set queue queue' (t ∷ ts) zero t' f h (_, all) = (h, All-mono ts all)
    where
      All-mono : (xs : List Loader) → All (HasSeen queue) xs → All (HasSeen queue') xs
      All-mono [] a = tt
      All-mono (x ∷ xs) (a, as') = (HasSeen-mono queue queue' x f a, All-mono xs as')
  All-set queue queue' (t ∷ ts) (suc i) t' f h (k, all) =
      (HasSeen-mono queue queue' t f k, All-set queue queue' ts i t' f h all)

  module _ (files : List Bytes) where
    Move-IsShared :
        {s u : Loaders Env} {k : ℕ}
        → Move lmdb bitcoin read_block mode s k u
        → IsShared files s
        → IsShared files u
    Move-IsShared {s} (move i t t' shared' e r f) inv = record {
      shares = λ p.
          omega
            (arith, kept.shares p, sum_threads-set (count_of p) s.threads i t t' e, inv.shares p);
      fewer = omega (arith, kept.fewer, inv.fewer);
      counted = omega (arith, kept.counted, inv.counted, kept.fewer, inv.fewer);
      seen = All-set s.shared.queue shared'.queue s.threads i t' kept.empty kept.seen inv.seen;
    }
      where
        kept : Keeps lmdb bitcoin read_block mode t t' s.shared shared'
        kept = subst (Kept lmdb bitcoin read_block mode t s.shared) f (
            turn-Kept lmdb bitcoin read_block mode t s.shared (omega (arith, inv.counted))
              (IsReady-IsRunning lmdb bitcoin read_block mode t s.shared.env r))

    Moves-IsShared :
        {s u : Loaders Env} {n r : ℕ}
        → Moves lmdb bitcoin read_block mode s n r u
        → IsShared files s
        → IsShared files u
    Moves-IsShared here inv = inv
    Moves-IsShared (more ms m) inv = Move-IsShared m (Moves-IsShared ms inv)

    idles_seen : (n : ℕ) → All (HasSeen files) (idles n)
    idles_seen zero = tt
    idles_seen (suc n) = (tt, idles_seen n)

    start-IsShared : (n : ℕ) (env : Env) → IsShared files (start n files env)
    start-IsShared n env = record {
      shares = λ p. omega (arith, sum_threads-idles (count_of p) n refl);
      fewer = omega arith;
      counted = omega arith;
      seen = idles_seen n;
    }

    -- However the steps of the threads follow one another, the files that wait, those that a thread
    -- is in or gave up in, and those that were read to their ends are the given files, each as
    -- often as it is given, for any test of a file; the counter is the number of files taken; and
    -- a thread ends only when no file waits.
    pub start-IsShared_after :
        {u : Loaders Env} {k r : ℕ} (n : ℕ) (env : Env)
        → Moves lmdb bitcoin read_block mode (start n files env) k r u
        → IsShared files u
    start-IsShared_after n env ms = Moves-IsShared ms (start-IsShared n env)

    -- All threads have ended, none with a code.
    abbrev pub AllEnded : List Loader → Type 0
    AllEnded = All (λ t. t ≡ ended)

    AllEnded-none : (p : Bytes → Bool) (ts : List Loader) → AllEnded ts → count_threads p ts ≡ 0
    AllEnded-none p [] h = refl
    AllEnded-none p (t ∷ ts) (h, hs) = omega (arith, ap (count_of p) h, AllEnded-none p ts hs)

    first_seen :
        (queue : List Bytes) (ts : List Loader)
        → 1 ≤ length ts
        → AllEnded ts
        → All (HasSeen queue) ts
        → queue ≡ []
    first_seen queue [] l h s = absurd (omega arith)
    first_seen queue (t ∷ ts) l (h, hs) (s, ss) = subst (HasSeen queue) h s

    -- When all threads have ended without a code, no file waits and every file was read to its end
    -- once, whatever the order of their steps.
    pub AllEnded-finished :
        {u : Loaders Env} {k r : ℕ} (n : ℕ) (env : Env)
        → Moves lmdb bitcoin read_block mode (start n files env) k r u
        → 1 ≤ length u.threads
        → AllEnded u.threads
        → (u.shared.queue ≡ []) × ((p : Bytes → Bool) → count p u.shared.finished ≡ count p files)
    AllEnded-finished {u} n env ms l h =
        let inv = start-IsShared_after n env ms in
        let none_waits = first_seen u.shared.queue u.threads l h inv.seen in
        (
          none_waits,
          λ p. omega (arith, inv.shares p, AllEnded-none p u.threads h, ap (count p) none_waits),
        )
