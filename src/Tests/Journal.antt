-- ===== src/Tests/Journal.antt =====
-- The theorems on what is stored, on a database that keeps its writes.
use electrumz.Base.{
  ℕ, String, str_eq, Bytes, Bool, true, false, ◌&&◌, and_true, same_bytes, same_bytes-eq,
  same_bytes_refl, ◌==◌, ==_iff, ◌≡◌, refl, ap, sym, subst, ◌∙◌, inl, inr, Bool-cases, List, [],
  ◌∷◌, ◌++◌, ◌⊎◌, All, arith, if◌then◌else◌,
}
use electrumz.Base.Outcome.{done}
use electrumz.Lmdb.{Lmdb, Error, key_exist, Result, ok, failed, not_found}
use electrumz.Tests.Database.{read_byte, reads_on, block_file, one_output, never_failed}
use electrumz.Tests.Libraries.{no_bitcoin}
use electrumz.Txo.Preload.Blocks.{
  Block, Step, attempt_block, store_txs, store_tx, store_outputs, store_output,
}
use electrumz.Txo.Preload.Blocks.Atomic.{IsAllOrNone, attempt_block-IsAllOrNone}
use electrumz.Txo.Preload.Blocks.Journal.{Entry, Journal, IsIn}
use electrumz.Txo.Preload.Files.{next_record}
use electrumz.Txo.Preload.Files.Contents.{all_blocks}
use electrumz.Txo.Preload.Loaders.Endings.{Moves-progress, CanMove}
use electrumz.Txo.Preload.Loaders.GivenUp.{HasGivenUp}
use electrumz.Txo.Preload.Loaders.{Loaders, idle, turn, start, move, Moves, here, more, IsRunning}
use electrumz.Txo.Preload.Loaders.Stored.{AllEnded-stored}
use electrumz.Txo.Preload.Loaders.Stores.{AreBlocks}
use electrumz.Txo.Preload.Loaders.Sums.{count}

-- Databases by number.
abbrev pub Writes : Type 0
Writes = List (Entry ℕ)

abbrev number_of : String → ℕ
number_of name = if str_eq name "addr" then 1 else if str_eq name "txo" then 2 else 3

abbrev same_entry : Entry ℕ → Entry ℕ → Bool
same_entry e f = (e.dbi == f.dbi) && (same_bytes e.key f.key && same_bytes e.value f.value)

same_entry-eq : (e f : Entry ℕ) → same_entry e f ≡ true → e ≡ f
same_entry-eq e f h =
    let (d, r) = and_true (e.dbi == f.dbi) _ h in
    let (k, v) = and_true (same_bytes e.key f.key) _ r in
    cc ((==_iff e.dbi f.dbi).0 d, same_bytes-eq e.key f.key k, same_bytes-eq e.value f.value v)

same_entry_refl : (e : Entry ℕ) → same_entry e e ≡ true
same_entry_refl e =
    rw ((==_iff e.dbi e.dbi).1 refl, same_bytes_refl e.key, same_bytes_refl e.value) refl

abbrev has : Entry ℕ → Writes → Bool
has e [] = false
has e (x ∷ xs) = if same_entry e x then true else has e xs

pub has-IsIn : (e : Entry ℕ) (xs : Writes) → has e xs ≡ true → IsIn e xs
has-IsIn e [] h = absurd (ground arith)
has-IsIn e (x ∷ xs) h = elim (Bool-cases (same_entry e x)) [
  | inl s ↦ inl (same_entry-eq e x s)
  | inr s ↦ inr (has-IsIn e xs (ap (λ (b : Bool). if b then true else has e xs) (sym s) ∙ h))
]

pub IsIn-has : (e : Entry ℕ) (xs : Writes) → IsIn e xs → has e xs ≡ true
IsIn-has e [] i = absurd i
IsIn-has e (x ∷ xs) (inl s) =
    ap (λ (b : Bool). if b then true else has e xs)
      (subst (λ (y : Entry ℕ). same_entry e y ≡ true) s (same_entry_refl e))
IsIn-has e (x ∷ xs) (inr i) = elim (Bool-cases (same_entry e x)) [
  | inl s ↦ ap (λ (b : Bool). if b then true else has e xs) s
  | inr s ↦ ap (λ (b : Bool). if b then true else has e xs) s ∙ IsIn-has e xs i
]

-- The writes that were committed, those of the transaction that is open, and whether one is.
pub record Store : Type 0 where
  pub committed : Writes
  pub written : Writes
  pub writing : Bool

abbrev add_entry : Entry ℕ → Store → Store
add_entry entry store = record store { written = store.written ++ (entry ∷ []) }

-- A pair that is there is refused in the database of addresses.
abbrev put_if : Bool → Entry ℕ → Store → Store × Result (Unit {0})
put_if true entry store = (store, failed key_exist)
put_if false entry store = (add_entry entry store, ok tt)

abbrev put_entry : Entry ℕ → Store → Store × Result (Unit {0})
put_entry entry store =
    put_if ((entry.dbi == 1) && has entry (store.committed ++ store.written)) entry store

-- The value of the first pair with the key.
abbrev pub is_at : ℕ → Bytes → Entry ℕ → Bool
is_at d k x = (x.dbi == d) && same_bytes x.key k

abbrev pub find_key : ℕ → Bytes → Writes → Result Bytes
find_key d k [] = failed not_found
find_key d k (x ∷ xs) = let rest = find_key d k xs in if is_at d k x then ok x.value else rest

abbrev pub empty : Store
empty = record { committed = []; written = []; writing = false }

-- A handle of a database is its number, and so is a cursor.
abbrev pub journaled : Lmdb
journaled = record {
  Env = Store;
  Txn = Unit;
  Dbi = ℕ;
  Cursor = ℕ;
  Stat = ℕ;
  create = λ env. (env, ok tt);
  set_maxdbs = λ n env. (env, ok tt);
  open_env = λ path env. (env, ok tt);
  map_size = λ env. (env, ok 5);
  set_map_size = λ n env. (env, ok tt);
  begin = λ env. (record env { written = []; writing = true }, ok tt);
  is_writing = λ env. env.writing;
  open_dbi = λ txn name dup env. (env, ok (number_of name));
  set_dupsort = λ txn dbi cmp env. (env, ok tt);
  stat = λ txn dbi env. (env, ok 0);
  get = λ txn dbi key env. (env, find_key dbi key (env.committed ++ env.written));
  put = λ txn dbi key value b env. put_entry (record { dbi = dbi; key = key; value = value }) env;
  open_cursor = λ txn dbi env. (env, dbi);
  append_dup =
      λ cur key value env. (add_entry (record { dbi = cur; key = key; value = value }) env, ok tt);
  close_cursor = λ cur env. env;
  commit =
      λ txn env. record { committed = env.committed ++ env.written; written = []; writing = false };
  abort = λ txn env. record env { written = []; writing = false };
  sync = λ env. env;
  set_no_sync = λ env. env;
}

pub put_if_keeps :
    (b : Bool) (e : Entry ℕ) (env : Store) → (put_if b e env).0.committed ≡ env.committed
put_if_keeps true e env = refl
put_if_keeps false e env = refl

pub put_if_accepted :
    (b : Bool) (e : Entry ℕ) (env : Store)
    → (put_if b e env).1 ≡ ok tt
    → ((put_if b e env).0.written ≡ env.written ++ (e ∷ [])) × (b ≡ false)
put_if_accepted true e env h = absurd (never_failed key_exist (sym h))
put_if_accepted false e env h = (refl, refl)

pub put_if_refused :
    (b : Bool) (e : Entry ℕ) (env : Store) (x : Error)
    → (put_if b e env).1 ≡ failed x
    → ((put_if b e env).0.written ≡ env.written) × (b ≡ true)
put_if_refused true e env x h = (refl, refl)
put_if_refused false e env x h = absurd (never_failed x h)

pub same_number : (m n : ℕ) → Path (Result ℕ) (ok m) (ok n) → n ≡ m
same_number m n e = cc

pub absurd_bool : true ≡ false → ⊥
absurd_bool e = ground arith

abbrev pub journal : Journal journaled
journal = record {
  stored = λ env. env.committed;
  pending = λ txn env. env.written;
  cursor_txn = λ cur. tt;
  cursor_dbi = λ cur. cur;
  map_size_keeps = λ env. refl;
  set_map_size_keeps = λ n env. refl;
  commit_ends = λ txn env. refl;
  abort_ends = λ txn env. refl;
  map_size_writing = λ env. refl;
  set_map_size_writing = λ n env. refl;
  sync_writing = λ env. refl;
  begin_keeps = λ env. refl;
  begin_empty = λ txn env e. refl;
  open_keeps = λ txn name dup env. (refl, refl);
  handle = number_of;
  open_handle = λ txn name dup env dbi e. same_number (number_of name) dbi e;
  dupsort_keeps = λ txn dbi cmp env. (refl, refl);
  put_keeps = λ txn dbi k v b env. put_if_keeps _ (record { dbi = dbi; key = k; value = v }) env;
  put_accepted =
      λ txn dbi k v b env e. (put_if_accepted _ (record { dbi = dbi; key = k; value = v }) env e).0;
  put_exists = λ txn k v env e.
      has-IsIn _ _ (put_if_refused _ (record { dbi = 1; key = k; value = v }) env key_exist e).1;
  put_fresh = λ txn k v env e i.
      absurd_bool (
        sym (IsIn-has _ _ i)
        ∙ (put_if_accepted _ (record { dbi = 1; key = k; value = v }) env e).1);
  put_refused = λ txn dbi k v b x env e.
      (put_if_refused _ (record { dbi = dbi; key = k; value = v }) env x e).0;
  cursor_keeps = λ txn dbi env. (refl, refl);
  cursor_of = λ txn dbi env. (refl, refl);
  append_keeps = λ cur k v env. refl;
  append_accepted = λ cur k v env e. refl;
  close_keeps = λ cur env. (refl, refl);
  commit_stores = λ txn env. refl;
  sync_keeps = λ env. refl;
  no_sync_keeps = λ env. refl;
  abort_drops = λ txn env. refl;
}

attempt_block-IsAllOrNone_example :
    (env' : Store) × (step : Step) × (attempt_block journaled no_bitcoin 0 one_output empty
      ≡ done env' step)
    × IsAllOrNone journaled no_bitcoin journal 0 one_output empty step env'
attempt_block-IsAllOrNone_example =
    attempt_block-IsAllOrNone journaled no_bitcoin journal 0 one_output empty

-- One thread reads a file of one block to its end.
record Run (files : List Bytes) (n : ℕ) : Type 0 where
  last : Loaders Store
  steps : ℕ
  retried : ℕ
  moves : Moves journaled no_bitcoin read_byte 0 (start n files empty) steps retried last

abbrev files : List Bytes
files = block_file ∷ []

abbrev whole : Run files 1
unfolding turn next_record attempt_block store_txs store_tx store_outputs store_output
whole = record {
  last = _;
  steps = 6;
  retried = 0;
  moves =
      more
        (more
          (more
            (more (more (more here (move 0 idle _ _ refl tt refl)) (move 0 _ _ _ refl tt refl))
              (move 0 _ _ _ refl refl refl))
            (move 0 _ _ _ refl tt refl))
          (move 0 _ _ _ refl tt refl))
        (move 0 _ _ _ refl tt refl);
}

AllEnded-stored_example :
    (blks : List Block) × (writes : Writes) × (whole.last.shared.env.committed ≡ writes)
    × AreBlocks journaled no_bitcoin journal read_byte 0 reads_on blks [] writes
    × ((p : Block → Bool) → count p blks ≡ count p (all_blocks read_byte files))
unfolding whole
AllEnded-stored_example =
    AllEnded-stored journaled no_bitcoin journal read_byte 0 reads_on files 1 empty whole.moves
      (omega arith) (refl, tt)

Moves-progress_example :
    All (λ t. ¬ IsRunning t) whole.last.threads
    ⊎ (CanMove journaled no_bitcoin read_byte 0 whole.last
        ⊎ ((whole.last.shared.env.writing ≡ true) × HasGivenUp whole.last.threads))
Moves-progress_example =
    Moves-progress journaled no_bitcoin read_byte 0 journal 1 files empty refl whole.moves
