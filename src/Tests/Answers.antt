-- ===== src/Tests/Answers.antt =====
-- The theorems on blocks that are read out of files, stored, and looked up again.
use electrumz.Base.{
  ℕ, ◌==◌, ==_iff, Bytes, Bool, true, false, ◌≡◌, refl, ap, sym, ◌∙◌, subst, Option, some, none,
  List, [], ◌∷◌, ◌++◌, ◌⊎◌, inl, inr, length, All, arith, Bool-cases, if◌then◌else◌, IsBehind,
  and_true, same_bytes, same_bytes-eq, same_bytes_refl, some-injective, none-ne-some,
}
use electrumz.Base.Outcome.{done}
use electrumz.Bitcoin.{BitcoinLib}
use electrumz.Bitcoin.Block.{read_cblock, read_behind, read_vtx}
use electrumz.Bitcoin.Hash.{serialize_hash}
use electrumz.Bitcoin.Header.{read_header, write_header, get_hash}
use electrumz.Lmdb.{not_found, Result, ok, failed}
use electrumz.Tests.Bitcoin.{counting}
use electrumz.Tests.Database.{never_failed}
use electrumz.Tests.Journal.{Writes, Store, empty, is_at, absurd_bool, find_key, journaled, journal}
use electrumz.Tests.Libraries.{no_bitcoin, zeros}
use electrumz.Txo.Database.{get_txos, txo_ok}
use electrumz.Txo.Preload.Addresses.{HasSizes, AreApart}
use electrumz.Txo.Preload.Answers.{Finds}
use electrumz.Txo.Preload.Answers.Loaded.{get_txos-preloaded}
use electrumz.Txo.Preload.Blocks.{
  Transaction, Block, attempt_block, store_txs, store_tx, store_outputs, store_output, spend_inputs,
}
use electrumz.Txo.Preload.Blocks.Journal.{Entry, IsIn}
use electrumz.Txo.Preload.Files.{next_record}
use electrumz.Txo.Preload.Loaders.{idle, turn, move, here, more}
use electrumz.Txo.Preload.Loaders.Stores.{AreBlocks}
use electrumz.Txo.Preload.Passes.{Preload, preloaded, IsComplete}
use electrumz.Txo.Preload.Reader.{load_block, block_to_store, to_store}
use electrumz.Txo.Preload.Reader.Headers.{load_block-IsBehind, load_block-txs}
use electrumz.Txo.Preload.Reader.Stored.{IsHashed, loads_on, AllEnded-headers}

-- Any text is the hexadecimal form of zeros, and all scripts have them as their hash.
abbrev pub hex_bitcoin : BitcoinLib
hex_bitcoin = record no_bitcoin { parse_hex = λ s. zeros 32; shash = λ script. zeros 32 }

-- A vector is one byte, for one transaction with one output.
abbrev pub paying : Transaction
paying = record { hash = zeros 32; inputs = []; outputs = (4 ∷ [], 50) ∷ [] }

abbrev pub read_one : Bytes → Bytes × Option (List Transaction)
read_one [] = ([], none)
read_one (b ∷ bytes) = (bytes, some (paying ∷ []))

pub one_moves_on : (body : Bytes) → IsBehind body (read_one body).0
one_moves_on [] = ([], refl)
one_moves_on (b ∷ bytes) = (b ∷ [], refl)

abbrev pub load : Bytes → Bytes × Option Block
load = load_block counting read_one

-- A file of one block, whose header is of zeros.
abbrev pub files : List Bytes
files = (0xfa ∷ 0xbf ∷ 0xb5 ∷ 0xda ∷ 81 ∷ 0 ∷ 0 ∷ 0 ∷ zeros 81) ∷ []

-- One thread takes the file, reads its block, stores it, and finds the end of the file and of the
-- list, once for the outputs and once for the inputs.
abbrev pub both : Preload journaled hex_bitcoin load files 1 empty
unfolding turn next_record attempt_block store_txs store_tx store_outputs store_output spend_inputs
    load_block block_to_store to_store read_cblock read_behind read_vtx read_header write_header
    get_hash serialize_hash
both = record {
  outputs = record {
    last = _;
    steps = 5;
    retried = 0;
    moves =
        more
          (more
            (more (more (more here (move 0 idle _ _ refl tt refl)) (move 0 _ _ _ refl tt refl))
              (move 0 _ _ _ refl refl refl))
            (move 0 _ _ _ refl tt refl))
          (move 0 _ _ _ refl tt refl);
    joined = ((λ x. x), tt);
  };
  inputs = record {
    last = _;
    steps = 5;
    retried = 0;
    moves =
        more
          (more
            (more (more (more here (move 0 idle _ _ refl tt refl)) (move 0 _ _ _ refl tt refl))
              (move 0 _ _ _ refl refl refl))
            (move 0 _ _ _ refl tt refl))
          (move 0 _ _ _ refl tt refl);
    joined = ((λ x. x), tt);
  };
}

pub both-IsComplete :
    IsComplete journaled hex_bitcoin load files 1 both.outputs
    × IsComplete journaled hex_bitcoin load files 1 both.inputs
unfolding both
both-IsComplete = ((refl, tt), (refl, tt))

abbrev pub names_apart : AreApart journaled journal
names_apart = record { txo_apart = λ e. omega (arith, e); blk_apart = λ e. omega (arith, e) }

step_if :
    (d : ℕ) (k : Bytes) (x : Entry ℕ) (xs : Writes) (b : Bool)
    → is_at d k x ≡ b
    → find_key d k (x ∷ xs) ≡ (if b then ok x.value else find_key d k xs)
step_if d k x xs b e = ap (λ (b : Bool). if b then ok x.value else find_key d k xs) e

pub find_key-IsIn :
    (d : ℕ) (k v : Bytes) (xs : Writes)
    → find_key d k xs ≡ ok v
    → IsIn (record { dbi = d; key = k; value = v }) xs
find_key-IsIn d k v [] e = absurd (never_failed not_found (sym e))
find_key-IsIn d k v (x ∷ xs) e = elim (Bool-cases (is_at d k x)) [
  | inl t ↦
      let (at_db, at_k) = and_true (x.dbi == d) (same_bytes x.key k) t in
      inl (
        at_place (sym ((==_iff x.dbi d).0 at_db)) (sym (same_bytes-eq x.key k at_k))
          (sym (step_if d k x xs true t) ∙ e))
  | inr t ↦ inr (find_key-IsIn d k v xs (sym (step_if d k x xs false t) ∙ e))
]
  where
    at_place :
        d ≡ x.dbi
        → k ≡ x.key
        → Path (Result Bytes) (ok x.value) (ok v)
        → Path (Entry ℕ) (record { dbi = d; key = k; value = v }) x
    at_place p q r = cc

pub find_key-none :
    (d : ℕ) (k v : Bytes) (xs : Writes)
    → find_key d k xs ≡ failed not_found
    → ¬ IsIn (record { dbi = d; key = k; value = v }) xs
find_key-none d k v [] e i = i
find_key-none d k v (x ∷ xs) e i = elim (Bool-cases (is_at d k x)) [
  | inl t ↦ never_failed not_found (sym (step_if d k x xs true t) ∙ e)
  | inr t ↦ elim i [
    | inl same ↦ absurd_bool (sym (there same) ∙ t)
    | inr rest ↦ find_key-none d k v xs (sym (step_if d k x xs false t) ∙ e) rest
  ]
]
  where
    there : Path (Entry ℕ) (record { dbi = d; key = k; value = v }) x → is_at d k x ≡ true
    there p =
        subst (λ (y : Entry ℕ). is_at d k y ≡ true) p
          (rw ((==_iff d d).1 refl, same_bytes_refl k) refl)

pub find_key-cases :
    (d : ℕ) (k : Bytes) (xs : Writes)
    → ((v : Bytes) × (find_key d k xs ≡ ok v)) ⊎ (find_key d k xs ≡ failed not_found)
find_key-cases d k [] = inr refl
find_key-cases d k (x ∷ xs) = elim (Bool-cases (is_at d k x)) [
  | inl t ↦ inl (x.value, step_if d k x xs true t)
  | inr t ↦ elim (find_key-cases d k xs) [
    | inl (v, e) ↦ inl (v, step_if d k x xs false t ∙ e)
    | inr e ↦ inr (step_if d k x xs false t ∙ e)
  ]
]

-- A lookup takes the first pair with the key.
abbrev pub finding : Finds journaled journal
finding = record {
  found = λ txn k v env e. find_key-IsIn 1 k v (env.committed ++ env.written) e;
  missing = λ txn k v env e. find_key-none 1 k v (env.committed ++ env.written) e;
  answers = λ txn k env. find_key-cases 1 k (env.committed ++ env.written);
}

pub load-HasSizes : (body : Bytes) (blk : Block) → (load body).1 ≡ some blk → HasSizes blk
load-HasSizes body blk e =
    let (rest, r) = load_block-txs counting read_one one_moves_on body blk e in
    by_read (read_one rest).1 (one_has rest) blk.txs r
  where
    one_has : (rest : Bytes) → ((read_one rest).1 ≡ none) ⊎ ((read_one rest).1 ≡ some (paying ∷ []))
    one_has [] = inl refl
    one_has (b ∷ rest) = inr refl

    by_read :
        (o : Option (List Transaction))
        → (o ≡ none) ⊎ (o ≡ some (paying ∷ []))
        → (txs : List Transaction) → o ≡ some txs
        → All (λ tx. length tx.hash ≡ 32) txs
    by_read o (inl h) txs e = absurd (none-ne-some txs (sym h ∙ e))
    by_read o (inr h) txs e =
        subst (All (λ tx. length tx.hash ≡ 32)) (some-injective (paying ∷ []) txs (sym h ∙ e))
          (refl, tt)

AllEnded-headers_example :
    (blks : List Block) × (writes : Writes) × (both.outputs.last.shared.env.committed ≡ writes)
    × AreBlocks journaled hex_bitcoin journal load 0
        (loads_on counting read_one one_moves_on)
        blks
        []
        writes
    × All (IsHashed counting files) blks
unfolding both
AllEnded-headers_example =
    AllEnded-headers counting read_one one_moves_on journaled hex_bitcoin journal 0 files 1 empty
      (omega arith, tt) both.outputs.moves (omega arith) (refl, tt)

get_txos-preloaded_example :
    (env : Store) × (get_txos journaled
        (hex_bitcoin.shash (4 ∷ []))
        []
        (preloaded journaled hex_bitcoin load files 1 both)
      ≡ done env (txo_ok, []))
unfolding both
get_txos-preloaded_example =
    get_txos-preloaded journaled hex_bitcoin journal load
      (load_block-IsBehind counting read_one one_moves_on) load-HasSizes names_apart finding files 1
      (omega arith) empty both (refl, tt) (refl, tt) (hex_bitcoin.shash (4 ∷ [])) (λ v i. i) [] _ _
      tt 1 refl refl
