-- ===== src/Txo/Preload/Reader/Stored.antt =====
-- What the database has of the headers in the block files.
use electrumz.Base.{
  ℕ, ◌≤◌, ◌==◌, ==_iff, Bytes, Bool, true, false, ◌&&◌, ◌||◌, ◌≡◌, ap, sym, ◌∙◌, subst, Option,
  List, [], ◌∷◌, ◌++◌, ◌⊎◌, inl, inr, length, All, All-map, All-append, and_true, true_and, or_true,
  true_or, same_bytes, same_bytes-eq, eq-same_bytes, IsBehind, IsBehind-le, contains, Contains,
  contains-Contains, Contains-contains, arith, append_assoc,
}
use electrumz.Bitcoin.{BitcoinLib}
use electrumz.Bitcoin.Hash.{Digests}
use electrumz.Bitcoin.Header.Parts.{IsByte, All-front}
use electrumz.Lmdb.{Lmdb}
use electrumz.Txo.Preload.Blocks.{Transaction, Block}
use electrumz.Txo.Preload.Blocks.Journal.{Entry, Journal}
use electrumz.Txo.Preload.Files.Contents.{file_blocks, all_blocks}
use electrumz.Txo.Preload.Files.Within.{file_blocks-All}
use electrumz.Txo.Preload.Loaders.{Loaders, start, Moves}
use electrumz.Txo.Preload.Loaders.Shares.{AllEnded}
use electrumz.Txo.Preload.Loaders.Stored.{AllEnded-stored}
use electrumz.Txo.Preload.Loaders.Stores.{AreBlocks}
use electrumz.Txo.Preload.Loaders.Sums.{All-count}
use electrumz.Txo.Preload.Reader.{load_block}
use electrumz.Txo.Preload.Reader.Headers.{IsOf, load_block-IsBehind, load_block-IsOf}

-- The bytes stand in one of the files.
abbrev stands_in : Bytes → List Bytes → Bool
stands_in bytes [] = false
stands_in bytes (file ∷ files) = contains bytes file || stands_in bytes files

abbrev pub StandsIn : Bytes → List Bytes → Type 0
StandsIn bytes [] = ⊥
StandsIn bytes (file ∷ files) = Contains bytes file ⊎ StandsIn bytes files

stands_in-StandsIn :
    (bytes : Bytes) (files : List Bytes) → stands_in bytes files ≡ true → StandsIn bytes files
stands_in-StandsIn bytes [] h = absurd (ground arith)
stands_in-StandsIn bytes (file ∷ files) h =
    elim (or_true (contains bytes file) (stands_in bytes files) h) [
      | inl c ↦ inl (contains-Contains bytes file c)
      | inr s ↦ inr (stands_in-StandsIn bytes files s)
    ]

StandsIn-stands_in :
    (bytes : Bytes) (files : List Bytes) → StandsIn bytes files → stands_in bytes files ≡ true
StandsIn-stands_in bytes [] h = absurd h
StandsIn-stands_in bytes (file ∷ files) (inl c) =
    true_or (contains bytes file) (stands_in bytes files) (inl (Contains-contains bytes file c))
StandsIn-stands_in bytes (file ∷ files) (inr s) =
    true_or (contains bytes file) (stands_in bytes files) (inr (StandsIn-stands_in bytes files s))

module _ (digests : Digests) where
  open digests use {sha256}

  -- The block goes by the two rounds of SHA-256 over its header, which are 80 bytes of a file.
  abbrev pub IsHashed : List Bytes → Block → Type 0
  IsHashed files blk =
      (length blk.header ≡ 80) × (blk.hash ≡ sha256 (sha256 blk.header)) × StandsIn blk.header files

  abbrev is_hashed : List Bytes → Block → Bool
  is_hashed files blk =
      (length blk.header == 80)
      && (same_bytes blk.hash (sha256 (sha256 blk.header)) && stands_in blk.header files)

  is_hashed-IsHashed :
      (files : List Bytes) (blk : Block) → is_hashed files blk ≡ true → IsHashed files blk
  is_hashed-IsHashed files blk h =
      let (l, r) = and_true (length blk.header == 80) _ h in
      let (s, i) = and_true (same_bytes blk.hash (sha256 (sha256 blk.header))) _ r in
      (
        (==_iff (length blk.header) 80).0 l,
        same_bytes-eq blk.hash (sha256 (sha256 blk.header)) s,
        stands_in-StandsIn blk.header files i,
      )

  IsHashed-is_hashed :
      (files : List Bytes) (blk : Block) → IsHashed files blk → is_hashed files blk ≡ true
  IsHashed-is_hashed files blk (l, s, i) =
      true_and (length blk.header == 80) _ ((==_iff (length blk.header) 80).1 l) (
        true_and (same_bytes blk.hash (sha256 (sha256 blk.header))) (stands_in blk.header files)
          (eq-same_bytes blk.hash (sha256 (sha256 blk.header)) s)
          (StandsIn-stands_in blk.header files i))

  module _ (read_txs : Bytes → Bytes × Option (List Transaction))
      (txs_move_on : (body : Bytes) → IsBehind body (read_txs body).0) where
    pub loads_on : (body : Bytes) → length (load_block digests read_txs body).0 ≤ length body
    loads_on body =
        IsBehind-le body (load_block digests read_txs body).0
          (load_block-IsBehind digests read_txs txs_move_on body)

    -- A block of a body of the file is one of the file.
    IsOf-behind :
        (file body : Bytes) (blk : Block)
        → IsBehind file body
        → IsOf digests body blk
        → IsOf digests file blk
    IsOf-behind file body blk (before, e) (l, s, (front, rest, d)) = (
      l,
      s,
      (
        before ++ front,
        rest,
        append_assoc before front (blk.header ++ rest) ∙ ap (λ (x : Bytes). before ++ x) d ∙ e,
      ),
    )

    file_blocks-IsOf :
        (file : Bytes)
        → All IsByte file
        → All (IsOf digests file) (file_blocks (load_block digests read_txs) file)
    file_blocks-IsOf file all =
        file_blocks-All (load_block digests read_txs) (IsOf digests file) file
          (load_block-IsBehind digests read_txs txs_move_on)
          (λ body blk at e.
            IsOf-behind file body blk at
              (load_block-IsOf digests read_txs txs_move_on body blk (bytes_of body at) e))
      where
        bytes_of : (body : Bytes) → IsBehind file body → All IsByte body
        bytes_of body (front, e) =
            let (_, b) = All-front front body (subst (All IsByte) (sym e) all) in b

    all_blocks-IsHashed :
        (files : List Bytes)
        → All (All IsByte) files
        → All (IsHashed files) (all_blocks (load_block digests read_txs) files)
    all_blocks-IsHashed [] h = tt
    all_blocks-IsHashed (file ∷ files) (h, hs) =
        All-append (IsHashed (file ∷ files)) (file_blocks (load_block digests read_txs) file)
          (all_blocks (load_block digests read_txs) files)
          (All-map (IsOf digests file) (IsHashed (file ∷ files))
            (file_blocks (load_block digests read_txs) file) (λ blk (l, s, c). (l, s, inl c))
            (file_blocks-IsOf file h))
          (All-map (IsHashed files) (IsHashed (file ∷ files))
            (all_blocks (load_block digests read_txs) files) (λ blk (l, s, i). (l, s, inr i))
            (all_blocks-IsHashed files hs))

    module _ (lmdb : Lmdb) (bitcoin : BitcoinLib) (db : Journal lmdb) (mode : ℕ) where
      open lmdb use {Env, Dbi}
      open db use {stored}

      -- When all threads have ended without a code, the database has behind what it had at the
      -- start the writes of some blocks, one after the other; the header of each stands as 80 bytes
      -- in one of the files, and is stored under the two rounds of SHA-256 over these bytes. Where
      -- the vector of transactions is read, the stream does not go back, a file is made of bytes,
      -- and LMDB keeps what it documents.
      pub AllEnded-headers :
          {u : Loaders Env} {k r : ℕ} (files : List Bytes) (n : ℕ) (env : Env)
          → All (All IsByte) files
          → Moves lmdb bitcoin (load_block digests read_txs) mode (start n files env) k r u
          → 1 ≤ length u.threads
          → AllEnded lmdb bitcoin (load_block digests read_txs) mode files u.threads
          → (blks : List Block) × (writes : List (Entry Dbi)) × (stored u.shared.env
              ≡ stored env ++ writes)
            × AreBlocks lmdb bitcoin db
                (load_block digests read_txs)
                mode
                loads_on
                blks
                (stored env)
                writes
            × All (IsHashed files) blks
      AllEnded-headers files n env all ms l h =
          let read = load_block digests read_txs in
          let (blks, writes, kept, logged, same) =
            AllEnded-stored lmdb bitcoin db read mode loads_on files n env ms l h in
          let given =
            All-map (IsHashed files) (λ blk. is_hashed files blk ≡ true) (all_blocks read files)
              (λ blk. IsHashed-is_hashed files blk) (all_blocks-IsHashed files all) in
          (
            blks,
            writes,
            kept,
            logged,
            All-map (λ blk. is_hashed files blk ≡ true) (IsHashed files) blks
                (λ blk. is_hashed-IsHashed files blk)
                (All-count (is_hashed files) blks (all_blocks read files) same given),
          )
