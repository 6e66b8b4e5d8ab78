-- ===== src/Txo/Preload/Reader/Headers.antt =====
-- The blocks that the threads read out of files, against the bytes of the files.
use electrumz.Base.{
  Bytes, ◌≡◌, refl, ap, sym, ◌∙◌, subst, Option, none, some, List, [], length, take, All,
  some-injective, none-ne-some, IsBehind, IsBehind-trans, behind_all, Contains,
}
use electrumz.Bitcoin.Block.{CBlock, null_block, read_cblock, read_behind, read_vtx}
use electrumz.Bitcoin.Hash.{Digests}
use electrumz.Bitcoin.Header.{Header, write_header, get_hash, read_header}
use electrumz.Bitcoin.Header.Parts.{IsByte}
use electrumz.Bitcoin.Header.Reads.{
  get_hash-read_header, write_header-read_header, read_header-IsBehind,
}
use electrumz.Txo.Preload.Blocks.{Transaction, Block}
use electrumz.Txo.Preload.Reader.{to_store, block_to_store, load_block}

module _ (digests : Digests) where
  open digests use {sha256}

  -- A block whose header stands in these bytes, with its hash.
  abbrev pub IsOf : Bytes → Block → Type 0
  IsOf bytes blk =
      (length blk.header ≡ 80) × (blk.hash ≡ sha256 (sha256 blk.header)) × Contains blk.header bytes

module _ (digests : Digests) (read_txs : Bytes → Bytes × Option (List Transaction))
    (txs_move_on : (body : Bytes) → IsBehind body (read_txs body).0) where
  open digests use {sha256}

  read_vtx-behind :
      (b : CBlock Transaction) (h : Header) (r : Bytes × Option (List Transaction))
      → (read_vtx Transaction read_txs b h r).0 ≡ r.0
  unfolding read_vtx
  read_vtx-behind b h (behind, none) = refl
  read_vtx-behind b h (behind, some txs) = refl

  pub load_block-IsBehind : (body : Bytes) → IsBehind body (load_block digests read_txs body).0
  unfolding load_block read_cblock read_behind
  load_block-IsBehind body = by_header (read_header body) refl
    where
      by_header :
          (o : Option (Header × Bytes))
          → read_header body ≡ o
          → IsBehind body (read_behind Transaction read_txs (null_block Transaction) o).0
      by_header none e = behind_all body
      by_header (some (h, rest)) e =
          subst (IsBehind body) (sym (read_vtx-behind (null_block Transaction) h (read_txs rest))) (
            IsBehind-trans body rest (read_txs rest).0 (read_header-IsBehind body h rest e)
              (txs_move_on rest))

  -- Behind a header that was read.
  by_txs :
      (body rest : Bytes) (h : Header) (r : Bytes × Option (List Transaction)) (blk : Block)
      → All IsByte body
      → read_header body ≡ some (h, rest)
      → block_to_store digests (read_vtx Transaction read_txs (null_block Transaction) h r).1
        ≡ some blk
      → IsOf digests body blk
  unfolding read_vtx block_to_store to_store
  by_txs body rest h (behind, none) blk all e d = absurd (none-ne-some blk d)
  by_txs body rest h (behind, some txs) blk all e d =
      let (front, left, hashed) = get_hash-read_header digests body h rest all e in
      let (whole, eighty) = write_header-read_header body (h, rest) all e in
      let stored : Block = record {
        hash = sha256 (sha256 (take 80 body));
        header = write_header h;
        txs = txs;
      } in
      let same : stored ≡ blk = some-injective stored blk (ap (to_store txs h) (sym hashed) ∙ d) in
      subst (IsOf digests body) same
        (eighty, ap (λ (b : Bytes). sha256 (sha256 b)) (sym front), ([], rest, whole))

  pub load_block-IsOf :
      (body : Bytes) (blk : Block)
      → All IsByte body
      → (load_block digests read_txs body).1 ≡ some blk
      → IsOf digests body blk
  unfolding load_block read_cblock read_behind block_to_store
  load_block-IsOf body blk all d = by_header (read_header body) refl d
    where
      by_header :
          (o : Option (Header × Bytes))
          → read_header body ≡ o
          → block_to_store digests (read_behind Transaction read_txs (null_block Transaction) o).1
            ≡ some blk
          → IsOf digests body blk
      by_header none e d = absurd (none-ne-some blk d)
      by_header (some (h, rest)) e d = by_txs body rest h (read_txs rest) blk all e d

  -- The transactions of a block are a vector that was read.
  pub load_block-txs :
      (body : Bytes) (blk : Block)
      → (load_block digests read_txs body).1 ≡ some blk
      → (rest : Bytes) × ((read_txs rest).1 ≡ some blk.txs)
  unfolding load_block read_cblock read_behind read_vtx block_to_store to_store
  load_block-txs body blk d = by_header (read_header body) d
    where
      by_hash :
          (txs : List Transaction) (h : Header) (hash : Option Bytes)
          → to_store txs h hash ≡ some blk
          → txs ≡ blk.txs
      by_hash txs h none e = absurd (none-ne-some blk e)
      by_hash txs h (some hash) e = ap (λ (x : Block). x.txs) (some-injective _ blk e)

      by_read :
          (h : Header) (r : Bytes × Option (List Transaction))
          → block_to_store digests (read_vtx Transaction read_txs (null_block Transaction) h r).1
            ≡ some blk
          → r.1 ≡ some blk.txs
      by_read h (behind, none) e = absurd (none-ne-some blk e)
      by_read h (behind, some txs) e =
          ap (λ (x : List Transaction). some x) (by_hash txs h (get_hash digests h) e)

      by_header :
          (o : Option (Header × Bytes))
          → block_to_store digests (read_behind Transaction read_txs (null_block Transaction) o).1
            ≡ some blk
          → (rest : Bytes) × ((read_txs rest).1 ≡ some blk.txs)
      by_header none e = absurd (none-ne-some blk e)
      by_header (some (h, rest)) e = (rest, by_read h (read_txs rest) e)
