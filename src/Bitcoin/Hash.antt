-- ===== src/Bitcoin/Hash.antt =====
-- The hashers of include/electrumz/bitcoin/hash.h over the digests of mbedtls.
use electrumz.Base.{
  Bytes, Option, none, some, List, [], ◌∷◌, ◌++◌, ◌≡◌, ap, ◌∙◌, append_assoc, append-nil, sym,
}

-- The digests, as functions of all bytes that were given since the start.
pub record Digests : Type 0 where
  pub sha256 : Bytes → Bytes
  pub ripemd160 : Bytes → Bytes

-- A context: the bytes given since its start, or none where it was freed.
abbrev pub Context : Type 0
Context = Option Bytes

-- The constructors of the hashers.
abbrev pub new_context : Context
new_context = some []

-- `Write`, which has no meaning on a context that was freed.
unfoldable pub write : Bytes → Context → Option Context
write bytes none = none
write bytes (some given) = some (some (given ++ bytes))

-- `Reset`: the context is freed, and not started again.
abbrev pub reset : Context → Context
reset c = none

module _ (digests : Digests) where
  open digests use {sha256, ripemd160}

  abbrev finish : (Bytes → Bytes) → Context → Option Bytes
  finish digest none = none
  finish digest (some given) = some (digest given)

  -- `CSHash256::Finalize`.
  unfoldable pub finalize_single : Context → Option Bytes
  finalize_single c = finish sha256 c

  -- `CHash256::Finalize`: the second round starts the context again.
  unfoldable pub finalize_double : Context → Option Bytes
  unfolding finalize_single write
  finalize_double c = elim (finish sha256 c) [
    | none ↦ none
    | some buf ↦ elim (write buf new_context) [ none ↦ none | some c' ↦ finish sha256 c' ]
  ]

  -- `CHash160::Finalize`.
  unfoldable pub finalize_160 : Context → Option Bytes
  finalize_160 c = elim (finish sha256 c) [ none ↦ none | some buf ↦ some (ripemd160 buf) ]

  -- A hasher over ranges, one after the other.
  unfoldable pub hash_ranges : (Context → Option Bytes) → List Bytes → Context → Option Bytes
  unfolding write
  hash_ranges finalize [] c = finalize c
  hash_ranges finalize (range ∷ ranges) c = elim (write range c) [
    | none ↦ none
    | some c' ↦ hash_ranges finalize ranges c'
  ]

  -- `SHash`, `Hash` of one and of two ranges, and `Hash160`.
  unfoldable pub shash : Bytes → Option Bytes
  unfolding hash_ranges finalize_single
  shash bytes = hash_ranges finalize_single (bytes ∷ []) new_context

  unfoldable pub hash : Bytes → Option Bytes
  unfolding hash_ranges finalize_double
  hash bytes = hash_ranges finalize_double (bytes ∷ []) new_context

  unfoldable pub hash_two : Bytes → Bytes → Option Bytes
  unfolding hash_ranges finalize_double
  hash_two first second = hash_ranges finalize_double (first ∷ second ∷ []) new_context

  unfoldable pub hash160 : Bytes → Option Bytes
  unfolding hash_ranges finalize_160
  hash160 bytes = hash_ranges finalize_160 (bytes ∷ []) new_context

  -- `SerializeHash` of an object that is written in these pieces.
  unfoldable pub serialize_hash : List Bytes → Option Bytes
  unfolding hash_ranges finalize_double
  serialize_hash pieces = hash_ranges finalize_double pieces new_context

abbrev pub join : List Bytes → Bytes
join [] = []
join (piece ∷ pieces) = piece ++ join pieces

module _ (digests : Digests) where
  hash_ranges-join :
      (finalize : Context → Option Bytes) (ranges : List Bytes) (given : Bytes)
      → hash_ranges digests finalize ranges (some given) ≡ finalize (some (given ++ join ranges))
  unfolding hash_ranges
  hash_ranges-join finalize [] given =
      ap (λ (b : Bytes). finalize (some b)) (sym (append-nil given))
  hash_ranges-join finalize (range ∷ ranges) given =
      hash_ranges-join finalize ranges (given ++ range)
      ∙ ap (λ (b : Bytes). finalize (some b)) (append_assoc given range (join ranges))

  -- An object is hashed as the two rounds of SHA-256 over its bytes, in whatever pieces it is written.
  pub serialize_hash-join :
      (pieces : List Bytes)
      → serialize_hash digests pieces ≡ some (digests.sha256 (digests.sha256 (join pieces)))
  unfolding serialize_hash
  serialize_hash-join pieces = hash_ranges-join (finalize_double digests) pieces []
