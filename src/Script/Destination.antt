-- ===== src/Script/Destination.antt =====
-- The destinations in a script: `ExtractDestination` and `ExtractDestinations`, and
-- `EncodeDestination` of src/blockchain/bitcoin/key_io.cpp.
pub mod Sound
pub mod RoundTrip
use electrumz.Base.{
  ℕ, zero, suc, ◌+◌, ◌%◌, ◌==◌, String, Bytes, Bool, true, false, ◌||◌, Option, none, some, List,
  [], ◌∷◌, ◌++◌, length, take, drop, leb, ltb, if◌then◌else◌,
}
use electrumz.Script.Solver.{
  TxOutType, nonstandard, pubkey, pubkey_hash, script_hash, multisig, null_data,
  witness_v0_script_hash, witness_v0_key_hash, witness_unknown, solver, ◌>>=◌,
}

-- `CTxDestination`.
pub data Destination : Type 0 where
  no_destination : Destination
  key_id script_id witness_script_hash witness_key_hash : Bytes → Destination
  unknown_witness : (version length : ℕ) → (program : Bytes) → Destination

-- What is taken from mbedtls and from the copied encoders: Hash160, and the texts of an address.
pub record AddressLib : Type 0 where
  pub hash160 : Bytes → Bytes
  pub encode_base58_check : Bytes → String
  -- `bech32::Encode("bc", data)`.
  pub encode_bech32 : Bytes → String
  -- `ConvertBits<8, 5, true>`.
  pub to_groups : Bytes → Bytes
  -- What stands in memory that is not initialised, by the place in it.
  pub fresh : ℕ → ℕ

abbrev pub zeros : ℕ → Bytes
zeros zero = []
zeros (suc n) = 0 ∷ zeros n

-- The constructor of `uint160` from bytes, with its assertion.
abbrev pub to_uint160 : Bytes → Option Bytes
to_uint160 bytes = if length bytes == 20 then some bytes else none

-- An array of `n` bytes that is not initialised, as `program` of `WitnessUnknown`; a hash is zero.
abbrev pub new_array : (ℕ → ℕ) → ℕ → Bytes
new_array fresh zero = []
new_array fresh (suc n) = new_array fresh n ++ fresh n ∷ []

-- `std::copy` into an array with these bytes, which keeps them behind what is copied.
abbrev pub copy_into : Bytes → Bytes → Option Bytes
copy_into start bytes =
    if leb (length bytes) (length start) then some (bytes ++ drop (length bytes) start) else none

-- `vSolutions[i]`, and `v[0]`.
abbrev pub first : {A : Type 0} → List A → Option A
first [] = none
first (x ∷ xs) = some x

abbrev pub second : {A : Type 0} → List A → Option A
second (x ∷ y ∷ xs) = some y
second _ = none

-- `vSolutions[1]` up to the one before the last.
abbrev pub all_but_last : {A : Type 0} → List A → List A
all_but_last [] = []
all_but_last (x ∷ []) = []
all_but_last (x ∷ y ∷ xs) = x ∷ all_but_last (y ∷ xs)

abbrev pub middle : {A : Type 0} → List A → List A
middle [] = []
middle (x ∷ xs) = all_but_last xs

-- What `ExtractDestinations` leaves.
pub record Extracted : Type 0 where
  pub ok : Bool
  pub kind : TxOutType
  pub addresses : List Destination
  pub required : ℕ

module _ (lib : AddressLib) where
  open lib use {fresh, hash160, encode_base58_check, encode_bech32, to_groups}

  -- A value for `addressRet`, if there is one.
  unfoldable pub destination_of : TxOutType → List Bytes → Option (Option Destination)
  destination_of pubkey solutions = do
    key ← first solutions
    if length key == 0 then some none else some (some (key_id (hash160 key)))
  destination_of pubkey_hash solutions = do
    hash ← first solutions
    h ← to_uint160 hash
    some (some (key_id h))
  destination_of script_hash solutions = do
    hash ← first solutions
    h ← to_uint160 hash
    some (some (script_id h))
  destination_of witness_v0_key_hash solutions = do
    hash ← first solutions
    h ← copy_into (zeros 20) hash
    some (some (witness_key_hash h))
  destination_of witness_v0_script_hash solutions = do
    hash ← first solutions
    h ← copy_into (zeros 32) hash
    some (some (witness_script_hash h))
  destination_of witness_unknown solutions = do
    bytes ← first solutions
    version ← first bytes
    program ← second solutions
    copied ← copy_into (new_array fresh 40) program
    some (some (unknown_witness version (length program) copied))
  destination_of nonstandard solutions = some none
  destination_of multisig solutions = some none
  destination_of null_data solutions = some none

  unfoldable pub extract_destination : Bytes → Option (Option Destination)
  unfolding destination_of
  extract_destination s = do r ← solver s; destination_of r.0 r.1

  -- The loop over the keys; a key with no bytes ends it.
  unfoldable pub key_ids : List Bytes → Bool × List Destination
  key_ids [] = (true, [])
  key_ids (key ∷ keys) =
      let (all, ids) = key_ids keys in
      if length key == 0 then (false, []) else (all, key_id (hash160 key) ∷ ids)

  abbrev pub is_empty : {A : Type 0} → List A → Bool
  is_empty [] = true
  is_empty (x ∷ xs) = false

  -- `required` is what `nRequiredRet` holds before.
  unfoldable pub destinations_of : Bytes → ℕ → TxOutType → List Bytes → Option Extracted
  unfolding key_ids
  destinations_of s required nonstandard solutions =
      some (record { ok = false; kind = nonstandard; addresses = []; required = required })
  destinations_of s required null_data solutions =
      some (record { ok = false; kind = null_data; addresses = []; required = required })
  destinations_of s required multisig solutions = do
    bytes ← first solutions
    m ← first bytes
    let r = key_ids (middle solutions)
    some (record {
      ok = if r.0 then (if is_empty r.1 then false else true) else false;
      kind = multisig;
      addresses = r.1;
      required = m;
    })
  destinations_of s required kind solutions = do
    d ← extract_destination s
    some (elim d [
      | none ↦ record { ok = false; kind = kind; addresses = []; required = 1 }
      | some a ↦ record { ok = true; kind = kind; addresses = a ∷ []; required = 1 }
    ])

  unfoldable pub extract_destinations : Bytes → ℕ → Option Extracted
  unfolding destinations_of
  extract_destinations s required = do r ← solver s; destinations_of s required r.0 r.1

  unfoldable pub encode_destination : Destination → String
  encode_destination no_destination = ""
  encode_destination (key_id h) = encode_base58_check (0 ∷ h)
  encode_destination (script_id h) = encode_base58_check (5 ∷ h)
  encode_destination (witness_key_hash h) = encode_bech32 (0 ∷ to_groups h)
  encode_destination (witness_script_hash h) = encode_bech32 (0 ∷ to_groups h)
  encode_destination (unknown_witness version n program) =
      if ltb version 1 || ltb 16 version || ltb n 2 || ltb 40 n
      then ""
      else encode_bech32 (version % 256 ∷ to_groups (take n program))
