-- ===== src/Tests/Script.antt =====
-- The theorems on scripts, at small scripts.
use electrumz.Base.{Bytes, true, false, [], ◌∷◌, ◌++◌, ◌≡◌, refl, ◌↔◌, ◌⊎◌, some, List, arith}
use electrumz.Script.Ops.{found, get_script_op, is_push_only}
use electrumz.Script.Ops.Encoding.{Encodes, get_script_op_iff}
use electrumz.Script.Ops.PushOnly.{Pushes, is_push_only-Pushes}
use electrumz.Script.Solver.{
  TxOutType, multisig, pubkey_hash, solver, is_pay_to_script_hash, is_witness_program, is_null_data,
  match_pay_to_pubkey, match_pay_to_pubkey_hash,
}
use electrumz.Script.Solver.Multisig.{multisig_script}
use electrumz.Script.Solver.Sizes.{Solved, solver-IsSolution}
use electrumz.Script.Destination.{
  AddressLib, Destination, key_id, unknown_witness, extract_destination, extract_destinations,
  zeros,
}
use electrumz.Script.Destination.Sound.{
  Extracts, Leaves, extract_destination-Extracts, extract_destinations-IsExtracted, ids_of,
}
use electrumz.Script.Destination.RoundTrip.{
  script_for, in_array, extract_destination-script_for, extract_destinations-multisig_script,
}

abbrev address_lib : AddressLib
address_lib = record {
  hash160 = λ key. zeros 20;
  encode_base58_check = λ bytes. "base58";
  encode_bech32 = λ bytes. "bech32";
  to_groups = λ bytes. bytes;
  fresh = λ n. n;
}

-- A push with one byte of size, and a byte behind it.
abbrev push_one : Bytes
push_one = 0x4c ∷ 1 ∷ 7 ∷ 9 ∷ []

get_script_op_iff_example :
    (get_script_op push_one ≡ found 0x4c (7 ∷ []) (9 ∷ []))
    ↔ ((bytes : Bytes) × Encodes 0x4c (7 ∷ []) bytes × (push_one ≡ bytes ++ 9 ∷ []))
get_script_op_iff_example = get_script_op_iff push_one 0x4c (7 ∷ []) (9 ∷ [])

push_one_read : get_script_op push_one ≡ found 0x4c (7 ∷ []) (9 ∷ [])
unfolding get_script_op
push_one_read = refl

is_push_only-Pushes_example :
    ((is_push_only push_one ≡ some true) × Pushes push_one)
    ⊎ ((is_push_only push_one ≡ some false) × (¬ Pushes push_one))
is_push_only-Pushes_example = is_push_only-Pushes push_one

abbrev key_script : Bytes
key_script = script_for (key_id (zeros 20))

solver-IsSolution_example : Solved (solver key_script)
solver-IsSolution_example = solver-IsSolution key_script

key_script_solved : solver key_script ≡ some (pubkey_hash, zeros 20 ∷ [])
unfolding solver get_script_op is_pay_to_script_hash is_witness_program is_null_data
    match_pay_to_pubkey match_pay_to_pubkey_hash
key_script_solved = refl

extract_destination-Extracts_example :
    (r : TxOutType × List Bytes) × (solver key_script ≡ some r)
    × Extracts address_lib (λ key. refl) r.0 (extract_destination address_lib key_script)
extract_destination-Extracts_example =
    extract_destination-Extracts address_lib (λ key. refl) key_script

extract_destinations-IsExtracted_example :
    (r : TxOutType × List Bytes) × (solver key_script ≡ some r)
    × Leaves address_lib (λ key. refl) r.0 (extract_destinations address_lib key_script 0)
extract_destinations-IsExtracted_example =
    extract_destinations-IsExtracted address_lib (λ key. refl) key_script 0

abbrev future : Destination
future = unknown_witness 3 2 (zeros 40)

extract_destination-script_for_example :
    extract_destination address_lib (script_for future) ≡ some (some (in_array address_lib future))
extract_destination-script_for_example =
    extract_destination-script_for address_lib future
      (omega arith, omega arith, omega arith, omega arith, refl)

abbrev key : Bytes
key = 2 ∷ zeros 32

extract_destinations-multisig_script_example :
    extract_destinations address_lib (multisig_script 1 (key ∷ key ∷ [])) 0
    ≡ some (record {
      ok = true;
      kind = multisig;
      addresses = ids_of address_lib (key ∷ key ∷ []);
      required = 1;
    })
extract_destinations-multisig_script_example =
    extract_destinations-multisig_script address_lib 1 (key ∷ key ∷ []) 0 (omega arith)
      (omega arith) (omega arith) (refl, (refl, tt))
