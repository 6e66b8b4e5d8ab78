-- ===== src/Script/Solver.antt =====
-- The standard forms of a script and the destinations in it: `Solver`, `ExtractDestination`,
-- `ExtractDestinations`, and `EncodeDestination` of src/blockchain/bitcoin/key_io.cpp.
pub mod Keys
pub mod Witness
pub mod Sizes
pub mod Multisig
pub mod Forms
use electrumz.Base.{
  ℕ, zero, suc, ◌+◌, ◌-◌, ◌%◌, ◌==◌, String, Bytes, Bool, true, false, not, ◌&&◌, ◌||◌, Option,
  none, some, List, [], ◌∷◌, ◌++◌, length, take, drop, get_elem?, leb, ltb, if◌then◌else◌,
}
use electrumz.Script.Ops.{
  ScriptOp, get_script_op, is_push_only, is_small_integer, decode_op_n, op_1, op_16,
}

pub data TxOutType : Type 0 where
  nonstandard pubkey pubkey_hash script_hash multisig null_data witness_v0_script_hash
        witness_v0_key_hash witness_unknown :
      TxOutType

-- A step that has no answer where an assertion fails or memory is overrun.
infixl 5 ◌>>=◌
abbrev pub ◌>>=◌ : {A B : Type 0} → Option A → (A → Option B) → Option B
none >>= f = none
some a >>= f = f a

-- `script[i] == x`, behind a test of the size that puts `i` inside.
abbrev pub is_at : Bytes → ℕ → ℕ → Bool
is_at s i x = elim (get_elem? s i) [ none ↦ false | some y ↦ y == x ]

-- `script.back() == x`.
abbrev pub ends_with : Bytes → ℕ → Bool
ends_with s x = is_at s (length s - 1) x

abbrev pub slice : ℕ → ℕ → Bytes → Bytes
slice from to s = take (to - from) (drop from s)

unfoldable pub is_pay_to_script_hash : Bytes → Bool
is_pay_to_script_hash s = length s == 23 && is_at s 0 0xa9 && is_at s 1 0x14 && is_at s 22 0x87

unfoldable pub is_pay_to_witness_script_hash : Bytes → Bool
is_pay_to_witness_script_hash s = length s == 34 && is_at s 0 0 && is_at s 1 0x20

-- `IsWitnessProgram`, with its version and its program.
unfoldable pub is_witness_program : Bytes → Option (Option (ℕ × Bytes))
is_witness_program [] = some none
is_witness_program (version ∷ []) = some none
is_witness_program (version ∷ size ∷ program) =
    let n = length program + 2 in
    if ltb n 4 || ltb 42 n
    then some none
    else if not (version == 0) && (ltb version op_1 || ltb op_16 version)
    then some none
    else if size + 2 == n
    then (do v ← decode_op_n version; some (some (v, program)))
    else some none

-- `GetLen` and `ValidSize`.
abbrev pub get_len : ℕ → ℕ
get_len header =
    if header == 2 || header == 3
    then 33
    else if header == 4 || header == 6 || header == 7
    then 65
    else 0

abbrev pub valid_size : Bytes → Bool
valid_size [] = false
valid_size (header ∷ key) = get_len header == length (header ∷ key)

abbrev pub if_valid : Bytes → Option Bytes
if_valid key = if valid_size key then some key else none

unfoldable pub match_pay_to_pubkey : Bytes → Option Bytes
match_pay_to_pubkey s =
    if length s == 67 && is_at s 0 65 && ends_with s 0xac
    then if_valid (slice 1 66 s)
    else if length s == 35 && is_at s 0 33 && ends_with s 0xac
    then if_valid (slice 1 34 s)
    else none

unfoldable pub match_pay_to_pubkey_hash : Bytes → Option Bytes
match_pay_to_pubkey_hash s =
    if length s == 25
      && is_at s 0 0x76
      && is_at s 1 0xa9
      && is_at s 2 20
      && is_at s 23 0x88
      && is_at s 24 0xac
    then some (slice 3 23 s)
    else none

-- The loop of `MatchMultisig`: the keys, and the operation that ends it.
unfoldable pub keys_loop : ℕ → List Bytes → Bytes → Option (List Bytes × ScriptOp)
keys_loop zero keys bytes = none
keys_loop (suc fuel) keys bytes =
    let op = get_script_op bytes in
    let more = keys_loop fuel (keys ++ op.operand ∷ []) op.rest in
    if op.ok && valid_size op.operand then more else some (keys, op)

-- What follows the loop: the number of keys and the end.
abbrev pub after_keys : ℕ → List Bytes × ScriptOp → Option (Option (ℕ × List Bytes))
after_keys required (pubkeys, op) =
    if is_small_integer op.opcode
    then (do
      keys ← decode_op_n op.opcode
      if not (length pubkeys == keys) || ltb keys required
          then some none
          else if length op.rest == 1
          then some (some (required, pubkeys))
          else some none)
    else some none

unfoldable pub match_multisig : Bytes → Option (Option (ℕ × List Bytes))
unfolding keys_loop
match_multisig s =
    let op = get_script_op s in
    if ltb (length s) 1 || not (ends_with s 0xae)
    then some none
    else if not op.ok || not (is_small_integer op.opcode)
    then some none
    else (do
      required ← decode_op_n op.opcode
      r ← keys_loop (suc (length s)) [] op.rest
      after_keys required r)

abbrev pub solve_witness : ℕ → Bytes → TxOutType × List Bytes
solve_witness version program =
    if version == 0 && length program == 20
    then (witness_v0_key_hash, program ∷ [])
    else if version == 0 && length program == 32
    then (witness_v0_script_hash, program ∷ [])
    else if not (version == 0)
    then (witness_unknown, (version % 256 ∷ []) ∷ program ∷ [])
    else (nonstandard, [])

unfoldable pub is_null_data : Bytes → Option Bool
is_null_data [] = some false
is_null_data (op ∷ bytes) = if op == 0x6a then is_push_only bytes else some false

abbrev pub solve_multisig : Option (ℕ × List Bytes) → TxOutType × List Bytes
solve_multisig none = (nonstandard, [])
solve_multisig (some (required, keys)) =
    (multisig, (required % 256 ∷ []) ∷ (keys ++ (length keys % 256 ∷ []) ∷ []))

-- The forms behind the witness programs.
unfoldable pub solve_keys : Bytes → Option (TxOutType × List Bytes)
solve_keys s = elim (match_pay_to_pubkey s) [
  | some key ↦ some (pubkey, key ∷ [])
  | none ↦ elim (match_pay_to_pubkey_hash s) [
    | some hash ↦ some (pubkey_hash, hash ∷ [])
    | none ↦ (do r ← match_multisig s; some (solve_multisig r))
  ]
]

unfoldable pub solver : Bytes → Option (TxOutType × List Bytes)
unfolding solve_keys
solver s = if is_pay_to_script_hash s then some (script_hash, slice 2 22 s ∷ []) else (do
  w ← is_witness_program s
  elim w [
    | some (version, program) ↦ some (solve_witness version program)
    | none ↦ (do empty ← is_null_data s; if empty then some (null_data, []) else solve_keys s)
  ])
