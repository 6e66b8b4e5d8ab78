-- ===== src/Script/Ops.antt =====
-- The reader of operations in a script: `GetScriptOp`, `IsPushOnly` and the small integers.
pub mod Encoding
pub mod PushOnly
use electrumz.Base.{
  ℕ, zero, suc, ◌+◌, ◌-◌, ◌==◌, Bytes, Bool, true, false, ◌&&◌, Option, none, some, [], ◌∷◌, length,
  take, drop, leb, ltb, if◌then◌else◌,
}
use electrumz.Txo.Record.{from_le, read_bytes}

abbrev pub op_pushdata1 : ℕ
op_pushdata1 = 0x4c

abbrev pub op_pushdata2 : ℕ
op_pushdata2 = 0x4d

abbrev pub op_pushdata4 : ℕ
op_pushdata4 = 0x4e

abbrev pub op_1 : ℕ
op_1 = 0x51

abbrev pub op_16 : ℕ
op_16 = 0x60

abbrev pub op_invalid : ℕ
op_invalid = 0xff

-- What a call of `GetScriptOp` leaves: its answer, the opcode, `*pvchRet`, and the bytes from `pc` to
-- the end.
pub record ScriptOp : Type 0 where
  pub ok : Bool
  pub opcode : ℕ
  pub operand : Bytes
  pub rest : Bytes

abbrev pub found : ℕ → Bytes → Bytes → ScriptOp
found opcode operand rest = record { ok = true; opcode = opcode; operand = operand; rest = rest }

abbrev pub not_found : Bytes → ScriptOp
not_found rest = record { ok = false; opcode = op_invalid; operand = []; rest = rest }

-- `nSize` from its own bytes, and the bytes behind them.
abbrev pub size_of : ℕ → Bytes → Option (ℕ × Bytes)
size_of k bytes = elim (read_bytes k bytes) [
  | none ↦ none
  | some (n, rest) ↦ some (from_le n, rest)
]

unfoldable pub push_size : ℕ → Bytes → Option (ℕ × Bytes)
push_size opcode bytes =
    if ltb opcode op_pushdata1
    then some (opcode, bytes)
    else if opcode == op_pushdata1
    then size_of 1 bytes
    else if opcode == op_pushdata2
    then size_of 2 bytes
    else size_of 4 bytes

-- A script has less than 2^31 bytes, so the casts of `end - pc` change nothing.
abbrev pub take_operand : ℕ → ℕ → Bytes → ScriptOp
take_operand opcode size bytes =
    if leb size (length bytes)
    then found opcode (take size bytes) (drop size bytes)
    else not_found bytes

unfoldable pub get_script_op : Bytes → ScriptOp
unfolding push_size
get_script_op [] = not_found []
get_script_op (opcode ∷ bytes) =
    if leb opcode op_pushdata4
    then elim (push_size opcode bytes) [
      | none ↦ not_found bytes
      | some (size, rest) ↦ take_operand opcode size rest
    ]
    else found opcode [] bytes

-- The loop of `IsPushOnly`; `none` is for want of fuel.
unfoldable pub push_only_loop : ℕ → Bytes → Option Bool
push_only_loop fuel [] = some true
push_only_loop zero (b ∷ bytes) = none
push_only_loop (suc fuel) (b ∷ bytes) =
    let op = get_script_op (b ∷ bytes) in
    let more = push_only_loop fuel op.rest in
    if op.ok then if leb op.opcode op_16 then more else some false else some false

unfoldable pub is_push_only : Bytes → Option Bool
unfolding push_only_loop
is_push_only bytes = push_only_loop (length bytes) bytes

abbrev pub is_small_integer : ℕ → Bool
is_small_integer opcode = leb op_1 opcode && leb opcode op_16

-- `DecodeOP_N`; `none` is the failed assertion.
abbrev pub decode_op_n : ℕ → Option ℕ
decode_op_n opcode =
    if opcode == 0
    then some 0
    else if is_small_integer opcode
    then some (opcode - (op_1 - 1))
    else none

-- `EncodeOP_N`.
abbrev pub encode_op_n : ℕ → Option ℕ
encode_op_n n = if leb n 16 then some (if n == 0 then 0 else op_1 + n - 1) else none
