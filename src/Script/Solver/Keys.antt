-- ===== src/Script/Solver/Keys.antt =====
-- The keys in a script, and the matchers of scripts with keys.
use electrumz.Base.{
  ℕ, zero, suc, ◌-◌, ◌<◌, ◌≤◌, ◌==◌, Bytes, Bool, true, false, not, ◌&&◌, ◌||◌, ◌≡◌, refl, subst,
  inl, inr, Option, none, some, List, [], ◌∷◌, ◌++◌, length, ltb, if◌then◌else◌, arith, All,
  some-injective, none-ne-some, Bool-cases,
}
use electrumz.Script.Ops.{ScriptOp, get_script_op, is_small_integer, decode_op_n}
use electrumz.Script.Ops.PushOnly.{length-rest}
use electrumz.Script.Solver.{
  ◌>>=◌, is_at, ends_with, slice, valid_size, if_valid, match_pay_to_pubkey, keys_loop, after_keys,
  match_multisig,
}

abbrev pub IsKey : Bytes → Type 0
IsKey key = valid_size key ≡ true

All-snoc :
    (keys : List Bytes) (key : Bytes) → All IsKey keys → IsKey key → All IsKey (keys ++ key ∷ [])
All-snoc [] key h k = (k, tt)
All-snoc (x ∷ keys) key (h, hs) k = (h, All-snoc keys key hs k)

-- The loop over the keys ends, and collects keys.
keys_loop-IsKey :
    (fuel : ℕ) (keys : List Bytes) (bytes : Bytes)
    → length bytes < fuel
    → All IsKey keys
    → (r : List Bytes × ScriptOp) × (keys_loop fuel keys bytes ≡ some r) × All IsKey r.0
unfolding keys_loop
keys_loop-IsKey zero keys bytes h k = absurd (omega arith)
keys_loop-IsKey (suc fuel) keys bytes h k =
    by_op op.ok (valid_size op.operand)
      (λ e f.
        keys_loop-IsKey fuel (keys ++ op.operand ∷ []) op.rest (omega (arith, length-rest bytes e))
          (All-snoc keys op.operand k f))
      refl refl
  where
    op : ScriptOp
    op = get_script_op bytes

    by_op :
        (a b : Bool)
        → (op.ok ≡ true
            → IsKey op.operand
            → (r : List Bytes × ScriptOp) × (keys_loop fuel (keys ++ op.operand ∷ []) op.rest
                ≡ some r)
              × All IsKey r.0)
        → op.ok ≡ a
        → valid_size op.operand ≡ b
        → (r : List Bytes × ScriptOp) × ((if a && b
              then keys_loop fuel (keys ++ op.operand ∷ []) op.rest
              else some (keys, op))
            ≡ some r)
          × All IsKey r.0
    by_op true true again e f = again e f
    by_op true false again e f = ((keys, op), refl, k)
    by_op false b again e f = ((keys, op), refl, k)

pub decode_small :
    (opcode : ℕ)
    → is_small_integer opcode ≡ true
    → (decode_op_n opcode ≡ some (opcode - 80)) × (1 ≤ opcode - 80) × (opcode - 80 ≤ 16)
decode_small opcode h = ground arith

-- A match of a multisig script.
abbrev pub IsMultisig : Option (ℕ × List Bytes) → Type 0
IsMultisig none = Unit
IsMultisig (some (required, keys)) =
    (1 ≤ required) × (required ≤ length keys) × (length keys ≤ 16) × All IsKey keys

after_keys-IsMultisig :
    (required : ℕ) (r : List Bytes × ScriptOp)
    → 1 ≤ required
    → All IsKey r.0
    → (m : Option (ℕ × List Bytes)) × (after_keys required r ≡ some m) × IsMultisig m
after_keys-IsMultisig required (keys, op) h k = elim (Bool-cases (is_small_integer op.opcode)) [
  | inr e ↦ (none, rw e refl, tt)
  | inl e ↦
      let (d, l, u) = decode_small op.opcode e in
      let (m, f, v) =
        by_count (not (length keys == op.opcode - 80) || ltb (op.opcode - 80) required)
          (length op.rest == 1) refl u in
      let z : (op.opcode == 0) ≡ false = ground arith in (m, rw (e, z) f, v)
]
  where
    by_count :
        (a b : Bool)
        → (not (length keys == op.opcode - 80) || ltb (op.opcode - 80) required) ≡ a
        → op.opcode - 80 ≤ 16
        → (m : Option (ℕ × List Bytes)) × ((if a
              then some none
              else if b
              then some (some (required, keys))
              else some none)
            ≡ some m)
          × IsMultisig m
    by_count true b e u = (none, refl, tt)
    by_count false false e u = (none, refl, tt)
    by_count false true e u = (some (required, keys), refl, (h, ground arith, ground arith, k))

pub match_multisig-IsMultisig :
    (s : Bytes) → (m : Option (ℕ × List Bytes)) × (match_multisig s ≡ some m) × IsMultisig m
unfolding match_multisig
match_multisig-IsMultisig s =
    by_tests (ltb (length s) 1 || not (ends_with s 0xae))
      (not op.ok || not (is_small_integer op.opcode)) refl
  where
    op : ScriptOp
    op = get_script_op s

    by_tests :
        (a b : Bool)
        → (not op.ok || not (is_small_integer op.opcode)) ≡ b
        → (m : Option (ℕ × List Bytes)) × ((if a then some none else if b then some none else (do
          required ← decode_op_n op.opcode
          r ← keys_loop (suc (length s)) [] op.rest
          after_keys required r))
            ≡ some m)
          × IsMultisig m
    by_tests true b e = (none, refl, tt)
    by_tests false true e = (none, refl, tt)
    by_tests false false e =
        let small : is_small_integer op.opcode ≡ true = ground arith in
        let found : op.ok ≡ true = ground arith in
        let (d, l, u) = decode_small op.opcode small in
        let (r, f, k) =
          keys_loop-IsKey (suc (length s)) [] op.rest (omega (arith, length-rest s found)) tt in
        let (m, g, v) = after_keys-IsMultisig (op.opcode - 80) r l k in (m, rw (d, f) g, v)

if_valid-IsKey : (k key : Bytes) → if_valid k ≡ some key → IsKey key
if_valid-IsKey k key e = elim (Bool-cases (valid_size k)) [
  | inl v ↦ let f : Option.some k ≡ some key = rw v at e in subst IsKey (some-injective k key f) v
  | inr v ↦
      let f : ◌≡◌ {A = Option Bytes} none (some key) = rw v at e in absurd (none-ne-some key f)
]

pub pubkey-IsKey : (s key : Bytes) → match_pay_to_pubkey s ≡ some key → IsKey key
unfolding match_pay_to_pubkey
pubkey-IsKey s key =
    by_tests (length s == 67 && is_at s 0 65 && ends_with s 0xac)
      (length s == 35 && is_at s 0 33 && ends_with s 0xac)
  where
    by_tests :
        (a b : Bool)
        → (if a then if_valid (slice 1 66 s) else if b then if_valid (slice 1 34 s) else none)
          ≡ some key
        → IsKey key
    by_tests true b e = if_valid-IsKey (slice 1 66 s) key e
    by_tests false true e = if_valid-IsKey (slice 1 34 s) key e
    by_tests false false e = cc
