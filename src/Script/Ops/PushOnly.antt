-- ===== src/Script/Ops/PushOnly.antt =====
-- `IsPushOnly`, against a script that is a sequence of pushes.
use electrumz.Base.{
  ℕ, zero, suc, ◌<◌, ◌≤◌, Bytes, Bool, true, false, ◌≡◌, refl, sym, ap, ◌∙◌, subst, ◌⊎◌, inl, inr,
  some, [], ◌∷◌, ◌++◌, length, leb, arith, length-append, leb→le, Bool-cases,
}
use electrumz.Script.Ops.{ScriptOp, found, get_script_op, push_only_loop, is_push_only}
use electrumz.Script.Ops.Encoding.{Encodes, short, sized, alone, get_script_op_iff}

-- A sequence of written operations with opcodes up to OP_16.
pub data Pushes : Bytes → Type 0 where
  nil : Pushes []
  push :
      (opcode : ℕ) (operand bytes rest : Bytes) {s : Bytes}
      → Encodes opcode operand bytes
      → opcode ≤ 0x60
      → s ≡ bytes ++ rest
      → Pushes rest
      → Pushes s

-- A written operation has a byte.
pub length-Encodes :
    (opcode : ℕ) (operand bytes : Bytes) → Encodes opcode operand bytes → 1 ≤ length bytes
length-Encodes opcode operand bytes (short h l e) = rw e (omega arith)
length-Encodes opcode operand bytes (sized k size h l m e) = rw e (omega arith)
length-Encodes opcode operand bytes (alone h o e) = rw e (omega arith)

-- An operation that was found leaves fewer bytes.
pub length-rest :
    (s : Bytes) → (get_script_op s).ok ≡ true → length (get_script_op s).rest < length s
length-rest s h =
    let op = get_script_op s in
    let whole : op ≡ found op.opcode op.operand op.rest =
      ap (λ (b : Bool). record { ok = b; opcode = op.opcode; operand = op.operand; rest = op.rest })
        h in
    let (bytes, written, e) = (get_script_op_iff s op.opcode op.operand op.rest).0 whole in
    omega (
      arith,
      ap length e,
      length-append bytes op.rest,
      length-Encodes op.opcode op.operand bytes written,
    )

-- The first operation of a sequence of pushes.
push-first :
    (b : ℕ) (bytes : Bytes)
    → Pushes (b ∷ bytes)
    → (opcode : ℕ) × (operand rest : Bytes) × (get_script_op (b ∷ bytes)
        ≡ found opcode operand rest)
      × (opcode ≤ 0x60)
      × Pushes rest
push-first b bytes (push opcode operand front rest h l e p) = (
  opcode,
  operand,
  rest,
  (get_script_op_iff (b ∷ bytes) opcode operand rest).1 (front, h, e),
  l,
  p,
)

-- What the loop finds out.
abbrev Decides : Bytes → Bool → Type 0
Decides s true = Pushes s
Decides s false = ¬ Pushes s

whole_op : (op : ScriptOp) → op.ok ≡ true → op ≡ found op.opcode op.operand op.rest
whole_op op h =
    ap (λ (b : Bool). record { ok = b; opcode = op.opcode; operand = op.operand; rest = op.rest }) h

empty_lem : (get_script_op []).ok ≡ false
unfolding get_script_op
empty_lem = refl

push-small :
    (s : Bytes) (op : ScriptOp)
    → get_script_op s ≡ op
    → op.ok ≡ true
    → op.opcode ≤ 0x60
    → (b : Bool) → Decides op.rest b
    → Decides s b
push-small s op e h l true p =
    let (bytes, written, f) =
      (get_script_op_iff s op.opcode op.operand op.rest).0 (e ∙ whole_op op h) in
    push op.opcode op.operand bytes op.rest written l f p
push-small [] op e h l false n = cc empty_lem
push-small (c ∷ s) op e h l false n = λ p.
    let (opcode, operand, rest, f, _, q) = push-first c s p in
    n (subst Pushes (ap ScriptOp.rest (sym f ∙ e)) q)

not-found : (b : ℕ) (s : Bytes) → (get_script_op (b ∷ s)).ok ≡ false → ¬ Pushes (b ∷ s)
not-found b s h p = let (opcode, operand, rest, f, _, q) = push-first b s p in cc

not-small : (b : ℕ) (s : Bytes) → 0x60 < (get_script_op (b ∷ s)).opcode → ¬ Pushes (b ∷ s)
not-small b s h p =
    let (opcode, operand, rest, f, l, q) = push-first b s p in omega (arith, ap ScriptOp.opcode f)

push_only_loop-Decides :
    (fuel : ℕ) (s : Bytes)
    → length s ≤ fuel
    → (b : Bool) × (push_only_loop fuel s ≡ some b) × Decides s b
unfolding push_only_loop
push_only_loop-Decides zero [] h = (true, refl, nil)
push_only_loop-Decides (suc fuel) [] h = (true, refl, nil)
push_only_loop-Decides zero (b ∷ s) h = absurd (omega arith)
push_only_loop-Decides (suc fuel) (b ∷ s) h = elim (Bool-cases (get_script_op (b ∷ s)).ok) [
  | inr e ↦ (false, rw e refl, not-found b s e)
  | inl e ↦ elim (Bool-cases (leb (get_script_op (b ∷ s)).opcode 0x60)) [
    | inr l ↦ (false, rw (e, l) refl, not-small b s (ground arith))
    | inl l ↦
        let op = get_script_op (b ∷ s) in
        let (more, f, d) =
          push_only_loop-Decides fuel op.rest (omega (arith, length-rest (b ∷ s) e)) in
        (more, rw (e, l) f, push-small (b ∷ s) op refl e (leb→le op.opcode 0x60 l) more d)
  ]
]

-- `IsPushOnly` ends on every script, and answers true exactly if the script is a sequence of
-- written operations with opcodes up to OP_16.
pub is_push_only-Pushes :
    (s : Bytes)
    → ((is_push_only s ≡ some true) × Pushes s) ⊎ ((is_push_only s ≡ some false) × (¬ Pushes s))
unfolding is_push_only
is_push_only-Pushes s = by_answer (push_only_loop-Decides (length s) s (omega arith))
  where
    by_answer :
        (b : Bool) × (push_only_loop (length s) s ≡ some b) × Decides s b
        → ((push_only_loop (length s) s ≡ some true) × Pushes s)
          ⊎ ((push_only_loop (length s) s ≡ some false) × (¬ Pushes s))
    by_answer (true, e, p) = inl (e, p)
    by_answer (false, e, p) = inr (e, p)
