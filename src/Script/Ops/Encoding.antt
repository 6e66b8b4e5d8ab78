-- ===== src/Script/Ops/Encoding.antt =====
-- What `GetScriptOp` reads, against the written form of an operation.
use electrumz.Base.{
  ℕ, zero, suc, ◌<◌, ◌≤◌, ◌==◌, Bytes, true, ◌≡◌, refl, sym, ap, ◌∙◌, ◌↔◌, inl, inr, Option, none,
  some, [], ◌∷◌, ◌++◌, length, take, drop, leb, ltb, arith, length-append, length-take,
  append_assoc, ==_iff, subst, take-append_front, drop-append_front, le→leb, leb→le, ltb→lt, lt→ltb,
  Bool-cases,
}
use electrumz.Txo.Record.{from_le}
use electrumz.Txo.Record.RoundTrip.{read_bytes_front}
use electrumz.Script.Ops.{
  ScriptOp, found, not_found, get_script_op, push_size, size_of, take_operand,
}

-- How many bytes of size stand behind an opcode that has them.
pub data Sized : ℕ → ℕ → Type 0 where
  one : Sized 0x4c 1
  two : Sized 0x4d 2
  four : Sized 0x4e 4

-- `bytes` is a written form of the operation: a short push, a push with its size, least byte first,
-- or an opcode alone.
pub data Encodes (opcode : ℕ) (operand bytes : Bytes) : Type 0 where
  short :
      opcode < 0x4c
      → length operand ≡ opcode
      → bytes ≡ opcode ∷ operand
      → Encodes opcode operand bytes
  sized :
      (k : ℕ) (size : Bytes)
      → Sized opcode k
      → length size ≡ k
      → from_le size ≡ length operand
      → bytes ≡ opcode ∷ (size ++ operand)
      → Encodes opcode operand bytes
  alone : 0x4e < opcode → operand ≡ [] → bytes ≡ opcode ∷ [] → Encodes opcode operand bytes

pub take_operand-front :
    (opcode : ℕ) (operand rest : Bytes) (size : ℕ)
    → size ≡ length operand
    → take_operand opcode size (operand ++ rest) ≡ found opcode operand rest
take_operand-front opcode operand rest size e = rw e (
    rw
      (le→leb (length operand) (length (operand ++ rest))
        (omega (arith, length-append operand rest)))
      (rw (take-append_front operand rest, drop-append_front operand rest) refl))

push_size-Sized :
    (opcode k : ℕ) (bytes : Bytes) → Sized opcode k → push_size opcode bytes ≡ size_of k bytes
unfolding push_size
push_size-Sized _ _ bytes one = refl
push_size-Sized _ _ bytes two = refl
push_size-Sized _ _ bytes four = refl

Sized-leb : (opcode k : ℕ) → Sized opcode k → leb opcode 0x4e ≡ true
Sized-leb _ _ one = refl
Sized-leb _ _ two = refl
Sized-leb _ _ four = refl

-- A push with its size, read.
get_script_op_with_size :
    (opcode k : ℕ) (size operand rest : Bytes)
    → Sized opcode k
    → length size ≡ k
    → from_le size ≡ length operand
    → get_script_op (opcode ∷ (size ++ (operand ++ rest))) ≡ found opcode operand rest
unfolding get_script_op
get_script_op_with_size opcode k size operand rest h e l = rw (Sized-leb opcode k h) (
    rw (push_size-Sized opcode k (size ++ (operand ++ rest)) h) (
      rw (read_bytes_front k size (operand ++ rest) e)
        (take_operand-front opcode operand rest (from_le size) l)))

pub get_script_op-short :
    (operand rest : Bytes)
    → length operand < 0x4c
    → get_script_op (length operand ∷ (operand ++ rest)) ≡ found (length operand) operand rest
unfolding get_script_op push_size
get_script_op-short operand rest h =
    rw (le→leb (length operand) 0x4e (omega arith), lt→ltb (length operand) 0x4c h)
      (take_operand-front (length operand) operand rest (length operand) refl)

pub get_script_op-alone :
    (opcode : ℕ) (rest : Bytes)
    → 0x4e < opcode
    → get_script_op (opcode ∷ rest) ≡ found opcode [] rest
unfolding get_script_op
get_script_op-alone opcode rest h = ground arith

get_script_op-Encodes :
    (opcode : ℕ) (operand bytes rest : Bytes)
    → Encodes opcode operand bytes
    → get_script_op (bytes ++ rest) ≡ found opcode operand rest
get_script_op-Encodes opcode operand bytes rest (short h l e) =
    rw (e, sym l) (get_script_op-short operand rest (omega arith))
get_script_op-Encodes opcode operand bytes rest (sized k size s l m e) =
    rw (e, append_assoc size operand rest)
      (get_script_op_with_size opcode k size operand rest s l m)
get_script_op-Encodes opcode operand bytes rest (alone h o e) =
    rw (e, o) (get_script_op-alone opcode rest h)

take-append-drop : (n : ℕ) (bytes : Bytes) → bytes ≡ take n bytes ++ drop n bytes
take-append-drop zero bytes = refl
take-append-drop (suc n) [] = refl
take-append-drop (suc n) (b ∷ bytes) = ap (◌∷◌ b) (take-append-drop n bytes)

length-take_le : (n : ℕ) (bytes : Bytes) → n ≤ length bytes → length (take n bytes) ≡ n
length-take_le n bytes h = omega (arith, length-take n bytes)

take_operand-inv :
    (o size : ℕ) (bytes : Bytes) (opcode : ℕ) (operand rest : Bytes)
    → take_operand o size bytes ≡ found opcode operand rest
    → (o ≡ opcode) × (length operand ≡ size) × (bytes ≡ operand ++ rest)
take_operand-inv o size bytes opcode operand rest e = elim (Bool-cases (leb size (length bytes))) [
  | inl l ↦
      let f : found o (take size bytes) (drop size bytes) ≡ found opcode operand rest = rw l at e in
      let whole = take-append-drop size bytes in
      (
        ap ScriptOp.opcode f,
        ap length (sym (ap ScriptOp.operand f))
            ∙ length-take_le size bytes (leb→le size (length bytes) l),
        whole ∙ cc,
      )
  | inr l ↦ let f : not_found bytes ≡ found opcode operand rest = rw l at e in cc
]

abbrev Read : ℕ → Bytes → Bytes → Bytes → Type 0
Read opcode operand s rest = (bytes : Bytes) × Encodes opcode operand bytes × (s ≡ bytes ++ rest)

-- The size behind an opcode and the operand behind it.
abbrev by_size : ℕ → Bytes → Option (ℕ × Bytes) → ScriptOp
by_size o bytes r = elim r [ none ↦ not_found bytes | some (size, rest) ↦ take_operand o size rest ]

by_size-Read :
    (o k : ℕ) (bytes : Bytes) (opcode : ℕ) (operand rest : Bytes)
    → Sized o k
    → by_size o bytes (size_of k bytes) ≡ found opcode operand rest
    → Read opcode operand (o ∷ bytes) rest
by_size-Read o k bytes opcode operand rest h e = elim (Bool-cases (leb k (length bytes))) [
  | inl l ↦
      let f =
        take_operand-inv o (from_le (take k bytes)) (drop k bytes) opcode operand rest
          (rw (l, by_size) at e) in
      (
        o ∷ (take k bytes ++ operand),
        sized k (take k bytes) (subst (λ (n : ℕ). Sized n k) f.0 h)
            (length-take_le k bytes (leb→le k (length bytes) l)) (sym f.1)
            (ap (λ (n : ℕ). n ∷ (take k bytes ++ operand)) f.0),
        ap (◌∷◌ o) (
            take-append-drop k bytes
            ∙ ap (λ (b : Bytes). take k bytes ++ b) f.2
            ∙ sym (append_assoc (take k bytes) operand rest)),
      )
  | inr l ↦ let f : not_found bytes ≡ found opcode operand rest = rw (l, by_size) at e in cc
]

short-Read :
    (o : ℕ) (bytes : Bytes) (opcode : ℕ) (operand rest : Bytes)
    → o < 0x4c
    → take_operand o o bytes ≡ found opcode operand rest
    → Read opcode operand (o ∷ bytes) rest
short-Read o bytes opcode operand rest h e =
    let f = take_operand-inv o o bytes opcode operand rest e in
    (
      o ∷ operand,
      short (omega arith) (omega arith) (ap (λ (n : ℕ). n ∷ operand) f.0),
      ap (◌∷◌ o) f.2,
    )

alone-Read :
    (o : ℕ) (bytes : Bytes) (opcode : ℕ) (operand rest : Bytes)
    → 0x4e < o
    → found o [] bytes ≡ found opcode operand rest
    → Read opcode operand (o ∷ bytes) rest
alone-Read o bytes opcode operand rest h e = (
  o ∷ [],
  alone (omega (arith, ap ScriptOp.opcode e)) (sym (ap ScriptOp.operand e))
      (ap (λ (n : ℕ). n ∷ []) (ap ScriptOp.opcode e)),
  ap (◌∷◌ o) (ap ScriptOp.rest e),
)

data Kind (o : ℕ) : Type 0 where
  is_short : o < 0x4c → Kind o
  is_sized : (k : ℕ) → Sized o k → Kind o
  is_alone : 0x4e < o → Kind o

kind : (o : ℕ) → Kind o
kind o = elim (Bool-cases (ltb o 0x4c)) [
  | inl h ↦ is_short (ltb→lt o 0x4c h)
  | inr h ↦ elim (Bool-cases (ltb 0x4e o)) [
    | inl k ↦ is_alone (ltb→lt 0x4e o k)
    | inr k ↦ between (ground arith) (ground arith)
  ]
]
  where
    between : 0x4c ≤ o → o ≤ 0x4e → Kind o
    between h k = elim (Bool-cases (o == 0x4c)) [
      | inl e ↦ is_sized 1 (subst (λ (n : ℕ). Sized n 1) (sym ((==_iff o 0x4c).0 e)) one)
      | inr e ↦ elim (Bool-cases (o == 0x4d)) [
        | inl f ↦ is_sized 2 (subst (λ (n : ℕ). Sized n 2) (sym ((==_iff o 0x4d).0 f)) two)
        | inr f ↦
            let l : 0x4e ≡ o = ground arith in is_sized 4 (subst (λ (n : ℕ). Sized n 4) l four)
      ]
    ]

short_lem : (o : ℕ) (bytes : Bytes) → o < 0x4c → get_script_op (o ∷ bytes) ≡ take_operand o o bytes
unfolding get_script_op push_size
short_lem o bytes h = rw (le→leb o 0x4e (omega arith), lt→ltb o 0x4c h) refl

sized_lem :
    (o k : ℕ) (bytes : Bytes)
    → Sized o k
    → get_script_op (o ∷ bytes) ≡ by_size o bytes (size_of k bytes)
unfolding get_script_op
sized_lem o k bytes h = rw (Sized-leb o k h) (ap (by_size o bytes) (push_size-Sized o k bytes h))

get_script_op-Read :
    (s : Bytes) (opcode : ℕ) (operand rest : Bytes)
    → get_script_op s ≡ found opcode operand rest
    → Read opcode operand s rest
unfolding get_script_op
get_script_op-Read [] opcode operand rest e = cc
get_script_op-Read (o ∷ bytes) opcode operand rest e = by_kind (kind o)
  where
    by_kind : Kind o → Read opcode operand (o ∷ bytes) rest
    by_kind (is_short h) = short-Read o bytes opcode operand rest h (sym (short_lem o bytes h) ∙ e)
    by_kind (is_sized k h) =
        by_size-Read o k bytes opcode operand rest h (sym (sized_lem o k bytes h) ∙ e)
    by_kind (is_alone h) =
        alone-Read o bytes opcode operand rest h (sym (get_script_op-alone o bytes h) ∙ e)

-- A call of `GetScriptOp` finds an operation exactly if the script begins with a written form
-- of it: the opcode and the operand are those written, and the script goes on behind it.
pub get_script_op_iff :
    (s : Bytes) (opcode : ℕ) (operand rest : Bytes)
    → (get_script_op s ≡ found opcode operand rest)
      ↔ ((bytes : Bytes) × Encodes opcode operand bytes × (s ≡ bytes ++ rest))
get_script_op_iff s opcode operand rest = (
  get_script_op-Read s opcode operand rest,
  λ (bytes, h, e). ap get_script_op e ∙ get_script_op-Encodes opcode operand bytes rest h,
)
