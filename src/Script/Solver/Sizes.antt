-- ===== src/Script/Solver/Sizes.antt =====
-- `Solver` answers on every script, and its solutions have the sizes that their users rely on.
use electrumz.Base.{
  ℕ, ◌-◌, ◌%◌, ◌≤◌, ◌==◌, Bytes, Bool, true, false, not, ◌&&◌, ◌≡◌, refl, sym, ap, ap₂, ◌∙◌, inl,
  inr, Option, none, some, List, [], ◌∷◌, ◌++◌, length, drop, if◌then◌else◌, arith, length-take,
  length-drop, All, ==_iff, Bool-cases,
}
use electrumz.Script.Ops.PushOnly.{is_push_only-Pushes}
use electrumz.Script.Solver.{
  TxOutType, nonstandard, pubkey, pubkey_hash, script_hash, multisig, null_data,
  witness_v0_script_hash, witness_v0_key_hash, witness_unknown, ◌>>=◌, slice, is_pay_to_script_hash,
  match_pay_to_pubkey, match_pay_to_pubkey_hash, match_multisig, solve_witness, is_null_data,
  solve_multisig, solve_keys, solver,
}
use electrumz.Script.Solver.Keys.{IsKey, IsMultisig, match_multisig-IsMultisig, pubkey-IsKey}
use electrumz.Script.Solver.Witness.{IsWitness, is_witness_program-IsWitness}

-- The solutions that belong to a kind of script.
abbrev pub IsSolution : TxOutType → List Bytes → Type 0
IsSolution pubkey solutions = (key : Bytes) × (solutions ≡ key ∷ []) × IsKey key
IsSolution pubkey_hash solutions = (hash : Bytes) × (solutions ≡ hash ∷ []) × (length hash ≡ 20)
IsSolution script_hash solutions = (hash : Bytes) × (solutions ≡ hash ∷ []) × (length hash ≡ 20)
IsSolution witness_v0_key_hash solutions =
    (hash : Bytes) × (solutions ≡ hash ∷ []) × (length hash ≡ 20)
IsSolution witness_v0_script_hash solutions =
    (hash : Bytes) × (solutions ≡ hash ∷ []) × (length hash ≡ 32)
IsSolution witness_unknown solutions =
    (version : ℕ) × (program : Bytes) × (solutions ≡ (version ∷ []) ∷ program ∷ [])
    × (1 ≤ version)
    × (version ≤ 16)
    × (2 ≤ length program)
    × (length program ≤ 40)
IsSolution multisig solutions =
    (required : ℕ) × (keys : List Bytes) × (solutions
      ≡ (required ∷ []) ∷ (keys ++ (length keys ∷ []) ∷ []))
    × (1 ≤ required)
    × (required ≤ length keys)
    × (length keys ≤ 16)
    × All IsKey keys
IsSolution nonstandard solutions = solutions ≡ []
IsSolution null_data solutions = solutions ≡ []

length-slice :
    (from to : ℕ) (s : Bytes) → from ≤ to → to ≤ length s → length (slice from to s) ≡ to - from
length-slice from to s h k =
    omega (arith, length-take (to - from) (drop from s), length-drop from s)

script_hash_size : (s : Bytes) → is_pay_to_script_hash s ≡ true → length (slice 2 22 s) ≡ 20
unfolding is_pay_to_script_hash
script_hash_size s h = length-slice 2 22 s (omega arith) (sized (ground arith))
  where
    sized : length s ≡ 23 → 22 ≤ length s
    sized e = omega arith

pubkey_hash_size : (s hash : Bytes) → match_pay_to_pubkey_hash s ≡ some hash → length hash ≡ 20
unfolding match_pay_to_pubkey_hash
pubkey_hash_size s hash h =
    ap length (sym e) ∙ length-slice 3 23 s (omega arith) (sized (ground arith))
  where
    sized : length s ≡ 25 → 23 ≤ length s
    sized e = omega arith

    e : slice 3 23 s ≡ hash
    e = ground arith

solve_witness-IsSolution :
    (version : ℕ) (program : Bytes)
    → IsWitness (some (version, program))
    → IsSolution (solve_witness version program).0 (solve_witness version program).1
solve_witness-IsSolution version program (h, l, u) =
    by_tests (version == 0) (length program == 20) (length program == 32) refl refl refl
  where
    by_tests :
        (a b c : Bool)
        → (version == 0) ≡ a
        → (length program == 20) ≡ b
        → (length program == 32) ≡ c
        → (let r : TxOutType × List Bytes =
              (if a && b
                then (witness_v0_key_hash, program ∷ [])
                else if a && c
                then (witness_v0_script_hash, program ∷ [])
                else if not a
                then (witness_unknown, (version % 256 ∷ []) ∷ program ∷ [])
                else (nonstandard, [])) in
            IsSolution r.0 r.1)
    by_tests true true c e f g = (program, refl, (==_iff (length program) 20).0 f)
    by_tests true false true e f g = (program, refl, (==_iff (length program) 32).0 g)
    by_tests true false false e f g = refl
    by_tests false b c e f g = (
      version,
      program,
      ap (λ (n : ℕ). (n ∷ []) ∷ program ∷ []) (omega arith),
      ground arith,
      h,
      l,
      u,
    )

abbrev pub Solved : Option (TxOutType × List Bytes) → Type 0
Solved o = (r : TxOutType × List Bytes) × (o ≡ some r) × IsSolution r.0 r.1

solve_multisig-IsSolution :
    (m : Option (ℕ × List Bytes))
    → IsMultisig m
    → IsSolution (solve_multisig m).0 (solve_multisig m).1
solve_multisig-IsSolution none h = refl
solve_multisig-IsSolution (some (required, keys)) (h, k, l, all) = (
  required,
  keys,
  ap₂ (λ (m n : ℕ). (m ∷ []) ∷ (keys ++ (n ∷ []) ∷ [])) (omega arith) (omega arith),
  h,
  k,
  l,
  all,
)

solve_keys-Solved : (s : Bytes) → Solved (solve_keys s)
unfolding solve_keys
solve_keys-Solved s = by_matches (match_pay_to_pubkey s) (match_pay_to_pubkey_hash s) refl refl
  where
    by_matches :
        (a b : Option Bytes)
        → match_pay_to_pubkey s ≡ a
        → match_pay_to_pubkey_hash s ≡ b
        → Solved (elim a as (λ _. Option (TxOutType × List Bytes)) [
          | some key ↦ some (pubkey, key ∷ [])
          | none ↦ elim b as (λ _. Option (TxOutType × List Bytes)) [
            | some hash ↦ some (pubkey_hash, hash ∷ [])
            | none ↦ (do r ← match_multisig s; some (solve_multisig r))
          ]
        ])
    by_matches (some key) b e f = ((pubkey, key ∷ []), refl, (key, refl, pubkey-IsKey s key e))
    by_matches none (some hash) e f =
        ((pubkey_hash, hash ∷ []), refl, (hash, refl, pubkey_hash_size s hash f))
    by_matches none none e f =
        let (m, g, v) = match_multisig-IsMultisig s in
        (solve_multisig m, rw g refl, solve_multisig-IsSolution m v)

is_null_data_total : (s : Bytes) → (b : Bool) × (is_null_data s ≡ some b)
unfolding is_null_data
is_null_data_total [] = (false, refl)
is_null_data_total (op ∷ bytes) = elim (Bool-cases (op == 0x6a)) [
  | inr e ↦ (false, rw e refl)
  | inl e ↦ elim (is_push_only-Pushes bytes) [
    | inl (f, _) ↦ (true, rw e f)
    | inr (f, _) ↦ (false, rw e f)
  ]
]

-- `Solver` answers on every script: no assertion fails and its loops end. The solutions fit the
-- kind: one key of a valid size, one hash of 20 or 32 bytes, a version up to 16 before a program of
-- 2 to 40 bytes, or for multisig the number of signatures, at most 16 valid keys, at least as
-- many, and their number.
pub solver-IsSolution : (s : Bytes) → Solved (solver s)
unfolding solver
solver-IsSolution s = elim (Bool-cases (is_pay_to_script_hash s)) [
  | inl e ↦
      ((script_hash, slice 2 22 s ∷ []), rw e refl, (slice 2 22 s, refl, script_hash_size s e))
  | inr e ↦
      let (w, f, v) = is_witness_program-IsWitness s in
      let (r, g, k) = by_witness w v in (r, rw (e, f) g, k)
]
  where
    by_witness :
        (w : Option (ℕ × Bytes))
        → IsWitness w
        → Solved (elim w as (λ _. Option (TxOutType × List Bytes)) [
          | some (version, program) ↦ some (solve_witness version program)
          | none ↦ (do empty ← is_null_data s; if empty then some (null_data, []) else solve_keys s)
        ])
    by_witness (some (version, program)) v =
        (solve_witness version program, refl, solve_witness-IsSolution version program v)
    by_witness none v = by_null (is_null_data_total s)
      where
        by_null :
            (b : Bool) × (is_null_data s ≡ some b)
            → Solved
                (do empty ← is_null_data s; if empty then some (null_data, []) else solve_keys s)
        by_null (true, h) = ((null_data, []), rw h refl, refl)
        by_null (false, h) = let (r, g, k) = solve_keys-Solved s in (r, rw h g, k)
