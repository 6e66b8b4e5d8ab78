-- ===== src/Script/Solver/Witness.antt =====
-- The matcher of witness programs.
use electrumz.Base.{
  ℕ, ◌+◌, ◌-◌, ◌≤◌, ◌==◌, Bytes, Bool, true, false, not, ◌&&◌, ◌||◌, ◌≡◌, refl, inl, inr, Option,
  none, some, [], ◌∷◌, length, ltb, if◌then◌else◌, arith, Bool-cases,
}
use electrumz.Script.Ops.{is_small_integer, decode_op_n}
use electrumz.Script.Solver.{◌>>=◌, is_witness_program}
use electrumz.Script.Solver.Keys.{decode_small}

-- A match of a witness program.
abbrev pub IsWitness : Option (ℕ × Bytes) → Type 0
IsWitness none = Unit
IsWitness (some (version, program)) = (version ≤ 16) × (2 ≤ length program) × (length program ≤ 40)

pub is_witness_program-IsWitness :
    (s : Bytes) → (w : Option (ℕ × Bytes)) × (is_witness_program s ≡ some w) × IsWitness w
unfolding is_witness_program
is_witness_program-IsWitness [] = (none, refl, tt)
is_witness_program-IsWitness (version ∷ []) = (none, refl, tt)
is_witness_program-IsWitness (version ∷ size ∷ program) = by_tests _ _ _ refl refl refl
  where
    n : ℕ
    n = length program + 2

    by_tests :
        (a b c : Bool)
        → (ltb n 4 || ltb 42 n) ≡ a
        → (not (version == 0) && (ltb version 81 || ltb 96 version)) ≡ b
        → (size + 2 == n) ≡ c
        → (w : Option (ℕ × Bytes)) × ((if a
              then some none
              else if b
              then some none
              else if c
              then (do v ← decode_op_n version; some (some (v, program)))
              else some none)
            ≡ some w)
          × IsWitness w
    by_tests true b c e f g = (none, refl, tt)
    by_tests false true c e f g = (none, refl, tt)
    by_tests false false false e f g = (none, refl, tt)
    by_tests false false true e f g = elim (Bool-cases (version == 0)) [
      | inl z ↦ (some (0, program), rw z refl, (omega arith, ground arith, ground arith))
      | inr z ↦
          let small : is_small_integer version ≡ true = ground arith in
          let (d, l, u) = decode_small version small in
          (some (version - 80, program), rw (z, small) refl, (u, ground arith, ground arith))
    ]
