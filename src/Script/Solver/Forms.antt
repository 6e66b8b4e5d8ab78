-- ===== src/Script/Solver/Forms.antt =====
-- The tests of `Solver` on a script by its first bytes and its length.
use electrumz.Base.{
  ℕ, suc, ◌+◌, ◌<◌, ◌≤◌, ◌==◌, Bytes, Bool, true, false, ◌&&◌, ◌≡◌, refl, subst, Option, none, some,
  List, [], ◌∷◌, ◌++◌, length, take, get_elem?, if◌then◌else◌, arith, take-append_front,
}
use electrumz.Script.Solver.{
  is_at, ends_with, slice, if_valid, is_pay_to_script_hash, is_witness_program, match_pay_to_pubkey,
  match_pay_to_pubkey_hash, match_multisig, is_null_data, solve_witness, solve_keys, solve_multisig,
  solver, pubkey_hash,
}

-- The element behind a front of `k`, and the front itself.
pub get_elem?-front :
    (k : ℕ) (front : Bytes) (x : ℕ) (rest : Bytes)
    → length front ≡ k
    → get_elem? (front ++ x ∷ rest) k ≡ some x
get_elem?-front k [] x rest e = rw (← e) refl
get_elem?-front k (y ∷ front) x rest e = rw (← e) (get_elem?-front (length front) front x rest refl)

-- The element behind that one.
pub get_elem?-last :
    (k : ℕ) (front : Bytes) (x y : ℕ)
    → length front ≡ k
    → get_elem? (front ++ x ∷ y ∷ []) (suc k) ≡ some y
get_elem?-last k [] x y e = rw (← e) refl
get_elem?-last k (z ∷ front) x y e = rw (← e) (get_elem?-last (length front) front x y refl)

pub take-front : (k : ℕ) (front rest : Bytes) → length front ≡ k → take k (front ++ rest) ≡ front
take-front k front rest e =
    subst (λ (n : ℕ). take n (front ++ rest) ≡ front) e (take-append_front front rest)

module _ (b : ℕ) (bytes : Bytes) where
  pub is_pay_to_script_hash-head : (b == 0xa9) ≡ false → is_pay_to_script_hash (b ∷ bytes) ≡ false
  unfolding is_pay_to_script_hash
  is_pay_to_script_hash-head e = rw e (by_length (length (b ∷ bytes) == 23))
    where
      by_length :
          (t : Bool) → (t && false && is_at (b ∷ bytes) 1 0x14 && is_at (b ∷ bytes) 22 0x87) ≡ false
      by_length true = refl
      by_length false = refl

  pub is_pay_to_script_hash-length :
      (length (b ∷ bytes) == 23) ≡ false → is_pay_to_script_hash (b ∷ bytes) ≡ false
  unfolding is_pay_to_script_hash
  is_pay_to_script_hash-length e = rw e refl

  pub match_pay_to_pubkey-head :
      (b == 65) ≡ false → (b == 33) ≡ false → match_pay_to_pubkey (b ∷ bytes) ≡ none
  unfolding match_pay_to_pubkey
  match_pay_to_pubkey-head e f =
      rw (e, f) (by_length (length (b ∷ bytes) == 67) (length (b ∷ bytes) == 35))
    where
      by_length :
          (t u : Bool)
          → (if t && false && ends_with (b ∷ bytes) 0xac
              then if_valid (slice 1 66 (b ∷ bytes))
              else if u && false && ends_with (b ∷ bytes) 0xac
              then if_valid (slice 1 34 (b ∷ bytes))
              else none)
            ≡ none
      by_length true true = refl
      by_length true false = refl
      by_length false true = refl
      by_length false false = refl

  pub match_pay_to_pubkey_hash-head :
      (b == 0x76) ≡ false → match_pay_to_pubkey_hash (b ∷ bytes) ≡ none
  unfolding match_pay_to_pubkey_hash
  match_pay_to_pubkey_hash-head e = rw e (by_length (length (b ∷ bytes) == 25))
    where
      by_length :
          (t : Bool)
          → (if t
                && false
                && is_at (b ∷ bytes) 1 0xa9
                && is_at (b ∷ bytes) 2 20
                && is_at (b ∷ bytes) 23 0x88
                && is_at (b ∷ bytes) 24 0xac
              then some (slice 3 23 (b ∷ bytes))
              else none)
            ≡ none
      by_length true = refl
      by_length false = refl

  pub is_null_data-head : (b == 0x6a) ≡ false → is_null_data (b ∷ bytes) ≡ some false
  unfolding is_null_data
  is_null_data-head e = rw e refl

module _ (version size : ℕ) (program : Bytes) where
  -- Not a version, or not the length.
  pub is_witness_program-high :
      96 < version → is_witness_program (version ∷ size ∷ program) ≡ some none
  unfolding is_witness_program
  is_witness_program-high h = ground arith

  pub is_witness_program-size :
      (size == length program) ≡ false → is_witness_program (version ∷ size ∷ program) ≡ some none
  unfolding is_witness_program
  is_witness_program-size h = ground arith

pub is_witness_program-zero :
    (program : Bytes) (n : ℕ)
    → length program ≡ n
    → 2 ≤ n
    → n ≤ 40
    → is_witness_program (0 ∷ n ∷ program) ≡ some (some (0, program))
unfolding is_witness_program
is_witness_program-zero program n e h k = ground arith

pub is_witness_program-version :
    (program : Bytes) (n v : ℕ)
    → length program ≡ n
    → 2 ≤ n
    → n ≤ 40
    → 1 ≤ v
    → v ≤ 16
    → is_witness_program ((80 + v) ∷ n ∷ program) ≡ some (some (v, program))
unfolding is_witness_program
is_witness_program-version program n v e h k l m = ground arith

-- The steps of `Solver`, by the answers of its tests.
module _ (s : Bytes) (other : is_pay_to_script_hash s ≡ false) where
  pub solver-witness :
      (version : ℕ) (program : Bytes)
      → is_witness_program s ≡ some (some (version, program))
      → solver s ≡ some (solve_witness version program)
  unfolding solver
  solver-witness version program e = rw (other, e) refl

  pub solver-keys :
      is_witness_program s ≡ some none → is_null_data s ≡ some false → solver s ≡ solve_keys s
  unfolding solver
  solver-keys e f = rw (other, e) (rw f refl)

module _ (s : Bytes) (other : match_pay_to_pubkey s ≡ none) where
  pub solve_keys-hash :
      (h : Bytes) → match_pay_to_pubkey_hash s ≡ some h → solve_keys s ≡ some (pubkey_hash, h ∷ [])
  unfolding solve_keys
  solve_keys-hash h e = rw (other, solve_keys) (rw (e, solve_keys) refl)

  pub solve_keys-multisig :
      (m : Option (ℕ × List Bytes))
      → match_pay_to_pubkey_hash s ≡ none
      → match_multisig s ≡ some m
      → solve_keys s ≡ some (solve_multisig m)
  unfolding solve_keys
  solve_keys-multisig m e f = rw (other, solve_keys) (rw (e, solve_keys) (rw f refl))
