-- ===== src/Script/Destination/RoundTrip.antt =====
-- The script of a destination, and the destination extracted from it.
use electrumz.Base.{
  ℕ, ◌+◌, ◌≤◌, ◌==◌, Bytes, true, false, ◌≡◌, refl, ap, ap₂, ◌∙◌, ◌&&◌, Option, append-nil, le→leb,
  none, some, List, [], ◌∷◌, ◌++◌, length, take, drop, zero, suc, if◌then◌else◌, arith,
  length-append, length-take, All,
}
use electrumz.Script.Solver.{
  pubkey_hash, script_hash, witness_unknown, multisig, slice, solve_witness, is_pay_to_script_hash,
  match_pay_to_pubkey_hash, solver,
}
use electrumz.Script.Solver.Forms.{
  get_elem?-front, get_elem?-last, take-front, solver-witness, solver-keys, solve_keys-hash,
  is_pay_to_script_hash-head, match_pay_to_pubkey-head, is_null_data-head, is_witness_program-high,
  is_witness_program-zero, is_witness_program-version,
}
use electrumz.Script.Destination.{
  Destination, no_destination, key_id, script_id, witness_script_hash, witness_key_hash,
  unknown_witness, AddressLib, zeros, new_array, copy_into, destination_of, extract_destination,
  destinations_of, extract_destinations,
}
use electrumz.Script.Destination.Sound.{
  length-new_array, length-zeros, IsDestination, ids_of, key_ids-IsKey, all_but_last-snoc,
}
use electrumz.Script.Solver.Keys.{IsKey}
use electrumz.Script.Solver.Multisig.{multisig_script, solver-multisig_script}

-- The script that pays to a destination.
abbrev pub script_for : Destination → Bytes
script_for no_destination = []
script_for (key_id h) = 0x76 ∷ 0xa9 ∷ 20 ∷ (h ++ 0x88 ∷ 0xac ∷ [])
script_for (script_id h) = 0xa9 ∷ 20 ∷ (h ++ 0x87 ∷ [])
script_for (witness_key_hash h) = 0 ∷ 20 ∷ h
script_for (witness_script_hash h) = 0 ∷ 32 ∷ h
script_for (unknown_witness version n program) = (80 + version) ∷ n ∷ take n program

-- The program of a destination in a new array, which keeps what stood in it behind the program.
abbrev pub in_array : AddressLib → Destination → Destination
in_array lib (unknown_witness version n program) =
    unknown_witness version n (take n program ++ drop n (new_array lib.fresh 40))
in_array lib d = d

match_key : (h : Bytes) → length h ≡ 20 → match_pay_to_pubkey_hash (script_for (key_id h)) ≡ some h
unfolding match_pay_to_pubkey_hash
match_key h e = rw size (
    ap₂
      (λ (a b : Option ℕ).
        if elim a [ none ↦ false | some y ↦ y == 0x88 ]
          && elim b [ none ↦ false | some y ↦ y == 0xac ]
        then some (slice 3 23 (script_for (key_id h)))
        else none)
      (get_elem?-front 20 h 0x88 (0xac ∷ []) e) (get_elem?-last 20 h 0x88 0xac e)
    ∙ ap some (take-front 20 h (0x88 ∷ 0xac ∷ []) e))
  where
    size : length (h ++ 0x88 ∷ 0xac ∷ []) ≡ 22
    size = omega (arith, length-append h (0x88 ∷ 0xac ∷ []))

solver-key :
    (h : Bytes) → length h ≡ 20 → solver (script_for (key_id h)) ≡ some (pubkey_hash, h ∷ [])
solver-key h e =
    let rest = 20 ∷ (h ++ 0x88 ∷ 0xac ∷ []) in
    solver-keys (script_for (key_id h)) (is_pay_to_script_hash-head 0x76 (0xa9 ∷ rest) refl)
      (is_witness_program-high 0x76 0xa9 rest (omega arith))
      (is_null_data-head 0x76 (0xa9 ∷ rest) refl)
    ∙ solve_keys-hash (script_for (key_id h))
        (match_pay_to_pubkey-head 0x76 (0xa9 ∷ rest) refl refl) h (match_key h e)

is_script_hash :
    (h : Bytes) → length h ≡ 20 → is_pay_to_script_hash (script_for (script_id h)) ≡ true
unfolding is_pay_to_script_hash
is_script_hash h e = rw size (
    ap (λ (o : Option ℕ). elim o [ none ↦ false | some y ↦ y == 0x87 ])
      (get_elem?-front 20 h 0x87 [] e))
  where
    size : length (h ++ 0x87 ∷ []) ≡ 21
    size = omega (arith, length-append h (0x87 ∷ []))

solver-script :
    (h : Bytes) → length h ≡ 20 → solver (script_for (script_id h)) ≡ some (script_hash, h ∷ [])
unfolding solver
solver-script h e = rw (is_script_hash h e) (rw (take-front 20 h (0x87 ∷ []) e) refl)

copy_part :
    (start bytes : Bytes) (n : ℕ)
    → length bytes ≡ n
    → n ≤ length start
    → copy_into start bytes ≡ some (bytes ++ drop n start)
copy_part start bytes n e h =
    rw (le→leb (length bytes) (length start) (omega arith))
      (ap (λ (m : ℕ). some (bytes ++ drop m start)) e)

drop-zeros : (n : ℕ) → drop n (zeros n) ≡ []
drop-zeros zero = refl
drop-zeros (suc n) = drop-zeros n

copy_all : (n : ℕ) (bytes : Bytes) → length bytes ≡ n → copy_into (zeros n) bytes ≡ some bytes
copy_all n bytes e =
    copy_part (zeros n) bytes n e (omega (arith, length-zeros n))
    ∙ rw (drop-zeros n) (ap some (append-nil bytes))

solver-program :
    (h : Bytes) (n : ℕ)
    → length h ≡ n
    → 2 ≤ n
    → n ≤ 40
    → solver (0 ∷ n ∷ h) ≡ some (solve_witness 0 h)
solver-program h n e l m =
    solver-witness (0 ∷ n ∷ h) (is_pay_to_script_hash-head 0 (n ∷ h) refl) 0 h
      (is_witness_program-zero h n e l m)

solve_witness-version :
    (version : ℕ) (program : Bytes)
    → 1 ≤ version
    → version ≤ 16
    → solve_witness version program ≡ (witness_unknown, (version ∷ []) ∷ program ∷ [])
solve_witness-version version program h k =
    rw (not_zero version h)
      (ap (λ (v : ℕ). (witness_unknown, (v ∷ []) ∷ program ∷ [])) (omega arith))
  where
    not_zero : (n : ℕ) → 1 ≤ n → (n == 0) ≡ false
    not_zero n h = ground arith

module _ (lib : AddressLib) where
  -- The destination that was paid to is extracted from its script: a hash of 20 or 32 bytes, or a
  -- version from 1 to 16 with its program of 2 to 40 bytes. The array of the program has behind it
  -- what stood in its memory.
  pub extract_destination-script_for :
      (d : Destination)
      → IsDestination d
      → extract_destination lib (script_for d) ≡ some (some (in_array lib d))
  unfolding extract_destination destination_of
  extract_destination-script_for no_destination h = absurd h
  extract_destination-script_for (key_id h) e = rw (solver-key h e) (rw e refl)
  extract_destination-script_for (script_id h) e = rw (solver-script h e) (rw e refl)
  extract_destination-script_for (witness_key_hash h) e =
      rw (solver-program h 20 e (omega arith) (omega arith)) (rw e (rw (copy_all 20 h e) refl))
  extract_destination-script_for (witness_script_hash h) e =
      rw (solver-program h 32 e (omega arith) (omega arith)) (rw e (rw (copy_all 32 h e) refl))
  extract_destination-script_for (unknown_witness version n program) (a, b, c, d, e) =
      let front = take n program in
      let l : length front ≡ n = omega (arith, length-take n program) in
      rw
        (solver-witness ((80 + version) ∷ n ∷ front)
          (is_pay_to_script_hash-head (80 + version) (n ∷ front) (ground arith)) version front
          (is_witness_program-version front n version l c d a b))
        (rw (solve_witness-version version front a b) (
          rw
            (copy_part (new_array lib.fresh 40) front n l
              (omega (arith, length-new_array lib.fresh 40)))
            (ap
              (λ (m : ℕ).
                some (some (unknown_witness version m (front ++ drop n (new_array lib.fresh 40)))))
              l)))

  -- The destinations in a multisig script of at most 16 keys of valid sizes, of which at least one
  -- has to sign: the hash of each key in order, and how many of them have to sign.
  pub extract_destinations-multisig_script :
      (required : ℕ) (keys : List Bytes) (before : ℕ)
      → 1 ≤ required
      → required ≤ length keys
      → length keys ≤ 16
      → All IsKey keys
      → extract_destinations lib (multisig_script required keys) before
        ≡ some (record {
          ok = true;
          kind = multisig;
          addresses = ids_of lib keys;
          required = required;
        })
  unfolding extract_destinations destinations_of
  extract_destinations-multisig_script required [] before h k l all = absurd (omega arith)
  extract_destinations-multisig_script required (key ∷ keys) before h k l all =
      rw (solver-multisig_script required (key ∷ keys) h k l all) (
        rw
          (
            all_but_last-snoc (key ∷ keys) (length (key ∷ keys) ∷ []),
            key_ids-IsKey lib (key ∷ keys) all,
          )
          refl)
