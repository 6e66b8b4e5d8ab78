-- ===== src/Script/Solver/Multisig.antt =====
-- A multisig script, written and matched.
use electrumz.Base.{
  ℕ, zero, suc, ◌+◌, ◌-◌, ◌<◌, ◌≤◌, ◌==◌, Bytes, Bool, true, false, not, ◌||◌, ◌≡◌, refl, sym, ap,
  ap₂, ◌∙◌, subst, Option, none, some, List, [], ◌∷◌, ◌++◌, length, ltb, if◌then◌else◌, arith,
  append_assoc, append-nil, length-append, All,
}
use electrumz.Script.Ops.{found, is_small_integer, decode_op_n}
use electrumz.Script.Ops.Encoding.{get_script_op-short, get_script_op-alone}
use electrumz.Script.Solver.{
  multisig, ◌>>=◌, is_at, ends_with, keys_loop, after_keys, match_multisig, solver,
  is_witness_program,
}
use electrumz.Script.Solver.Forms.{
  get_elem?-last, is_pay_to_script_hash-head, is_witness_program-size, is_null_data-head,
  match_pay_to_pubkey-head, match_pay_to_pubkey_hash-head, solver-keys, solve_keys-multisig,
}
use electrumz.Script.Solver.Keys.{IsKey}

abbrev pub pushes : List Bytes → Bytes → Bytes
pushes [] rest = rest
pushes (key ∷ keys) rest = length key ∷ (key ++ pushes keys rest)

-- OP_m, a push of each key, OP_n and OP_CHECKMULTISIG.
abbrev pub multisig_script : ℕ → List Bytes → Bytes
multisig_script required keys = (80 + required) ∷ pushes keys ((80 + length keys) ∷ 0xae ∷ [])

-- What the pushes take.
abbrev total : List Bytes → ℕ
total [] = 0
total (key ∷ keys) = suc (length key + total keys)

length-pushes :
    (keys : List Bytes) (rest : Bytes) → length (pushes keys rest) ≡ total keys + length rest
length-pushes [] rest = omega arith
length-pushes (key ∷ keys) rest =
    omega (arith, length-append key (pushes keys rest), length-pushes keys rest)

length-le-total : (keys : List Bytes) → length keys ≤ total keys
length-le-total [] = omega arith
length-le-total (key ∷ keys) = omega (arith, length-le-total keys)

-- Both sizes of a key are below those with a size of their own.
key_is_short : (key : Bytes) → IsKey key → length key < 0x4c
key_is_short [] h = omega arith
key_is_short (b ∷ key) h = ground arith

keys_loop-pushes :
    (fuel : ℕ) (before keys : List Bytes) (op : ℕ) (rest : Bytes)
    → length keys < fuel
    → All IsKey keys
    → 0x4e < op
    → keys_loop fuel before (pushes keys (op ∷ rest)) ≡ some (before ++ keys, found op [] rest)
unfolding keys_loop
keys_loop-pushes zero before keys op rest h k l = absurd (omega arith)
keys_loop-pushes (suc fuel) before [] op rest h k l =
    rw (get_script_op-alone op rest l)
      (ap (λ (b : List Bytes). some (b, found op [] rest)) (sym (append-nil before)))
keys_loop-pushes (suc fuel) before (key ∷ keys) op rest h (k, ks) l =
    rw (get_script_op-short key (pushes keys (op ∷ rest)) (key_is_short key k)) (
      rw k (
        keys_loop-pushes fuel (before ++ key ∷ []) keys op rest (omega arith) ks l
        ∙ ap (λ (b : List Bytes). some (b, found op [] rest))
            (append_assoc before (key ∷ []) keys)))

pushes-append : (keys : List Bytes) (rest : Bytes) → pushes keys rest ≡ pushes keys [] ++ rest
pushes-append [] rest = refl
pushes-append (key ∷ keys) rest =
    ap (λ (b : Bytes). length key ∷ (key ++ b)) (pushes-append keys rest)
    ∙ ap (◌∷◌ (length key)) (sym (append_assoc key (pushes keys []) rest))

ends_with-last : (front : Bytes) (x y : ℕ) → ends_with (front ++ x ∷ y ∷ []) y ≡ true
ends_with-last front x y =
    ap (is_last) index
    ∙ ap (λ (o : Option ℕ). elim o [ none ↦ false | some z ↦ z == y ])
        (get_elem?-last (length front) front x y refl)
    ∙ ground arith
  where
    is_last : ℕ → Bool
    is_last i = is_at (front ++ x ∷ y ∷ []) i y

    index : length (front ++ x ∷ y ∷ []) - 1 ≡ suc (length front)
    index = omega (arith, length-append front (x ∷ y ∷ []))

ends_with-multisig_script :
    (required : ℕ) (keys : List Bytes) → ends_with (multisig_script required keys) 0xae ≡ true
ends_with-multisig_script required keys =
    subst (λ (s : Bytes). ends_with s 0xae ≡ true)
      (sym (ap (◌∷◌ (80 + required)) (pushes-append keys ((80 + length keys) ∷ 0xae ∷ []))))
      (ends_with-last ((80 + required) ∷ pushes keys []) (80 + length keys) 0xae)

-- The tests of `MatchMultisig` on the first operation, passed.
first_passes :
    {A : Type 0} (n size : ℕ) (other : A) (on : ℕ → Option A)
    → 1 ≤ n
    → n ≤ 16
    → (if ltb (suc size) 1 || not true
        then some other
        else if not true || not (is_small_integer (80 + n))
        then some other
        else (do m ← decode_op_n (80 + n); on m))
      ≡ on n
first_passes n size other on h k = ground arith

-- Those on what stands behind the keys.
after_keys-passes :
    (required n : ℕ) (keys : List Bytes)
    → length keys ≡ n
    → required ≤ n
    → 1 ≤ n
    → n ≤ 16
    → after_keys required (keys, found (80 + n) [] (0xae ∷ [])) ≡ some (some (required, keys))
after_keys-passes required n keys e h k l = ground arith

match_multisig-multisig_script :
    (required : ℕ) (keys : List Bytes)
    → 1 ≤ required
    → required ≤ length keys
    → length keys ≤ 16
    → All IsKey keys
    → match_multisig (multisig_script required keys) ≡ some (some (required, keys))
unfolding match_multisig
match_multisig-multisig_script required keys h k l all =
    let behind = (80 + length keys) ∷ 0xae ∷ [] in
    let size = length (pushes keys behind) in
    let enough : length keys < suc (suc size) =
      omega (arith, length-pushes keys behind, length-le-total keys) in
    rw (ends_with-multisig_script required keys) (
      rw (get_script_op-alone (80 + required) (pushes keys behind) (omega arith)) (
        first_passes required size none
          (λ m. do r ← keys_loop (suc (suc size)) [] (pushes keys behind); after_keys m r) h
          (omega arith)
        ∙ rw
            (keys_loop-pushes (suc (suc size)) [] keys (80 + length keys) (0xae ∷ []) enough all
              (omega arith))
            (after_keys-passes required (length keys) keys refl k (omega arith) l)))

-- The byte behind the first one is the size of the first key, not of all that follows.
not_witness :
    (version : ℕ) (key : Bytes) (keys : List Bytes) (rest : Bytes)
    → (length key == length (key ++ pushes keys rest)) ≡ false
    → is_witness_program (version ∷ pushes (key ∷ keys) rest) ≡ some none
not_witness version key keys rest h =
    is_witness_program-size version (length key) (key ++ pushes keys rest) h

-- A multisig script of at most 16 keys of valid sizes, of which at least one has to sign, is
-- recognised, with that number, the keys in order, and how many they are.
pub solver-multisig_script :
    (required : ℕ) (keys : List Bytes)
    → 1 ≤ required
    → required ≤ length keys
    → length keys ≤ 16
    → All IsKey keys
    → solver (multisig_script required keys)
      ≡ some (multisig, (required ∷ []) ∷ (keys ++ (length keys ∷ []) ∷ []))
solver-multisig_script required [] h k l all = absurd (omega arith)
solver-multisig_script required (key ∷ keys) h k l all =
    let s = multisig_script required (key ∷ keys) in
    let b = 80 + required in
    let behind = (80 + length (key ∷ keys)) ∷ 0xae ∷ [] in
    let bytes = pushes (key ∷ keys) behind in
    let longer : length key < length (key ++ pushes keys behind) =
      omega (arith, length-append key (pushes keys behind), length-pushes keys behind) in
    let m = match_multisig-multisig_script required (key ∷ keys) h k l all in
    solver-keys s (is_pay_to_script_hash-head b bytes (ground arith))
      (not_witness b key keys behind (lt_ne (length key) _ longer))
      (is_null_data-head b bytes (ground arith))
    ∙ solve_keys-multisig s (match_pay_to_pubkey-head b bytes (ground arith) (ground arith))
        (some (required, key ∷ keys)) (match_pay_to_pubkey_hash-head b bytes (ground arith)) m
    ∙ ap₂ (λ (m n : ℕ). some (multisig, (m ∷ []) ∷ ((key ∷ keys) ++ (n ∷ []) ∷ []))) (omega arith)
        (omega arith)
  where
    lt_ne : (n m : ℕ) → n < m → (n == m) ≡ false
    lt_ne n m h = ground arith
