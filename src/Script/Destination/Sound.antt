-- ===== src/Script/Destination/Sound.antt =====
-- `ExtractDestination` and `ExtractDestinations` answer on every script, with valid destinations.
use electrumz.Base.{
  ℕ, zero, suc, ◌≤◌, ◌==◌, Bytes, true, false, ◌≡◌, refl, sym, ap, ◌∙◌, subst, ◌⊎◌, inl, inr,
  Option, none, some, List, [], ◌∷◌, ◌++◌, length, drop, arith, length-append, length-drop, All,
  le→leb, some-injective,
}
use electrumz.Script.Solver.{
  TxOutType, nonstandard, pubkey, pubkey_hash, script_hash, multisig, null_data,
  witness_v0_script_hash, witness_v0_key_hash, witness_unknown, ◌>>=◌, solver,
}
use electrumz.Script.Solver.Keys.{IsKey}
use electrumz.Script.Solver.Sizes.{IsSolution, solver-IsSolution}
use electrumz.Script.Destination.{
  Destination, no_destination, key_id, script_id, witness_script_hash, witness_key_hash,
  unknown_witness, AddressLib, zeros, new_array, to_uint160, copy_into, all_but_last, Extracted,
  destination_of, extract_destination, key_ids, destinations_of, extract_destinations,
}

-- A destination with an address: hashes of their sizes, and a version and a program that
-- `EncodeDestination` does not turn away.
abbrev pub IsDestination : Destination → Type 0
IsDestination no_destination = ⊥
IsDestination (key_id h) = length h ≡ 20
IsDestination (script_id h) = length h ≡ 20
IsDestination (witness_key_hash h) = length h ≡ 20
IsDestination (witness_script_hash h) = length h ≡ 32
IsDestination (unknown_witness version n program) =
    (1 ≤ version) × (version ≤ 16) × (2 ≤ n) × (n ≤ 40) × (length program ≡ 40)

-- The kinds of script without a destination of their own.
abbrev pub HasNone : TxOutType → Type 0
HasNone nonstandard = Unit
HasNone null_data = Unit
HasNone multisig = Unit
HasNone _ = ⊥

pub length-zeros : (n : ℕ) → length (zeros n) ≡ n
length-zeros zero = refl
length-zeros (suc n) = ap suc (length-zeros n)

copy_into_lem :
    (start bytes : Bytes)
    → length bytes ≤ length start
    → (copied : Bytes) × (copy_into start bytes ≡ some copied) × (length copied ≡ length start)
copy_into_lem start bytes h = (
  bytes ++ drop (length bytes) start,
  rw (le→leb (length bytes) (length start) h) refl,
  omega (arith, length-append bytes (drop (length bytes) start), length-drop (length bytes) start),
)

pub length-new_array : (fresh : ℕ → ℕ) (n : ℕ) → length (new_array fresh n) ≡ n
length-new_array fresh zero = refl
length-new_array fresh (suc n) =
    omega (arith, length-append (new_array fresh n) (fresh n ∷ []), length-new_array fresh n)

to_uint160_lem : (bytes : Bytes) → length bytes ≡ 20 → to_uint160 bytes ≡ some bytes
to_uint160_lem bytes h = rw h refl

-- A valid key is not empty.
key_not_empty : (key : Bytes) → IsKey key → (length key == 0) ≡ false
key_not_empty [] h = cc
key_not_empty (b ∷ key) h = ground arith

pub all_but_last-snoc : {A : Type 0} (xs : List A) (x : A) → all_but_last (xs ++ x ∷ []) ≡ xs
all_but_last-snoc [] x = refl
all_but_last-snoc (y ∷ []) x = refl
all_but_last-snoc (y ∷ z ∷ xs) x = ap (◌∷◌ y) (all_but_last-snoc (z ∷ xs) x)

module _ (lib : AddressLib) where
  open lib use {hash160}

  abbrev pub ids_of : List Bytes → List Destination
  ids_of [] = []
  ids_of (key ∷ keys) = key_id (hash160 key) ∷ ids_of keys

  pub key_ids-IsKey : (keys : List Bytes) → All IsKey keys → key_ids lib keys ≡ (true, ids_of keys)
  unfolding key_ids
  key_ids-IsKey [] h = refl
  key_ids-IsKey (key ∷ keys) (h, hs) = rw (key_ids-IsKey keys hs, key_not_empty key h) refl

module _ (lib : AddressLib) (sized : (key : Bytes) → length (lib.hash160 key) ≡ 20) where
  open lib use {hash160}

  -- The destination of a script, or none where its kind has none.
  abbrev pub Extracts : TxOutType → Option (Option Destination) → Type 0
  Extracts kind o =
      (HasNone kind × (o ≡ some none)) ⊎ ((d : Destination) × (o ≡ some (some d)) × IsDestination d)

  destination_of-Extracts :
      (kind : TxOutType) (solutions : List Bytes)
      → IsSolution kind solutions
      → Extracts kind (destination_of lib kind solutions)
  unfolding destination_of
  destination_of-Extracts nonstandard solutions h = inl (tt, refl)
  destination_of-Extracts null_data solutions h = inl (tt, refl)
  destination_of-Extracts multisig solutions h = inl (tt, refl)
  destination_of-Extracts pubkey solutions (key, e, h) =
      inr (key_id (hash160 key), rw e (rw (key_not_empty key h) refl), sized key)
  destination_of-Extracts pubkey_hash solutions (hash, e, h) =
      inr (key_id hash, rw e (rw h refl), h)
  destination_of-Extracts script_hash solutions (hash, e, h) =
      inr (script_id hash, rw e (rw h refl), h)
  destination_of-Extracts witness_v0_key_hash solutions (hash, e, h) =
      let (copied, f, l) = copy_into_lem (zeros 20) hash (omega arith) in
      inr (witness_key_hash copied, rw e (rw f refl), l)
  destination_of-Extracts witness_v0_script_hash solutions (hash, e, h) =
      let (copied, f, l) = copy_into_lem (zeros 32) hash (omega arith) in
      inr (witness_script_hash copied, rw e (rw f refl), l)
  destination_of-Extracts witness_unknown solutions (version, program, e, h, k, l, m) =
      let (copied, f, n) =
        copy_into_lem (new_array lib.fresh 40) program
          (omega (arith, length-new_array lib.fresh 40)) in
      inr (
        unknown_witness version (length program) copied,
        rw e (rw f refl),
        (h, k, l, m, n ∙ length-new_array lib.fresh 40),
      )

  -- `ExtractDestination` answers on every script: no assertion fails and no copy runs over the
  -- end of its array. What it hands out is a destination with hashes of 20 and 32 bytes, or
  -- a version from 1 to 16 and a program of 2 to 40 bytes, and it hands out nothing for the
  -- three kinds of script without an address of their own. Hash160 gives 20 bytes.
  pub extract_destination-Extracts :
      (s : Bytes)
      → (r : TxOutType × List Bytes) × (solver s ≡ some r)
        × Extracts r.0 (extract_destination lib s)
  unfolding extract_destination
  extract_destination-Extracts s =
      let (r, e, h) = solver-IsSolution s in (r, e, rw e (destination_of-Extracts r.0 r.1 h))

  length-ids_of : (keys : List Bytes) → length (ids_of lib keys) ≡ length keys
  length-ids_of [] = refl
  length-ids_of (key ∷ keys) = ap suc (length-ids_of keys)

  ids_of-IsDestination : (keys : List Bytes) → All IsDestination (ids_of lib keys)
  ids_of-IsDestination [] = tt
  ids_of-IsDestination (key ∷ keys) = (sized key, ids_of-IsDestination keys)

  -- What `ExtractDestinations` leaves: some destinations and how many of them have to sign, or
  -- none for a script without one.
  abbrev pub IsExtracted : TxOutType → Extracted → Type 0
  IsExtracted kind r =
      (r.kind ≡ kind)
      × (((r.ok ≡ true)
            × All IsDestination r.addresses
            × (1 ≤ r.required)
            × (r.required ≤ length r.addresses))
          ⊎ ((r.ok ≡ false) × (r.addresses ≡ []) × ((kind ≡ nonstandard) ⊎ (kind ≡ null_data))))

  abbrev pub Leaves : TxOutType → Option Extracted → Type 0
  Leaves kind o = (r : Extracted) × (o ≡ some r) × IsExtracted kind r

  multisig-IsExtracted :
      (s : Bytes) (before : ℕ) (solutions : List Bytes)
      → IsSolution multisig solutions
      → Leaves multisig (destinations_of lib s before multisig solutions)
  unfolding destinations_of
  multisig-IsExtracted s before solutions (m, [], e, h, k, l, all) = absurd (omega arith)
  multisig-IsExtracted s before solutions (m, key ∷ keys, e, h, k, l, all) = (
    record { ok = true; kind = multisig; addresses = ids_of lib (key ∷ keys); required = m },
    rw e (
        rw
          (
            all_but_last-snoc (key ∷ keys) (length (key ∷ keys) ∷ []),
            key_ids-IsKey lib (key ∷ keys) all,
          )
          refl),
    (
      refl,
      inl (refl, ids_of-IsDestination (key ∷ keys), h, omega (arith, length-ids_of (key ∷ keys))),
    ),
  )

  -- The kinds with one destination.
  abbrev single : TxOutType → Option Destination → Extracted
  single kind o = elim o [
    | none ↦ record { ok = false; kind = kind; addresses = []; required = 1 }
    | some a ↦ record { ok = true; kind = kind; addresses = a ∷ []; required = 1 }
  ]

  single-IsExtracted :
      (s : Bytes) (kind : TxOutType) (solutions : List Bytes)
      → (HasNone kind → ⊥)
      → solver s ≡ some (kind, solutions)
      → Leaves kind (do d ← extract_destination lib s; some (single kind d))
  single-IsExtracted s kind solutions n e = by_answer (extract_destination-Extracts s)
    where
      by_answer :
          (r : TxOutType × List Bytes) × (solver s ≡ some r)
            × Extracts r.0 (extract_destination lib s)
          → Leaves kind (do d ← extract_destination lib s; some (single kind d))
      by_answer (r, f, inl (h, g)) = absurd (
          n (
            subst HasNone
              (ap (λ (p : TxOutType × List Bytes). p.0)
                (some-injective r (kind, solutions) (sym f ∙ e)))
              h))
      by_answer (r, f, inr (d, g, v)) =
          (single kind (some d), rw g refl, (refl, inl (refl, (v, tt), omega arith, omega arith)))

  destinations_of-IsExtracted :
      (s : Bytes) (before : ℕ) (kind : TxOutType) (solutions : List Bytes)
      → solver s ≡ some (kind, solutions)
      → IsSolution kind solutions
      → Leaves kind (destinations_of lib s before kind solutions)
  unfolding destinations_of
  destinations_of-IsExtracted s before nonstandard solutions e h =
      (_, refl, (refl, inr (refl, refl, inl refl)))
  destinations_of-IsExtracted s before null_data solutions e h =
      (_, refl, (refl, inr (refl, refl, inr refl)))
  destinations_of-IsExtracted s before multisig solutions e h =
      multisig-IsExtracted s before solutions h
  destinations_of-IsExtracted s before pubkey solutions e h =
      single-IsExtracted s pubkey solutions (λ n. n) e
  destinations_of-IsExtracted s before pubkey_hash solutions e h =
      single-IsExtracted s pubkey_hash solutions (λ n. n) e
  destinations_of-IsExtracted s before script_hash solutions e h =
      single-IsExtracted s script_hash solutions (λ n. n) e
  destinations_of-IsExtracted s before witness_v0_key_hash solutions e h =
      single-IsExtracted s witness_v0_key_hash solutions (λ n. n) e
  destinations_of-IsExtracted s before witness_v0_script_hash solutions e h =
      single-IsExtracted s witness_v0_script_hash solutions (λ n. n) e
  destinations_of-IsExtracted s before witness_unknown solutions e h =
      single-IsExtracted s witness_unknown solutions (λ n. n) e

  -- `ExtractDestinations` answers on every script, with the kind that `Solver` gives it. It is
  -- true with destinations as above, of which at least one and at most all have to sign, or
  -- false with none, and then the script is nonstandard or data. Hash160 gives 20 bytes.
  pub extract_destinations-IsExtracted :
      (s : Bytes) (before : ℕ)
      → (r : TxOutType × List Bytes) × (solver s ≡ some r)
        × Leaves r.0 (extract_destinations lib s before)
  unfolding extract_destinations
  extract_destinations-IsExtracted s before =
      let (r, e, h) = solver-IsSolution s in
      (r, e, rw e (destinations_of-IsExtracted s before r.0 r.1 e h))
