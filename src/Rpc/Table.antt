-- ===== src/Rpc/Table.antt =====
-- The table of open queries as a map from ids.
use electrumz.Base.{
  Bool, true, false, ◌≡◌, refl, ap, sym, ◌∙◌, subst, inl, inr, Option, none, some, List, [], ◌∷◌, ℤ,
  pos, negsuc, ==_iff, Bool-cases, if◌then◌else◌, arith,
}
use electrumz.Rpc.{same_int, find_id, erase_id}

pub same_int-eq : (j k : ℤ) → same_int j k ≡ true → j ≡ k
same_int-eq (pos m) (pos n) e = ap pos ((==_iff m n).0 e)
same_int-eq (negsuc m) (negsuc n) e = ap negsuc ((==_iff m n).0 e)
same_int-eq (pos m) (negsuc n) e = cc
same_int-eq (negsuc m) (pos n) e = cc

same_int_comm : (j k : ℤ) → same_int j k ≡ same_int k j
same_int_comm (pos m) (pos n) = ground arith
same_int_comm (negsuc m) (negsuc n) = ground arith
same_int_comm (pos m) (negsuc n) = refl
same_int_comm (negsuc m) (pos n) = refl

module _ {V : Type 0} where
  -- No id stands twice in the table.
  abbrev pub IsMap : List (ℤ × V) → Type 0
  IsMap [] = Unit
  IsMap ((id, v) ∷ m) = (find_id id m ≡ none) × IsMap m

  find_id-head :
      (j k : ℤ) (v : V) (m : List (ℤ × V)) (b : Bool)
      → same_int j k ≡ b
      → find_id k ((j, v) ∷ m) ≡ (if b then some v else find_id k m)
  find_id-head j k v m b e = ap (λ (t : Bool). if t then some v else find_id k m) e

  erase_id-head :
      (j k : ℤ) (v : V) (m : List (ℤ × V)) (b : Bool)
      → same_int j k ≡ b
      → erase_id k ((j, v) ∷ m) ≡ (if b then m else (j, v) ∷ erase_id k m)
  erase_id-head j k v m b e = ap (λ (t : Bool). if t then m else (j, v) ∷ erase_id k m) e

  pub find_id-erase_id : (k : ℤ) (m : List (ℤ × V)) → IsMap m → find_id k (erase_id k m) ≡ none
  find_id-erase_id k [] h = refl
  find_id-erase_id k ((j, v) ∷ m) (h, hs) = elim (Bool-cases (same_int j k)) [
    | inl same ↦
        ap (find_id k) (erase_id-head j k v m true same)
        ∙ subst (λ (i : ℤ). find_id i m ≡ none) (same_int-eq j k same) h
    | inr other ↦
        ap (find_id k) (erase_id-head j k v m false other)
        ∙ find_id-head j k v (erase_id k m) false other
        ∙ find_id-erase_id k m hs
  ]

  pub find_id-erase_id_other :
      (i k : ℤ) (m : List (ℤ × V)) → same_int i k ≡ false → find_id k (erase_id i m) ≡ find_id k m
  find_id-erase_id_other i k [] h = refl
  find_id-erase_id_other i k ((j, v) ∷ m) h = elim (Bool-cases (same_int j i)) [
    | inl same ↦
        ap (find_id k) (erase_id-head j i v m true same)
        ∙ sym (
            find_id-head j k v m false
              (subst (λ (x : ℤ). same_int x k ≡ false) (sym (same_int-eq j i same)) h))
    | inr other ↦
        ap (find_id k) (erase_id-head j i v m false other)
        ∙ ap (λ (r : Option V). if same_int j k then some v else r) (find_id-erase_id_other i k m h)
  ]

  pub IsMap-erase_id : (k : ℤ) (m : List (ℤ × V)) → IsMap m → IsMap (erase_id k m)
  IsMap-erase_id k [] h = tt
  IsMap-erase_id k ((j, v) ∷ m) (h, hs) = elim (Bool-cases (same_int j k)) [
    | inl same ↦ subst IsMap (sym (erase_id-head j k v m true same)) hs
    | inr other ↦
        subst IsMap (sym (erase_id-head j k v m false other))
          (find_id-erase_id_other k j m (same_int_comm k j ∙ other) ∙ h, IsMap-erase_id k m hs)
  ]
