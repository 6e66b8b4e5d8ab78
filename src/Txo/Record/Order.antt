-- ===== src/Txo/Record/Order.antt =====
-- Whether the comparison of stored outputs follows their numbers.
use electrumz.Base.{
  ℕ, ◌+◌, ◌-◌, ◌%◌, ◌<◌, ◌≤◌, Bool, true, false, ◌++◌, ◌≡◌, refl, ap, ◌∙◌, ◌↔◌, take, ltb, ℤ, pos,
  negsuc, arith, take-append_front, if◌then◌else◌, Bool-cases, inl, inr,
}
use electrumz.Txo.Record.{Txo, le_bytes, from_le, write_out_point, write_txo, compare_outputs}
use electrumz.Txo.Record.RoundTrip.{from_le-le_bytes, four_bytes}

abbrev pub is_negative : ℤ → Bool
is_negative (pos n) = false
is_negative (negsuc n) = true

-- The difference of two numbers of 32 bits, as the unsigned number that it wraps to.
abbrev wrapped : ℕ → ℕ → ℕ
wrapped m n = (m + 4294967296 - n) % 4294967296

abbrev signed : ℕ → ℤ
signed d = if ltb d 2147483648 then pos d else negsuc (4294967295 - d)

signed_iff : (d : ℕ) → (is_negative (signed d) ≡ true) ↔ (2147483648 ≤ d)
signed_iff d = elim (Bool-cases (ltb d 2147483648)) [
  | inl e ↦ rw e ((λ f. absurd (ground arith), λ h. absurd (ground arith)))
  | inr e ↦ rw e ((λ f. ground arith, λ h. refl))
]

wrapped_iff :
    (m n : ℕ)
    → m < 4294967296
    → n < 4294967296
    → (((2147483648 ≤ wrapped m n) ↔ (m < n)) × ((2147483648 ≤ wrapped n m) ↔ (n < m)))
      ↔ ((m - n < 2147483648) × (n - m < 2147483648))
wrapped_iff m n h k = (
  λ (p, q). (near m n h k p.0, near n m k h q.0),
  λ (p, q). ((λ l. omega arith, λ l. omega arith), (λ l. omega arith, λ l. omega arith)),
)
  where
    near :
        (m n : ℕ)
        → m < 4294967296
        → n < 4294967296
        → (2147483648 ≤ wrapped m n → m < n)
        → m - n < 2147483648
    near m n h k f = elim (Bool-cases (ltb (m - n) 2147483648)) [
      | inl e ↦ ground arith
      | inr e ↦ absurd (omega (arith, ltb-false m n e, f (omega (arith, ltb-false m n e))))
    ]
      where
        ltb-false : (m n : ℕ) → ltb (m - n) 2147483648 ≡ false → 2147483648 ≤ m - n
        ltb-false m n e = ground arith

take_n : (t : Txo) → t.n < 4294967296 → from_le (take 4 (write_txo t)) ≡ t.n
unfolding write_txo
take_n t h =
    ap from_le (take-append_front (le_bytes 4 t.n) (le_bytes 8 t.value ++ write_out_point t.spend))
    ∙ from_le-le_bytes 4 t.n (four_bytes t.n h)

-- Comparing stored outputs follows the order of their numbers of 32 bits, whichever of the two is
-- on the left, if and only if the numbers differ by less than 2 ^ 31.
pub compare_outputs_iff :
    (s t : Txo)
    → s.n < 4294967296
    → t.n < 4294967296
    → (((is_negative (compare_outputs (write_txo s) (write_txo t)) ≡ true) ↔ (s.n < t.n))
        × ((is_negative (compare_outputs (write_txo t) (write_txo s)) ≡ true) ↔ (t.n < s.n)))
      ↔ ((s.n - t.n < 2147483648) × (t.n - s.n < 2147483648))
unfolding compare_outputs
compare_outputs_iff s t h k =
    rw (take_n s h, take_n t k)
      (let (a, b) = signed_iff (wrapped s.n t.n) in
        let (c, d) = signed_iff (wrapped t.n s.n) in
        let (f, g) = wrapped_iff s.n t.n h k in
        (
          λ ((p, p'), (q, q')). f ((λ l. p (b l), λ l. a (p' l)), (λ l. q (d l), λ l. c (q' l))),
          λ w.
              let ((p, p'), (q, q')) = g w in
              ((λ l. p (a l), λ l. b (p' l)), (λ l. q (c l), λ l. d (q' l))),
        ))
