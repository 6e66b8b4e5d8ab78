-- ===== src/Connection/Read/Scan.antt =====
-- The searches over the memory of a message, and one round of the loop over lines.
use electrumz.Base.{
  ℕ, suc, ◌+◌, ◌-◌, Bytes, codes, Bool, false, ◌≡◌, ◌≢◌, refl, inl, inr, Bool-cases, [], ◌∷◌, ◌++◌,
  length, drop, take-append_front, ltb, ◌==◌, ==_iff, if◌then◌else◌, arith, All, add-one,
}
use electrumz.Base.Outcome.{done, Exec, continue}
use electrumz.Json.{JsonLib}
use electrumz.Connection.Memory.{
  strchr, strstr, match_front, found_front, shift, Match, beyond, Found, at, absent, overrun,
}
use electrumz.Connection.State.{Io, Platform}
use electrumz.Connection.Tls.{TlsLib}
use electrumz.Connection.Read.{delim, Rest, complete, rejected, leftover, run_line, parse_lines}

-- Neither a newline nor a NUL.
abbrev pub IsPlain : ℕ → Type 0
IsPlain x = ((x == delim) ≡ false) × ((x == 0) ≡ false)

pub strchr_line :
    (line rest : Bytes)
    → All IsPlain line
    → strchr delim (line ++ (delim ∷ rest)) ≡ at (length line)
unfolding strchr
strchr_line [] rest h = refl
strchr_line (x ∷ xs) rest ((h, k), t) = rw (h, k, strchr_line xs rest t)

pub strchr_open :
    (line rest : Bytes) → All IsPlain line → strchr delim (line ++ (0 ∷ rest)) ≡ absent
unfolding strchr
strchr_open [] rest h = refl
strchr_open (x ∷ xs) rest ((h, k), t) = rw (h, k, strchr_open xs rest t)

drop_line_suc : (line rest : Bytes) → drop (suc (length line)) (line ++ (delim ∷ rest)) ≡ rest
drop_line_suc [] rest = refl
drop_line_suc (x ∷ xs) rest = drop_line_suc xs rest

pub drop_line : (line rest : Bytes) → drop (length line + 1) (line ++ (delim ∷ rest)) ≡ rest
drop_line line rest = rw (add-one (length line)) (drop_line_suc line rest)

match_front_ends :
    (ps xs rest : Bytes)
    → All (λ p. (0 == p) ≡ false) ps
    → match_front ps (xs ++ (0 ∷ rest)) ≢ beyond
unfolding match_front
match_front_ends [] xs rest h = cc
match_front_ends (p ∷ ps) [] rest (h, t) = rw h (cc)
match_front_ends (p ∷ ps) (x ∷ xs) rest (h, t) = elim (Bool-cases (x == p)) [
  | inl e ↦ rw e (match_front_ends ps xs rest t)
  | inr e ↦ rw e (cc)
]

found_front_ends :
    (m : Match) (x : ℕ) (later : Found)
    → m ≢ beyond
    → later ≢ overrun
    → found_front m x later ≢ overrun
found_front_ends m x later h k = ground arith

-- A search for "GET" over memory with a NUL in it does not run over.
pub strstr_ends : (mem rest : Bytes) → strstr (codes "GET") (mem ++ (0 ∷ rest)) ≢ overrun
unfolding strstr
strstr_ends [] rest = cc
strstr_ends (x ∷ xs) rest =
    found_front_ends _ x _ (match_front_ends (codes "GET") (x ∷ xs) rest (refl, (refl, (refl, tt))))
      (strstr_ends xs rest)

shift-ne-zero : (f : Found) → shift f ≢ at 0
shift-ne-zero f = ground arith

-- It does not answer 0 if the first byte is not a `G`.
pub strstr_front : (x : ℕ) (mem : Bytes) → x ≢ b'G' → strstr (codes "GET") (x ∷ mem) ≢ at 0
unfolding strstr
strstr_front x mem h = elim (Bool-cases (x == b'G')) [
  | inl e ↦ absurd (h ((==_iff x b'G').0 e))
  | inr e ↦ rw e (elim (Bool-cases (x == 0)) [ inl z ↦ rw z (cc) | inr z ↦ rw z (shift-ne-zero _) ])
]

module _ {S : Type 0} (json : JsonLib) (tls : TlsLib) (platform : Platform)
    (handle : json.Json → Exec (Io S) ℕ) where
  -- What follows the handling of a line of `mlen` bytes.
  abbrev pub next_line : ℕ → ℕ → ℕ → Bytes → ℕ → Bool → Exec (Io S) Rest
  next_line fuel nread read_offset rest mlen parsed io =
      if parsed
      then if ltb mlen (nread - 1)
        then parse_lines json tls platform handle fuel nread (read_offset + mlen + 1) rest io
        else done io complete
      else done io rejected

  pub parse_lines_line :
      (fuel nread read_offset : ℕ) (line rest : Bytes) (io : Io S)
      → All IsPlain line
      → parse_lines json tls platform handle
          (suc fuel)
          nread
          read_offset
          (line ++ (delim ∷ rest))
          io
        ≡ continue
            (run_line json tls platform handle line io)
            (next_line fuel nread read_offset rest (length line))
  unfolding parse_lines
  parse_lines_line fuel nread read_offset line rest io h =
      rw (strchr_line line rest h, parse_lines)
        (rw (take-append_front line (delim ∷ rest)) (rw (drop_line line rest)))

  pub parse_lines_open :
      (fuel nread read_offset : ℕ) (line rest : Bytes) (io : Io S)
      → All IsPlain line
      → parse_lines json tls platform handle (suc fuel) nread read_offset (line ++ (0 ∷ rest)) io
        ≡ done io (leftover read_offset (line ++ (0 ∷ rest)))
  unfolding parse_lines
  parse_lines_open fuel nread read_offset line rest io h = rw (strchr_open line rest h, parse_lines)
