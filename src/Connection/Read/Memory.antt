-- ===== src/Connection/Read/Memory.antt =====
-- The memory that a read of plain text searches: what was held, what was read, and a tail.
use electrumz.Base.{
  ℕ, zero, suc, ◌+◌, Bytes, true, false, ◌≡◌, ◌≢◌, refl, sym, ap, ◌∙◌, inl, inr, [], ◌∷◌, ◌++◌,
  length, take, take-append_front, append_assoc, ltb, arith, Bool-cases, length-take, length-append,
}
use electrumz.Base.Outcome.{Exec, ◌>>=◌}
use electrumz.Json.{JsonLib}
use electrumz.Connection.Memory.{Found, at, absent, overrun}
use electrumz.Connection.State.{Io, World, Platform, on_conn, on_io}
use electrumz.Connection.Buffer.Bounds.{IsHeld, held}
use electrumz.Connection.Tls.{TlsLib}
use electrumz.Connection.Read.{parse_lines, after_lines, serve_text, serve_block, with_held}
use electrumz.Connection.Read.Scan.{strstr_ends, strstr_front}

-- Nothing, or a NUL first.
abbrev pub IsTerminated : Bytes → Type 0
IsTerminated [] = Unit
IsTerminated (x ∷ xs) = x ≡ 0

pub take_none : (n : ℕ) (bytes chunk : Bytes) → n ≡ 0 → take n bytes ++ chunk ≡ chunk
take_none zero bytes chunk e = refl
take_none (suc n) bytes chunk e = absurd (omega arith)

tail_nul :
    (behind junk more : Bytes)
    → behind ≡ 0 ∷ more
    → IsTerminated junk
    → (rest : Bytes) × (junk ++ behind ≡ 0 ∷ rest)
tail_nul behind [] more b t = (more, b)
tail_nul behind (x ∷ xs) more b t = (xs ++ behind, ap (λ (y : ℕ). y ∷ (xs ++ behind)) t)

-- No bytes are held any more.
abbrev pub forget_held : {T S : Type 0} → World T S → World T S
forget_held w = record w { conn = record w.conn { offset = 0 } }

pub forget_nothing : {T S : Type 0} (w : World T S) → w.conn.offset ≡ 0 → w ≡ forget_held w
forget_nothing w e = ap (λ (n : ℕ). record w { conn = record w.conn { offset = n } }) e

module _ {S : Type 0} (json : JsonLib) (tls : TlsLib) (platform : Platform)
    (handle : json.Json → Exec (Io S) ℕ) where
  open tls use {Session}

  -- The loop over lines and what is done with its rest.
  abbrev pub loop_from : ℕ → ℕ → Bytes → Exec (World Session S) ℕ
  loop_from nread total mem = do
    rest ← on_io (parse_lines json tls platform handle (suc (length mem)) nread 0 mem)
    on_conn (after_lines json tls platform handle total rest)

  serve_text-loop :
      (nread total : ℕ) (mem : Bytes) (found : Found) (w : World Session S)
      → found ≢ overrun
      → found ≢ at 0
      → serve_text json tls platform handle nread total mem found w ≡ loop_from nread total mem w
  unfolding serve_text
  serve_text-loop nread total mem overrun w h k = absurd (h refl)
  serve_text-loop nread total mem (at zero) w h k = absurd (k refl)
  serve_text-loop nread total mem (at (suc i)) w h k = refl
  serve_text-loop nread total mem absent w h k = refl

  -- A block whose text does not begin with `G`, up to a NUL in it or right behind it.
  pub serve_block-loop :
      (nread total x : ℕ) (text rest mem : Bytes) (w : World Session S)
      → mem ++ platform.behind ≡ x ∷ (text ++ (0 ∷ rest))
      → x ≢ b'G'
      → serve_block json tls platform handle nread total mem w
        ≡ loop_from nread total (x ∷ (text ++ (0 ∷ rest))) w
  unfolding serve_block
  serve_block-loop nread total x text rest mem w e h = rw e (
      serve_text-loop nread total (x ∷ (text ++ (0 ∷ rest))) _ w (strstr_ends (x ∷ text) rest)
        (strstr_front x _ h))

  abbrev FromHeld : ℕ → ℕ → Bytes → Bytes → Bytes → World Session S → Type 0
  FromHeld nread x text chunk mem w =
      (rest : Bytes) × (with_held json tls platform handle nread (length chunk) mem w
        ≡ loop_from nread (length (x ∷ text)) (x ∷ (text ++ (0 ∷ rest))) (forget_held w))

  behind_held :
      (nread x : ℕ) (text chunk junk more : Bytes) (w : World Session S)
      → platform.behind ≡ 0 ∷ more
      → IsHeld w.conn
      → held w.conn ++ chunk ≡ x ∷ text
      → x ≢ b'G'
      → ltb 0 w.conn.offset ≡ true
      → FromHeld nread x text chunk (chunk ++ junk) w
  unfolding with_held
  behind_held nread x text chunk junk more w b v e h p =
      let size : length chunk + w.conn.offset ≡ length (x ∷ text) = omega (
        arith,
        ap length e,
        length-append (held w.conn) chunk,
        length-take w.conn.offset w.conn.buf,
        v.inside,
        v.fits,
      ) in
      (
        more,
        rw (p, with_held)
            (rw (take-append_front chunk junk)
              (rw (e, size) (serve_block-loop nread (length (x ∷ text)) x text more _ _ (rw b) h))),
      )

  nothing_held :
      (nread x : ℕ) (text chunk junk more : Bytes) (w : World Session S)
      → platform.behind ≡ 0 ∷ more
      → IsTerminated junk
      → held w.conn ++ chunk ≡ x ∷ text
      → x ≢ b'G'
      → ltb 0 w.conn.offset ≡ false
      → FromHeld nread x text chunk (chunk ++ junk) w
  unfolding with_held
  nothing_held nread x text chunk junk more w b t e h p =
      let (rest, ends) = tail_nul platform.behind junk more b t in
      let zero_held : w.conn.offset ≡ 0 = ground arith in
      let whole : chunk ≡ x ∷ text = sym (take_none w.conn.offset w.conn.buf chunk zero_held) ∙ e in
      let seen : (chunk ++ junk) ++ platform.behind ≡ x ∷ (text ++ (0 ∷ rest)) =
        append_assoc chunk junk platform.behind
        ∙ ap (λ (b : Bytes). chunk ++ b) ends
        ∙ ap (λ (b : Bytes). b ++ (0 ∷ rest)) whole in
      (
        rest,
        rw (p, with_held)
            (serve_block-loop nread (length chunk) x text rest (chunk ++ junk) w seen h
              ∙ ap
                  (λ (u : World Session S).
                    loop_from nread (length chunk) (x ∷ (text ++ (0 ∷ rest))) u)
                  (forget_nothing w zero_held)
              ∙ ap (λ (n : ℕ). loop_from nread n (x ∷ (text ++ (0 ∷ rest))) (forget_held w))
                  (ap length whole)),
      )

  -- The bytes that the searches see, with and without bytes held.
  pub with_held-loop :
      (nread x : ℕ) (text chunk junk more : Bytes) (w : World Session S)
      → platform.behind ≡ 0 ∷ more
      → IsTerminated junk
      → IsHeld w.conn
      → held w.conn ++ chunk ≡ x ∷ text
      → x ≢ b'G'
      → FromHeld nread x text chunk (chunk ++ junk) w
  with_held-loop nread x text chunk junk more w b t v e h =
      elim (Bool-cases (ltb 0 w.conn.offset)) [
        | inl p ↦ behind_held nread x text chunk junk more w b v e h p
        | inr p ↦ nothing_held nread x text chunk junk more w b t e h p
      ]
