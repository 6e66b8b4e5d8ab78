-- ===== src/Connection/Read/Chunks.antt =====
-- `HandleRead` on a piece of a request line.
use electrumz.Base.{
  ℕ, suc, ◌-◌, ◌<◌, Bytes, ◌≡◌, ◌≢◌, refl, ap, sym, ◌∙◌, ◌∷◌, ◌++◌, length, take-append_front,
  le→leb, arith, All, length-append, none, some,
}
use electrumz.Base.Outcome.{Outcome, done, fault, Exec, continue}
use electrumz.Json.{JsonLib}
use electrumz.Connection.Memory.{source}
use electrumz.Connection.State.{Conn, Io, World, Platform, with_conn, with_io, on_conn}
use electrumz.Connection.Buffer.{max_buffer, append_buffer}
use electrumz.Connection.Buffer.Bounds.{IsHeld, held, append_buffer-fits}
use electrumz.Connection.Tls.{TlsLib}
use electrumz.Connection.Read.{Rest, after_lines, handle_read, parse_lines}
use electrumz.Connection.Read.Scan.{IsPlain, parse_lines_open}
use electrumz.Connection.Read.Memory.{
  IsTerminated, loop_from, with_held-loop, forget_held, take_none,
}
use electrumz.Connection.Read.Plain.{IsText, plain_flags, settle, handle_read-text}

-- A request line: neither HTTP's first letter nor a TLS hello's first byte, no newline, no NUL.
pub record IsRequest (x : ℕ) (text : Bytes) : Type 0 where
  pub not_http : x ≢ b'G'
  pub not_tls : x ≢ 0x16
  pub plain : All IsPlain (x ∷ text)

module _ {S : Type 0} (json : JsonLib) (tls : TlsLib) (platform : Platform)
    (handle : json.Json → Exec (Io S) ℕ) (length-malloc : (n : ℕ) → length (platform.malloc n) ≡ n)
    (more : Bytes) (NUL_behind : platform.behind ≡ 0 ∷ more) where
  open tls use {Session}

  loop_from-done :
      (nread total : ℕ) (mem : Bytes) (w : World Session S) {io : Io S} {r : Rest}
      → parse_lines json tls platform handle (suc (length mem)) nread 0 mem w.io ≡ done io r
      → loop_from json tls platform handle nread total mem w
        ≡ on_conn (after_lines json tls platform handle total r) (record w { io = io })
  loop_from-done nread total mem w e =
      ap
        (λ (o : Outcome (Io S) Rest).
          continue (with_io w o) (λ r. on_conn (after_lines json tls platform handle total r)))
        e

  copies :
      (text rest : Bytes) (w : World Session S)
      → on_conn
          (λ c. elim (source (length text) (text ++ rest)) [
            | none ↦ fault
            | some bytes ↦ append_buffer platform (length text) bytes c
          ])
          w
        ≡ with_conn w (append_buffer platform (length text) text w.conn)
  copies text rest w =
      rw
        (
          le→leb (length text) (length (text ++ rest)) (omega (arith, length-append text rest)),
          source,
        )
        (rw (take-append_front text rest))

  hold_rest :
      (nread x : ℕ) (text rest : Bytes) (w : World Session S)
      → IsHeld w.conn
      → w.conn.offset ≡ 0
      → All IsPlain (x ∷ text)
      → length (x ∷ text) < max_buffer
      → (c : Conn Session) × (loop_from json tls platform handle nread
            (length (x ∷ text))
            (x ∷ (text ++ (0 ∷ rest)))
            w
          ≡ done (record w { conn = c }) 1)
        × IsHeld c
        × (c.state ≡ w.conn.state)
        × (c.closed ≡ w.conn.closed)
        × (held c ≡ x ∷ text)
  unfolding after_lines
  hold_rest nread x text rest w v z p fits =
      let (c, stored, v', kept, h) =
        append_buffer-fits platform length-malloc w.conn (x ∷ text) v (omega arith) (omega arith) in
      let all : length (x ∷ text) - 0 ≡ length (x ∷ text) = omega arith in
      (
        c,
        loop_from-done nread (length (x ∷ text)) (x ∷ (text ++ (0 ∷ rest))) w (
              parse_lines_open json tls platform handle (length (x ∷ (text ++ (0 ∷ rest)))) nread 0
                (x ∷ text) rest w.io p)
            ∙ ap
                (λ (n : ℕ).
                  on_conn
                    (λ c. elim (source n (x ∷ (text ++ (0 ∷ rest)))) [
                      | none ↦ fault
                      | some bytes ↦ append_buffer platform n bytes c
                    ])
                    w)
                all
            ∙ copies (x ∷ text) (0 ∷ rest) w
            ∙ ap (with_conn w) stored,
        v',
        sym (ap (λ (c : Conn Session). c.state) kept),
        sym (ap (λ (c : Conn Session). c.closed) kept),
        h ∙ take_none w.conn.offset w.conn.buf (x ∷ text) z,
      )

  -- A piece of a request line is held: nothing is handled or written, and the connection stays open.
  pub handle_read_piece :
      (x : ℕ) (text chunk junk : Bytes) (w : World Session S)
      → IsRequest x text
      → 0 < length chunk
      → length (x ∷ text) < max_buffer
      → IsTerminated junk
      → IsHeld w.conn
      → IsText w.conn
      → held w.conn ++ chunk ≡ x ∷ text
      → (c : Conn Session) × (handle_read json tls platform handle (length chunk) (chunk ++ junk) w
          ≡ done (record w { conn = c }) 1)
        × IsHeld c
        × (c.state ≡ plain_flags)
        × (c.closed ≡ w.conn.closed)
        × (held c ≡ x ∷ text)
  handle_read_piece x text chunk junk w r pos fits t v s e =
      let (rest, seen) =
        with_held-loop json tls platform handle (length chunk) x text chunk junk more (settle w)
          NUL_behind t v' e r.not_http in
      let (c, stored, v'', kept, open_still, h) =
        hold_rest (length chunk) x text rest (forget_held (settle w)) v''' refl r.plain fits in
      (
        c,
        handle_read-text json tls platform handle (length chunk) x text chunk junk w pos s e
              r.not_tls
            ∙ seen
            ∙ stored,
        v'',
        kept,
        open_still,
        h,
      )
    where
      v' : IsHeld (settle w).conn
      v' = record { fits = v.fits; inside = v.inside; capped = v.capped }

      v''' : IsHeld (forget_held (settle w)).conn
      v''' = record { fits = v.fits; inside = omega arith; capped = v.capped }
