-- ===== src/Connection/Read/Message.antt =====
-- `HandleRead` on the last piece of a request line.
use electrumz.Base.{
  ℕ, ◌+◌, ◌-◌, ◌<◌, ◌≤◌, Bytes, Bool, true, false, ◌≡◌, refl, ap, ◌∙◌, [], ◌∷◌, ◌++◌, length,
  append_assoc, le→ltb, if◌then◌else◌, arith, All, length-append,
}
use electrumz.Base.Outcome.{Outcome, done, threw, fault, Exec, pure, continue, ◌>>=◌}
use electrumz.Json.{JsonLib}
use electrumz.Connection.State.{Io, World, Platform, with_io, on_conn, on_io}
use electrumz.Connection.Buffer.Bounds.{IsHeld, held}
use electrumz.Connection.Tls.{TlsLib}
use electrumz.Connection.Read.{delim, Rest, run_line, after_lines, handle_read}
use electrumz.Connection.Read.Scan.{IsPlain, parse_lines_line, next_line}
use electrumz.Connection.Read.Memory.{IsTerminated, loop_from, with_held-loop, forget_held}
use electrumz.Connection.Read.Plain.{IsText, settle, handle_read-text}
use electrumz.Connection.Read.Chunks.{IsRequest}

-- The result that the code returns after a line: 1, or 0 if the line was no JSON or its handler threw.
abbrev pub status : Bool → ℕ
status parsed = if parsed then 1 else 0

module _ {S : Type 0} (json : JsonLib) (tls : TlsLib) (platform : Platform)
    (handle : json.Json → Exec (Io S) ℕ) where
  open tls use {Session}

  abbrev pub handle_line : Bytes → Exec (World Session S) ℕ
  handle_line line = do
    parsed ← on_io (run_line json tls platform handle line)
    pure (status parsed)

  -- After the only line of a read the loop stops.
  after_only_line :
      (fuel nread total : ℕ) (line rest : Bytes) (w : World Session S) (o : Outcome (Io S) Bool)
      → nread ≤ length line + 1
      → continue
          (with_io w
            (continue o (next_line json tls platform handle fuel nread 0 rest (length line))))
          (λ r. on_conn (after_lines json tls platform handle total r))
        ≡ continue (with_io w o) (λ parsed. pure (status parsed))
  unfolding after_lines
  after_only_line fuel nread total line rest w (done io true) h =
      rw (le→ltb (length line) (nread - 1) (omega arith))
  after_only_line fuel nread total line rest w (done io false) h = refl
  after_only_line fuel nread total line rest w (threw io) h = refl
  after_only_line fuel nread total line rest w fault h = refl

  loop_from_line :
      (nread total : ℕ) (line rest : Bytes) (w : World Session S)
      → All IsPlain line
      → nread ≤ length line + 1
      → loop_from json tls platform handle nread total (line ++ (delim ∷ rest)) w
        ≡ handle_line line w
  loop_from_line nread total line rest w p h =
      ap
        (λ (o : Outcome (Io S) Rest).
          continue (with_io w o) (λ r. on_conn (after_lines json tls platform handle total r)))
        (parse_lines_line json tls platform handle (length (line ++ (delim ∷ rest))) nread 0 line
          rest w.io p)
      ∙ after_only_line _ nread total line rest w (run_line json tls platform handle line w.io) h

  -- A read in which the first line ends, if that line with the bytes held for it is as long
  -- as the read but for its newline, or longer: the line is run once, and what stands behind
  -- it (`extra`) is neither run nor held. The connection has read plain text or nothing, the
  -- line is a request line, and a NUL follows the bytes of the read.
  pub handle_read_drops :
      (x : ℕ) (text chunk junk extra more : Bytes) (w : World Session S)
      → platform.behind ≡ 0 ∷ more
      → IsRequest x text
      → 0 < length chunk
      → length chunk ≤ length (x ∷ text) + 1
      → IsTerminated junk
      → IsHeld w.conn
      → IsText w.conn
      → held w.conn ++ chunk ≡ x ∷ (text ++ (delim ∷ extra))
      → handle_read json tls platform handle (length chunk) (chunk ++ junk) w
        ≡ handle_line (x ∷ text) (forget_held (settle w))
  handle_read_drops x text chunk junk extra more w b r pos short t v s e =
      let (rest, seen) =
        with_held-loop json tls platform handle (length chunk) x (text ++ (delim ∷ extra)) chunk
          junk more (settle w) b t v' e r.not_http in
      handle_read-text json tls platform handle (length chunk) x (text ++ (delim ∷ extra)) chunk
        junk w pos s e r.not_tls
      ∙ seen
      ∙ rw (append_assoc text (delim ∷ extra) (0 ∷ rest)) (
          loop_from_line (length chunk) _ (x ∷ text) (extra ++ (0 ∷ rest)) (forget_held (settle w))
            r.plain short)
    where
      v' : IsHeld (settle w).conn
      v' = record { fits = v.fits; inside = v.inside; capped = v.capped }

  -- The piece that ends a request line runs the line once, with nothing held behind it.
  pub handle_read_last :
      (x : ℕ) (text chunk junk more : Bytes) (w : World Session S)
      → platform.behind ≡ 0 ∷ more
      → IsRequest x text
      → 0 < length chunk
      → IsTerminated junk
      → IsHeld w.conn
      → IsText w.conn
      → held w.conn ++ chunk ≡ x ∷ (text ++ (delim ∷ []))
      → handle_read json tls platform handle (length chunk) (chunk ++ junk) w
        ≡ handle_line (x ∷ text) (forget_held (settle w))
  handle_read_last x text chunk junk more w b r pos t v s e =
      handle_read_drops x text chunk junk [] more w b r pos short t v s e
    where
      short : length chunk ≤ length (x ∷ text) + 1
      short =
          omega
            (arith, ap length e, length-append (held w.conn) chunk, length-append text (delim ∷ []))
