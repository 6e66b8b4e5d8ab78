-- ===== src/Connection/Read/Pipeline.antt =====
-- `HandleRead` on several complete lines in one read.
use electrumz.Base.{
  ℕ, zero, suc, ◌+◌, ◌-◌, ◌<◌, ◌≤◌, Bytes, Bool, true, false, ◌≡◌, ◌≢◌, refl, ap, subst, ◌∙◌, List,
  [], ◌∷◌, ◌++◌, length, append_assoc, lt→ltb, if◌then◌else◌, arith, All, length-append, ◌==◌, none,
  some, le→leb,
}
use electrumz.Base.Outcome.{Outcome, done, threw, fault, Exec, pure, continue, ◌>>=◌}
use electrumz.Json.{JsonLib}
use electrumz.Connection.Memory.{source}
use electrumz.Connection.State.{Io, World, Platform, end, with_conn, with_io, on_conn, on_io}
use electrumz.Connection.Buffer.{append_buffer}
use electrumz.Connection.Buffer.Bounds.{IsHeld, held}
use electrumz.Connection.Tls.{TlsLib}
use electrumz.Connection.Read.{
  delim, Rest, rejected, leftover, run_line, after_lines, handle_read, parse_lines, on_read,
}
use electrumz.Connection.Read.Scan.{IsPlain, parse_lines_line, parse_lines_open, next_line}
use electrumz.Connection.Read.Memory.{
  IsTerminated, loop_from, with_held-loop, forget_held, take_none,
}
use electrumz.Connection.Read.Plain.{IsText, settle, handle_read-text}
use electrumz.Connection.Read.Chunks.{IsRequest}

-- Each line with its newline.
abbrev pub join : List Bytes → Bytes
join [] = []
join (line ∷ lines) = line ++ (delim ∷ join lines)

length-join : (lines : List Bytes) → length lines ≤ length (join lines)
length-join [] = omega arith
length-join (line ∷ lines) =
    omega (arith, length-join lines, length-append line (delim ∷ join lines))

-- Lines that do not stop the loop of a read of `nread` bytes.
abbrev pub AreShort : ℕ → List Bytes → Type 0
AreShort nread = All (λ line. All IsPlain line × (length line < nread - 1))

short_lines :
    (lines : List Bytes) (n : ℕ)
    → length (join lines) < n
    → All (All IsPlain) lines
    → AreShort n lines
short_lines [] n h p = tt
short_lines (line ∷ lines) n h (p, ps) =
    let size = length-append line (delim ∷ join lines) in
    ((p, omega arith), short_lines lines n (omega arith) ps)

module _ {S : Type 0} (json : JsonLib) (tls : TlsLib) (platform : Platform)
    (handle : json.Json → Exec (Io S) ℕ) where
  open tls use {Session}

  -- The lines one by one, up to the first that is no JSON or whose handler throws.
  unfoldable pub run_lines : List Bytes → Exec (Io S) Bool
  run_lines [] = pure true
  run_lines (line ∷ lines) = do
    parsed ← run_line json tls platform handle line
    if parsed then run_lines lines else pure false

  abbrev after_all : ℕ → Bytes → Bool → Exec (Io S) Rest
  after_all read_offset rest parsed io =
      done io (if parsed then leftover read_offset rest else rejected)

  next_lines :
      (fuel nread ro : ℕ) (line rest : Bytes) (lines : List Bytes) (o : Outcome (Io S) Bool)
      → length line < nread - 1
      → ((io : Io S)
          → parse_lines json tls platform handle fuel nread
              (ro + length line + 1)
              (join lines ++ (0 ∷ rest))
              io
            ≡ continue
                (run_lines lines io)
                (after_all (ro + length line + 1 + length (join lines)) (0 ∷ rest)))
      → continue o (
          next_line json tls platform handle fuel nread ro (join lines ++ (0 ∷ rest)) (length line))
        ≡ continue
            (continue o (λ parsed. if parsed then run_lines lines else pure false))
            (after_all (ro + length line + 1 + length (join lines)) (0 ∷ rest))
  next_lines fuel nread ro line rest lines (done io true) h ih =
      rw (lt→ltb (length line) (nread - 1) h) (ih io)
  next_lines fuel nread ro line rest lines (done io false) h ih = refl
  next_lines fuel nread ro line rest lines (threw io) h ih = refl
  next_lines fuel nread ro line rest lines fault h ih = refl

  parse_lines-join :
      (lines : List Bytes) (fuel nread ro : ℕ) (rest : Bytes) (io : Io S)
      → length lines ≤ fuel
      → AreShort nread lines
      → parse_lines json tls platform handle (suc fuel) nread ro (join lines ++ (0 ∷ rest)) io
        ≡ continue (run_lines lines io) (after_all (ro + length (join lines)) (0 ∷ rest))
  unfolding run_lines
  parse_lines-join [] fuel nread ro rest io h s =
      let same : ro + 0 ≡ ro = omega arith in
      parse_lines_open json tls platform handle fuel nread ro [] rest io tt ∙ rw same
  parse_lines-join (line ∷ lines) zero nread ro rest io h s = absurd (omega arith)
  parse_lines-join (line ∷ lines) (suc fuel) nread ro rest io h ((plain, short), s) =
      let size : ro + length (join (line ∷ lines)) ≡ ro + length line + 1 + length (join lines) =
        omega (arith, length-append line (delim ∷ join lines)) in
      rw (append_assoc line (delim ∷ join lines) (0 ∷ rest)) (
        parse_lines_line json tls platform handle (suc fuel) nread ro line
          (join lines ++ (0 ∷ rest)) io plain
        ∙ next_lines (suc fuel) nread ro line rest lines (run_line json tls platform handle line io)
            short
            (λ io'.
              parse_lines-join lines fuel nread (ro + length line + 1) rest io' (omega arith) s)
        ∙ rw size)

  no_rest :
      (nread total : ℕ) (rest : Bytes) (w : World Session S) (o : Outcome (Io S) Bool)
      → continue
          (with_io w (continue o (after_all (0 + total) rest)))
          (λ r. on_conn (after_lines json tls platform handle total r))
        ≡ continue (with_io w o) (λ parsed. pure 0)
  unfolding after_lines append_buffer
  no_rest nread total rest w (done io true) =
      let none_left : total - (0 + total) ≡ 0 = omega arith in
      ap
        (λ (n : ℕ).
          with_conn (record w { io = io })
            (elim (source n rest) [
              | none ↦ fault
              | some bytes ↦ append_buffer platform n bytes w.conn
            ]))
        none_left
      ∙ rw (le→leb 0 (length rest) (omega arith)) refl
  no_rest nread total rest w (done io false) = refl
  no_rest nread total rest w (threw io) = refl
  no_rest nread total rest w fault = refl

  pub loop_from-join :
      (lines : List Bytes) (nread : ℕ) (rest : Bytes) (w : World Session S)
      → AreShort nread lines
      → loop_from json tls platform handle nread (length (join lines)) (join lines ++ (0 ∷ rest)) w
        ≡ (do parsed ← on_io (run_lines lines); pure 0) w
  loop_from-join lines nread rest w s =
      ap
        (λ (o : Outcome (Io S) Rest).
          continue (with_io w o)
            (λ r. on_conn (after_lines json tls platform handle (length (join lines)) r)))
        (parse_lines-join lines (length (join lines ++ (0 ∷ rest))) nread 0 rest w.io
          (omega (arith, length-append (join lines) (0 ∷ rest), length-join lines)) s)
      ∙ no_rest nread (length (join lines)) (0 ∷ rest) w (run_lines lines w.io)

  -- When every line is shorter than the read by two bytes or more, the lines are run in order, up to
  -- the first that fails, and the result is 0 whatever they answer.
  pub handle_read_pipelined :
      (x : ℕ) (text chunk junk more : Bytes) (lines : List Bytes) (w : World Session S)
      → platform.behind ≡ 0 ∷ more
      → x ≢ b'G'
      → x ≢ 0x16
      → 0 < length chunk
      → AreShort (length chunk) lines
      → IsTerminated junk
      → IsHeld w.conn
      → IsText w.conn
      → held w.conn ++ chunk ≡ x ∷ text
      → join lines ≡ x ∷ text
      → handle_read json tls platform handle (length chunk) (chunk ++ junk) w
        ≡ (do parsed ← on_io (run_lines lines); pure 0) (forget_held (settle w))
  handle_read_pipelined x text chunk junk more lines w b g tl pos s t v it e j =
      let (rest, seen) =
        with_held-loop json tls platform handle (length chunk) x text chunk junk more (settle w) b t
          v' e g in
      handle_read-text json tls platform handle (length chunk) x text chunk junk w pos it e tl
      ∙ seen
      ∙ subst
          (λ (l : Bytes).
            loop_from json tls platform handle (length chunk) (length l) (l ++ (0 ∷ rest))
              (forget_held (settle w))
            ≡ (do parsed ← on_io (run_lines lines); pure 0) (forget_held (settle w)))
          j (loop_from-join lines (length chunk) rest (forget_held (settle w)) s)
    where
      v' : IsHeld (settle w).conn
      v' = record { fits = v.fits; inside = v.inside; capped = v.capped }

  pub then_end :
      (o : Outcome (World Session S) Bool)
      → continue
          (continue o (λ parsed. pure 0))
          (λ alive. if alive == 0 then on_conn (λ c. done (end c) tt) else pure tt)
        ≡ continue o (λ parsed. on_conn (λ c. done (end c) tt))
  then_end (done w b) = refl
  then_end (threw w) = refl
  then_end fault = refl

  -- Two or more complete request lines that arrive in one read, with nothing held before it,
  -- are run in order, up to the first that is no JSON or whose handler throws, and the
  -- connection is closed behind them. The connection has read plain text or nothing, the
  -- lines have no NUL, the first begins neither with a G nor like a TLS hello, and a NUL
  -- follows the bytes of the read.
  pub on_read_pipelined :
      (x : ℕ) (text second : Bytes) (lines : List Bytes) (junk more : Bytes) (w : World Session S)
      → platform.behind ≡ 0 ∷ more
      → IsRequest x text
      → All (All IsPlain) (second ∷ lines)
      → IsTerminated junk
      → IsHeld w.conn
      → IsText w.conn
      → w.conn.offset ≡ 0
      → on_read json tls platform handle
          (length (join ((x ∷ text) ∷ second ∷ lines)))
          (join ((x ∷ text) ∷ second ∷ lines) ++ junk)
          w
        ≡ (do
          parsed ← on_io (run_lines ((x ∷ text) ∷ second ∷ lines))
          on_conn (λ c. done (end c) tt))
            (forget_held (settle w))
  unfolding on_read
  on_read_pipelined x text second lines junk more w b r p t v it z =
      let all = (x ∷ text) ∷ second ∷ lines in
      let chunk = join all in
      let size = length-append (x ∷ text) (delim ∷ join (second ∷ lines)) in
      let size' = length-append second (delim ∷ join lines) in
      let short : AreShort (length chunk) all =
        ((r.plain, omega arith), short_lines (second ∷ lines) (length chunk) (omega arith) p) in
      ap
        (λ (o : Outcome (World Session S) ℕ).
          continue o (λ alive. if alive == 0 then on_conn (λ c. done (end c) tt) else pure tt))
        (handle_read_pipelined x _ chunk junk more all w b r.not_http r.not_tls (omega arith) short
          t v it (take_none w.conn.offset w.conn.buf chunk z) refl)
      ∙ then_end (on_io (run_lines all) (forget_held (settle w)))
