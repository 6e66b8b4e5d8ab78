-- ===== src/Connection/Read/Reads.antt =====
-- The read callback on a whole request, cut into reads.
use electrumz.Base.{
  ℕ, ◌<◌, Bytes, Bool, false, ◌≡◌, refl, ap, subst, sym, ◌∙◌, inr, List, [], ◌∷◌, ◌++◌, length,
  append_assoc, append-nil, ◌==◌, if◌then◌else◌, arith, All, length-append,
}
use electrumz.Base.Outcome.{Outcome, done, threw, fault, Exec, pure, continue, ◌>>=◌}
use electrumz.Json.{JsonLib}
use electrumz.Connection.State.{Conn, Io, World, Platform, end, on_conn}
use electrumz.Connection.Buffer.{max_buffer}
use electrumz.Connection.Buffer.Bounds.{IsHeld, held}
use electrumz.Connection.Tls.{TlsLib}
use electrumz.Connection.Read.{delim, handle_read, on_read}
use electrumz.Connection.Read.Scan.{IsPlain}
use electrumz.Connection.Read.Memory.{IsTerminated, forget_held}
use electrumz.Connection.Read.Plain.{IsText, plain_flags, settle}
use electrumz.Connection.Read.Chunks.{IsRequest, handle_read_piece}
use electrumz.Connection.Read.Message.{handle_line, handle_read_last}

-- A read: the bytes that arrive, and the rest of libuv's block, of which nothing is known but that
-- it is empty or begins with a NUL.
abbrev pub Reads : Type 0
Reads = List (Bytes × Bytes)

abbrev pub arrived : Reads → Bytes
arrived [] = []
arrived ((chunk, junk) ∷ reads) = chunk ++ arrived reads

abbrev pub AreReads : Reads → Type 0
AreReads = All (λ r. (0 < length r.0) × IsTerminated r.1)

-- What a string that ends in one more byte is cut into.
cut_end :
    (front back line : Bytes) (d : ℕ)
    → front ++ back ≡ line ++ (d ∷ [])
    → 0 < length back
    → (rest : Bytes) × (line ≡ front ++ rest) × (back ≡ rest ++ (d ∷ []))
cut_end [] back line d e h = (line, refl, e)
cut_end (y ∷ front) back [] d e h = absurd (omega (arith, ap length e, length-append front back))
cut_end (y ∷ front) back (z ∷ line) d e h =
    let (rest, p, q) = cut_end front back line d (cc) h in (rest, cc, q)

All-front {ℓ} : {A : Type ℓ} (P : A → Type 0) (xs ys : List A) → All P (xs ++ ys) → All P xs
All-front P [] ys h = tt
All-front P (x ∷ xs) ys (h, t) = (h, All-front P xs ys t)

continue-tt : {S : Type 0} (o : Outcome S (Unit {0})) → continue o (λ _. pure tt) ≡ o
continue-tt (done s a) = refl
continue-tt (threw s) = refl
continue-tt fault = refl

-- A front of a request line.
front-IsRequest :
    (x : ℕ) (text front rest : Bytes)
    → IsRequest x text
    → x ∷ text ≡ front ++ rest
    → 0 < length front
    → (text' : Bytes) × (front ≡ x ∷ text') × IsRequest x text'
front-IsRequest x text [] rest r e h = absurd (omega arith)
front-IsRequest x text (y ∷ front) rest r e h =
    let first : y ≡ x = cc in
    let same : x ∷ text ≡ x ∷ (front ++ rest) = cc in
    (
      front,
      ap (λ (z : ℕ). z ∷ front) first,
      record {
        not_http = r.not_http;
        not_tls = r.not_tls;
        plain = All-front IsPlain (x ∷ front) rest (subst (All IsPlain) same r.plain);
      },
    )

module _ {S : Type 0} (json : JsonLib) (tls : TlsLib) (platform : Platform)
    (handle : json.Json → Exec (Io S) ℕ) where
  open tls use {Session}

  -- The callback at each read in turn; `uv_read_stop` in `End` ends the reads.
  unfoldable pub feed : Reads → Exec (World Session S) (Unit {0})
  feed [] w = done w tt
  feed ((chunk, junk) ∷ reads) w =
      let next =
        continue (on_read json tls platform handle (length chunk) (chunk ++ junk) w)
          (λ _. feed reads) in
      if w.conn.closed then done w tt else next

  unfoldable pub close_if : ℕ → Exec (World Session S) (Unit {0})
  close_if alive = if alive == 0 then on_conn (λ c. done (end c) tt) else pure tt

  -- Run one line, and close the connection if it was no JSON or its handler threw.
  unfoldable pub serve_line : Bytes → Exec (World Session S) (Unit {0})
  unfolding close_if
  serve_line line = do alive ← handle_line json tls platform handle line; close_if alive

module _ {S : Type 0} (json : JsonLib) (tls : TlsLib) (platform : Platform)
    (handle : json.Json → Exec (Io S) ℕ) (length-malloc : (n : ℕ) → length (platform.malloc n) ≡ n)
    (more : Bytes) (NUL_behind : platform.behind ≡ 0 ∷ more) where
  open tls use {Session}

  -- The state that a served request leaves behind, but for what running the line does: nothing held.
  abbrev pub Served : Bytes → World Session S → Outcome (World Session S) (Unit {0}) → Type 0
  Served line w o =
      (c : Conn Session) × (o ≡ serve_line json tls platform handle line (record w { conn = c }))
      × IsHeld c
      × (c.offset ≡ 0)
      × (c.state ≡ plain_flags)
      × (c.closed ≡ false)

  feed-open :
      (chunk junk : Bytes) (reads : Reads) (w : World Session S)
      → w.conn.closed ≡ false
      → feed json tls platform handle ((chunk, junk) ∷ reads) w
        ≡ continue
            (on_read json tls platform handle (length chunk) (chunk ++ junk) w)
            (λ _. feed json tls platform handle reads)
  unfolding feed
  feed-open chunk junk reads w open_yet =
      let next =
        continue (on_read json tls platform handle (length chunk) (chunk ++ junk) w)
          (λ _. feed json tls platform handle reads) in
      ap (λ (b : Bool). if b then done w tt else next) open_yet

  feed_last :
      (x : ℕ) (text chunk junk : Bytes) (w : World Session S)
      → IsRequest x text
      → 0 < length chunk
      → IsTerminated junk
      → IsHeld w.conn
      → IsText w.conn
      → w.conn.closed ≡ false
      → held w.conn ++ (chunk ++ []) ≡ x ∷ (text ++ (delim ∷ []))
      → Served (x ∷ text) w (feed json tls platform handle ((chunk, junk) ∷ []) w)
  unfolding feed serve_line on_read
  feed_last x text chunk junk w r pos t v s open_yet e =
      let c = (forget_held (settle w)).conn in
      let read =
        handle_read_last json tls platform handle x text chunk junk more w NUL_behind r pos t v s
          (ap (λ (b : Bytes). held w.conn ++ b) (sym (append-nil chunk)) ∙ e) in
      (
        c,
        feed-open chunk junk [] w open_yet
            ∙ continue-tt (on_read json tls platform handle (length chunk) (chunk ++ junk) w)
            ∙ ap
                (λ (o : Outcome (World Session S) ℕ).
                  continue o (close_if json tls platform handle))
                read,
        record { fits = v.fits; inside = omega arith; capped = v.capped },
        refl,
        refl,
        open_yet,
      )

  feed_piece :
      (chunk junk : Bytes) (reads : Reads) (w w' : World Session S)
      → w.conn.closed ≡ false
      → handle_read json tls platform handle (length chunk) (chunk ++ junk) w ≡ done w' 1
      → feed json tls platform handle ((chunk, junk) ∷ reads) w
        ≡ feed json tls platform handle reads w'
  unfolding feed on_read close_if
  feed_piece chunk junk reads w w' open_yet e =
      feed-open chunk junk reads w open_yet
      ∙ ap
          (λ (o : Outcome (World Session S) ℕ).
            continue (continue o (close_if json tls platform handle))
              (λ _. feed json tls platform handle reads))
          e

  -- However a request line and its newline are cut into reads, the line is run exactly once,
  -- at the last read, and nothing is held behind it. The connection is open, has read plain
  -- text or nothing, and keeps its invariant; the line is shorter than 16,384 bytes, has no
  -- NUL or newline, and begins neither with a G nor like a TLS hello; every read has a byte,
  -- a NUL follows the bytes of a read, and `malloc` gives blocks of the size asked for.
  pub feed_message :
      (x : ℕ) (text chunk junk : Bytes) (reads : Reads) (w : World Session S)
      → IsRequest x text
      → length (x ∷ text) < max_buffer
      → AreReads ((chunk, junk) ∷ reads)
      → IsHeld w.conn
      → IsText w.conn
      → w.conn.closed ≡ false
      → held w.conn ++ arrived ((chunk, junk) ∷ reads) ≡ x ∷ (text ++ (delim ∷ []))
      → Served (x ∷ text) w (feed json tls platform handle ((chunk, junk) ∷ reads) w)
  feed_message x text chunk junk [] w r fits ((pos, t), _) v s open_yet e =
      feed_last x text chunk junk w r pos t v s open_yet e
  feed_message x text chunk junk ((chunk', junk') ∷ reads) w r fits ((pos, t), later) v s open_yet
        e =
      let tail = arrived ((chunk', junk') ∷ reads) in
      let whole : (held w.conn ++ chunk) ++ tail ≡ (x ∷ text) ++ (delim ∷ []) =
        append_assoc (held w.conn) chunk tail ∙ e in
      let some_left : 0 < length tail =
        omega (arith, later.0.0, length-append chunk' (arrived reads)) in
      let (rest, front, back) =
        cut_end (held w.conn ++ chunk) tail (x ∷ text) delim whole some_left in
      let (text', starts, r') =
        front-IsRequest x text (held w.conn ++ chunk) rest r front
          (omega (arith, length-append (held w.conn) chunk)) in
      let small : length (x ∷ text') < max_buffer =
        omega
          (arith, ap length front, ap length starts, length-append (held w.conn ++ chunk) rest) in
      let (c, read, v', plain, same, h) =
        handle_read_piece json tls platform handle length-malloc more NUL_behind x text' chunk junk
          w r' pos small t v s starts in
      let joined : held c ++ tail ≡ x ∷ (text ++ (delim ∷ [])) =
        ap (λ (b : Bytes). b ++ tail) (h ∙ sym starts) ∙ whole in
      let (c', fed, v'', z, f, o) =
        feed_message x text chunk' junk' reads (record w { conn = c }) r fits later v' (inr plain)
          (same ∙ open_yet) joined in
      (
        c',
        feed_piece chunk junk ((chunk', junk') ∷ reads) w (record w { conn = c }) open_yet read
            ∙ fed,
        v'',
        z,
        f,
        o,
      )
