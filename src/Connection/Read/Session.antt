-- ===== src/Connection/Read/Session.antt =====
-- A plain connection as the stream of its requests.
use electrumz.Base.{
  ℕ, ◌<◌, Bytes, Bool, true, false, not, ◌≡◌, refl, ap, sym, ◌∙◌, inr, List, [], ◌∷◌, ◌++◌, length,
  if◌then◌else◌, All,
}
use electrumz.Base.Outcome.{Outcome, done, threw, fault, Exec, pure, continue}
use electrumz.Json.{JsonLib}
use electrumz.Connection.State.{Io, World, Platform, end, with_io}
use electrumz.Connection.Buffer.{max_buffer}
use electrumz.Connection.Buffer.Bounds.{IsHeld}
use electrumz.Connection.Tls.{TlsLib}
use electrumz.Connection.Read.{delim, run_line, on_read}
use electrumz.Connection.Read.Chunks.{IsRequest}
use electrumz.Connection.Read.Memory.{take_none}
use electrumz.Connection.Read.Message.{status}
use electrumz.Connection.Read.Pipeline.{run_lines}
use electrumz.Connection.Read.Plain.{IsText}
use electrumz.Connection.Read.Reads.{
  Reads, arrived, AreReads, feed, feed_message, serve_line, close_if,
}

-- A request line, and the reads in which it and its newline arrive.
pub record Sent : Type 0 where
  pub first : ℕ
  pub text : Bytes
  pub chunk : Bytes
  pub junk : Bytes
  pub reads : Reads

abbrev pub line_of : Sent → Bytes
line_of r = r.first ∷ r.text

abbrev pub reads_of : Sent → Reads
reads_of r = (r.chunk, r.junk) ∷ r.reads

pub record IsSent (r : Sent) : Type 0 where
  pub request : IsRequest r.first r.text
  pub fits : length (line_of r) < max_buffer
  pub are_reads : AreReads (reads_of r)
  pub whole : arrived (reads_of r) ≡ r.first ∷ (r.text ++ (delim ∷ []))

abbrev pub lines_of : List Sent → List Bytes
lines_of [] = []
lines_of (r ∷ rs) = line_of r ∷ lines_of rs

abbrev pub all_reads : List Sent → Reads
all_reads [] = []
all_reads (r ∷ rs) = reads_of r ++ all_reads rs

-- What a client and the services see of a connection: the texts that were sent, what the services
-- did, and whether it is open.
abbrev pub observed : {T S : Type 0} → Outcome (World T S) (Unit {0}) → Outcome (Io S) Bool
observed (done w u) = done w.io (not w.conn.closed)
observed (threw w) = threw w.io
observed fault = fault

continue_assoc :
    {S A B C : Type 0} (o : Outcome S A) (f : A → Exec S B) (g : B → Exec S C)
    → continue (continue o f) g ≡ continue o (λ a s. continue (f a s) g)
continue_assoc (done s a) f g = refl
continue_assoc (threw s) f g = refl
continue_assoc fault f g = refl

module _ {S : Type 0} (json : JsonLib) (tls : TlsLib) (platform : Platform)
    (handle : json.Json → Exec (Io S) ℕ) where
  open tls use {Session}

  -- A closed connection reads nothing.
  feed_closed :
      (reads : Reads) (w : World Session S)
      → w.conn.closed ≡ true
      → feed json tls platform handle reads w ≡ done w tt
  unfolding feed
  feed_closed [] w e = refl
  feed_closed ((chunk, junk) ∷ reads) w e =
      let next =
        continue (on_read json tls platform handle (length chunk) (chunk ++ junk) w)
          (λ _. feed json tls platform handle reads) in
      ap (λ (b : Bool). if b then done w tt else next) e

  feed-append :
      (xs ys : Reads) (w : World Session S)
      → feed json tls platform handle (xs ++ ys) w
        ≡ continue (feed json tls platform handle xs w) (λ _. feed json tls platform handle ys)
  unfolding feed
  feed-append [] ys w = refl
  feed-append ((chunk, junk) ∷ xs) ys w =
      by_closed w.conn.closed refl
        (on_read json tls platform handle (length chunk) (chunk ++ junk) w)
        (λ w'. feed-append xs ys w')
    where
      by_closed :
          (b : Bool)
          → w.conn.closed ≡ b
          → (o : Outcome (World Session S) (Unit {0}))
          → ((w' : World Session S)
              → feed json tls platform handle (xs ++ ys) w'
                ≡ continue
                    (feed json tls platform handle xs w')
                    (λ _. feed json tls platform handle ys))
          → (if b then done w tt else continue o (λ _. feed json tls platform handle (xs ++ ys)))
            ≡ continue
                (if b then done w tt else continue o (λ _. feed json tls platform handle xs))
                (λ _. feed json tls platform handle ys)
      by_closed true e o ih = sym (feed_closed ys w e)
      by_closed false e (done w' u) ih = ih w'
      by_closed false e (threw w') ih = refl
      by_closed false e fault ih = refl

  -- What follows a line: the next ones, or the end of the connection.
  after_line :
      (rest : Reads) (lines : List Bytes) (w : World Session S) (o : Outcome (Io S) Bool)
      → ((io : Io S)
          → observed (feed json tls platform handle rest (record w { io = io }))
            ≡ run_lines json tls platform handle lines io)
      → observed (
          continue
            (continue
              (continue (with_io w o) (λ parsed. pure (status parsed)))
              (close_if json tls platform handle))
            (λ _. feed json tls platform handle rest))
        ≡ continue o
            (λ parsed. if parsed then run_lines json tls platform handle lines else pure false)
  unfolding close_if end
  after_line rest lines w (done io true) ih = ih io
  after_line rest lines w (done io false) ih =
      ap observed (feed_closed rest (record w { conn = end w.conn; io = io }) refl)
  after_line rest lines w (threw io) ih = refl
  after_line rest lines w fault ih = refl

module _ {S : Type 0} (json : JsonLib) (tls : TlsLib) (platform : Platform)
    (handle : json.Json → Exec (Io S) ℕ) (length-malloc : (n : ℕ) → length (platform.malloc n) ≡ n)
    (more : Bytes) (NUL_behind : platform.behind ≡ 0 ∷ more) where
  open tls use {Session}

  -- A connection refines the stream of its requests: whatever requests a client sends one after the
  -- other, and however each is cut into reads, the texts on the socket, the state of the services
  -- and whether the connection is still open are those of running the lines in order, each once, up
  -- to the first that is no JSON or whose handler throws. The connection is open, holds nothing and
  -- has read plain text or nothing; each line is a request line shorter than 16,384 bytes whose
  -- newline ends a read, a NUL follows the bytes of a read, and `malloc` gives blocks of the size
  -- asked for.
  pub feed-run_lines :
      (rs : List Sent) (w : World Session S)
      → All IsSent rs
      → IsHeld w.conn
      → IsText w.conn
      → w.conn.offset ≡ 0
      → w.conn.closed ≡ false
      → observed (feed json tls platform handle (all_reads rs) w)
        ≡ run_lines json tls platform handle (lines_of rs) w.io
  unfolding feed run_lines serve_line
  feed-run_lines [] w s v t z o = ap (λ (b : Bool). done w.io (not b)) o
  feed-run_lines (r ∷ rs) w (s, ss) v t z o =
      let (c, fed, v', z', f', o') =
        feed_message json tls platform handle length-malloc more NUL_behind r.first r.text r.chunk
          r.junk r.reads w s.request s.fits s.are_reads v t o
          (take_none w.conn.offset w.conn.buf (arrived (reads_of r)) z ∙ s.whole) in
      ap observed (
        feed-append json tls platform handle (reads_of r) (all_reads rs) w
        ∙ ap
            (λ (p : Outcome (World Session S) (Unit {0})).
              continue p (λ _. feed json tls platform handle (all_reads rs)))
            fed)
      ∙ after_line json tls platform handle (all_reads rs) (lines_of rs) (record w { conn = c })
          (run_line json tls platform handle (line_of r) w.io)
          (λ io. feed-run_lines rs (record w { conn = c; io = io }) ss v' (inr f') z' o')
