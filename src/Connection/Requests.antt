-- ===== src/Connection/Requests.antt =====
-- A connection with its requests and the switch over their methods behind it.
use electrumz.Base.{
  ℕ, suc, ◌<◌, Bytes, Bool, true, false, ◌≡◌, refl, ap, sym, ◌∙◌, subst, Option, none, some, List,
  [], ◌∷◌, ◌++◌, length, append_assoc, length-append, All, arith, if◌then◌else◌,
}
use electrumz.Base.Outcome.{Outcome, done, threw, fault, continue}
use electrumz.Connection.Buffer.Bounds.{IsHeld}
use electrumz.Connection.Dispatch.{Libraries, handle_command}
use electrumz.Connection.Dispatch.Replies.{handle_command-Answered}
use electrumz.Connection.Dispatch.Steps.{Answered}
use electrumz.Connection.Read.{run_line, caught}
use electrumz.Connection.Read.Pipeline.{run_lines}
use electrumz.Connection.Read.Plain.{IsText}
use electrumz.Connection.Read.Reads.{feed}
use electrumz.Connection.Read.Session.{Sent, IsSent, lines_of, all_reads, observed, feed-run_lines}
use electrumz.Connection.State.{Io, World}
use electrumz.Connection.Tls.{TlsLib}

-- Behind the texts `out`, `n` requests were answered with a text each if the connection is open, and
-- fewer if it was closed; the handler throws nothing.
abbrev pub AnswersEach : {S : Type 0} → ℕ → List Bytes → Outcome (Io S) Bool → Type 0
AnswersEach n out (done io true) =
    (texts : List Bytes) × (io.out ≡ texts ++ out) × (length texts ≡ n)
AnswersEach n out (done io false) =
    (texts : List Bytes) × (io.out ≡ texts ++ out) × (length texts < n)
AnswersEach n out (threw io) = ⊥
AnswersEach n out fault = Unit

module _ (libs : Libraries) (tls : TlsLib) where
  open libs use {json, platform, backend}
  open json use {Json, parse}
  open backend use {Services}

  -- One line has one answer, or none where it closes the connection.
  caught-AnswersEach :
      (out : List Bytes) (o : Outcome (Io Services) ℕ)
      → Answered out o
      → AnswersEach 1 out (caught json tls platform (handle_command libs) o)
  unfolding caught
  caught-AnswersEach out (done io r) (text, e) = (text ∷ [], e, refl)
  caught-AnswersEach out (threw io) e = ([], e, omega arith)
  caught-AnswersEach out fault h = tt

  run_line-AnswersEach :
      (line : Bytes) (io : Io Services)
      → AnswersEach 1 io.out (run_line json tls platform (handle_command libs) line io)
  unfolding run_line
  run_line-AnswersEach line io = by_parse (parse line)
    where
      by_parse :
          (o : Option Json)
          → AnswersEach 1 io.out (elim o as (λ _. Outcome (Io Services) Bool) [
            | none ↦ done io false
            | some req ↦ caught json tls platform (handle_command libs) (handle_command libs req io)
          ])
      by_parse none = ([], refl, omega arith)
      by_parse (some req) =
          caught-AnswersEach io.out (handle_command libs req io)
            (handle_command-Answered libs req io)

  more_answers :
      (n : ℕ) (out first : List Bytes) (io : Io Services) (o : Outcome (Io Services) Bool)
      → io.out ≡ first ++ out
      → length first ≡ 1
      → AnswersEach n io.out o
      → AnswersEach (suc n) out o
  more_answers n out first io (done io' true) e l (texts, d, k) = (
    texts ++ first,
    d ∙ ap (λ (x : List Bytes). texts ++ x) e ∙ sym (append_assoc texts first out),
    omega (arith, length-append texts first),
  )
  more_answers n out first io (done io' false) e l (texts, d, k) = (
    texts ++ first,
    d ∙ ap (λ (x : List Bytes). texts ++ x) e ∙ sym (append_assoc texts first out),
    omega (arith, length-append texts first),
  )
  more_answers n out first io (threw io') e l h = h
  more_answers n out first io fault e l h = tt

  run_lines-AnswersEach :
      (lines : List Bytes) (io : Io Services)
      → AnswersEach
          (length lines)
          io.out
          (run_lines json tls platform (handle_command libs) lines io)
  unfolding run_lines
  run_lines-AnswersEach [] io = ([], refl, refl)
  run_lines-AnswersEach (line ∷ lines) io =
      by_line (run_line json tls platform (handle_command libs) line io)
        (run_line-AnswersEach line io) (λ io'. run_lines-AnswersEach lines io')
    where
      by_line :
          (o : Outcome (Io Services) Bool)
          → AnswersEach 1 io.out o
          → ((io' : Io Services)
              → AnswersEach
                  (length lines)
                  io'.out
                  (run_lines json tls platform (handle_command libs) lines io'))
          → AnswersEach (suc (length lines)) io.out (
              continue o (λ parsed.
                if parsed
                then run_lines json tls platform (handle_command libs) lines
                else (λ s. done s false)))
      by_line (done io' true) (texts, e, l) ih =
          more_answers (length lines) io.out texts io' _ e l (ih io')
      by_line (done io' false) (texts, e, l) ih = (texts, e, omega arith)
      by_line (threw io') h ih = h
      by_line fault h ih = tt

  length-lines_of : (rs : List Sent) → length (lines_of rs) ≡ length rs
  length-lines_of [] = refl
  length-lines_of (r ∷ rs) = omega (arith, length-lines_of rs)

  module _ (length-malloc : (n : ℕ) → length (platform.malloc n) ≡ n) (more : Bytes)
      (NUL_behind : platform.behind ≡ 0 ∷ more) where
    -- Whatever requests a client sends one after the other, and however each is cut into reads, a
    -- connection that is open behind them has answered each with exactly one text, and one that is
    -- closed has answered fewer; nothing else is written, and no exception leaves the read callback.
    -- The connection is open, holds nothing and has read plain text or nothing; each line is a
    -- request line shorter than 16,384 bytes whose newline ends a read, a NUL follows the bytes of a
    -- read, and `malloc` gives blocks of the size asked for. Nothing is said of a run that meets
    -- undefined behaviour.
    pub feed-AnswersEach :
        (rs : List Sent) (w : World tls.Session Services)
        → All IsSent rs
        → IsHeld w.conn
        → IsText w.conn
        → w.conn.offset ≡ 0
        → w.conn.closed ≡ false
        → AnswersEach
            (length rs)
            w.io.out
            (observed (feed json tls platform (handle_command libs) (all_reads rs) w))
    feed-AnswersEach rs w s v t z o =
        subst (λ (r : Outcome (Io Services) Bool). AnswersEach (length rs) w.io.out r)
          (sym (
            feed-run_lines json tls platform (handle_command libs) length-malloc more NUL_behind rs
              w s v t z o))
          (subst
            (λ (n : ℕ).
              AnswersEach n w.io.out
                (run_lines json tls platform (handle_command libs) (lines_of rs) w.io))
            (length-lines_of rs) (run_lines-AnswersEach (lines_of rs) w.io))
