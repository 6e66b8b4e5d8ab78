-- ===== src/Connection/Read/Decrypted.antt =====
-- `HandleRead` on whole lines that come out of TLS.
use electrumz.Base.{
  ℕ, suc, Bytes, ◌≡◌, ◌≢◌, ap, subst, ◌∙◌, List, ◌∷◌, ◌++◌, length, drop, ◌==◌, if◌then◌else◌,
}
use electrumz.Base.Outcome.{Outcome, done, Exec, pure, continue, ◌>>=◌}
use electrumz.Json.{JsonLib}
use electrumz.Connection.State.{Io, World, Platform, end, on_conn, on_io}
use electrumz.Connection.Buffer.Bounds.{IsHeld, held}
use electrumz.Connection.Tls.{TlsLib, Code, count, with_session}
use electrumz.Connection.Read.{
  cipher_size, after_ssl_read, read_ssl, set_ssl_buf, read_body, later_read, handle_read, on_read,
  with_held,
}
use electrumz.Connection.Read.Memory.{IsTerminated, loop_from, with_held-loop, forget_held}
use electrumz.Connection.Read.Pipeline.{AreShort, join, run_lines, loop_from-join, then_end}
use electrumz.Connection.Read.Waiting.{in_tls, buffered}

module _ {S : Type 0} (json : JsonLib) (tls : TlsLib) (platform : Platform)
    (handle : json.Json → Exec (Io S) ℕ) where
  open tls use {Session}

  -- The lines that end in a decrypted piece.
  with_held-join :
      (nread x : ℕ) (text chunk junk more : Bytes) (lines : List Bytes) (w : World Session S)
      → platform.behind ≡ 0 ∷ more
      → x ≢ b'G'
      → AreShort nread lines
      → IsTerminated junk
      → IsHeld w.conn
      → held w.conn ++ chunk ≡ x ∷ text
      → join lines ≡ x ∷ text
      → with_held json tls platform handle nread (length chunk) (chunk ++ junk) w
        ≡ (do parsed ← on_io (run_lines json tls platform handle lines); pure 0) (forget_held w)
  with_held-join nread x text chunk junk more lines w b g s t v e j =
      let (rest, seen) =
        with_held-loop json tls platform handle nread x text chunk junk more w b t v e g in
      seen
      ∙ subst
          (λ (l : Bytes).
            loop_from json tls platform handle nread (length l) (l ++ (0 ∷ rest)) (forget_held w)
            ≡ (do parsed ← on_io (run_lines json tls platform handle lines); pure 0)
                (forget_held w))
          j (loop_from-join json tls platform handle lines nread rest (forget_held w) s)

  -- The size of the block that `mbedtls_ssl_read` fills after a read of `nread` bytes.
  abbrev pub room : ℕ → Bytes → World Session S → ℕ
  room nread base w = cipher_size json tls platform handle (buffered nread base w).conn

  -- On a TLS connection behind its handshake that has no bytes left for mbedtls, a read whose
  -- decrypted bytes, with those held, are whole lines runs them in order, up to the first that
  -- is no JSON or whose handler throws, and then closes the connection, whatever they answer. The
  -- read is longer than each line with its newline, as an encrypted line is; the lines have no NUL
  -- and the first does not begin with a G, and a NUL follows the decrypted bytes.
  pub on_read_decrypted :
      (n x y : ℕ) (text base chunk more : Bytes) (lines : List Bytes) (w w' : World Session S)
      → platform.behind ≡ 0 ∷ more
      → x ≢ b'G'
      → AreShort (suc n) lines
      → IsTerminated (drop (length (y ∷ chunk)) (platform.malloc (room (suc n) base w)))
      → with_session platform (λ t. tls.read t (room (suc n) base w)) (buffered (suc n) base w)
        ≡ done w' (count (length (y ∷ chunk)), y ∷ chunk)
      → IsHeld w'.conn
      → held w'.conn ++ (y ∷ chunk) ≡ x ∷ text
      → join lines ≡ x ∷ text
      → on_read json tls platform handle (suc n) base (in_tls w)
        ≡ (do
          parsed ← on_io (run_lines json tls platform handle lines)
          on_conn (λ c. done (end c) tt))
            (forget_held w')
  unfolding on_read handle_read set_ssl_buf later_read read_body read_ssl after_ssl_read
  on_read_decrypted n x y text base chunk more lines w w' b g s t e v h j =
      ap
        (λ (o : Outcome (World Session S) (Code × Bytes)).
          continue
            (continue o
              (λ r. after_ssl_read json tls platform handle (suc n) (room (suc n) base w) r.0 r.1))
            (λ alive. if alive == 0 then on_conn (λ c. done (end c) tt) else pure tt))
        e
      ∙ ap
          (λ (o : Outcome (World Session S) ℕ).
            continue o (λ alive. if alive == 0 then on_conn (λ c. done (end c) tt) else pure tt))
          (with_held-join (suc n) x text (y ∷ chunk) _ more lines w' b g s t v h j)
      ∙ then_end json tls platform handle
          (on_io (run_lines json tls platform handle lines) (forget_held w'))
