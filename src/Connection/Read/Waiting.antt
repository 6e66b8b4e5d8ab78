-- ===== src/Connection/Read/Waiting.antt =====
-- `HandleRead` on a part of a TLS record.
use electrumz.Base.{ℕ, suc, Bytes, true, false, ◌≡◌, ap, none, some, ◌==◌, if◌then◌else◌}
use electrumz.Base.Outcome.{Outcome, done, Exec, pure, continue}
use electrumz.Json.{JsonLib}
use electrumz.Connection.State.{Flags, Io, World, Platform, end, on_conn}
use electrumz.Connection.Buffer.{append_buffer}
use electrumz.Connection.Tls.{TlsLib, Code, want_read, with_session}
use electrumz.Connection.Read.{
  cipher_size, after_ssl_read, read_ssl, set_ssl_buf, read_body, later_read, handle_read, on_read,
}

-- After the handshake.
abbrev pub tls_flags : Flags
tls_flags = record { start = false; normal = false; ssl_normal = true; ssl_handshake = false }

-- With all earlier bytes taken by mbedtls.
abbrev pub in_tls : {T S : Type 0} → World T S → World T S
in_tls w = record w { conn = record w.conn { state = tls_flags; ssl_buf = none } }

-- With these bytes for mbedtls.
abbrev pub buffered : {T S : Type 0} → ℕ → Bytes → World T S → World T S
buffered n base w = record w {
  conn = record w.conn {
    state = tls_flags;
    ssl_buf = some base;
    ssl_buf_len = n;
    ssl_buf_offset = 0;
  };
}

module _ {S : Type 0} (json : JsonLib) (tls : TlsLib) (platform : Platform)
    (handle : json.Json → Exec (Io S) ℕ) where
  open tls use {Session}

  read_ssl_waiting :
      (nread : ℕ) (w w' : World Session S) (bytes : Bytes)
      → with_session platform (λ t. tls.read t (cipher_size json tls platform handle w.conn)) w
        ≡ done w' (want_read, bytes)
      → read_ssl json tls platform handle nread w ≡ done w' 0
  unfolding read_ssl after_ssl_read append_buffer
  read_ssl_waiting nread w w' bytes e =
      ap
        (λ (o : Outcome (World Session S) (Code × Bytes)). continue o (λ r.
          after_ssl_read json tls platform handle nread
            (cipher_size json tls platform handle w.conn) r.0 r.1))
        e

  -- On a TLS connection behind its handshake that has no bytes left for mbedtls, a nonempty read
  -- after which `mbedtls_ssl_read` wants more bytes closes the connection, whatever it holds.
  pub on_read_waiting :
      (n : ℕ) (base bytes : Bytes) (w w' : World Session S)
      → with_session platform
          (λ t. tls.read t (cipher_size json tls platform handle (buffered (suc n) base w).conn))
          (buffered (suc n) base w)
        ≡ done w' (want_read, bytes)
      → on_read json tls platform handle (suc n) base (in_tls w)
        ≡ done (record w' { conn = end w'.conn }) tt
  unfolding on_read handle_read set_ssl_buf later_read read_body
  on_read_waiting n base bytes w w' e =
      ap
        (λ (o : Outcome (World Session S) ℕ).
          continue o (λ alive. if alive == 0 then on_conn (λ c. done (end c) tt) else pure tt))
        (read_ssl_waiting (suc n) (buffered (suc n) base w) w' bytes e)
