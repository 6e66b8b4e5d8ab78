-- ===== src/Connection/Tls.antt =====
-- The TLS side of a connection: the callbacks through which mbedtls reads and writes,
-- `InitTLSContext` and `TryHandshake`.
use electrumz.Base.{
  ℕ, zero, suc, ◌+◌, ◌-◌, min, Bytes, true, Option, none, some, take, drop, ◌==◌, if◌then◌else◌,
}
use electrumz.Base.Outcome.{done, fault, Exec, ◌>>=◌, continue}
use electrumz.Connection.State.{Conn, World, Platform, toggle_handshake, on_conn, on_io}
use electrumz.Connection.Write.{write_internal}

-- A return code of mbedtls: a count (0 for success), MBEDTLS_ERR_SSL_WANT_READ or _WRITE, or
-- another negative number.
pub data Code : Type 0 where
  count : ℕ → Code
  want_read want_write failure : Code

-- A call into mbedtls as the exchange with its callbacks: it asks for at most `n` bytes, hands out
-- bytes to send, and in the end answers a code, the bytes for the caller's buffer and the session.
pub data Call (T : Type 0) : Type 0 where
  finish : Code → Bytes → T → Call T
  recv : ℕ → (Option Bytes → Call T) → Call T
  send : Bytes → (ℕ → Call T) → Call T

-- mbedtls, which the repository uses and does not hold: any strategy over the callbacks.
pub record TlsLib : Type 1 where
  pub Session : Type 0
  pub setup : Session
  pub handshake : Session → Call Session
  pub read : Session → ℕ → Call Session
  pub write : Session → Bytes → Call Session
  pub reset : Session → Session

-- `ssl_buf = nullptr; ssl_buf_len = 0; ssl_buf_offset = 0`.
abbrev pub drop_ssl_buf : {T : Type 0} → Conn T → Conn T
drop_ssl_buf c = record c { ssl_buf = none; ssl_buf_len = 0; ssl_buf_offset = 0 }

take_ssl_buf : {T : Type 0} → ℕ → Bytes → Exec (Conn T) (Option Bytes)
take_ssl_buf n bytes c =
    let left = c.ssl_buf_len - c.ssl_buf_offset in
    let rlen = min left n in
    let got = some (take rlen (drop c.ssl_buf_offset bytes)) in
    if rlen == left
    then done (drop_ssl_buf c) got
    else done (record c { ssl_buf_offset = c.ssl_buf_offset + rlen }) got

-- The receive callback; `none` is MBEDTLS_ERR_SSL_WANT_READ.
unfoldable pub bio_recv : {T : Type 0} → ℕ → Exec (Conn T) (Option Bytes)
unfolding take_ssl_buf
bio_recv n c =
    if c.ssl_buf_len == 0
    then done c none
    else elim c.ssl_buf [ none ↦ fault | some bytes ↦ take_ssl_buf n bytes c ]

module _ (tls : TlsLib) where
  open tls use {Session, setup, reset}

  -- `InitTLSContext`, and the flag of the handshake that its caller sets.
  unfoldable pub init_tls_context : Conn Session → Conn Session
  init_tls_context c = record c {
    state = record c.state { ssl_normal = true; ssl_handshake = true };
    ssl = some setup;
  }

  reset_session : Conn Session → Conn Session
  reset_session c = elim c.ssl [
    | none ↦ drop_ssl_buf c
    | some t ↦ drop_ssl_buf (record c { ssl = some (reset t) })
  ]

  -- What `TryHandshake` makes of the code of `mbedtls_ssl_handshake`.
  unfoldable pub after_handshake : Code → Exec (Conn Session) ℕ
  unfolding reset_session
  after_handshake (count zero) c = done (record c { state = toggle_handshake c.state }) 2
  after_handshake (count (suc n)) c = done (reset_session c) 0
  after_handshake want_read c = done c 1
  after_handshake want_write c = done c 1
  after_handshake failure c = done (reset_session c) 0

module _ {T S : Type 0} (platform : Platform) where
  unfoldable pub run_call : Call T → Exec (World T S) (Code × Bytes)
  run_call (finish code bytes t) w =
      done (record w { conn = record w.conn { ssl = some t } }) (code, bytes)
  run_call (recv n k) w = continue (on_conn (bio_recv n) w) (λ got. run_call (k got))
  run_call (send bytes k) w =
      continue (on_io (write_internal platform bytes) w) (λ sent. run_call (k sent))

  -- A call of mbedtls on `this->ssl`.
  abbrev pub with_session : (T → Call T) → Exec (World T S) (Code × Bytes)
  with_session f w = elim w.conn.ssl [ none ↦ fault | some t ↦ run_call (f t) w ]

module _ {S : Type 0} (tls : TlsLib) (platform : Platform) where
  -- `TryHandshake`.
  unfoldable pub try_handshake : Exec (World tls.Session S) ℕ
  try_handshake = do r ← with_session platform tls.handshake; on_conn (after_handshake tls r.0)
