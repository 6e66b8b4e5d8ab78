-- ===== src/Connection/Sound/Session.antt =====
-- The calls into mbedtls, and the invariant.
use electrumz.Base.{ℕ, zero, suc, true, ◌≡◌, Option, none, some, arith}
use electrumz.Base.Outcome.{Outcome, done, threw, fault, After, continue-After}
use electrumz.Connection.State.{
  Flags, Conn, Io, World, Platform, with_conn, with_io, on_conn, on_io,
}
use electrumz.Connection.Write.{write_internal}
use electrumz.Connection.Tls.{
  TlsLib, Code, count, Call, finish, recv, send, bio_recv, run_call, after_handshake, try_handshake,
  with_session,
}
use electrumz.Connection.Sound.{IsSound}

-- Sound, with these flags.
pub record IsSoundAt {T : Type 0} (f : Flags) (c : Conn T) : Type 0 where
  pub sound : IsSound c
  pub flags : c.state ≡ f

abbrev pub InWorld : {T S : Type 0} → (Conn T → Type 0) → World T S → Type 0
InWorld P w = P w.conn

bio_recv-IsSoundAt :
    {T : Type 0} (f : Flags) (n : ℕ) (c : Conn T)
    → IsSoundAt f c
    → After (IsSoundAt f) (bio_recv n c)
unfolding bio_recv
bio_recv-IsSoundAt f n c v = ground arith

module _ {T S : Type 0} where
  pub with_conn-After :
      {A : Type 0} (P : Conn T → Type 0) (w : World T S) (o : Outcome (Conn T) A)
      → After P o
      → After (InWorld P) (with_conn w o)
  with_conn-After P w (done c a) h = h
  with_conn-After P w (threw c) h = h
  with_conn-After P w fault h = tt

  pub with_io-After :
      {A : Type 0} (P : Conn T → Type 0) (w : World T S) (o : Outcome (Io S) A)
      → P w.conn
      → After (InWorld P) (with_io w o)
  with_io-After P w (done c a) h = h
  with_io-After P w (threw c) h = h
  with_io-After P w fault h = tt

  pub run_call-IsSoundAt :
      (platform : Platform) (f : Flags) (call : Call T) (w : World T S)
      → IsSoundAt f w.conn
      → After (InWorld (IsSoundAt f)) (run_call platform call w)
  unfolding run_call
  run_call-IsSoundAt platform f (finish code bytes t) w v = ground arith
  run_call-IsSoundAt platform f (recv n k) w v =
      continue-After {Q = InWorld (IsSoundAt f)} (on_conn (bio_recv n) w)
        (λ got. run_call platform (k got))
        (with_conn-After (IsSoundAt f) w (bio_recv n w.conn) (bio_recv-IsSoundAt f n w.conn v))
        (λ w' h. h) (λ got w' h. run_call-IsSoundAt platform f (k got) w' h)
  run_call-IsSoundAt platform f (send bytes k) w v =
      continue-After {Q = InWorld (IsSoundAt f)} (on_io (write_internal platform bytes) w)
        (λ sent. run_call platform (k sent))
        (with_io-After (IsSoundAt f) w (write_internal platform bytes w.io) v) (λ w' h. h)
        (λ sent w' h. run_call-IsSoundAt platform f (k sent) w' h)

  pub with_session-IsSoundAt :
      (platform : Platform) (f : Flags) (call : T → Call T) (w : World T S)
      → IsSoundAt f w.conn
      → After (InWorld (IsSoundAt f)) (with_session platform call w)
  with_session-IsSoundAt platform f call w v = by_session w.conn.ssl
    where
      by_session :
          (ssl : Option T)
          → After
              (InWorld {S = S} (IsSoundAt f))
              (elim ssl [ none ↦ fault | some t ↦ run_call platform (call t) w ])
      by_session none = tt
      by_session (some t) = run_call-IsSoundAt platform f (call t) w v

after_handshake-IsSound :
    (tls : TlsLib) (f : Flags) (code : Code) (c : Conn tls.Session)
    → f.ssl_normal ≡ true
    → IsSoundAt f c
    → After IsSound (after_handshake tls code c)
unfolding after_handshake
after_handshake-IsSound tls f (count zero) c n v = ground arith
after_handshake-IsSound tls f (count (suc k)) c n v = ground arith
after_handshake-IsSound tls f _ c n v = ground arith

pub try_handshake-IsSound :
    {S : Type 0} (tls : TlsLib) (platform : Platform) (f : Flags) (w : World tls.Session S)
    → f.ssl_normal ≡ true
    → IsSoundAt f w.conn
    → After (InWorld IsSound) (try_handshake tls platform w)
unfolding try_handshake
try_handshake-IsSound tls platform f w n v =
    continue-After {Q = InWorld IsSound} (with_session platform tls.handshake w)
      (λ r. on_conn (after_handshake tls r.0)) (with_session-IsSoundAt platform f tls.handshake w v)
      (λ w' h. h.sound)
      (λ r w' h.
        with_conn-After IsSound w' (after_handshake tls r.0 w'.conn)
          (after_handshake-IsSound tls f r.0 w'.conn n h))
