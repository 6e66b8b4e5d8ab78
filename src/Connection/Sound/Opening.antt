-- ===== src/Connection/Sound/Opening.antt =====
-- The first read and what `HandleRead` leaves of the invariant.
use electrumz.Base.{
  ℕ, zero, suc, Bytes, Bool, true, false, ◌≡◌, refl, Option, none, some, length, arith,
  if◌then◌else◌,
}
use electrumz.Base.Outcome.{Outcome, done, threw, fault, Exec, After, continue, ◌>>◌}
use electrumz.Json.{JsonLib}
use electrumz.Connection.State.{Flags, Conn, Io, World, Platform, on_conn}
use electrumz.Connection.Buffer.Bounds.{IsHeld}
use electrumz.Connection.Tls.{TlsLib, init_tls_context, try_handshake}
use electrumz.Connection.Read.{set_ssl_buf}
use electrumz.Connection.Sound.{IsSound, is_known}
use electrumz.Connection.Sound.Session.{InWorld, try_handshake-IsSound}

module _ {S : Type 0} (json : JsonLib) (tls : TlsLib) (platform : Platform)
    (handle : json.Json → Exec (Io S) ℕ)
    (length-malloc : (n : ℕ) → length (platform.malloc n) ≡ n) where
  open tls use {Session}

  -- `set_ssl_buf` changes the three members of the TLS buffer alone.
  pub set_ssl_buf-After :
      (P : Conn Session → Type 0) (nread : ℕ) (base : Bytes) (w : World Session S)
      → P (record w.conn { ssl_buf = some base; ssl_buf_len = nread; ssl_buf_offset = 0 })
      → After (InWorld P) (set_ssl_buf json tls platform handle nread base w)
  unfolding set_ssl_buf
  set_ssl_buf-After P nread base w h = by_buf w.conn.ssl_buf
    where
      by_buf :
          (buf : Option Bytes)
          → After (InWorld P) (elim buf [
            | some _ ↦ fault
            | none ↦
                done
                  (record w {
                    conn = record w.conn {
                      ssl_buf = some base;
                      ssl_buf_len = nread;
                      ssl_buf_offset = 0;
                    };
                  })
                  tt
          ])
      by_buf none = h
      by_buf (some b) = tt

  pub start_flags :
      (f : Flags)
      → is_known f ≡ true
      → f.start ≡ true
      → (f.normal ≡ false) × (f.ssl_normal ≡ false) × (f.ssl_handshake ≡ false)
  start_flags f h s = by_flags f.start f.normal f.ssl_normal f.ssl_handshake h s
    where
      by_flags :
          (start normal ssl_normal ssl_handshake : Bool)
          → is_known (record {
            start = start;
            normal = normal;
            ssl_normal = ssl_normal;
            ssl_handshake = ssl_handshake;
          })
            ≡ true
          → start ≡ true
          → (normal ≡ false) × (ssl_normal ≡ false) × (ssl_handshake ≡ false)
      by_flags true false false false h s = (refl, refl, refl)
      by_flags true true a b h s = ground arith
      by_flags true false true b h s = ground arith
      by_flags true false false true h s = ground arith
      by_flags false a b c h s = ground arith

  -- After `HandleRead`: where the result is 0 the callback closes, and else the connection is sound.
  abbrev pub Left : Outcome (World Session S) ℕ → Type 0
  Left (done w zero) = Unit
  Left (done w (suc r)) = IsSound w.conn
  Left (threw w) = IsSound w.conn
  Left fault = Unit

  pub After-Left : (o : Outcome (World Session S) ℕ) → After (InWorld IsSound) o → Left o
  After-Left (done w zero) h = tt
  After-Left (done w (suc r)) h = h
  After-Left (threw w) h = h
  After-Left fault h = tt

  pub continue-Left :
      {A : Type 0} (P : Conn Session → Type 0) (o : Outcome (World Session S) A)
      (f : A → Exec (World Session S) ℕ)
      → After (InWorld P) o
      → ((w : World Session S) → P w.conn → IsSound w.conn)
      → ((a : A) (w : World Session S) → P w.conn → Left (f a w))
      → Left (continue o f)
  continue-Left P (done w a) f h k n = n a w h
  continue-Left P (threw w) f h k n = k w h
  continue-Left P fault f h k n = tt

  pub if-Left :
      (b : Bool) (o r : Outcome (World Session S) ℕ)
      → (b ≡ true → Left o)
      → (b ≡ false → Left r)
      → Left (if b then o else r)
  if-Left true o r h k = h refl
  if-Left false o r h k = k refl

  -- A TLS hello starts a session whatever the flags were, provided the first bit is off.
  pub hello-IsSound :
      (nread : ℕ) (base : Bytes) (w : World Session S)
      → IsHeld w.conn
      → w.conn.state.start ≡ false
      → w.conn.state.normal ≡ false
      → After (InWorld IsSound) (
          (do
            set_ssl_buf json tls platform handle nread base
            on_conn (λ c'. done (init_tls_context tls c') tt)
            try_handshake tls platform)
            w)
  unfolding set_ssl_buf init_tls_context
  hello-IsSound nread base w v s n = by_buf w.conn.ssl_buf
    where
      c : Conn Session
      c =
          init_tls_context tls
            (record w.conn { ssl_buf = some base; ssl_buf_len = nread; ssl_buf_offset = 0 })

      sound : IsSound c
      sound = record {
        held = record { fits = v.fits; inside = v.inside; capped = v.capped };
        known = rw (s, n) refl;
        session = refl;
      }

      by_buf :
          (buf : Option Bytes)
          → After (InWorld IsSound) (
              (do
                (λ w. elim buf [
                  | some _ ↦ fault
                  | none ↦
                      done
                        (record w {
                          conn = record w.conn {
                            ssl_buf = some base;
                            ssl_buf_len = nread;
                            ssl_buf_offset = 0;
                          };
                        })
                        tt
                ])
                on_conn (λ c'. done (init_tls_context tls c') tt)
                try_handshake tls platform)
                w)
      by_buf none =
          try_handshake-IsSound tls platform c.state (record w { conn = c }) refl
            (record { sound = sound; flags = refl })
      by_buf (some b) = tt
