-- ===== src/Connection/Sound/Handling.antt =====
-- `HandleRead` and the invariant.
use electrumz.Base.{ℕ, zero, suc, Bytes, Bool, true, false, ◌≡◌, refl, length, arith, if◌then◌else◌}
use electrumz.Base.Outcome.{Outcome, Exec, pure, After}
use electrumz.Json.{JsonLib}
use electrumz.Connection.State.{Io, World, Platform, toggle_start}
use electrumz.Connection.Tls.{TlsLib}
use electrumz.Connection.Read.{
  is_tls_client_hello, set_ssl_buf, first_read, later_read, handle_read,
}
use electrumz.Connection.Sound.{IsSound, is_known}
use electrumz.Connection.Sound.Session.{InWorld, try_handshake-IsSound}
use electrumz.Connection.Sound.Reading.{read_body-IsSound}
use electrumz.Connection.Sound.Opening.{
  Left, set_ssl_buf-After, start_flags, After-Left, continue-Left, if-Left, hello-IsSound,
}

module _ {S : Type 0} (json : JsonLib) (tls : TlsLib) (platform : Platform)
    (handle : json.Json → Exec (Io S) ℕ)
    (length-malloc : (n : ℕ) → length (platform.malloc n) ≡ n) where
  open tls use {Session}

  abbrev pub IsLeft : Outcome (World Session S) ℕ → Type 0
  IsLeft = Left json tls platform handle length-malloc

  first_read-Left :
      (nread : ℕ) (base : Bytes) (w : World Session S)
      → IsSound w.conn
      → w.conn.state.start ≡ true
      → IsLeft (first_read json tls platform handle nread base w)
  unfolding first_read
  first_read-Left nread base w v s =
      let (n, sn, sh) = start_flags json tls platform handle length-malloc w.conn.state v.known s in
      if-Left json tls platform handle length-malloc (is_tls_client_hello nread base) _ _
        (λ _.
          if-Left json tls platform handle length-malloc w.conn.ssl_config _ _
            (λ _. After-Left json tls platform handle length-malloc _ (
              hello-IsSound json tls platform handle length-malloc nread base
                (record w { conn = record w.conn { state = toggle_start w.conn.state } })
                (record { fits = v.held.fits; inside = v.held.inside; capped = v.held.capped })
                (rw s refl) n))
            (λ _. tt))
        (λ _. After-Left json tls platform handle length-malloc _ (
          read_body-IsSound json tls platform handle length-malloc nread base _ (record {
            held = record { fits = v.held.fits; inside = v.held.inside; capped = v.held.capped };
            known = rw (s, sn, sh) refl;
            session = rw sn refl;
          })))

  later_read-Left :
      (nread : ℕ) (base : Bytes) (w : World Session S)
      → IsSound w.conn
      → w.conn.state.start ≡ false
      → IsLeft (later_read json tls platform handle nread base w)
  unfolding later_read
  later_read-Left nread base w v s =
      if-Left json tls platform handle length-malloc w.conn.state.ssl_handshake _ _
        (λ h. After-Left json tls platform handle length-malloc _ (
          try_handshake-IsSound tls platform w.conn.state w (in_session h)
            (record { sound = v; flags = refl })))
        (λ _.
          After-Left json tls platform handle length-malloc _
            (read_body-IsSound json tls platform handle length-malloc nread base w v))
    where
      by_flags :
          (start normal ssl_normal ssl_handshake : Bool)
          → is_known (record {
            start = start;
            normal = normal;
            ssl_normal = ssl_normal;
            ssl_handshake = ssl_handshake;
          })
            ≡ true
          → start ≡ false
          → ssl_handshake ≡ true
          → ssl_normal ≡ true
      by_flags false true true b k z h = ground arith
      by_flags false true false b k z h = ground arith
      by_flags false false b c k z h = k
      by_flags true a b c k z h = ground arith

      in_session : w.conn.state.ssl_handshake ≡ true → w.conn.state.ssl_normal ≡ true
      in_session h =
          by_flags w.conn.state.start w.conn.state.normal w.conn.state.ssl_normal
            w.conn.state.ssl_handshake v.known s h

  pub handle_read-Left :
      (nread : ℕ) (base : Bytes) (w : World Session S)
      → IsSound w.conn
      → IsLeft (handle_read json tls platform handle nread base w)
  unfolding handle_read
  handle_read-Left zero base w v = tt
  handle_read-Left (suc n) base w v =
      continue-Left json tls platform handle length-malloc IsSound
        ((if w.conn.state.ssl_normal
            then set_ssl_buf json tls platform handle (suc n) base
            else pure tt)
          w)
        (λ _ w'.
          if w'.conn.state.start
          then first_read json tls platform handle (suc n) base w'
          else later_read json tls platform handle (suc n) base w')
        (start_read w.conn.state.ssl_normal) (λ w' h. h)
        (λ _ w' h.
          if-Left json tls platform handle length-malloc w'.conn.state.start _ _
            (first_read-Left (suc n) base w' h) (later_read-Left (suc n) base w' h))
    where
      start_read :
          (b : Bool)
          → After
              (InWorld IsSound)
              ((if b then set_ssl_buf json tls platform handle (suc n) base else pure tt) w)
      start_read true =
          set_ssl_buf-After json tls platform handle length-malloc IsSound (suc n) base w (record {
            held = record { fits = v.held.fits; inside = v.held.inside; capped = v.held.capped };
            known = v.known;
            session = v.session;
          })
      start_read false = v
