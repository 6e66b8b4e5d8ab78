-- ===== src/Connection/Sound/Callback.antt =====
-- The read callback as a whole, and the invariant.
use electrumz.Base.{
  ℕ, zero, suc, Bytes, Bool, true, false, ◌≡◌, refl, subst, sym, ◌⊎◌, inl, inr, [], ◌∷◌, ◌++◌, ◌∙◌,
  length, arith, ◌==◌, if◌then◌else◌,
}
use mathlib.Core.Bool.{true≢false}
use electrumz.Base.Outcome.{
  Outcome, done, threw, fault, Exec, pure, After, continue, continue-After,
}
use electrumz.Json.{JsonLib}
use electrumz.Connection.State.{Conn, Io, World, Platform, on_conn, connect, end}
use electrumz.Connection.Tls.{TlsLib}
use electrumz.Connection.Read.{on_read}
use electrumz.Connection.Read.Reads.{Reads, feed}
use electrumz.Connection.Sound.{IsSound}
use electrumz.Connection.Sound.Session.{InWorld}
use electrumz.Connection.Sound.Handling.{IsLeft, handle_read-Left}

module _ {S : Type 0} (json : JsonLib) (tls : TlsLib) (platform : Platform)
    (handle : json.Json → Exec (Io S) ℕ)
    (length-malloc : (n : ℕ) → length (platform.malloc n) ≡ n) where
  open tls use {Session}

  -- Closed, or sound.
  abbrev pub IsLive : Conn Session → Type 0
  IsLive c = (c.closed ≡ true) ⊎ IsSound c

  close-IsLive :
      (o : Outcome (World Session S) ℕ)
      → IsLeft json tls platform handle length-malloc o
      → After
          (InWorld IsLive)
          (continue o (λ alive. if alive == 0 then on_conn (λ c. done (end c) tt) else pure tt))
  unfolding end
  close-IsLive (done w zero) h = inl refl
  close-IsLive (done w (suc r)) h =
      subst
        (λ (b : Bool).
          After (InWorld IsLive) ((if b then on_conn (λ c. done (end c) tt) else pure tt) w))
        (sym not_zero) (inr h)
    where
      not_zero : (suc r == 0) ≡ false
      not_zero = ground arith
  close-IsLive (threw w) h = inr h
  close-IsLive fault h = tt

  -- A read on a sound connection closes it or leaves it sound, whatever the bytes are and whatever
  -- mbedtls and the handler do, provided no operation of undefined behaviour is met.
  pub on_read-IsLive :
      (nread : ℕ) (base : Bytes) (w : World Session S)
      → IsSound w.conn
      → After (InWorld IsLive) (on_read json tls platform handle nread base w)
  unfolding on_read
  on_read-IsLive nread base w v =
      close-IsLive _ (handle_read-Left json tls platform handle length-malloc nread base w v)

  -- A new connection is sound.
  pub connect-IsSound : (has_ssl_config : Bool) → IsSound {T = Session} (connect has_ssl_config)
  unfolding connect
  connect-IsSound b = record {
    held = record { fits = refl; inside = omega arith; capped = omega arith };
    known = refl;
    session = refl;
  }

  if-IsLive :
      (b : Bool) (w : World Session S) (o : Outcome (World Session S) (Unit {0}))
      → (b ≡ true → IsLive w.conn)
      → (b ≡ false → After (InWorld IsLive) o)
      → After (InWorld IsLive) (if b then done w tt else o)
  if-IsLive true w o h k = h refl
  if-IsLive false w o h k = k refl

  feed-IsLive :
      (reads : Reads) (w : World Session S)
      → IsLive w.conn
      → After (InWorld IsLive) (feed json tls platform handle reads w)
  unfolding feed
  feed-IsLive [] w v = v
  feed-IsLive ((chunk, junk) ∷ reads) w v = if-IsLive w.conn.closed w _ inl (λ open_yet.
      continue-After {Q = InWorld IsLive}
        (on_read json tls platform handle (length chunk) (chunk ++ junk) w)
        (λ _. feed json tls platform handle reads)
        (on_read-IsLive (length chunk) (chunk ++ junk) w (still_sound open_yet v)) (λ w' h. h)
        (λ _ w' h. feed-IsLive reads w' h))
    where
      still_sound : w.conn.closed ≡ false → IsLive w.conn → IsSound w.conn
      still_sound e (inl c) = absurd (true≢false (sym c ∙ e))
      still_sound e (inr s) = s

  -- Whatever bytes a client sends and in whatever pieces, and whatever mbedtls and the
  -- handler of requests do, after its reads a new connection is closed or keeps this
  -- invariant: the held bytes are inside their block, the block is at most 17,406 bytes
  -- long, the flags are in one of the four states, and a TLS state has a session. The
  -- exception is a run that meets undefined behaviour. `malloc` gives blocks of the size
  -- asked for.
  pub feed-connect-IsLive :
      (has_ssl_config : Bool) (reads : Reads) (io : Io S)
      → After
          (InWorld IsLive)
          (feed json tls platform handle reads (record { conn = connect has_ssl_config; io = io }))
  feed-connect-IsLive b reads io = feed-IsLive reads _ (inr (connect-IsSound b))
