-- ===== src/Connection/Read/Plain.antt =====
-- `HandleRead` on a connection that speaks plain text.
use electrumz.Base.{
  ℕ, zero, suc, ◌<◌, Bytes, true, false, ◌≡◌, ◌≢◌, refl, ap, sym, ◌∙◌, ◌⊎◌, inl, inr, [], ◌∷◌, ◌++◌,
  arith,
}
use electrumz.Base.Outcome.{Exec}
use electrumz.Json.{JsonLib}
use electrumz.Connection.State.{Flags, Conn, Io, World, Platform}
use electrumz.Connection.Buffer.Bounds.{held}
use electrumz.Connection.Tls.{TlsLib}
use electrumz.Connection.Read.Memory.{take_none}
use electrumz.Connection.Read.{is_tls_client_hello, with_held, handle_read}

abbrev pub fresh_flags : Flags
fresh_flags = record { start = true; normal = false; ssl_normal = false; ssl_handshake = false }

abbrev pub plain_flags : Flags
plain_flags = record { start = false; normal = true; ssl_normal = false; ssl_handshake = false }

-- A connection that has read nothing, or plain text so far.
abbrev pub IsText : {T : Type 0} → Conn T → Type 0
IsText c = ((c.state ≡ fresh_flags) × (c.offset ≡ 0)) ⊎ (c.state ≡ plain_flags)

-- The world once the first read has set the flags.
abbrev pub settle : {T S : Type 0} → World T S → World T S
settle w = record w { conn = record w.conn { state = plain_flags } }

-- The first byte of a TLS hello is 0x16.
not_hello : (x n : ℕ) (text : Bytes) → x ≢ 0x16 → is_tls_client_hello n (x ∷ text) ≡ false
unfolding is_tls_client_hello
not_hello x n [] h = refl
not_hello x n (b ∷ []) h = refl
not_hello x n (b ∷ c ∷ rest) h = ground arith

module _ {S : Type 0} (json : JsonLib) (tls : TlsLib) (platform : Platform)
    (handle : json.Json → Exec (Io S) ℕ) where
  open tls use {Session}

  with_state : Flags → World Session S → World Session S
  with_state f w = record w { conn = record w.conn { state = f } }

  fresh_read :
      (n : ℕ) (base : Bytes) (w : World Session S)
      → is_tls_client_hello (suc n) base ≡ false
      → handle_read json tls platform handle (suc n) base (with_state fresh_flags w)
        ≡ with_held json tls platform handle (suc n) (suc n) base (settle w)
  unfolding handle_read with_state
  fresh_read n base w h = rw h

  plain_read :
      (n : ℕ) (base : Bytes) (w : World Session S)
      → handle_read json tls platform handle (suc n) base (with_state plain_flags w)
        ≡ with_held json tls platform handle (suc n) (suc n) base (settle w)
  unfolding handle_read with_state
  plain_read n base w = refl

  -- A read whose text, with what was held before it, does not begin like a TLS hello.
  pub handle_read-text :
      (n x : ℕ) (text chunk junk : Bytes) (w : World Session S)
      → 0 < n
      → IsText w.conn
      → held w.conn ++ chunk ≡ x ∷ text
      → x ≢ 0x16
      → handle_read json tls platform handle n (chunk ++ junk) w
        ≡ with_held json tls platform handle n n (chunk ++ junk) (settle w)
  unfolding with_state
  handle_read-text zero x text chunk junk w p t e h = absurd (omega arith)
  handle_read-text (suc n) x text chunk junk w p (inl (f, z)) e h =
      let whole : chunk ≡ x ∷ text = sym (take_none w.conn.offset w.conn.buf chunk z) ∙ e in
      ap
        (λ (f : Flags).
          handle_read json tls platform handle (suc n) (chunk ++ junk) (with_state f w))
        f
      ∙ fresh_read n (chunk ++ junk) w (rw whole (not_hello x (suc n) (text ++ junk) h))
  handle_read-text (suc n) x text chunk junk w p (inr f) e h =
      ap
        (λ (f : Flags).
          handle_read json tls platform handle (suc n) (chunk ++ junk) (with_state f w))
        f
      ∙ plain_read n (chunk ++ junk) w
