-- ===== src/Connection/Read/Overrun.antt =====
-- `HandleRead` on a block without a NUL.
use electrumz.Base.{
  ℕ, ◌<◌, Bytes, codes, false, ◌≡◌, ◌≢◌, refl, ◌∙◌, inr, [], ◌∷◌, ◌++◌, append-nil,
  take-append_front, length, lt→ltb, ◌==◌, All,
}
use electrumz.Base.Outcome.{fault, Exec}
use electrumz.Json.{JsonLib}
use electrumz.Connection.Memory.{strstr, match_front, overrun}
use electrumz.Connection.State.{Io, World, Platform}
use electrumz.Connection.Buffer.Bounds.{held}
use electrumz.Connection.Tls.{TlsLib}
use electrumz.Connection.Read.{serve_text, serve_block, with_held, handle_read}
use electrumz.Connection.Read.Plain.{plain_flags, handle_read-text}

-- Neither a NUL nor the letter G.
abbrev pub IsLetter : ℕ → Type 0
IsLetter x = ((x == 0) ≡ false) × ((x == b'G') ≡ false)

strstr_overrun : (mem : Bytes) → All IsLetter mem → strstr (codes "GET") mem ≡ overrun
unfolding strstr match_front
strstr_overrun [] h = refl
strstr_overrun (x ∷ xs) ((z, g), h) = rw (g, z, strstr_overrun xs h)

module _ {S : Type 0} (json : JsonLib) (tls : TlsLib) (platform : Platform)
    (handle : json.Json → Exec (Io S) ℕ) where
  open tls use {Session}

  serve_block_overrun :
      (nread total : ℕ) (mem : Bytes) (w : World Session S)
      → platform.behind ≡ []
      → All IsLetter mem
      → serve_block json tls platform handle nread total mem w ≡ fault
  unfolding serve_block serve_text
  serve_block_overrun nread total mem w b h =
      rw (b, append-nil mem, strstr_overrun mem h, serve_block) refl

  -- A read of plain text behind held bytes searches a block of exactly their joint size:
  -- when there is no NUL and no G among them, the search leaves the block, whether a line is
  -- complete or not, and where that stops the process nothing is answered.
  pub handle_read_overrun :
      (x : ℕ) (text chunk junk : Bytes) (w : World Session S)
      → platform.behind ≡ []
      → 0 < length chunk
      → 0 < w.conn.offset
      → w.conn.state ≡ plain_flags
      → held w.conn ++ chunk ≡ x ∷ text
      → x ≢ 0x16
      → All IsLetter (x ∷ text)
      → handle_read json tls platform handle (length chunk) (chunk ++ junk) w ≡ fault
  unfolding with_held
  handle_read_overrun x text chunk junk w b pos some_held plain e not_tls letters =
      handle_read-text json tls platform handle (length chunk) x text chunk junk w pos (inr plain) e
        not_tls
      ∙ rw (lt→ltb 0 w.conn.offset some_held, with_held)
          (rw (take-append_front chunk junk)
            (rw e (serve_block_overrun _ _ (x ∷ text) _ b letters)))
