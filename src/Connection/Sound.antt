-- ===== src/Connection/Sound.antt =====
-- The invariant of an open connection (`JsonRPCServer`).
pub mod Session
pub mod Reading
pub mod Opening
pub mod Handling
pub mod Callback
use electrumz.Base.{
  ℕ, ◌≤◌, Bytes, Bool, true, false, not, ◌&&◌, ◌≡◌, Option, none, some, length, if◌then◌else◌,
}
use electrumz.Connection.State.{Flags, Conn}
use electrumz.Connection.Buffer.Bounds.{IsHeld, max_len}

abbrev is_some {ℓ} : {A : Type ℓ} → Option A → Bool
is_some none = false
is_some (some a) = true

abbrev negate : Bool → Bool
negate true = false
negate false = true

-- The four states of the flags: nothing read, plain text, TLS handshake, TLS.
abbrev pub is_known : Flags → Bool
is_known f =
    if f.start
    then negate f.normal && (negate f.ssl_normal && negate f.ssl_handshake)
    else if f.normal
    then negate f.ssl_normal && negate f.ssl_handshake
    else f.ssl_normal

-- A TLS state has a session.
abbrev pub has_session : {T : Type 0} → Conn T → Bool
has_session c = if c.state.ssl_normal then is_some c.ssl else true

pub record IsSound {T : Type 0} (c : Conn T) : Type 0 where
  pub held : IsHeld c
  pub known : is_known c.state ≡ true
  pub session : has_session c ≡ true
