-- ===== src/Connection/State.antt =====
-- The state of a connection, and what it shares with the rest of the process.
use electrumz.Base.{ℕ, Bytes, Bool, true, false, Option, none, List, [], if◌then◌else◌}
use electrumz.Base.Outcome.{Outcome, done, threw, fault, Exec}

-- The bits of `state`, an int with the values of `JsonRPCState`.
pub record Flags : Type 0 where
  pub start : Bool
  pub normal : Bool
  pub ssl_normal : Bool
  pub ssl_handshake : Bool

-- The members of `JsonRPCServer`. `T` is the type of TLS sessions.
pub record Conn (T : Type 0) : Type 0 where
  pub state : Flags
  -- `ssl`, none for the null pointer, and whether `ssl_config` is set.
  pub ssl : Option T
  pub ssl_config : Bool
  -- The bytes that `ssl_buf` points to.
  pub ssl_buf : Option Bytes
  pub ssl_buf_offset : ℕ
  pub ssl_buf_len : ℕ
  -- The block at `buf`, empty for the null pointer.
  pub buf : Bytes
  pub offset : ℕ
  pub len : ℕ
  -- Set by `End`, which closes the stream.
  pub closed : Bool

-- What the connection changes outside itself: the bytes handed to the socket, the last first, and
-- the state `S` of the services behind the commands.
pub record Io (S : Type 0) : Type 0 where
  pub out : List Bytes
  pub services : S

pub record World (T S : Type 0) : Type 0 where
  pub conn : Conn T
  pub io : Io S

-- How a step on one part of the state ends for the whole.
abbrev pub with_conn : {T S A : Type 0} → World T S → Outcome (Conn T) A → Outcome (World T S) A
with_conn w (done c a) = done (record w { conn = c }) a
with_conn w (threw c) = threw (record w { conn = c })
with_conn w fault = fault

abbrev pub on_conn : {T S A : Type 0} → Exec (Conn T) A → Exec (World T S) A
on_conn m w = with_conn w (m w.conn)

abbrev pub with_io : {T S A : Type 0} → World T S → Outcome (Io S) A → Outcome (World T S) A
with_io w (done i a) = done (record w { io = i }) a
with_io w (threw i) = threw (record w { io = i })
with_io w fault = fault

abbrev pub on_io : {T S A : Type 0} → Exec (Io S) A → Exec (World T S) A
on_io m w = with_io w (m w.io)

-- What the C library and libuv decide: the contents of a fresh block, the bytes behind a block as
-- far as a read past its end gets (none if that stops the process), and whether `uv_write` takes a
-- buffer after those that it has taken.
pub record Platform : Type 0 where
  pub malloc : ℕ → Bytes
  pub behind : Bytes
  pub uv_write_accepts : List Bytes → Bytes → Bool

-- The state after the constructor; the flag says whether a TLS configuration was given.
unfoldable pub connect : {T : Type 0} → Bool → Conn T
connect has_ssl_config = record {
  state = record { start = true; normal = false; ssl_normal = false; ssl_handshake = false };
  ssl = none;
  ssl_config = has_ssl_config;
  ssl_buf = none;
  ssl_buf_offset = 0;
  ssl_buf_len = 0;
  buf = [];
  offset = 0;
  len = 0;
  closed = false;
}

-- `End`.
unfoldable pub end : {T : Type 0} → Conn T → Conn T
end c = record c { ssl = none; ssl_config = false; ssl_buf = none; buf = []; closed = true }

-- `state ^= FLAG` for the two flags that the code toggles, and `state |= FLAG` for the others.
abbrev pub toggle_start : Flags → Flags
toggle_start s = record s { start = if s.start then false else true }

abbrev pub toggle_handshake : Flags → Flags
toggle_handshake s = record s { ssl_handshake = if s.ssl_handshake then false else true }
