-- ===== src/Connection/Buffer.antt =====
-- `AppendBuffer`: the bytes of a message that is not complete yet.
pub mod Bounds
use electrumz.Base.{
  ℕ, zero, suc, ◌+◌, ◌%◌, Bytes, Option, none, some, ◌++◌, length, take, drop, ltb, if◌then◌else◌,
}
use electrumz.Base.Outcome.{Outcome, done, fault}
use electrumz.Connection.Memory.{memcpy}
use electrumz.Connection.State.{Conn, Platform}

-- JSONRPC_BUFF_LEN and JSONRPC_MAX_BUFFER.
abbrev pub buff_len : ℕ
buff_len = 1024

abbrev pub max_buffer : ℕ
max_buffer = 16384

-- `malloc` or `realloc` of `size` bytes: the old bytes, then those of a fresh block.
pub realloc : (ℕ → Bytes) → Bytes → ℕ → Bytes
realloc malloc old size = take size old ++ drop (length old) (malloc size)

module _ {T : Type 0} (platform : Platform) where
  open platform use {malloc}

  -- `memcpy` to the end of what is held.
  unfoldable pub store : ℕ → Bytes → Conn T → Outcome (Conn T) ℕ
  store nread bytes c = elim (memcpy c.buf c.offset bytes) [
    | none ↦ fault
    | some block ↦ done (record c { buf = block; offset = c.offset + nread }) 1
  ]

  unfoldable pub grow : ℕ → Conn T → Conn T
  unfolding realloc
  grow min_size c =
      let size = min_size + min_size % buff_len in
      record c { len = size; buf = realloc malloc c.buf size }

  -- `bytes` are the `nread` bytes at `buf`; a count that is not positive is 0 here.
  unfoldable pub append_buffer : ℕ → Bytes → Conn T → Outcome (Conn T) ℕ
  append_buffer zero bytes c = done c 0
  append_buffer (suc n) bytes c =
      if ltb c.len (suc n + c.offset)
      then (let min_size = c.offset + suc n + 1 in
          if ltb max_buffer min_size then done c 0 else store (suc n) bytes (grow min_size c))
      else store (suc n) bytes c
