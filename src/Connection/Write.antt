-- ===== src/Connection/Write.antt =====
-- `WriteInternal` and `HandleWrite`: bytes on their way to the socket.
pub mod Completion
use electrumz.Base.{
  ℕ, Bytes, Option, none, some, List, [], ◌∷◌, get_elem?, length, ◌*◌, ◌+◌, if◌then◌else◌,
}
use electrumz.Base.Outcome.{done, fault, Exec, pure, ◌>>=◌}
use electrumz.Connection.State.{Io, Platform}

-- The entries of the array that `sbuf` points to: what each `base` points to.
abbrev pub write_request : Bytes → List (Option Bytes)
write_request buf = some buf ∷ some [] ∷ []

-- `srv[i]->base` for `srv` of type `uv_buf_t (*)[2]`: the first entry of the i-th pair.
abbrev pub base_of_pair : ℕ → List (Option Bytes) → Option (Option Bytes)
base_of_pair i sbuf = get_elem? sbuf (i * 2 + 0)

-- `HandleWrite`: `srv[1]->base = nullptr; free(srv[0]->base); free(req)`.
unfoldable pub handle_write : {S : Type 0} → List (Option Bytes) → Exec S ℕ
handle_write sbuf s = elim (base_of_pair 1 sbuf) [
  | none ↦ fault
  | some _ ↦ elim (base_of_pair 0 sbuf) [ none ↦ fault | some _ ↦ done s 1 ]
]

module _ {S : Type 0} (platform : Platform) where
  open platform use {uv_write_accepts}

  -- `WriteInternal(len, buf)`.
  unfoldable pub write_internal : Bytes → Exec (Io S) ℕ
  write_internal buf io =
      if uv_write_accepts io.out buf
      then done (record io { out = buf ∷ io.out }) (length buf)
      else (do handled ← handle_write (write_request buf); pure 0) io
