-- ===== src/Connection/Memory.antt =====
-- Blocks of memory and the C functions that walk them. A block is the list of its bytes; a read
-- past its end is undefined behaviour and shows as `overrun` or `none`.
use electrumz.Base.{
  ℕ, suc, ◌+◌, Bytes, Option, none, some, [], ◌∷◌, ◌++◌, length, take, drop, leb, ◌==◌,
  if◌then◌else◌,
}

-- What `strchr` and `strstr` answer: a position, a null pointer, or no answer.
pub data Found : Type 0 where
  at : ℕ → Found
  absent overrun : Found

abbrev pub shift : Found → Found
shift (at i) = at (suc i)
shift absent = absent
shift overrun = overrun

-- `strchr(p, c)` for a `c` that is not 0.
unfoldable pub strchr : ℕ → Bytes → Found
strchr c [] = overrun
strchr c (x ∷ xs) = if x == c then at 0 else if x == 0 then absent else shift (strchr c xs)

pub data Match : Type 0 where
  same differs beyond : Match

-- Whether the string `pat` stands at the start of a block. Bytes behind the first difference are
-- not read.
unfoldable pub match_front : Bytes → Bytes → Match
match_front [] mem = same
match_front (p ∷ ps) [] = beyond
match_front (p ∷ ps) (x ∷ xs) = if x == p then match_front ps xs else differs

abbrev pub found_front : Match → ℕ → Found → Found
found_front same x later = at 0
found_front beyond x later = overrun
found_front differs x later = if x == 0 then absent else shift later

-- `strstr(p, pat)` for a `pat` that is not empty.
unfoldable pub strstr : Bytes → Bytes → Found
unfolding match_front
strstr pat [] = overrun
strstr pat (x ∷ xs) = found_front (match_front pat (x ∷ xs)) x (strstr pat xs)

-- `memcpy(block + at, bytes, length bytes)`, `none` where it would leave the block.
abbrev pub memcpy : Bytes → ℕ → Bytes → Option Bytes
memcpy block i bytes =
    if leb (i + length bytes) (length block)
    then some (take i block ++ (bytes ++ drop (i + length bytes) block))
    else none

-- The `n` bytes at the start of a block as the source of a `memcpy`.
abbrev pub source : ℕ → Bytes → Option Bytes
source n block = if leb n (length block) then some (take n block) else none
