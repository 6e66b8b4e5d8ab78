-- ===== src/Tests/Loaders.antt =====
-- The theorems on the threads that load the block files.
use electrumz.Base.{ℕ, Bytes, refl, List, [], ◌∷◌}
use electrumz.Tests.Database.{Puts, keeping, read_byte, block_file, sized}
use electrumz.Tests.Libraries.{no_bitcoin}
use electrumz.Txo.Preload.Blocks.{attempt_block}
use electrumz.Txo.Preload.Files.{next_record}
use electrumz.Txo.Preload.Loaders.{Loaders, idle, turn, start, move, Moves, here, more}
use electrumz.Txo.Preload.Loaders.Shares.{IsShared, start-IsShared_after}

abbrev files : List Bytes
files = block_file ∷ []

-- What a number of moves of `n` threads came to.
record Run (n : ℕ) : Type 0 where
  last : Loaders Puts
  steps : ℕ
  retried : ℕ
  moves : Moves keeping no_bitcoin read_byte 0 (start n files []) steps retried last

-- Two threads and one file: the first takes it, and the second finds none.
abbrev taken : Run 2
unfolding turn
taken = record {
  last = _;
  steps = 2;
  retried = 0;
  moves = more (more here (move 0 idle _ _ refl tt refl)) (move 1 idle _ _ refl tt refl);
}

start-IsShared_after_example : IsShared files taken.last
start-IsShared_after_example =
    start-IsShared_after keeping no_bitcoin read_byte 0 files 2 [] taken.moves

-- A thread takes the file and reads its block, while the map is two bytes short.
record Sized : Type 0 where
  last : Loaders ℕ
  steps : ℕ
  retried : ℕ
  moves : Moves sized no_bitcoin read_byte 0 (start 1 files 314572798) steps retried last

abbrev grown : Sized
unfolding turn next_record attempt_block
grown = record {
  last = _;
  steps = 2;
  retried = 0;
  moves = more (more here (move 0 idle _ _ refl tt refl)) (move 0 _ _ _ refl tt refl);
}
