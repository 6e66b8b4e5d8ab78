-- ===== src/Tests/Bitcoin.antt =====
-- The theorem on block headers, at a header of zeros.
use electrumz.Base.{[], ◌∷◌, ◌++◌, ◌≡◌, refl, some, length, drop, arith}
use electrumz.Bitcoin.Hash.{Digests}
use electrumz.Bitcoin.Header.{null_header, write_header, get_hash, read_header}
use electrumz.Bitcoin.Header.Reads.{get_hash-read_header}
use electrumz.Tests.Libraries.{zeros}

-- The number of bytes in place of a digest.
abbrev pub counting : Digests
counting = record { sha256 = λ bytes. length bytes ∷ []; ripemd160 = λ bytes. length bytes ∷ [] }

get_hash-read_header_example :
    (write_header null_header ≡ zeros 80)
    × (9 ∷ [] ≡ drop 80 (zeros 80 ++ 9 ∷ []))
    × (get_hash counting null_header ≡ some (1 ∷ []))
unfolding read_header
get_hash-read_header_example =
    get_hash-read_header counting (zeros 80 ++ 9 ∷ []) null_header (9 ∷ []) (omega arith) refl
