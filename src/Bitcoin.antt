-- ===== src/Bitcoin.antt =====
-- The repository's copy of Bitcoin Core's utilities (include/electrumz/bitcoin, src/blockchain/bitcoin),
-- as the functions and the types that the server calls.
pub mod Block
pub mod Hash
pub mod Header
use electrumz.Base.{String, Bytes}

pub record BitcoinLib : Type 0 where
  -- HexStr and ParseHex.
  pub hex_str : Bytes → String
  pub parse_hex : String → Bytes
  -- Hash (two rounds of SHA-256) and SHash (one round).
  pub hash : Bytes → Bytes
  pub shash : Bytes → Bytes
  pub encode_base64 : Bytes → Bytes
