-- ===== src/Json.antt =====
-- The JSON library, nlohmann::json, which the repository uses and does not hold: an abstract type
-- of values with the operations that the code calls. An operation that may throw answers `none`.
use electrumz.Base.{ℕ, String, Bool, Option, List, ℤ, Bytes}

pub record JsonLib : Type 1 where
  pub Json : Type 0
  -- C++ `float`, and the values that the code writes as literals.
  pub Float : Type 0
  pub float_of : ℕ → Float
  pub null : Json
  pub from_str : String → Json
  pub from_int : ℤ → Json
  pub from_nat : ℕ → Json
  pub from_bool : Bool → Json
  pub from_float : Float → Json
  -- `json{a, b, c}`, which makes an object of a list of pairs and an array of any other list.
  pub init_list : List Json → Json
  -- The conversion of a vector, a pair or a tuple, an array whatever it holds.
  pub from_list : List Json → Json
  -- `j[key] = v` on an object or null, and `j.push_back(v)` on an array or null.
  pub set_key : Json → String → Json → Json
  pub push_back : Json → Json → Json
  pub is_null : Json → Bool
  pub is_array : Json → Bool
  pub is_string : Json → Bool
  pub is_number : Json → Bool
  -- `j[key]` and `j[i]`, null where there is no such member.
  pub at_key : Json → String → Option Json
  pub at_index : Json → ℕ → Option Json
  -- `j.at(key)`, which throws where there is no such member.
  pub at_present : Json → String → Option Json
  pub get_string : Json → Option String
  pub get_int : Json → Option ℤ
  pub get_uint : Json → Option ℕ
  -- `json::parse` of the bytes, and `dump(-1, ' ', true)`.
  pub parse : Bytes → Option Json
  pub dump : Json → Bytes
