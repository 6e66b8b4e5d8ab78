-- ===== src/Tests/Libraries.antt =====
-- A small JSON library, a TLS library that always fails, and a platform with zeroed memory.
use electrumz.Base.{
  ℕ, zero, suc, String, str_eq, Bytes, codes, Bool, true, false, Option, none, some, List, [], ◌∷◌,
  ℤ, pos, length, drop, ◌≡◌, refl, ap, ◌==◌, if◌then◌else◌,
}
use electrumz.Base.Outcome.{done}
use electrumz.Bitcoin.{BitcoinLib}
use electrumz.Commands.{FormatLib}
use electrumz.Connection.Dispatch.{Backend, Libraries}
use electrumz.Connection.State.{Platform, World, Io}
use electrumz.Connection.Tls.{TlsLib, failure, want_read, finish, recv, count}
use electrumz.Json.{JsonLib}

pub data Value : Type 0 where
  absent_value : Value
  text : String → Value
  number : ℤ → Value
  truth : Bool → Value
  single : Value → Value
  many : List String → Value
  request : String → ℤ → Value → Value

abbrev pub member : Value → String → Value
member (request method id params) key =
    if str_eq key "method"
    then text method
    else if str_eq key "id"
    then number id
    else if str_eq key "params"
    then params
    else absent_value
member _ key = absent_value

abbrev pub element : Value → ℕ → Value
element (single v) zero = v
element _ i = absent_value

abbrev pub as_text : Value → Option String
as_text (text s) = some s
as_text _ = none

abbrev pub as_int : Value → Option ℤ
as_int (number n) = some n
as_int _ = none

abbrev pub as_nat : Value → Option ℕ
as_nat (number (pos n)) = some n
as_nat _ = none

abbrev pub is_text : Value → Bool
is_text (text s) = true
is_text _ = false

abbrev pub is_int : Value → Bool
is_int (number n) = true
is_int _ = false

abbrev pub is_single : Value → Bool
is_single (single v) = true
is_single _ = false

abbrev pub is_absent : Value → Bool
is_absent absent_value = true
is_absent _ = false

abbrev pub first_of : List Value → Value
first_of [] = absent_value
first_of (v ∷ vs) = single v

-- A text that begins with a brace is a ping.
abbrev pub parse_ping : Bytes → Option Value
parse_ping [] = none
parse_ping (x ∷ xs) = if x == b'{' then some (request "server.ping" (pos 7) absent_value) else none

abbrev pub print_value : Value → Bytes
print_value (text s) = codes s
print_value _ = b'v' ∷ []

abbrev pub small_json : JsonLib
small_json = record {
  Json = Value;
  Float = ℕ;
  float_of = λ n. n;
  null = absent_value;
  from_str = text;
  from_int = number;
  from_nat = λ n. number (pos n);
  from_bool = truth;
  from_float = λ n. number (pos n);
  init_list = first_of;
  from_list = first_of;
  set_key = λ j key v. v;
  push_back = λ j v. single v;
  is_null = is_absent;
  is_array = is_single;
  is_string = is_text;
  is_number = is_int;
  at_key = λ j key. some (member j key);
  at_present = λ j key. some (member j key);
  at_index = λ j i. some (element j i);
  get_string = as_text;
  get_int = as_int;
  get_uint = as_nat;
  parse = parse_ping;
  dump = print_value;
}

abbrev pub zeros : ℕ → Bytes
zeros zero = []
zeros (suc n) = 0 ∷ zeros n

pub length-zeros : (n : ℕ) → length (zeros n) ≡ n
length-zeros zero = refl
length-zeros (suc n) = ap suc (length-zeros n)

abbrev pub platform : Platform
platform = record { malloc = zeros; behind = 0 ∷ []; uv_write_accepts = λ out text. true }

-- The same, where a read past a block stops the process.
abbrev pub strict_platform : Platform
strict_platform = record { malloc = zeros; behind = []; uv_write_accepts = λ out text. true }

abbrev pub no_tls : TlsLib
no_tls = record {
  Session = Unit;
  setup = tt;
  handshake = λ t. finish failure [] t;
  read = λ t n. finish failure [] t;
  write = λ t bytes. finish (count (length bytes)) [] t;
  reset = λ t. t;
}

-- Reads a part of a record and waits for the rest of it.
abbrev pub waiting_tls : TlsLib
waiting_tls = record {
  Session = Unit;
  setup = tt;
  handshake = λ t. finish (count 0) [] t;
  read = λ t n. recv n (λ got. finish want_read [] t);
  write = λ t bytes. finish (count (length bytes)) [] t;
  reset = λ t. t;
}

-- A record is two bytes and the text.
abbrev pub record_tls : TlsLib
record_tls = record waiting_tls {
  read = λ t n. recv n (λ got. elim got [
    | none ↦ finish want_read [] t
    | some bytes ↦ finish (count (length (drop 2 bytes))) (drop 2 bytes) t
  ]);
}

abbrev pub no_bitcoin : BitcoinLib
no_bitcoin = record {
  hex_str = λ bytes. "";
  parse_hex = λ s. codes s;
  hash = λ bytes. bytes;
  shash = λ bytes. bytes;
  encode_base64 = λ bytes. bytes;
}

abbrev pub no_format : FormatLib
no_format = record { decimal = λ n. ""; grouped = λ n. ""; concat = λ s t. t }

abbrev pub no_backend : Backend
no_backend = record {
  Services = Unit;
  query_block_hash = λ h s. done s tt;
  get_txos = λ key s. done s (pos 0);
}

abbrev pub libraries : Libraries
libraries = record {
  json = small_json;
  bitcoin = no_bitcoin;
  fmt = no_format;
  platform = platform;
  backend = no_backend;
}

abbrev pub new_io : Io (Unit {0})
new_io = record { out = []; services = tt }

abbrev pub new_world : World (Unit {0}) (Unit {0})
new_world = record {
  conn = record {
    state = record { start = true; normal = false; ssl_normal = false; ssl_handshake = false };
    ssl = none;
    ssl_config = false;
    ssl_buf = none;
    ssl_buf_offset = 0;
    ssl_buf_len = 0;
    buf = [];
    offset = 0;
    len = 0;
    closed = false;
  };
  io = new_io;
}
