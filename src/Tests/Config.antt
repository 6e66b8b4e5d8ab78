-- ===== src/Tests/Config.antt =====
-- The theorem on the configuration, with objects as functions from their keys.
use electrumz.Base.{
  ℕ, String, str_eq, eq_iff, Bool, true, false, ◌≡◌, refl, ap, Option, none, some, [],
  if◌then◌else◌, arith,
}
use electrumz.Config.{Config, default_config, config_json, read_config}
use electrumz.Config.RoundTrip.{ReadsBack, read_config-config_json}
use electrumz.Json.{JsonLib}

data Node : Type 0 where
  empty : Node
  text_node : String → Node
  number_node : ℕ → Node
  object : (String → Node) → Node

abbrev field : Node → String → Node
field (object f) k = f k
field _ k = empty

abbrev with_field : Node → String → Node → Node
with_field j k v = object (λ k'. if str_eq k k' then v else field j k')

abbrev node_text : Node → Option String
node_text (text_node s) = some s
node_text _ = none

abbrev node_number : Node → Option ℕ
node_number (number_node n) = some n
node_number _ = none

abbrev is_text_node : Node → Bool
is_text_node (text_node s) = true
is_text_node _ = false

abbrev is_number_node : Node → Bool
is_number_node (number_node n) = true
is_number_node _ = false

abbrev node_json : JsonLib
node_json = record {
  Json = Node;
  Float = ℕ;
  float_of = λ n. n;
  null = empty;
  from_str = text_node;
  from_int = λ n. empty;
  from_nat = number_node;
  from_bool = λ b. empty;
  from_float = number_node;
  init_list = λ vs. empty;
  from_list = λ vs. empty;
  set_key = with_field;
  push_back = λ j v. v;
  is_null = λ j. false;
  is_array = λ j. false;
  is_string = is_text_node;
  is_number = is_number_node;
  at_key = λ j k. some (field j k);
  at_index = λ j i. none;
  at_present = λ j k. some (field j k);
  get_string = node_text;
  get_int = λ j. none;
  get_uint = node_number;
  parse = λ bytes. none;
  dump = λ j. [];
}

with_field_same : (j : Node) (k : String) (v : Node) → field (with_field j k v) k ≡ v
with_field_same j k v = ap (λ (b : Bool). if b then v else field j k) ((eq_iff k k).1 refl)

abbrev reads_back : ReadsBack node_json
reads_back = record {
  IsObject = λ j. Unit;
  null-IsObject = tt;
  set_key-IsObject = λ j k v o. tt;
  at_null = λ k. refl;
  at_same = λ j k v o. ap (λ (n : Node). some n) (with_field_same j k v);
  at_other = λ j k k' v o d. ap (λ (b : Bool). some (if b then v else field j k')) d;
  str_is_string = λ s. refl;
  get_from_str = λ s. refl;
  nat_is_number = λ n. refl;
  get_from_nat = λ n. refl;
  null_no_string = refl;
  null_no_number = refl;
}

abbrev other_config : Config
other_config = record default_config {
  host = "127.0.0.1";
  port = 50001;
  rpchost = "10.0.0.1";
  ssl_key = "key.pem";
}

read_config-config_json_example :
    read_config node_json (config_json node_json other_config) default_config
    ≡ some (record default_config {
      host = "127.0.0.1";
      port = 50001;
      ssl_cert = "";
      ssl_key = "key.pem";
    })
read_config-config_json_example =
    read_config-config_json node_json reads_back other_config default_config (omega arith)
