-- ===== src/Config.antt =====
-- The configuration file: src/util/Config.cxx and include/electrumz/Config.h.
pub mod RoundTrip
use electrumz.Base.{ℕ, ◌%◌, String, Bytes, Bool, true, false, Option, none, some, if◌then◌else◌}
use electrumz.Json.{JsonLib}

-- The member without an initial value is none until it is set.
pub record Config : Type 0 where
  pub host : String
  pub port : ℕ
  pub rpchost : String
  pub rpc_port : Option ℕ
  pub rpcusername : String
  pub rpcpassword : String
  pub zmqrawtx : String
  pub zmqrawblock : String
  pub ssl_cert : String
  pub ssl_key : String

abbrev pub default_config : Config
default_config = record {
  host = "0.0.0.0";
  port = 5555;
  rpchost = "";
  rpc_port = none;
  rpcusername = "";
  rpcpassword = "";
  zmqrawtx = "";
  zmqrawblock = "";
  ssl_cert = "";
  ssl_key = "";
}

module _ (json : JsonLib) where
  open json use {
    Json, null, from_str, from_nat, set_key, is_string, is_number, at_key, get_string, get_uint,
    parse, dump,
  }

  -- `to_json`, which leaves out the members for the RPC server and for ZMQ.
  unfoldable pub config_json : Config → Json
  config_json c =
      set_key
        (set_key (set_key (set_key null "host" (from_str c.host)) "port" (from_nat c.port))
          "ssl_cert" (from_str c.ssl_cert))
        "ssl_key" (from_str c.ssl_key)

  abbrev pub text_value : Json → String → Option String
  text_value v old = if is_string v then get_string v else some old

  abbrev pub port_of : Option ℕ → Option (Option ℕ)
  port_of none = none
  port_of (some n) = some (some (n % 65536))

  abbrev pub port_value : Json → Option ℕ → Option (Option ℕ)
  port_value v old = if is_number v then port_of (get_uint v) else some old

  -- `if (j[key].is_string()) old = j[key].get<std::string>()`.
  unfoldable pub read_text : Json → String → String → Option String
  read_text j key old = elim (at_key j key) [ none ↦ none | some v ↦ text_value v old ]

  -- The same for an `unsigned short`.
  unfoldable pub read_port : Json → String → Option ℕ → Option (Option ℕ)
  read_port j key old = elim (at_key j key) [ none ↦ none | some v ↦ port_value v old ]

  abbrev and_then : {A B : Type 0} → Option A → (A → Option B) → Option B
  and_then none f = none
  and_then (some a) f = f a

  abbrev or_old : Option ℕ → ℕ → ℕ
  or_old none old = old
  or_old (some n) old = n

  -- `from_json` from the parsed file into the members of `c`; none where it throws.
  unfoldable pub read_config : Json → Config → Option Config
  read_config j c = and_then (read_text j "host" c.host) (λ host.
      and_then (read_port j "port" (some c.port)) (λ port.
        and_then (read_text j "rpc_host" c.rpchost) (λ rpchost.
          and_then (read_port j "rpc_port" c.rpc_port) (λ rpc_port.
            and_then (read_text j "rpc_username" c.rpcusername) (λ rpcusername.
              and_then (read_text j "rpc_password" c.rpcpassword) (λ rpcpassword.
                and_then (read_text j "zmqrawtx" c.zmqrawtx) (λ zmqrawtx.
                  and_then (read_text j "zmqrawblock" c.zmqrawblock) (λ zmqrawblock.
                    and_then (read_text j "ssl_cert" c.ssl_cert) (λ ssl_cert.
                      and_then (read_text j "ssl_key" c.ssl_key) (λ ssl_key. some (record {
                        host = host;
                        port = or_old port c.port;
                        rpchost = rpchost;
                        rpc_port = rpc_port;
                        rpcusername = rpcusername;
                        rpcpassword = rpcpassword;
                        zmqrawtx = zmqrawtx;
                        zmqrawblock = zmqrawblock;
                        ssl_cert = ssl_cert;
                        ssl_key = ssl_key;
                      })))))))))))

  -- The constructor: from the contents of the file, none if it cannot be opened, the configuration
  -- and what is written to the file.
  unfoldable pub load_config : Option Bytes → Option (Config × Option Bytes)
  load_config none = some (default_config, some (dump (config_json default_config)))
  load_config (some bytes) =
      and_then (parse bytes) (λ j. and_then (read_config j default_config) (λ c. some (c, none)))
