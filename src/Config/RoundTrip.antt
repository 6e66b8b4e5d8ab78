-- ===== src/Config/RoundTrip.antt =====
-- Writing a configuration and reading it (src/util/Config.cxx).
use electrumz.Base.{
  ℕ, ◌<◌, ◌%◌, String, str_eq, true, false, ◌≡◌, refl, ap, ◌∙◌, Option, some, arith,
}
use electrumz.Json.{JsonLib}
use electrumz.Config.{Config, config_json, read_text, read_port, read_config}

-- Documented behaviour of the JSON library: objects, and reading back what was stored.
pub record ReadsBack (json : JsonLib) : Type 1 where
  pub IsObject : json.Json → Type 0
  pub null-IsObject : IsObject json.null
  pub set_key-IsObject :
      (j : json.Json) (k : String) (v : json.Json) → IsObject j → IsObject (json.set_key j k v)
  pub at_null : (k : String) → json.at_key json.null k ≡ some json.null
  pub at_same :
      (j : json.Json) (k : String) (v : json.Json)
      → IsObject j
      → json.at_key (json.set_key j k v) k ≡ some v
  pub at_other :
      (j : json.Json) (k k' : String) (v : json.Json)
      → IsObject j
      → str_eq k k' ≡ false
      → json.at_key (json.set_key j k v) k' ≡ json.at_key j k'
  pub str_is_string : (s : String) → json.is_string (json.from_str s) ≡ true
  pub get_from_str : (s : String) → json.get_string (json.from_str s) ≡ some s
  pub nat_is_number : (n : ℕ) → json.is_number (json.from_nat n) ≡ true
  pub get_from_nat : (n : ℕ) → json.get_uint (json.from_nat n) ≡ some n
  pub null_no_string : json.is_string json.null ≡ false
  pub null_no_number : json.is_number json.null ≡ false

module _ (json : JsonLib) (laws : ReadsBack json) where
  open json use {Json, null, from_str, from_nat, set_key, at_key}
  open laws use {IsObject, null-IsObject, set_key-IsObject, at_null, at_same, at_other}

  read_text_null :
      (j : Json) (k old : String) → at_key j k ≡ some null → read_text json j k old ≡ some old
  unfolding read_text
  read_text_null j k old e = rw (e, read_text) (rw laws.null_no_string refl)

  read_port_null :
      (j : Json) (k : String) (old : Option ℕ)
      → at_key j k ≡ some null
      → read_port json j k old ≡ some old
  unfolding read_port
  read_port_null j k old e = rw (e, read_port) (rw laws.null_no_number refl)

  read_text_str :
      (j : Json) (k old s : String)
      → at_key j k ≡ some (from_str s)
      → read_text json j k old ≡ some s
  unfolding read_text
  read_text_str j k old s e =
      rw (e, read_text) (rw (laws.str_is_string s, laws.get_from_str s) refl)

  read_port_nat :
      (j : Json) (k : String) (old : Option ℕ) (n : ℕ)
      → n < 65536
      → at_key j k ≡ some (from_nat n)
      → read_port json j k old ≡ some (some n)
  unfolding read_port
  read_port_nat j k old n h e =
      let same : n % 65536 ≡ n = omega arith in
      rw (e, read_port)
        (rw (laws.nat_is_number n, laws.get_from_nat n) (ap (λ (m : ℕ). some (some m)) same))

  -- Writing a configuration and reading it into another restores the host, the port and the two
  -- paths for TLS, and leaves the members for the RPC server and ZMQ as they are in the other, if the
  -- JSON library reads back what was stored.
  pub read_config-config_json :
      (c into : Config)
      → c.port < 65536
      → read_config json (config_json json c) into
        ≡ some (record into {
          host = c.host;
          port = c.port;
          ssl_cert = c.ssl_cert;
          ssl_key = c.ssl_key;
        })
  unfolding read_config config_json
  read_config-config_json c into h =
      rw
        (
          read_text_str j "host" into.host c.host (
              after_host "host" (at_same null "host" (from_str c.host) null-IsObject) refl refl
                refl),
          read_port_nat j "port" (some into.port) c.port h
              (after_port "port" (at_same j₁ "port" (from_nat c.port) o₁) refl refl),
          read_text_null j "rpc_host" into.rpchost (missing "rpc_host" refl refl refl refl),
          read_port_null j "rpc_port" into.rpc_port (missing "rpc_port" refl refl refl refl),
          read_text_null j "rpc_username" into.rpcusername
              (missing "rpc_username" refl refl refl refl),
          read_text_null j "rpc_password" into.rpcpassword
              (missing "rpc_password" refl refl refl refl),
          read_text_null j "zmqrawtx" into.zmqrawtx (missing "zmqrawtx" refl refl refl refl),
          read_text_null j "zmqrawblock" into.zmqrawblock
              (missing "zmqrawblock" refl refl refl refl),
          read_text_str j "ssl_cert" into.ssl_cert c.ssl_cert
              (after_cert "ssl_cert" (at_same j₂ "ssl_cert" (from_str c.ssl_cert) o₂) refl),
          read_text_str j "ssl_key" into.ssl_key c.ssl_key
              (at_same j₃ "ssl_key" (from_str c.ssl_key) o₃),
        )
        refl
    where
      j₁ : Json
      j₁ = set_key null "host" (from_str c.host)

      j₂ : Json
      j₂ = set_key j₁ "port" (from_nat c.port)

      j₃ : Json
      j₃ = set_key j₂ "ssl_cert" (from_str c.ssl_cert)

      j : Json
      j = set_key j₃ "ssl_key" (from_str c.ssl_key)

      o₁ : IsObject j₁
      o₁ = set_key-IsObject null "host" (from_str c.host) null-IsObject

      o₂ : IsObject j₂
      o₂ = set_key-IsObject j₁ "port" (from_nat c.port) o₁

      o₃ : IsObject j₃
      o₃ = set_key-IsObject j₂ "ssl_cert" (from_str c.ssl_cert) o₂

      after_cert :
          (k : String) {v : Json}
          → at_key j₃ k ≡ some v
          → str_eq "ssl_key" k ≡ false
          → at_key j k ≡ some v
      after_cert k e d = at_other j₃ "ssl_key" k (from_str c.ssl_key) o₃ d ∙ e

      after_port :
          (k : String) {v : Json}
          → at_key j₂ k ≡ some v
          → str_eq "ssl_cert" k ≡ false
          → str_eq "ssl_key" k ≡ false
          → at_key j k ≡ some v
      after_port k e d d' =
          after_cert k (at_other j₂ "ssl_cert" k (from_str c.ssl_cert) o₂ d ∙ e) d'

      after_host :
          (k : String) {v : Json}
          → at_key j₁ k ≡ some v
          → str_eq "port" k ≡ false
          → str_eq "ssl_cert" k ≡ false
          → str_eq "ssl_key" k ≡ false
          → at_key j k ≡ some v
      after_host k e d d' d'' =
          after_port k (at_other j₁ "port" k (from_nat c.port) o₁ d ∙ e) d' d''

      missing :
          (k : String)
          → str_eq "host" k ≡ false
          → str_eq "port" k ≡ false
          → str_eq "ssl_cert" k ≡ false
          → str_eq "ssl_key" k ≡ false
          → at_key j k ≡ some null
      missing k a b d e =
          after_host k (at_other null "host" k (from_str c.host) null-IsObject a ∙ at_null k) b d e
