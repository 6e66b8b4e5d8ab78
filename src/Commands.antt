-- ===== src/Commands.antt =====
-- `to_json` of src/electrum/Commands.cxx for every response class, and the two functions of
-- src/net/JsonRPCServer.cxx that wrap a result or an error.
pub mod Map
pub mod Types
use electrumz.Base.{
  ℕ, String, Option, none, some, List, [], ◌∷◌, ◌++◌, map, ℤ, pos, negsuc, Bytes, codes, length,
}
use electrumz.Json.{JsonLib}
use electrumz.Bitcoin.{BitcoinLib}
use Types.{
  TxInfo, TxOut, PeerInfo, ScriptStatus, BcHeadersSubscribeResponse, ShGetBalanceResponse,
  TxGetMerkleResponse, SvFeaturesResponse, SvVersionResponse, Response,
}

-- The text that the formatting library makes of a number: in decimal for `ss << n`, and with the
-- locale's separators for `{0:n}`.
pub record FormatLib : Type 0 where
  pub decimal : ℤ → String
  pub grouped : ℤ → String
  pub concat : String → String → String

module _ (json : JsonLib) (bitcoin : BitcoinLib) (fmt : FormatLib) where
  open json use {
    Json, Float, null, from_str, from_int, from_bool, from_float, init_list, from_list, set_key,
    push_back, parse,
  }
  open bitcoin use {hex_str, hash}
  open fmt use {decimal, grouped, concat}

  -- The element `{ key, value }` of an initializer list.
  abbrev pair : String → Json → Json
  pair key value = init_list (from_str key ∷ value ∷ [])

  -- `for (auto x : r) j.push_back(x)`, from `j = json{}`.
  pub push_all : Json → List Json → Json
  push_all j [] = j
  push_all j (x ∷ xs) = push_all (push_back j x) xs

  push_option : Json → String → Option ℤ → Json
  push_option inner mark none = inner
  push_option inner mark (some n) = push_back inner (from_str (concat mark (grouped n)))

  pub peer_info_json : PeerInfo Float → Json
  unfolding push_option
  peer_info_json r =
      let inner = init_list (from_float r.protocol_max ∷ []) in
      let inner' = push_option inner "p" r.pruning_limit in
      let inner'' = push_option inner' "t" r.tcp_port in
      init_list (from_str r.ip ∷ from_str r.hostname ∷ push_option inner'' "s" r.ssl_port ∷ [])

  pub tx_out_json : TxOut → Json
  tx_out_json r = init_list (
      pair "tx_pos" (from_int r.pos)
      ∷ pair "value" (from_int r.value)
      ∷ pair "tx_hash" (from_str r.hash)
      ∷ pair "height" (from_int r.height)
      ∷ [])

  -- The string that `ScriptStatus::GetStatusHash` hashes, as bytes.
  pub status_string : List TxInfo → Bytes
  status_string [] = []
  status_string (tx ∷ txn) =
      codes tx.hash ++ (codes ":" ++ (codes (decimal tx.height) ++ status_string txn))

  pub get_status_hash : ScriptStatus → Bytes
  unfolding status_string
  get_status_hash r = hash (status_string r.txn)

  pub history_json : TxInfo → Json
  history_json h =
      init_list (pair "height" (from_int h.height) ∷ pair "tx_hash" (from_str h.hash) ∷ [])

  pub mempool_json : TxInfo → Json
  mempool_json h = init_list (
      pair "height" (from_int h.height)
      ∷ pair "tx_hash" (from_str h.hash)
      ∷ pair "fee" (from_int h.fee)
      ∷ [])

  pub histogram_json : ℤ × ℤ → Json
  histogram_json (a, b) = from_list (from_int a ∷ from_int b ∷ [])

  pub host_json : String × ℤ × ℤ → Json
  host_json (a, b, c) = from_list (from_str a ∷ from_int b ∷ from_int c ∷ [])

  -- `to_json(j, r)`, where `j` is null before; `none` where it throws.
  unfoldable pub to_json : Response Float → Option Json
  unfolding push_all peer_info_json tx_out_json get_status_hash history_json mempool_json
      histogram_json host_json
  to_json Response.block_header = some null
  to_json Response.block_headers = some null
  to_json (Response.estimatefee v) = some (from_float v)
  to_json (Response.headers_subscribe r) =
      some
        (init_list (pair "height" (from_int r.height) ∷ pair "hex" (from_str (hex_str r.hex)) ∷ []))
  to_json (Response.relayfee v) = some (from_float v)
  to_json (Response.get_balance r) = some (
      init_list
        (pair "confirmed" (from_str r.confirmed) ∷ pair "unconfiemd" (from_str r.unconfirmed) ∷ []))
  to_json (Response.get_history hs) = some (push_all null (map history_json hs))
  to_json (Response.get_mempool hs) = some (push_all null (map mempool_json hs))
  to_json Response.history = some null
  to_json (Response.list_unspent us) = some (push_all null (map tx_out_json us))
  to_json (Response.subscribe r) = some (from_str (hex_str (get_status_hash r)))
  to_json Response.utxos = some null
  to_json (Response.broadcast s) = some (from_str s)
  to_json (Response.get hex) = parse hex
  to_json (Response.get_merkle r) = some (
      init_list (
        pair "pos" (from_int r.pos)
        ∷ pair "block_height" (from_int r.block_height)
        ∷ from_list (map from_str r.merkle)
        ∷ []))
  to_json (Response.id_from_pos h) = some (init_list (pair "tx_hash" (from_str h) ∷ []))
  to_json Response.changes = some null
  to_json (Response.get_fee_histogram xs) = some (push_all null (map histogram_json xs))
  to_json (Response.add_peer b) = some (from_bool b)
  to_json (Response.banner s) = some (from_str s)
  to_json (Response.donation_address s) = some (from_str s)
  to_json (Response.features r) = some (
      init_list (
        pair "genesis_hash" (from_str r.genesis_hash)
        ∷ pair "server_version" (from_str r.server_version)
        ∷ pair "hash_function" (from_str r.hash_function)
        ∷ pair "protocol_max" (from_float r.protocol_max)
        ∷ pair "protocol_min" (from_float r.protocol_min)
        ∷ pair "hosts" (from_list (map host_json r.hosts))
        ∷ []))
  to_json (Response.peers_subscribe ps) = some (push_all null (map peer_info_json ps))
  to_json Response.ping = some null
  to_json (Response.version r) = some (
      init_list (
        pair "software_version" (from_str r.software_version)
        ∷ pair "protocol_version" (from_str r.protocol_version)
        ∷ []))

  unfoldable pub success_reply : ℤ → Json → Json
  success_reply id result =
      set_key (set_key (set_key null "id" (from_int id)) "jsonrpc" (from_str "2.0")) "result" result

  unfoldable pub succeed : ℤ → Option Json → Option Json
  succeed id none = none
  succeed id (some result) = some (success_reply id result)

  -- `CommandSuccess` from a cleared `j`, `none` where `to_json` throws.
  unfoldable pub command_success : ℤ → Response Float → Option Json
  unfolding succeed success_reply to_json
  command_success id cmd = succeed id (to_json cmd)

  -- `CommandError` from a cleared `j`.
  pub command_error : ℤ → String → ℤ → Json
  command_error id msg err =
      let error = set_key (set_key null "message" (from_str msg)) "code" (from_int err) in
      set_key (set_key (set_key null "id" (from_int id)) "jsonrpc" (from_str "2.0")) "error" error
