-- ===== src/Connection/Dispatch.antt =====
-- `HandleCommand`: the switch over the methods, with the replies that it writes.
pub mod Steps
pub mod Replies
pub mod Methods
use Prim.Native.String.{String}
use electrumz.Base.{
  ℕ, Bytes, codes, Bool, true, false, Option, none, some, List, [], ◌∷◌, ◌++◌, length, ◌==◌,
  if◌then◌else◌, ℤ, pos, negsuc,
}
use mathlib.Core.List.{reverse}
use electrumz.Base.Outcome.{Outcome, done, threw, fault, Exec, pure, raise, crash, ◌>>=◌, ◌>>◌}
use electrumz.Json.{JsonLib}
use electrumz.Bitcoin.{BitcoinLib}
use electrumz.Commands.{FormatLib, command_success, command_error}
use electrumz.Commands.Map.{
  ElectrumCommands, unknown, bc_block_header, bc_block_headers, bc_estimatefee,
  bc_headers_subscribe, bc_relayfee, sh_get_balance, sh_get_history, sh_get_mempool, sh_history,
  sh_list_unspent, sh_subscribe, sh_utxos, tx_broadcast, tx_get, tx_get_merkle, tx_id_from_pos,
  mp_changes, mp_get_fee_histogram, sv_add_peer, sv_banner, sv_donation_address, sv_features,
  sv_peers_subscribe, sv_ping, sv_version, find_command,
}
use electrumz.Commands.Types.{Response}
use electrumz.Connection.State.{Io, Platform}
use electrumz.Connection.Write.{write_internal}

-- The services behind the commands: `RPCClient::Query("getblockhash", h, "test")` and
-- `TXODB::GetTXOs`, whose answer the handler does not look at.
pub record Backend : Type 1 where
  pub Services : Type 0
  pub query_block_hash : ℤ → Exec Services (Unit {0})
  pub get_txos : Bytes → Exec Services ℤ

-- What `JsonRPCServer` is built from.
pub record Libraries : Type 1 where
  pub json : JsonLib
  pub bitcoin : BitcoinLib
  pub fmt : FormatLib
  pub platform : Platform
  pub backend : Backend

abbrev pub block_header_example : String
block_header_example =
    "01000030c306405f586ae1ae2330cb3f8a1ecf5e8f50192682656ddb5fa000fb486af66f4d304c05be48e86ad3f56d8f639d5c124f3cedb3a08d539ef5aabbdba9582708f32e975dffff7f2006000000"

module _ (libs : Libraries) where
  open libs use {json, bitcoin, fmt, platform, backend}
  open json use {
    Json, Float, float_of, is_null, is_array, is_string, is_number, at_key, at_index, get_string,
    get_int, get_uint, dump,
  }
  open bitcoin use {parse_hex}
  open backend use {Services, query_block_hash, get_txos}

  -- A step of the JSON library, whose exception is passed on.
  abbrev pub lift : {A : Type 0} → Option A → Exec (Io Services) A
  lift none = raise
  lift (some a) = pure a

  abbrev pub on_services : {A : Type 0} → Exec Services A → Exec (Io Services) A
  on_services m io = elim (m io.services) [
    | done s a ↦ done (record io { services = s }) a
    | threw s ↦ threw (record io { services = s })
    | fault ↦ fault
  ]

  -- `WriteInternal(json)`: the text and a newline.
  unfoldable pub write_json : Json → Exec (Io Services) ℕ
  write_json j = write_internal platform (dump j ++ b'\n' ∷ [])

  -- `CommandSuccess` and the write behind it.
  unfoldable pub reply : ℤ → Response Float → Exec (Io Services) ℕ
  reply id rsp = do j ← lift (command_success json bitcoin fmt id rsp); write_json j

  unfoldable pub reply_error : ℤ → String → ℤ → Exec (Io Services) ℕ
  reply_error id msg code = write_json (command_error json bitcoin fmt id msg code)

  -- The error codes -32700, -32601 and -32602.
  abbrev pub parser_error : ℤ
  parser_error = negsuc 32699

  abbrev pub method_error : ℤ
  method_error = negsuc 32600

  abbrev pub params_error : ℤ
  params_error = negsuc 32601

  -- `if (p.is_number()) p.get_to<uint64_t>(v)`, where `v` is not used any more.
  unfoldable pub read_number : Json → Exec (Io Services) (Unit {0})
  read_number p = if is_number p then (do n ← lift (get_uint p); pure tt) else pure tt

  -- `uint256(vch)` asserts that there are 32 bytes.
  unfoldable pub to_uint256 : Bytes → Exec (Io Services) Bytes
  to_uint256 vch = if length vch == 32 then pure vch else crash

  unfoldable pub block_header : ℤ → Json → Exec (Io Services) ℕ
  block_header id cmd = do
    params ← lift (at_key cmd "params")
    if is_array params
        then (do
          p0 ← lift (at_index params 0)
          p1 ← lift (at_index params 1)
          read_number p0
          read_number p1
          h ← lift (get_int p0)
          on_services (query_block_hash h)
          reply id Response.block_header)
        else reply_error id "Invalid params" params_error

  unfoldable pub block_headers : ℤ → Json → Exec (Io Services) ℕ
  block_headers id cmd = do
    params ← lift (at_key cmd "params")
    if is_array params
        then (do
          p0 ← lift (at_index params 0)
          p1 ← lift (at_index params 1)
          p2 ← lift (at_index params 2)
          read_number p0
          read_number p1
          read_number p2
          reply id Response.block_headers)
        else reply_error id "Invalid params" params_error

  -- The text of `params[0]`, empty if that is not a string.
  unfoldable pub read_hash : Json → Exec (Io Services) String
  read_hash p = if is_string p then lift (get_string p) else pure ""

  unfoldable pub subscribe : ℤ → Json → Exec (Io Services) ℕ
  unfolding to_uint256
  subscribe id cmd = do
    params ← lift (at_key cmd "params")
    if is_array params
        then (do
          p0 ← lift (at_index params 0)
          hash ← read_hash p0
          key ← to_uint256 (reverse (parse_hex hash))
          err ← on_services (get_txos key)
          reply id (Response.subscribe (record { txn = [] })))
        else reply_error id "Invalid params" params_error

  -- The cases of the switch behind that of `blockchain.scripthash.subscribe`, and its default.
  unfoldable pub dispatch_rest : ElectrumCommands → ℤ → Exec (Io Services) ℕ
  dispatch_rest sh_utxos id = reply id Response.utxos
  dispatch_rest tx_broadcast id = reply id (Response.broadcast "")
  dispatch_rest tx_get id = reply id (Response.get [])
  dispatch_rest tx_get_merkle id =
      reply id (Response.get_merkle (record { merkle = []; block_height = pos 0; pos = pos 0 }))
  dispatch_rest tx_id_from_pos id = reply id (Response.id_from_pos "")
  dispatch_rest mp_changes id = reply id Response.changes
  dispatch_rest mp_get_fee_histogram id = reply id (Response.get_fee_histogram [])
  dispatch_rest sv_add_peer id = reply id (Response.add_peer false)
  dispatch_rest sv_banner id = reply id (Response.banner "")
  dispatch_rest sv_donation_address id =
      reply id (Response.donation_address "2MzwLdkKRKqHtmpbXoYpXjm7SKT8LeGXriM")
  dispatch_rest sv_features id = reply id (
      Response.features (record {
        genesis_hash = "";
        server_version = "";
        hash_function = "";
        protocol_max = float_of 0;
        protocol_min = float_of 0;
        hosts = [];
      }))
  dispatch_rest sv_peers_subscribe id = reply id (Response.peers_subscribe [])
  dispatch_rest sv_ping id = reply id Response.ping
  dispatch_rest sv_version id =
      reply id
        (Response.version (record { software_version = "ElectrumZ"; protocol_version = "1.4.1" }))
  dispatch_rest _ id = reply_error id "Method not implemented" method_error

  -- The cases of the switch.
  unfoldable pub dispatch : ElectrumCommands → ℤ → Json → Exec (Io Services) ℕ
  unfolding dispatch_rest
  dispatch bc_block_header id cmd = block_header id cmd
  dispatch bc_block_headers id cmd = block_headers id cmd
  dispatch bc_estimatefee id cmd = reply id (Response.estimatefee (float_of 1))
  dispatch bc_headers_subscribe id cmd = reply id (
      Response.headers_subscribe (record { height = pos 10; hex = parse_hex block_header_example }))
  dispatch bc_relayfee id cmd = reply id (Response.relayfee (float_of 1))
  dispatch sh_get_balance id cmd =
      reply id (Response.get_balance (record { confirmed = ""; unconfirmed = "" }))
  dispatch sh_get_history id cmd = reply id (Response.get_history [])
  dispatch sh_get_mempool id cmd = reply id (Response.get_mempool [])
  dispatch sh_history id cmd = reply id Response.history
  dispatch sh_list_unspent id cmd = reply id (Response.list_unspent [])
  dispatch sh_subscribe id cmd = subscribe id cmd
  dispatch c id cmd = dispatch_rest c id

  unfoldable pub answer : Option ElectrumCommands → ℤ → Json → Exec (Io Services) ℕ
  answer none id cmd = reply_error id "Method not found" method_error
  answer (some c) id cmd = dispatch c id cmd

  -- `HandleCommand`, which returns 0 on every path.
  unfoldable pub handle_command : Json → Exec (Io Services) ℕ
  unfolding answer
  handle_command cmd =
      if is_null cmd
      then (do written ← reply_error (pos 0) "Parser error" parser_error; pure 0)
      else (do
        m ← lift (at_key cmd "method")
        method ← lift (get_string m)
        i ← lift (at_key cmd "id")
        id ← lift (get_int i)
        written ← answer (find_command method) id cmd
        pure 0)
