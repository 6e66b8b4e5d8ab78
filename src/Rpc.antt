-- ===== src/Rpc.antt =====
-- The client of Bitcoin Core's RPC server: src/net/RPCClient.cxx and include/electrumz/RPCClient.h.
-- Its state, the queries that wait for an answer, and the two sides of a query.
pub mod Open
pub mod States
pub mod Queries
pub mod Answer
pub mod Table
pub mod Order
pub mod Completion
pub mod Reads
use electrumz.Base.{
  ℕ, zero, suc, ◌+◌, ◌-◌, ◌%◌, ◌==◌, String, Bytes, codes, Bool, true, false, Option, none, some,
  List, [], ◌∷◌, ◌++◌, length, ltb, ℤ, pos, negsuc, if◌then◌else◌,
}
use electrumz.Base.Outcome.{Outcome, done, threw, fault, Exec, pure, raise, crash, ◌>>=◌, ◌>>◌}
use electrumz.Bitcoin.{BitcoinLib}
use electrumz.Commands.{FormatLib}
use electrumz.Json.{JsonLib}

-- `RPCClientState`.
pub data RpcState : Type 0 where
  init connecting connected disconnecting disconnected : RpcState

-- `state()` and the test at the start of `Connect`.
abbrev pub may_connect : RpcState → Bool
may_connect init = true
may_connect disconnected = true
may_connect _ = false

-- The value of an `int` with this pattern of 32 bits.
abbrev pub to_int : ℕ → ℤ
to_int n = if ltb n 2147483648 then pos n else negsuc (4294967295 - n)

abbrev pub same_int : ℤ → ℤ → Bool
same_int (pos m) (pos n) = m == n
same_int (negsuc m) (negsuc n) = m == n
same_int _ _ = false

-- The promises are numbered in the order of their creation, and a value is none until it is set.
pub record Client (Json : Type 0) : Type 0 where
  pub state : RpcState
  -- Whether `socket` is set.
  pub socket : Bool
  -- `cmdId`, as a pattern of 32 bits.
  pub cmd_id : ℕ
  -- `_queryMap`: the id of a query and its promise.
  pub queries : List (ℤ × ℕ)
  pub promises : List (Option Json)
  pub username : String
  pub password : String
  -- What was handed to the socket, the last first.
  pub out : List Bytes

-- `RPCClient::RPCClient`.
abbrev pub new_client : {Json : Type 0} → String → String → Client Json
new_client username password = record {
  state = init;
  socket = false;
  cmd_id = 0;
  queries = [];
  promises = [];
  username = username;
  password = password;
  out = [];
}

module _ {V : Type 0} where
  abbrev pub find_id : ℤ → List (ℤ × V) → Option V
  find_id k [] = none
  find_id k ((j, v) ∷ m) = if same_int j k then some v else find_id k m

  abbrev pub erase_id : ℤ → List (ℤ × V) → List (ℤ × V)
  erase_id k [] = []
  erase_id k ((j, v) ∷ m) = if same_int j k then m else (j, v) ∷ erase_id k m

  abbrev pub set_nth : ℕ → V → List V → List V
  set_nth i v [] = []
  set_nth zero v (x ∷ xs) = v ∷ xs
  set_nth (suc i) v (x ∷ xs) = x ∷ set_nth i v xs

-- What libuv answers to the calls of `Connect` and to the writes.
pub record Network : Type 0 where
  pub tcp_init : Bool
  pub address : Bool
  pub tcp_connect : Bool
  pub read_start : Bool
  pub uv_write_accepts : List Bytes → Bytes → Bool

module _ (json : JsonLib) (bitcoin : BitcoinLib) (fmt : FormatLib) (net : Network) where
  open json use {
    Json, from_str, from_int, init_list, set_key, is_null, at_key, at_present, get_int, parse, dump,
  }
  open fmt use {decimal}
  open bitcoin use {encode_base64}

  abbrev pub lift : {A : Type 0} → Option A → Exec (Client Json) A
  lift none = raise
  lift (some a) = pure a

  -- `AddQuery`: `emplace` keeps an entry that is there.
  unfoldable pub add_query : ℤ → ℕ → Client Json → Client Json
  add_query id promise c = elim (find_id id c.queries) [
    | some _ ↦ c
    | none ↦ record c { queries = (id, promise) ∷ c.queries }
  ]

  -- `CompleteQuery`.
  unfoldable pub complete_query : ℤ → Json → Client Json → Client Json
  complete_query id data_value c = elim (find_id id c.queries) [
    | none ↦ c
    | some promise ↦ record c {
      queries = erase_id id c.queries;
      promises = set_nth promise (some data_value) c.promises;
    }
  ]

  -- `HandleResponse`.
  unfoldable pub handle_response : Json → Exec (Client Json) ℕ
  handle_response j = do
    error ← lift (at_present j "error")
    if is_null error
        then (do
          i ← lift (at_key j "id")
          id ← lift (get_int i)
          result ← lift (at_key j "result")
          λ c. done (complete_query id result c) 1)
        else pure 0

  -- `on_body`; an exception of the parser leaves the callback.
  unfoldable pub on_body : Bytes → Exec (Client Json) ℕ
  on_body bytes = do body ← lift (parse bytes); handled ← handle_response body; pure 0

  abbrev pub request_header : ℕ → String → String → Bytes
  request_header len username password =
      codes "POST / HTTP/1.1\r\nContent-Type: application/json\r\nContent-Length: "
      ++ (codes (decimal (pos len))
          ++ (codes "\r\nConnection: keep-alive\r\nAuthorization: Basic "
              ++ (encode_base64 (codes username ++ (codes ":" ++ codes password))
                  ++ codes "\r\n\r\n")))

  -- `WriteInternal`. Without a socket libuv gets a null pointer.
  unfoldable pub write_rpc : Bytes → Exec (Client Json) (Unit {0})
  write_rpc body c =
      let text = request_header (length body) c.username c.password ++ body in
      if c.socket
      then done (if net.uv_write_accepts c.out text then record c { out = text ∷ c.out } else c) tt
      else fault

  -- `SendQuery`: the number of the promise whose future it returns.
  unfoldable pub send_query : Json → Exec (Client Json) ℕ
  send_query j c =
      let id = to_int c.cmd_id in
      let promise = length c.promises in
      let c' =
        add_query id promise (record c {
          cmd_id = (c.cmd_id + 1) % 4294967296;
          promises = c.promises ++ (none ∷ []);
        }) in
      (do
        sent ← write_rpc (dump (set_key (set_key j "id" (from_int id)) "jsonrpc" (from_str "2.0")))
        pure promise)
        c'

  abbrev entry : String → Json → Json
  entry key value = init_list (from_str key ∷ value ∷ [])

  -- The three overloads of `Query`: several arguments, one, and none.
  unfoldable pub query_all : String → List Json → Exec (Client Json) ℕ
  query_all method args =
      send_query
        (init_list (entry "method" (from_str method) ∷ entry "params" (init_list args) ∷ []))

  unfoldable pub query_one : String → Json → Exec (Client Json) ℕ
  query_one method arg =
      send_query (init_list (entry "method" (from_str method) ∷ entry "params" arg ∷ []))

  unfoldable pub query : String → Exec (Client Json) ℕ
  query method = send_query (init_list (entry "method" (from_str method) ∷ []))

  -- `Connect`, up to the call of `uv_tcp_connect`.
  unfoldable pub connect_rpc : Client Json → Client Json
  connect_rpc c =
      if may_connect c.state
      then (if net.tcp_init
          then (if net.address
              then (if net.tcp_connect
                  then record c { state = connecting }
                  else record c { state = disconnected })
              else record c { state = disconnected })
          else record c { state = disconnected })
      else c

  -- Its callback; the flag says whether the status is 0.
  unfoldable pub on_connect : Bool → Exec (Client Json) (Unit {0})
  on_connect succeeded c =
      if succeeded
      then (if net.read_start
          then (do promise ← query "getblockchaininfo"; pure tt)
              (record c { socket = true; state = connected })
          else done (record c { socket = true; state = disconnected }) tt)
      else done (record c { state = disconnected }) tt
