-- ===== src/Worker.antt =====
-- The start of the process: src/electrumz.cxx, src/net/NetWorker.cxx and include/electrumz/NetWorker.h.
pub mod Clients
pub mod Status
use electrumz.Base.{
  ℕ, ◌==◌, String, str_eq, Bytes, Bool, true, false, not, Option, none, some, List, [], ◌∷◌, ltb, ℤ,
  pos, if◌then◌else◌,
}
use electrumz.Base.Outcome.{Outcome, done, threw, fault, Exec, pure, raise, crash, ◌>>=◌, ◌>>◌}
use electrumz.Config.{Config}
use electrumz.Connection.State.{Conn, connect}
use electrumz.Lmdb.{Lmdb}
use electrumz.Txo.Database.{is_zero, open_database, get_txo_stats}

-- What libuv and mbedtls answer to the calls of the constructor.
pub record Host : Type 0 where
  pub loop_init : Bool
  pub tcp_init : Bool
  pub ip4_addr : String → ℕ → Bool
  pub cert_parses : String → Bool
  pub key_parses : String → Bool

-- A pointer member: not set yet, null, or to an object.
pub data Pointer (A : Type 0) : Type 0 where
  unset null : Pointer A
  object : A → Pointer A

-- What `RPCClient`'s constructor gets.
pub record RpcDetails : Type 0 where
  pub host : String
  pub port : ℕ
  pub username : String
  pub password : String

-- The members of `NetWorker` that a connection gets.
pub record Worker : Type 0 where
  pub ssl_config : Pointer (Unit {0})
  pub rpc_client : Pointer RpcDetails

abbrev pub new_worker : Worker
new_worker = record { ssl_config = unset; rpc_client = unset }

abbrev pub is_empty : String → Bool
is_empty s = str_eq s ""

-- The condition for an RPC client, by its `&&`s from the left; a port that was never set cannot be
-- looked at.
unfoldable pub connect_client : Config → Exec Worker (Unit {0})
connect_client cfg w = if is_empty cfg.rpchost then done w tt else elim cfg.rpc_port [
  | none ↦ fault
  | some port ↦
      if port == 0
      then done w tt
      else if is_empty cfg.rpcusername
      then done w tt
      else if is_empty cfg.rpcpassword
      then done w tt
      else done
          (record w {
            rpc_client = object (record {
              host = cfg.rpchost;
              port = port;
              username = cfg.rpcusername;
              password = cfg.rpcpassword;
            });
          })
          tt
]

-- The certificate and the key, and then the RPC client; where one of them does not load the
-- constructor returns, with `ssl_config` set to an object.
unfoldable pub set_up_tls : Host → Config → Exec Worker (Unit {0})
set_up_tls host cfg w =
    if is_empty cfg.ssl_cert
    then connect_client cfg (record w { ssl_config = null })
    else if is_empty cfg.ssl_key
    then connect_client cfg (record w { ssl_config = null })
    else (let w' = record w { ssl_config = object tt } in
        if host.cert_parses cfg.ssl_cert
        then if host.key_parses cfg.ssl_key then connect_client cfg w' else done w' tt
        else done w' tt)

-- `NetWorker::NetWorker`.
unfoldable pub start_worker : Host → Config → Exec Worker (Unit {0})
start_worker host cfg w =
    if host.loop_init
    then if host.tcp_init
      then if host.ip4_addr cfg.host cfg.port then set_up_tls host cfg w else done w tt
      else done w tt
    else done w tt

-- `OnConnect` for a status that is not negative: the connection, if the client is accepted.
unfoldable pub on_client : {T : Type 0} → Bool → Worker → Outcome Worker (Option (Conn T))
on_client accepted w =
    if accepted
    then elim w.ssl_config [
      | unset ↦ fault
      | null ↦ done w (some (connect false))
      | object _ ↦ done w (some (connect true))
    ]
    else done w none

-- What libuv answers to the calls of `Work`, and the clients that its loop reports: whether the status
-- is not negative, and whether `uv_accept` succeeds.
pub record Server : Type 0 where
  pub tcp_bind : Bool
  pub listen : Bool
  pub clients : List (Bool × Bool)

module _ {T : Type 0} where
  -- `OnConnect`.
  unfoldable pub on_connect : Bool → Bool → Exec Worker (Option (Conn T))
  on_connect status_ok accepted w = if status_ok then on_client accepted w else done w none

  abbrev pub with_connection : Option (Conn T) → List (Conn T) → List (Conn T)
  with_connection none conns = conns
  with_connection (some c) conns = c ∷ conns

  -- The connections that the loop makes, in order.
  unfoldable pub serve_clients : List (Bool × Bool) → Exec Worker (List (Conn T))
  serve_clients [] = pure []
  serve_clients ((status_ok, accepted) ∷ clients) = do
    c ← on_connect status_ok accepted
    conns ← serve_clients clients
    pure (with_connection c conns)

  -- `Work`; the result of `uv_run` is only logged.
  unfoldable pub work : Server → Exec Worker (List (Conn T))
  work server w =
      if server.tcp_bind
      then if server.listen then serve_clients server.clients w else done w []
      else done w []

module _ (lmdb : Lmdb) where
  open lmdb use {Env}

  -- A database's statistics, and the rest of `main` where the code is 0.
  abbrev pub with_stats : String → Exec Env ℕ → Exec Env ℕ
  with_stats name rest = do
    stats ← get_txo_stats lmdb name
    if is_zero stats.0 then rest else pure 0

  -- `main`: the number of errors in the arguments, whether help is asked for, the constructor of the
  -- configuration, which may throw, and the two ways to run.
  unfoldable pub main :
      ℕ
      → Bool
      → Exec Env Config
      → Option (Exec Env (Unit {0}))
      → (Config → Exec Env (Unit {0}))
      → Exec Env ℕ
  main nerrors help load preload work =
      if ltb 0 nerrors then pure 1 else if help then pure 0 else (do
        cfg ← load
        err ← open_database lmdb "db"
        if is_zero err
            then with_stats "txo" (
                with_stats "addr" (
                  with_stats "blk"
                    (elim preload [ none ↦ (do work cfg; pure 0) | some run ↦ (do run; pure 0) ])))
            else pure 0)
