-- ===== src/Services/Subscribe.antt =====
-- A subscription, over the database behind it.
use electrumz.Base.{
  Bytes, true, ◌≡◌, refl, ap, ◌∙◌, Option, some, List, [], length, ℤ, ==_iff, length-reverse,
  String,
}
use mathlib.Core.List.{reverse}
use electrumz.Base.Outcome.{Outcome, done, threw, fault, pure, continue}
use electrumz.Bitcoin.{BitcoinLib}
use electrumz.Commands.{FormatLib, success_reply, get_status_hash, to_json}
use electrumz.Commands.Map.{ElectrumCommands}
use electrumz.Commands.Map.Names.{subscribe_named}
use electrumz.Commands.Types.{Response}
use electrumz.Connection.Dispatch.{
  Libraries, reply, on_services, answer, dispatch, subscribe, read_hash, to_uint256, handle_command,
}
use electrumz.Connection.Dispatch.Methods.{IsCall, handle_command-call, reply-sent, sent, Accepts}
use electrumz.Connection.State.{Io, Platform}
use electrumz.Json.{JsonLib}
use electrumz.Lmdb.{Lmdb}
use electrumz.Rpc.{Client, Network}
use electrumz.Services.{libraries, look_up}
use electrumz.Txo.Database.{get_txos}
use electrumz.Txo.Record.{Txo}

module _ (json : JsonLib) (bitcoin : BitcoinLib) (fmt : FormatLib) (net : Network) (lmdb : Lmdb)
    (platform : Platform) where
  open json use {Json, from_str}
  open bitcoin use {parse_hex, hex_str}

  abbrev libs : Libraries
  libs = libraries json bitcoin fmt net lmdb platform

  -- The answer to any subscription.
  abbrev pub no_history : ℤ → Json
  no_history id =
      success_reply json bitcoin fmt id
        (from_str (hex_str (get_status_hash json bitcoin fmt (record { txn = [] }))))

  on_services_found :
      (key : Bytes) (io : Io (Client Json × lmdb.Env)) (env : lmdb.Env) (code : ℤ) (ntx : List Txo)
      → get_txos lmdb key [] io.services.1 ≡ done env (code, ntx)
      → on_services libs (libs.backend.get_txos key) io
        ≡ done (record io { services = (io.services.0, env) }) code
  unfolding look_up
  on_services_found key io env code ntx e =
      ap
        (λ (o : Outcome lmdb.Env (ℤ × List Txo)).
          elim (elim (continue {B = ℤ} o (λ found. pure {S = lmdb.Env} found.0))
              as (λ _. Outcome (Client Json × lmdb.Env) ℤ) [
                | done b r ↦ done (io.services.0, b) r
                | threw b ↦ threw (io.services.0, b)
                | fault ↦ fault
              ])
            as (λ _. Outcome (Io (Client Json × lmdb.Env)) ℤ) [
              | done s a ↦ done (record io { services = s }) a
              | threw s ↦ threw (record io { services = s })
              | fault ↦ fault
            ])
        e

  pub handle_command-subscribe :
      (cmd params p0 : Json) (hash : String) (id : ℤ) (io : Io (Client Json × lmdb.Env))
      (env : lmdb.Env) (code : ℤ) (ntx : List Txo)
      → IsCall libs cmd "blockchain.scripthash.subscribe" id
      → json.at_key cmd "params" ≡ some params
      → json.is_array params ≡ true
      → json.at_index params 0 ≡ some p0
      → json.is_string p0 ≡ true
      → json.get_string p0 ≡ some hash
      → length (parse_hex hash) ≡ 32
      → Accepts libs
      → get_txos lmdb (reverse (parse_hex hash)) [] io.services.1 ≡ done env (code, ntx)
      → handle_command libs cmd io
        ≡ done (sent libs (no_history id) (record io { services = (io.services.0, env) })) 0
  unfolding answer dispatch subscribe read_hash to_uint256 to_json
  handle_command-subscribe cmd params p0 hash id io env code ntx call has_params is_array has_p0
        is_string gets size accepts found =
      handle_command-call libs cmd "blockchain.scripthash.subscribe" id io call
      ∙ ap (λ (o : Option ElectrumCommands). continue (answer libs o id cmd io) (λ _. pure 0))
          subscribe_named
      ∙ rw
          (
            has_params,
            is_array,
            has_p0,
            is_string,
            gets,
            length-reverse (bitcoin.parse_hex hash),
            (==_iff (length (bitcoin.parse_hex hash)) 32).1 size,
          )
          (ap
              (λ (o : Outcome (Io (Client Json × lmdb.Env)) ℤ).
                continue
                  (continue o (λ err. reply libs id (Response.subscribe (record { txn = [] }))))
                  (λ _. pure 0))
              (on_services_found (reverse (parse_hex hash)) io env code ntx found)
            ∙ reply-sent libs id (Response.subscribe (record { txn = [] })) _
                (record io { services = (io.services.0, env) }) accepts refl)
