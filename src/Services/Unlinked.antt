-- ===== src/Services/Unlinked.antt =====
-- Requests before the RPC client has a socket.
use electrumz.Base.{
  ℕ, true, false, ◌≡◌, refl, ap, ◌∙◌, Option, none, some, List, [], ◌∷◌, ◌++◌, length, ◌+◌, ◌%◌, ℤ,
}
use electrumz.Base.Outcome.{Outcome, done, threw, fault, pure, continue}
use electrumz.Bitcoin.{BitcoinLib}
use electrumz.Commands.{FormatLib}
use electrumz.Commands.Map.Names.{block_header_named}
use electrumz.Commands.Map.{ElectrumCommands}
use electrumz.Commands.Types.{Response}
use electrumz.Connection.Dispatch.{
  reply, on_services, answer, dispatch, dispatch_rest, block_header, read_number, handle_command,
}
use electrumz.Connection.Dispatch.Methods.{IsCall, handle_command-call}
use electrumz.Connection.State.{Io, Platform}
use electrumz.Json.{JsonLib}
use electrumz.Lmdb.{Lmdb}
use electrumz.Rpc.{Client, Network, add_query, write_rpc, send_query, query_all, find_id, to_int}
use electrumz.Services.{libraries, query_block_hash}

module _ (json : JsonLib) (bitcoin : BitcoinLib) (fmt : FormatLib) (net : Network) where
  open json use {Json}

  write_rpc_unlinked :
      (body : List ℕ) (c : Client Json)
      → c.socket ≡ false
      → write_rpc json bitcoin fmt net body c ≡ fault
  unfolding write_rpc
  write_rpc_unlinked body c s = rw s refl

  add_query_socket :
      (id : ℤ) (p : ℕ) (c : Client Json) → (add_query json bitcoin fmt net id p c).socket ≡ c.socket
  unfolding add_query
  add_query_socket id p c = by_find (find_id id c.queries)
    where
      by_find :
          (o : Option ℕ)
          → (elim o as (λ _. Client Json) [
            | some _ ↦ c
            | none ↦ record c { queries = (id, p) ∷ c.queries }
          ]).socket
            ≡ c.socket
      by_find none = refl
      by_find (some q) = refl

  send_query_unlinked :
      (j : Json) (c : Client Json) → c.socket ≡ false → send_query json bitcoin fmt net j c ≡ fault
  unfolding send_query
  send_query_unlinked j c s =
      let c' = record c {
        cmd_id = (c.cmd_id + 1) % 4294967296;
        promises = c.promises ++ (none ∷ []);
      } in
      let id = to_int c.cmd_id in
      ap (λ (o : Outcome (Client Json) (Unit {0})). continue o (λ sent. pure (length c.promises)))
        (write_rpc_unlinked _ (add_query json bitcoin fmt net id (length c.promises) c')
          (add_query_socket id (length c.promises) c' ∙ s))

  query_block_hash_unlinked :
      (lmdb : Lmdb) (platform : Platform) (h : ℤ) (c : Client Json)
      → c.socket ≡ false
      → query_block_hash json bitcoin fmt net lmdb platform h c ≡ fault
  unfolding query_block_hash query_all
  query_block_hash_unlinked lmdb platform h c s =
      ap (λ (o : Outcome (Client Json) ℕ). continue o (λ future. pure tt))
        (send_query_unlinked _ c s)

  on_services_unlinked :
      (lmdb : Lmdb) (platform : Platform) (h : ℤ) (io : Io (Client Json × lmdb.Env))
      → io.services.0.socket ≡ false
      → on_services
          (libraries json bitcoin fmt net lmdb platform)
          ((libraries json bitcoin fmt net lmdb platform).backend.query_block_hash h)
          io
        ≡ fault
  on_services_unlinked lmdb platform h io s =
      ap
        (λ (o : Outcome (Client Json) (Unit {0})).
          elim (elim o as (λ _. Outcome (Client Json × lmdb.Env) (Unit {0})) [
            | done a r ↦ done (a, io.services.1) r
            | threw a ↦ threw (a, io.services.1)
            | fault ↦ fault
          ])
            as (λ _. Outcome (Io (Client Json × lmdb.Env)) (Unit {0})) [
              | done s a ↦ done (record io { services = s }) a
              | threw s ↦ threw (record io { services = s })
              | fault ↦ fault
            ])
        (query_block_hash_unlinked lmdb platform h io.services.0 s)

  -- While the RPC client has no socket, a request for the header of a block stops the process: it
  -- hands libuv a null stream. Its first parameter is a number, and its second is not.
  handle_command-block_header_unlinked :
      (lmdb : Lmdb) (platform : Platform) (cmd params p0 p1 : Json) (id h : ℤ) (n : ℕ)
      (io : Io (Client Json × lmdb.Env))
      → IsCall (libraries json bitcoin fmt net lmdb platform) cmd "blockchain.block.header" id
      → json.at_key cmd "params" ≡ some params
      → json.is_array params ≡ true
      → json.at_index params 0 ≡ some p0
      → json.at_index params 1 ≡ some p1
      → json.is_number p0 ≡ true
      → json.get_uint p0 ≡ some n
      → json.get_int p0 ≡ some h
      → json.is_number p1 ≡ false
      → io.services.0.socket ≡ false
      → handle_command (libraries json bitcoin fmt net lmdb platform) cmd io ≡ fault
  unfolding answer dispatch dispatch_rest block_header read_number
  handle_command-block_header_unlinked lmdb platform cmd params p0 p1 id h n io call has_params
        is_array has_p0 has_p1 is_number gets_uint gets_int no_number unlinked =
      let libs = libraries json bitcoin fmt net lmdb platform in
      handle_command-call libs cmd "blockchain.block.header" id io call
      ∙ ap (λ (o : Option ElectrumCommands). continue (answer libs o id cmd io) (λ _. pure 0))
          block_header_named
      ∙ rw (has_params, is_array, has_p0, has_p1, is_number, gets_uint, no_number, gets_int)
          (ap
            (λ (o : Outcome (Io (Client Json × lmdb.Env)) (Unit {0})).
              continue (continue o (λ _. reply libs id Response.block_header)) (λ _. pure 0))
            (on_services_unlinked lmdb platform h io unlinked))
