-- ===== src/Connection/Dispatch/Methods.antt =====
-- Which reply a method gets.
use Prim.Native.String.{String}
use electrumz.Base.{
  ℕ, Bytes, Bool, true, false, Option, none, some, List, [], ◌∷◌, ◌++◌, ◌≡◌, refl, ap, ◌∙◌, length,
  ℤ, ◌==◌, arith, length-reverse,
}
use electrumz.Base.Outcome.{Outcome, done, threw, fault, pure, continue}
use electrumz.Commands.{command_success, success_reply, succeed, to_json}
use electrumz.Commands.Map.Names.{tx_get_named, subscribe_named}
use electrumz.Commands.Map.{
  ElectrumCommands, unknown, bc_block_header, bc_block_headers, sh_subscribe, tx_get, find_command,
}
use electrumz.Commands.Types.{Response}
use electrumz.Connection.State.{Io}
use electrumz.Connection.Write.{write_internal}
use electrumz.Connection.Dispatch.{
  Libraries, dispatch, dispatch_rest, answer, handle_command, reply, write_json, subscribe,
  read_hash, to_uint256,
}

-- The methods that read the parameters of the request.
abbrev pub reads_params : ElectrumCommands → Bool
reads_params bc_block_header = true
reads_params bc_block_headers = true
reads_params sh_subscribe = true
reads_params _ = false

-- The methods whose answer is an error or an exception.
abbrev pub has_result : ElectrumCommands → Bool
has_result unknown = false
has_result tx_get = false
has_result _ = true

-- A request that names this method and id.
pub record IsCall (libs : Libraries) (cmd : libs.json.Json) (method : String) (id : ℤ)
    : Type 0 where
  pub m : libs.json.Json
  pub i : libs.json.Json
  pub not_null : libs.json.is_null cmd ≡ false
  pub has_method : libs.json.at_key cmd "method" ≡ some m
  pub named : libs.json.get_string m ≡ some method
  pub has_id : libs.json.at_key cmd "id" ≡ some i
  pub numbered : libs.json.get_int i ≡ some id

module _ (libs : Libraries) where
  open libs use {json, bitcoin, fmt, platform, backend}
  open json use {Json, Float, dump}
  open backend use {Services}

  -- The state after a text for the socket.
  abbrev pub sent : Json → Io Services → Io Services
  sent j io = record io { out = (dump j ++ b'\n' ∷ []) ∷ io.out }

  abbrev pub Accepts : Type 0
  Accepts = (out : List Bytes) (text : Bytes) → platform.uv_write_accepts out text ≡ true

  write_json-sent :
      (j : Json) (io : Io Services)
      → Accepts
      → write_json libs j io ≡ done (sent j io) (length (dump j ++ b'\n' ∷ []))
  unfolding write_json write_internal
  write_json-sent j io accepts = rw (accepts io.out (dump j ++ b'\n' ∷ [])) refl

  pub handle_command-call :
      (cmd : Json) (method : String) (id : ℤ) (io : Io Services)
      → IsCall libs cmd method id
      → handle_command libs cmd io
        ≡ continue (answer libs (find_command method) id cmd io) (λ _. pure 0)
  unfolding handle_command
  handle_command-call cmd method id io c =
      rw (c.not_null, c.has_method, c.named, c.has_id, c.numbered) refl

  pub reply-sent :
      (id : ℤ) (rsp : Response Float) (result : Json) (io : Io Services)
      → Accepts
      → to_json json bitcoin fmt rsp ≡ some result
      → continue {B = ℕ} (reply libs id rsp io) (λ _. pure 0)
        ≡ done (sent (success_reply json bitcoin fmt id result) io) 0
  unfolding reply command_success succeed
  reply-sent id rsp result io accepts e =
      rw (e, write_json-sent (success_reply json bitcoin fmt id result) io accepts) refl

  -- How a handler ends that answers with a result.
  abbrev pub HasResult : ℤ → Io Services → Outcome (Io Services) ℕ → Type 0
  HasResult id io o =
      (result : Json) × (continue {B = ℕ} o (λ _. pure 0)
        ≡ done (sent (success_reply json bitcoin fmt id result) io) 0)

  dispatch_result :
      (c : ElectrumCommands) (id : ℤ) (cmd : Json) (io : Io Services)
      → Accepts
      → reads_params c ≡ false
      → has_result c ≡ true
      → HasResult id io (dispatch libs c id cmd io)
  unfolding dispatch dispatch_rest to_json
  dispatch_result unknown id cmd io accepts p r = ground arith
  dispatch_result bc_block_header id cmd io accepts p r = ground arith
  dispatch_result bc_block_headers id cmd io accepts p r = ground arith
  dispatch_result sh_subscribe id cmd io accepts p r = ground arith
  dispatch_result tx_get id cmd io accepts p r = ground arith
  dispatch_result _ id cmd io accepts p r = (_, reply-sent id _ _ io accepts refl)

  -- A request with a method and an id, for a method that needs no parameters, other than
  -- transaction.get, is answered with a result under its id, and nothing else is written,
  -- provided the socket takes the bytes.
  pub handle_command-result :
      (cmd : Json) (method : String) (id : ℤ) (c : ElectrumCommands) (io : Io Services)
      → IsCall libs cmd method id
      → find_command method ≡ some c
      → reads_params c ≡ false
      → has_result c ≡ true
      → Accepts
      → (result : Json) × (handle_command libs cmd io
          ≡ done (sent (success_reply json bitcoin fmt id result) io) 0)
  unfolding answer
  handle_command-result cmd method id c io call found p r accepts =
      let (result, e) = dispatch_result c id cmd io accepts p r in
      (
        result,
        handle_command-call cmd method id io call
            ∙ ap (λ (o : Option ElectrumCommands). continue (answer libs o id cmd io) (λ _. pure 0))
                found
            ∙ e,
      )

  -- A request for transaction.get is never answered where the JSON library rejects an empty
  -- text: the handler throws, with nothing written.
  handle_command-tx_get :
      (cmd : Json) (id : ℤ) (io : Io Services)
      → IsCall libs cmd "blockchain.transaction.get" id
      → json.parse [] ≡ none
      → handle_command libs cmd io ≡ threw io
  unfolding answer dispatch dispatch_rest reply command_success succeed to_json
  handle_command-tx_get cmd id io call rejected =
      handle_command-call cmd "blockchain.transaction.get" id io call
      ∙ ap (λ (o : Option ElectrumCommands). continue (answer libs o id cmd io) (λ _. pure 0))
          tx_get_named
      ∙ rw rejected refl

  -- A subscription whose script hash does not decode to 32 bytes fails an assertion.
  handle_command-subscribe_fault :
      (cmd params p0 : Json) (hash : String) (id : ℤ) (io : Io Services)
      → IsCall libs cmd "blockchain.scripthash.subscribe" id
      → json.at_key cmd "params" ≡ some params
      → json.is_array params ≡ true
      → json.at_index params 0 ≡ some p0
      → json.is_string p0 ≡ true
      → json.get_string p0 ≡ some hash
      → (length (bitcoin.parse_hex hash) == 32) ≡ false
      → handle_command libs cmd io ≡ fault
  unfolding answer dispatch dispatch_rest subscribe read_hash to_uint256
  handle_command-subscribe_fault cmd params p0 hash id io call has_params is_array has_p0 is_string
        gets short =
      handle_command-call cmd "blockchain.scripthash.subscribe" id io call
      ∙ ap (λ (o : Option ElectrumCommands). continue (answer libs o id cmd io) (λ _. pure 0))
          subscribe_named
      ∙ rw
          (
            has_params,
            is_array,
            has_p0,
            is_string,
            gets,
            length-reverse (bitcoin.parse_hex hash),
            short,
          )
          refl
