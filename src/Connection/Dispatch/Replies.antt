-- ===== src/Connection/Dispatch/Replies.antt =====
-- How many replies a request gets.
use electrumz.Base.{
  ℕ, Bytes, Bool, true, false, Option, none, some, List, [], ◌≡◌, refl, subst, length, ℤ, pos, ◌==◌,
  if◌then◌else◌,
}
use mathlib.Core.List.{reverse}
use electrumz.Base.Outcome.{Exec, pure, crash, After, ◌>>=◌}
use electrumz.Commands.Map.{
  ElectrumCommands, unknown, bc_block_header, bc_block_headers, sh_subscribe, find_command,
}
use electrumz.Commands.Types.{Response}
use electrumz.Connection.State.{Io}
use electrumz.Connection.Dispatch.{
  Libraries, block_header, block_headers, subscribe, dispatch, dispatch_rest, answer,
  handle_command, lift, on_services, reply, reply_error, read_hash, to_uint256, params_error,
  parser_error,
}
use electrumz.Connection.Dispatch.Steps.{
  Quiet, Answered, then-Answered, returns-Answered, reply_error-Answered, lift-Quiet,
  on_services-Quiet, lift-Answered, reply-Answered, read_number-Answered,
}

module _ (libs : Libraries) where
  open libs use {json, bitcoin, fmt, platform, backend}
  open json use {Json, Float}
  open backend use {Services}

  reply_at :
      (out : List Bytes) (id : ℤ) (rsp : Response Float) (io : Io Services)
      → io.out ≡ out
      → Answered out (reply libs id rsp io)
  reply_at out id rsp io e =
      subst (λ (o : List Bytes). Answered o (reply libs id rsp io)) e
        (reply-Answered libs id rsp io)

  if_array :
      (b : Bool) (id : ℤ) (f : Exec (Io Services) ℕ) (io : Io Services)
      → Answered io.out (f io)
      → Answered io.out
          ((if b then f else reply_error libs id "Invalid params" (params_error libs)) io)
  if_array true id f io h = h
  if_array false id f io h = reply_error-Answered libs id _ _ io

  block_header-Answered :
      (id : ℤ) (cmd : Json) (io : Io Services) → Answered io.out (block_header libs id cmd io)
  unfolding block_header
  block_header-Answered id cmd io = lift-Answered libs (json.at_key cmd "params") _ io (λ params.
      if_array (json.is_array params) id _ io (
        lift-Answered libs (json.at_index params 0) _ io (λ p0.
          lift-Answered libs (json.at_index params 1) _ io (λ p1.
            read_number-Answered libs p0 _ io (
              read_number-Answered libs p1 _ io (
                lift-Answered libs (json.get_int p0) _ io (λ h.
                  then-Answered io.out (on_services libs (backend.query_block_hash h) io) _
                    (on_services-Quiet libs (backend.query_block_hash h) io)
                    (λ _ io' e. reply_at io.out id _ io' e))))))))

  block_headers-Answered :
      (id : ℤ) (cmd : Json) (io : Io Services) → Answered io.out (block_headers libs id cmd io)
  unfolding block_headers
  block_headers-Answered id cmd io = lift-Answered libs (json.at_key cmd "params") _ io (λ params.
      if_array (json.is_array params) id _ io (
        lift-Answered libs (json.at_index params 0) _ io (λ p0.
          lift-Answered libs (json.at_index params 1) _ io (λ p1.
            lift-Answered libs (json.at_index params 2) _ io (λ p2.
              read_number-Answered libs p0 _ io (
                read_number-Answered libs p1 _ io
                  (read_number-Answered libs p2 _ io (reply-Answered libs id _ io))))))))

  read_hash-Quiet : (p : Json) (io : Io Services) → After (Quiet io.out) (read_hash libs p io)
  unfolding read_hash
  read_hash-Quiet p io = by_kind (json.is_string p)
    where
      by_kind :
          (b : Bool)
          → After (Quiet io.out) ((if b then lift libs (json.get_string p) else pure "") io)
      by_kind true = lift-Quiet libs (json.get_string p) io
      by_kind false = refl

  to_uint256-Quiet :
      (bytes : Bytes) (io : Io Services) → After (Quiet io.out) (to_uint256 libs bytes io)
  unfolding to_uint256
  to_uint256-Quiet bytes io = by_size (length bytes == 32)
    where
      by_size : (b : Bool) → After (Quiet io.out) ((if b then pure bytes else crash) io)
      by_size true = refl
      by_size false = tt

  quietly :
      {A : Type 0} (out : List Bytes) (m : Exec (Io Services) A) (f : A → Exec (Io Services) ℕ)
      (io : Io Services)
      → ((io : Io Services) → After (Quiet io.out) (m io))
      → ((a : A) (io : Io Services) → io.out ≡ out → Answered out (f a io))
      → io.out ≡ out
      → Answered out ((do a ← m; f a) io)
  quietly out m f io quiet n e =
      then-Answered out (m io) f (subst (λ (o : List Bytes). After (Quiet o) (m io)) e (quiet io)) n

  subscribe-Answered :
      (id : ℤ) (cmd : Json) (io : Io Services) → Answered io.out (subscribe libs id cmd io)
  unfolding subscribe
  subscribe-Answered id cmd io = lift-Answered libs (json.at_key cmd "params") _ io (λ params.
      if_array (json.is_array params) id _ io (
        lift-Answered libs (json.at_index params 0) _ io (λ p0.
          quietly io.out (read_hash libs p0) (λ hash. at_key (reverse (bitcoin.parse_hex hash))) io
            (read_hash-Quiet p0)
            (λ hash io₁ e₁.
              quietly io.out (to_uint256 libs (reverse (bitcoin.parse_hex hash))) status io₁
                (to_uint256-Quiet (reverse (bitcoin.parse_hex hash))) status-Answered e₁)
            refl)))
    where
      no_txn : Response Float
      no_txn = Response.subscribe (record { txn = [] })

      status : Bytes → Exec (Io Services) ℕ
      status key = do err ← on_services libs (backend.get_txos key); reply libs id no_txn

      at_key : Bytes → Exec (Io Services) ℕ
      at_key bytes = do key ← to_uint256 libs bytes; status key

      status-Answered :
          (key : Bytes) (io' : Io Services) → io'.out ≡ io.out → Answered io.out (status key io')
      status-Answered key io' e =
          quietly io.out (on_services libs (backend.get_txos key)) (λ err. reply libs id no_txn) io'
            (on_services-Quiet libs (backend.get_txos key)) (λ err. reply_at io.out id no_txn) e

  dispatch-Answered :
      (c : ElectrumCommands) (id : ℤ) (cmd : Json) (io : Io Services)
      → Answered io.out (dispatch libs c id cmd io)
  unfolding dispatch dispatch_rest
  dispatch-Answered unknown id cmd io = reply_error-Answered libs id _ _ io
  dispatch-Answered bc_block_header id cmd io = block_header-Answered id cmd io
  dispatch-Answered bc_block_headers id cmd io = block_headers-Answered id cmd io
  dispatch-Answered sh_subscribe id cmd io = subscribe-Answered id cmd io
  dispatch-Answered _ id cmd io = reply-Answered libs id _ io

  answer-Answered :
      (c : Option ElectrumCommands) (id : ℤ) (cmd : Json) (io : Io Services)
      → Answered io.out (answer libs c id cmd io)
  unfolding answer
  answer-Answered none id cmd io = reply_error-Answered libs id _ _ io
  answer-Answered (some c) id cmd io = dispatch-Answered c id cmd io

  -- A request is answered by exactly one text on the socket, whatever its method, and by
  -- none if the JSON library throws on the way. The exception is a run that meets undefined
  -- behaviour.
  pub handle_command-Answered :
      (cmd : Json) (io : Io Services) → Answered io.out (handle_command libs cmd io)
  unfolding handle_command
  handle_command-Answered cmd io = by_null (json.is_null cmd)
    where
      by_null :
          (b : Bool)
          → Answered io.out (
              (if b
                  then (do
                    written ← reply_error libs (pos 0) "Parser error" (parser_error libs)
                    pure 0)
                  else (do
                    m ← lift libs (json.at_key cmd "method")
                    method ← lift libs (json.get_string m)
                    i ← lift libs (json.at_key cmd "id")
                    id ← lift libs (json.get_int i)
                    written ← answer libs (find_command method) id cmd
                    pure 0))
                io)
      by_null true = returns-Answered io.out _ (reply_error-Answered libs (pos 0) _ _ io)
      by_null false = lift-Answered libs (json.at_key cmd "method") _ io (λ m.
          lift-Answered libs (json.get_string m) _ io (λ method.
            lift-Answered libs (json.at_key cmd "id") _ io (λ i.
              lift-Answered libs (json.get_int i) _ io (λ id.
                returns-Answered io.out _ (answer-Answered (find_command method) id cmd io)))))
