-- ===== src/Rpc/States.antt =====
-- The states that a client (`RPCClient`) gets to.
use electrumz.Base.{ℕ, String, Bytes, Bool, ◌≡◌, subst}
use electrumz.Base.Outcome.{done, After}
use electrumz.Bitcoin.{BitcoinLib}
use electrumz.Commands.{FormatLib}
use electrumz.Json.{JsonLib}
use electrumz.Rpc.{Network, Client, new_client, on_body, send_query, connect_rpc, on_connect}
use electrumz.Rpc.Open.{
  IsOpen, new_client-IsOpen, connect_rpc-IsOpen, on_connect-IsOpen, send_query-IsOpen,
}
use electrumz.Rpc.Reads.{on_body-IsOpen}

module _ (json : JsonLib) (bitcoin : BitcoinLib) (fmt : FormatLib) (net : Network) where
  open json use {Json, is_null, at_key, at_present, get_int}

  -- The clients that the operations lead to, in any order.
  pub data Reached : Client Json → Type 0 where
    created : (username password : String) → Reached (new_client username password)
    connects : {c : Client Json} → Reached c → Reached (connect_rpc json bitcoin fmt net c)
    called_back :
        {c c' : Client Json} (succeeded : Bool)
        → Reached c
        → on_connect json bitcoin fmt net succeeded c ≡ done c' tt
        → Reached c'
    queries :
        {c c' : Client Json} (j : Json) (n : ℕ)
        → Reached c
        → send_query json bitcoin fmt net j c ≡ done c' n
        → Reached c'
    reads :
        {c c' : Client Json} (bytes : Bytes) (n : ℕ)
        → Reached c
        → on_body json bitcoin fmt net bytes c ≡ done c' n
        → Reached c'

  -- In every state that a client gets to, by connecting, sending queries and reading answers in any
  -- order, Connected means that there is a socket, the state is never Disconnecting, and the open
  -- queries have distinct ids and wait for distinct promises that are not set, so no promise is set
  -- twice.
  pub Reached-IsOpen : (c : Client Json) → Reached c → IsOpen c
  Reached-IsOpen c (created username password) =
      new_client-IsOpen json bitcoin fmt net username password
  Reached-IsOpen c (connects {c = b} r) =
      connect_rpc-IsOpen json bitcoin fmt net b (Reached-IsOpen b r)
  Reached-IsOpen c (called_back {c = b} succeeded r e) =
      subst (After IsOpen) e
        (on_connect-IsOpen json bitcoin fmt net succeeded b (Reached-IsOpen b r))
  Reached-IsOpen c (queries {c = b} j n r e) =
      subst (After IsOpen) e (send_query-IsOpen json bitcoin fmt net j b (Reached-IsOpen b r))
  Reached-IsOpen c (reads {c = b} bytes n r e) =
      subst (After IsOpen) e (on_body-IsOpen json bitcoin fmt net bytes b (Reached-IsOpen b r))
