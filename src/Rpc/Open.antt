-- ===== src/Rpc/Open.antt =====
-- The invariant of a client (`RPCClient`), and its operations.
use electrumz.Base.{
  ℕ, suc, ◌+◌, ◌%◌, String, Bytes, Bool, true, false, ◌≡◌, ◌≢◌, refl, subst, Option, none, some,
  List, [], ◌∷◌, ◌++◌, length, length-append, ℤ, if◌then◌else◌, arith,
}
use electrumz.Base.Outcome.{pure, After, continue-After, if-After}
use electrumz.Bitcoin.{BitcoinLib}
use electrumz.Commands.{FormatLib}
use electrumz.Json.{JsonLib}
use electrumz.Rpc.{
  RpcState, connecting, connected, disconnecting, disconnected, Network, Client, new_client, to_int,
  find_id, add_query, write_rpc, send_query, query, may_connect, connect_rpc, on_connect,
}
use electrumz.Rpc.Table.{IsMap}
use electrumz.Rpc.Queries.{IsWaiting, IsWaiting-cons, IsWaiting-below, IsWaiting-append}

-- Connected means that there is a socket, no client is in the state Disconnecting, and the open
-- queries have distinct ids and wait for promises of their own that are not set.
pub record IsOpen {Json : Type 0} (c : Client Json) : Type 0 where
  pub linked : c.state ≡ connected → c.socket ≡ true
  pub used : c.state ≢ disconnecting
  pub one_each : IsMap c.queries
  pub waiting : IsWaiting (length c.promises) c.queries c.promises

module _ (json : JsonLib) (bitcoin : BitcoinLib) (fmt : FormatLib) (net : Network) where
  open json use {Json, is_null, at_key, at_present, get_int}

  pub new_client-IsOpen :
      (username password : String) → IsOpen {Json = Json} (new_client username password)
  new_client-IsOpen username password = record {
    linked = λ e. ground arith;
    used = ground arith;
    one_each = tt;
    waiting = tt;
  }

  with_state-IsOpen :
      (c : Client Json) (s : RpcState)
      → s ≢ connected
      → s ≢ disconnecting
      → IsOpen c
      → IsOpen (record c { state = s })
  with_state-IsOpen c s h k v = record {
    linked = λ e. absurd (h e);
    used = k;
    one_each = v.one_each;
    waiting = v.waiting;
  }

  pub connect_rpc-IsOpen :
      (c : Client Json) → IsOpen c → IsOpen (connect_rpc json bitcoin fmt net c)
  unfolding connect_rpc
  connect_rpc-IsOpen c v = by_tests (may_connect c.state) net.tcp_init net.address net.tcp_connect
    where
      lost : IsOpen (record c { state = disconnected })
      lost = with_state-IsOpen c disconnected (ground arith) (ground arith) v

      by_tests :
          (a b d e : Bool)
          → IsOpen (
              if a
              then (if b
                  then (if d
                      then (if e
                          then record c { state = connecting }
                          else record c { state = disconnected })
                      else record c { state = disconnected })
                  else record c { state = disconnected })
              else c)
      by_tests false b d e = v
      by_tests true false d e = lost
      by_tests true true false e = lost
      by_tests true true true false = lost
      by_tests true true true true = with_state-IsOpen c connecting (ground arith) (ground arith) v

  add_query-IsOpen :
      (id : ℤ) (n : ℕ) (c : Client Json)
      → IsOpen c
      → IsOpen (
          add_query json bitcoin fmt net id
            (length c.promises)
            (record c { cmd_id = n; promises = c.promises ++ (none ∷ []) }))
  unfolding add_query
  add_query-IsOpen id n c v = by_find (find_id id c.queries) refl
    where
      c₁ : Client Json
      c₁ = record c { cmd_id = n; promises = c.promises ++ (none ∷ []) }

      one_more : suc (length c.promises) ≡ length (c.promises ++ (none ∷ []))
      one_more = omega (arith, length-append c.promises (none ∷ []))

      by_find :
          (o : Option ℕ)
          → find_id id c.queries ≡ o
          → IsOpen (elim o [
            | some _ ↦ c₁
            | none ↦ record c₁ { queries = (id, length c.promises) ∷ c₁.queries }
          ])
      by_find none f = record {
        linked = v.linked;
        used = v.used;
        one_each = (f, v.one_each);
        waiting =
            subst
              (λ (m : ℕ).
                IsWaiting m ((id, length c.promises) ∷ c.queries) (c.promises ++ (none ∷ [])))
              one_more (IsWaiting-cons id c.queries c.promises v.waiting);
      }
      by_find (some p) f = record {
        linked = v.linked;
        used = v.used;
        one_each = v.one_each;
        waiting =
            IsWaiting-below (length c.promises) (length (c.promises ++ (none ∷ []))) c.queries
              (c.promises ++ (none ∷ [])) (omega (arith, one_more))
              (IsWaiting-append (length c.promises) c.queries c.promises (omega arith) v.waiting);
      }

  with_out-IsOpen :
      (c : Client Json) (out : List Bytes) → IsOpen c → IsOpen (record c { out = out })
  with_out-IsOpen c out v = record {
    linked = v.linked;
    used = v.used;
    one_each = v.one_each;
    waiting = v.waiting;
  }

  write_rpc-IsOpen :
      (body : Bytes) (c : Client Json)
      → IsOpen c
      → After IsOpen (write_rpc json bitcoin fmt net body c)
  unfolding write_rpc
  write_rpc-IsOpen body c v =
      if-After IsOpen c.socket _ _ (λ _. taken _ (net.uv_write_accepts c.out _)) (λ _. tt)
    where
      taken : (text : Bytes) (b : Bool) → IsOpen (if b then record c { out = text ∷ c.out } else c)
      taken text true = with_out-IsOpen c (text ∷ c.out) v
      taken text false = v

  pub send_query-IsOpen :
      (j : Json) (c : Client Json) → IsOpen c → After IsOpen (send_query json bitcoin fmt net j c)
  unfolding send_query
  send_query-IsOpen j c v =
      continue-After {Q = IsOpen} (write_rpc json bitcoin fmt net _ _)
        (λ sent. pure (length c.promises))
        (write_rpc-IsOpen _ _
          (add_query-IsOpen (to_int c.cmd_id) ((c.cmd_id + 1) % 4294967296) c v))
        (λ c' h. h) (λ sent c' h. h)

  pub on_connect-IsOpen :
      (succeeded : Bool) (c : Client Json)
      → IsOpen c
      → After IsOpen (on_connect json bitcoin fmt net succeeded c)
  unfolding on_connect query
  on_connect-IsOpen succeeded c v =
      if-After IsOpen succeeded _ _
        (λ _.
          if-After IsOpen net.read_start _ _
            (λ _.
              continue-After {Q = IsOpen}
                (query json bitcoin fmt net "getblockchaininfo"
                  (record c { socket = true; state = connected }))
                (λ promise. pure tt)
                (send_query-IsOpen _ (record c { socket = true; state = connected })
                  (record {
                    linked = λ e. refl;
                    used = ground arith;
                    one_each = v.one_each;
                    waiting = v.waiting;
                  }))
                (λ c' h. h) (λ promise c' h. h))
            (λ _. record {
              linked = λ e. refl;
              used = ground arith;
              one_each = v.one_each;
              waiting = v.waiting;
            }))
        (λ _. with_state-IsOpen c disconnected (ground arith) (ground arith) v)
