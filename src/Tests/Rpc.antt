-- ===== src/Tests/Rpc.antt =====
-- The theorems on the RPC client, on one that has just connected.
use electrumz.Base.{ℕ, ℤ, true, ◌≡◌, refl, some, List, [], ◌∷◌, pos, get_elem?}
use electrumz.Base.Outcome.{Outcome, done, threw, fault}
use electrumz.Rpc.{
  Network, Client, connected, new_client, send_query, handle_response, connect_rpc, on_connect,
  query, write_rpc, add_query, find_id,
}
use electrumz.Rpc.Answer.{IsAnswer, send_query_answered}
use electrumz.Rpc.Open.{IsOpen}
use electrumz.Rpc.States.{Reached, created, connects, called_back, queries, Reached-IsOpen}
use electrumz.Rpc.Order.{still_open, handle_all, handle_all-completes}
use electrumz.Tests.Libraries.{Value, absent_value, text, number, small_json, no_bitcoin, no_format}
use electrumz.Json.{JsonLib}
use electrumz.Base.{String, str_eq, if◌then◌else◌}

-- An answer carries its id, and the number 5 as its result.
abbrev answer_member : Value → String → Value
answer_member (number id) key =
    if str_eq key "id"
    then number id
    else if str_eq key "result"
    then number (pos 5)
    else absent_value
answer_member v key = absent_value

abbrev answer_json : JsonLib
answer_json = record small_json {
  at_key = λ j key. some (answer_member j key);
  at_present = λ j key. some (answer_member j key);
}

abbrev pub network : Network
network = record {
  tcp_init = true;
  address = true;
  tcp_connect = true;
  read_start = true;
  uv_write_accepts = λ out bytes. true;
}

abbrev linked_client : Client Value
linked_client = record (new_client "user" "password") { state = connected; socket = true }

is_answer :
    (id : ℕ)
    → IsAnswer answer_json no_bitcoin no_format network (number (pos id)) (pos id) (number (pos 5))
is_answer id = record {
  error = absent_value;
  i = number (pos id);
  has_error = refl;
  no_error = refl;
  has_id = refl;
  numbered = refl;
  has_result = refl;
}

send_query_answered_example :
    (c' : Client Value) × (send_query answer_json no_bitcoin no_format network
        (text "ping")
        linked_client
      ≡ done c' 0)
    × (handle_response answer_json no_bitcoin no_format network (number (pos 0)) c'
        ≡ done (record c' { queries = []; promises = some (number (pos 5)) ∷ [] }) 1)
send_query_answered_example =
    send_query_answered answer_json no_bitcoin no_format network (text "ping") (number (pos 0))
      (number (pos 5)) linked_client refl refl (is_answer 0)

Reached-IsOpen_example :
    IsOpen (connect_rpc answer_json no_bitcoin no_format network (new_client "user" "password"))
Reached-IsOpen_example =
    Reached-IsOpen answer_json no_bitcoin no_format network
      (connect_rpc answer_json no_bitcoin no_format network (new_client "user" "password"))
      (connects (created "user" "password"))

abbrev state_of : {A : Type 0} → Outcome (Client Value) A → Client Value
state_of (done c a) = c
state_of (threw c) = c
state_of fault = linked_client

-- Connected, with the query of `on_connect` and one more on their way.
abbrev called_up : Client Value
called_up = state_of (
    on_connect answer_json no_bitcoin no_format network true
      (connect_rpc answer_json no_bitcoin no_format network (new_client "user" "password")))

abbrev two_open : Client Value
two_open = state_of (send_query answer_json no_bitcoin no_format network (text "ping") called_up)

two_open-Reached : Reached answer_json no_bitcoin no_format network two_open
unfolding on_connect connect_rpc query send_query write_rpc add_query
two_open-Reached =
    queries (text "ping") 1 (called_back true (connects (created "user" "password")) refl) refl

ids_in_use : two_open.queries ≡ (pos 1, 1) ∷ ((pos 0, 0) ∷ [])
unfolding on_connect connect_rpc query send_query write_rpc add_query
ids_in_use = refl

-- Answers to an id that nobody asked with, and to the second query.
abbrev responses : List Value
responses = number (pos 7) ∷ (number (pos 1) ∷ [])

abbrev answers : List (ℤ × Value)
answers = (pos 7, number (pos 5)) ∷ ((pos 1, number (pos 5)) ∷ [])

handle_all-completes_example :
    (c' : Client Value) × (handle_all answer_json no_bitcoin no_format network responses two_open
      ≡ done c' tt)
    × ((k : ℤ) (p : ℕ)
        → find_id k two_open.queries ≡ some p
        → (get_elem? c'.promises p ≡ some (find_id k answers))
          × (find_id k c'.queries
              ≡ still_open answer_json no_bitcoin no_format network (find_id k answers) (some p)))
handle_all-completes_example =
    handle_all-completes answer_json no_bitcoin no_format network responses answers two_open
      two_open-Reached (is_answer 7, (is_answer 1, tt))
