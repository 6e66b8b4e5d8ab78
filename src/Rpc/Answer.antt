-- ===== src/Rpc/Answer.antt =====
-- A query and its answer.
use electrumz.Base.{
  ℕ, ◌+◌, ◌%◌, Bytes, Bool, true, false, ◌≡◌, refl, ap, ◌∙◌, Option, none, some, List, [], ◌∷◌,
  ◌++◌, length, ℤ, pos, negsuc, ==_iff, if◌then◌else◌,
}
use electrumz.Base.Outcome.{Outcome, done, fault, continue, pure}
use electrumz.Bitcoin.{BitcoinLib}
use electrumz.Commands.{FormatLib}
use electrumz.Json.{JsonLib}
use electrumz.Rpc.{
  Network, Client, to_int, same_int, find_id, erase_id, set_nth, add_query, complete_query,
  handle_response, write_rpc, send_query, request_header,
}
use electrumz.Rpc.Queries.{set_nth-append_end}

same_int_refl : (k : ℤ) → same_int k k ≡ true
same_int_refl (pos n) = (==_iff n n).1 refl
same_int_refl (negsuc n) = (==_iff n n).1 refl

module _ (json : JsonLib) (bitcoin : BitcoinLib) (fmt : FormatLib) (net : Network) where
  open json use {Json, is_null, at_key, at_present, get_int}

  -- An answer without an error to the query of this id.
  pub record IsAnswer (r : Json) (id : ℤ) (value : Json) : Type 0 where
    pub error : Json
    pub i : Json
    pub has_error : at_present r "error" ≡ some error
    pub no_error : is_null error ≡ true
    pub has_id : at_key r "id" ≡ some i
    pub numbered : get_int i ≡ some id
    pub has_result : at_key r "result" ≡ some value

  -- The client once a query is on its way.
  abbrev asked : Client Json → List Bytes → Client Json
  asked c out = record c {
    cmd_id = (c.cmd_id + 1) % 4294967296;
    queries = (to_int c.cmd_id, length c.promises) ∷ c.queries;
    promises = c.promises ++ (none ∷ []);
    out = out;
  }

  write_rpc_sent :
      (body : Bytes) (c : Client Json)
      → c.socket ≡ true
      → (out : List Bytes) × (write_rpc json bitcoin fmt net body c
          ≡ done (record c { out = out }) tt)
  unfolding write_rpc
  write_rpc_sent body c s = by_answer (net.uv_write_accepts c.out text)
    where
      text : Bytes
      text = request_header json bitcoin fmt net (length body) c.username c.password ++ body

      by_answer :
          (b : Bool)
          → (out : List Bytes) × ((if c.socket
                then done (if b then record c { out = text ∷ c.out } else c) tt
                else fault)
              ≡ done (record c { out = out }) tt)
      by_answer true = (
        text ∷ c.out,
        ap (λ (b : Bool). if b then done (record c { out = text ∷ c.out }) tt else fault) s,
      )
      by_answer false = (c.out, ap (λ (b : Bool). if b then done c tt else fault) s)

  add_query_new :
      (id : ℤ) (p : ℕ) (c : Client Json)
      → find_id id c.queries ≡ none
      → add_query json bitcoin fmt net id p c ≡ record c { queries = (id, p) ∷ c.queries }
  unfolding add_query
  add_query_new id p c f =
      ap
        (λ (o : Option ℕ). elim o as (λ _. Client Json) [
          | some _ ↦ c
          | none ↦ record c { queries = (id, p) ∷ c.queries }
        ])
        f

  send_query-asked :
      (j : Json) (c : Client Json)
      → c.socket ≡ true
      → find_id (to_int c.cmd_id) c.queries ≡ none
      → (out : List Bytes) × (send_query json bitcoin fmt net j c
          ≡ done (asked c out) (length c.promises))
  unfolding send_query
  send_query-asked j c s f =
      let body = json.dump (
        json.set_key (json.set_key j "id" (json.from_int (to_int c.cmd_id))) "jsonrpc"
          (json.from_str "2.0")) in
      let (out, sent) = write_rpc_sent body (asked c c.out) s in
      (
        out,
        ap
              (λ (c' : Client Json).
                continue (write_rpc json bitcoin fmt net body c')
                  (λ sent. pure (length c.promises)))
              (add_query_new (to_int c.cmd_id) (length c.promises)
                (record c {
                  cmd_id = (c.cmd_id + 1) % 4294967296;
                  promises = c.promises ++ (none ∷ []);
                })
                f)
            ∙ ap
                (λ (o : Outcome (Client Json) (Unit {0})).
                  continue o (λ sent. pure (length c.promises)))
                sent,
      )

  complete_query_head :
      (id : ℤ) (value : Json) (p : ℕ) (rest : List (ℤ × ℕ)) (c : Client Json)
      → complete_query json bitcoin fmt net id value (record c { queries = (id, p) ∷ rest })
        ≡ record c { queries = rest; promises = set_nth p (some value) c.promises }
  unfolding complete_query
  complete_query_head id value p rest c =
      rw (same_int_refl id, complete_query)
        (ap
          (λ (b : Bool). record c {
            queries = if b then rest else (id, p) ∷ erase_id id rest;
            promises = set_nth p (some value) c.promises;
          })
          (same_int_refl id))

  complete_query-asked :
      (c : Client Json) (out : List Bytes) (value : Json)
      → complete_query json bitcoin fmt net (to_int c.cmd_id) value (asked c out)
        ≡ record (asked c out) { queries = c.queries; promises = c.promises ++ (some value ∷ []) }
  complete_query-asked c out value =
      complete_query_head (to_int c.cmd_id) value (length c.promises) c.queries (asked c out)
      ∙ ap
          (λ (ps : List (Option Json)). record (asked c out) { queries = c.queries; promises = ps })
          (set_nth-append_end c.promises none (some value))

  -- A query whose id is not in use, on a client with a socket, is completed by an answer to
  -- that id without an error: its promise gets the result, and the other queries and
  -- promises are as they were before it.
  pub send_query_answered :
      (j r value : Json) (c : Client Json)
      → c.socket ≡ true
      → find_id (to_int c.cmd_id) c.queries ≡ none
      → IsAnswer r (to_int c.cmd_id) value
      → (c' : Client Json) × (send_query json bitcoin fmt net j c ≡ done c' (length c.promises))
        × (handle_response json bitcoin fmt net r c'
            ≡ done
                (record c' { queries = c.queries; promises = c.promises ++ (some value ∷ []) })
                1)
  unfolding handle_response
  send_query_answered j r value c s f a =
      let (out, e) = send_query-asked j c s f in
      (
        asked c out,
        e,
        rw (a.has_error, a.no_error, a.has_id, a.numbered, a.has_result)
            (ap (λ (c' : Client Json). done c' 1) (complete_query-asked c out value)),
      )
