-- ===== src/Rpc/Reads.antt =====
-- The invariant of a client is kept by what it reads (`CompleteQuery`, `HandleResponse` and the parser's callback).
use electrumz.Base.{
  ℕ, Bytes, Bool, true, false, ◌≡◌, refl, sym, subst, Option, none, some, length, ℤ, if◌then◌else◌,
}
use electrumz.Base.Outcome.{Exec, pure, After, continue-After, ◌>>=◌}
use electrumz.Bitcoin.{BitcoinLib}
use electrumz.Commands.{FormatLib}
use electrumz.Json.{JsonLib}
use electrumz.Rpc.{
  Network, Client, find_id, erase_id, set_nth, lift, complete_query, handle_response, on_body,
}
use electrumz.Rpc.Table.{IsMap-erase_id}
use electrumz.Rpc.Queries.{IsWaiting, IsWaiting-erase_id, length-set_nth}
use electrumz.Rpc.Open.{IsOpen}

module _ (json : JsonLib) (bitcoin : BitcoinLib) (fmt : FormatLib) (net : Network) where
  open json use {Json, is_null, at_key, at_present, get_int}

  pub complete_query-IsOpen :
      (id : ℤ) (value : Json) (c : Client Json)
      → IsOpen c
      → IsOpen (complete_query json bitcoin fmt net id value c)
  unfolding complete_query
  complete_query-IsOpen id value c v = by_find (find_id id c.queries) refl
    where
      by_find :
          (o : Option ℕ)
          → find_id id c.queries ≡ o
          → IsOpen (elim o [
            | none ↦ c
            | some p ↦ record c {
              queries = erase_id id c.queries;
              promises = set_nth p (some value) c.promises;
            }
          ])
      by_find none e = v
      by_find (some p) e = record {
        linked = v.linked;
        used = v.used;
        one_each = IsMap-erase_id id c.queries v.one_each;
        waiting =
            subst
              (λ (m : ℕ). IsWaiting m (erase_id id c.queries) (set_nth p (some value) c.promises))
              (sym (length-set_nth p (some value) c.promises))
              (IsWaiting-erase_id id p (length c.promises) (some value) c.queries c.promises
                v.waiting e);
      }

  lift-After :
      {A B : Type 0} (o : Option A) (f : A → Exec (Client Json) B) (c : Client Json)
      → IsOpen c
      → ((a : A) → After IsOpen (f a c))
      → After IsOpen ((do a ← lift json bitcoin fmt net o; f a) c)
  lift-After none f c v h = v
  lift-After (some a) f c v h = h a

  either-After :
      {A : Type 0} (b : Bool) (m k : Exec (Client Json) A) (c : Client Json)
      → After IsOpen (m c)
      → After IsOpen (k c)
      → After IsOpen ((if b then m else k) c)
  either-After true m k c h l = h
  either-After false m k c h l = l

  handle_response-IsOpen :
      (j : Json) (c : Client Json)
      → IsOpen c
      → After IsOpen (handle_response json bitcoin fmt net j c)
  unfolding handle_response
  handle_response-IsOpen j c v = lift-After (at_present j "error") _ c v (λ error.
      either-After (is_null error) _ _ c
        (lift-After (at_key j "id") _ c v (λ i. lift-After (get_int i) _ c v (λ id.
          lift-After (at_key j "result") _ c v (λ result. complete_query-IsOpen id result c v))))
        v)

  pub on_body-IsOpen :
      (bytes : Bytes) (c : Client Json)
      → IsOpen c
      → After IsOpen (on_body json bitcoin fmt net bytes c)
  unfolding on_body
  on_body-IsOpen bytes c v = lift-After (json.parse bytes) _ c v (λ body.
      continue-After {Q = IsOpen} (handle_response json bitcoin fmt net body c) (λ handled. pure 0)
        (handle_response-IsOpen body c v) (λ c' h. h) (λ handled c' h. h))
