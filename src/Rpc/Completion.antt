-- ===== src/Rpc/Completion.antt =====
-- The completion of one query (`CompleteQuery`): what it changes in the client, and what it keeps.
use electrumz.Base.{
  ℕ, zero, suc, false, ◌≡◌, ◌≢◌, refl, ap, ◌∙◌, inl, inr, Option, none, some, none-ne-some, List,
  [], ◌∷◌, length, get_elem?, ℤ, Option-cases,
}
use electrumz.Bitcoin.{BitcoinLib}
use electrumz.Commands.{FormatLib}
use electrumz.Json.{JsonLib}
use electrumz.Rpc.{Network, Client, same_int, find_id, erase_id, set_nth, complete_query}
use electrumz.Rpc.Queries.{found_below, get_elem?-set_nth}
use electrumz.Rpc.Open.{IsOpen}
use electrumz.Rpc.Table.{find_id-erase_id, find_id-erase_id_other}

get_elem?-set_nth_self :
    {V : Type 0} (i : ℕ) (v w : V) (xs : List V)
    → get_elem? xs i ≡ some w
    → get_elem? (set_nth i v xs) i ≡ some v
get_elem?-set_nth_self i v w [] e = absurd (none-ne-some w e)
get_elem?-set_nth_self zero v w (x ∷ xs) e = refl
get_elem?-set_nth_self (suc i) v w (x ∷ xs) e = get_elem?-set_nth_self i v w xs e

module _ (json : JsonLib) (bitcoin : BitcoinLib) (fmt : FormatLib) (net : Network) where
  open json use {Json}

  module _ (id : ℤ) (value : Json) (c : Client Json) (t : IsOpen c) where
    -- What `complete_query` does with what it finds.
    abbrev completion : Option ℕ → Client Json
    completion none = c
    completion (some p) = record c {
      queries = erase_id id c.queries;
      promises = set_nth p (some value) c.promises;
    }

    missing : find_id id c.queries ≡ none → complete_query json bitcoin fmt net id value c ≡ c
    unfolding complete_query
    missing e = ap completion e

    completed :
        (p : ℕ)
        → find_id id c.queries ≡ some p
        → complete_query json bitcoin fmt net id value c ≡ record c {
          queries = erase_id id c.queries;
          promises = set_nth p (some value) c.promises;
        }
    unfolding complete_query
    completed p e = ap completion e

    -- The completed id is gone, the others are as before.
    pub complete_query_self :
        find_id id (complete_query json bitcoin fmt net id value c).queries ≡ none
    complete_query_self = elim (Option-cases (find_id id c.queries)) [
      | inl e ↦ ap (λ (d : Client Json). find_id id d.queries) (missing e) ∙ e
      | inr (p, e) ↦
          ap (λ (d : Client Json). find_id id d.queries) (completed p e)
          ∙ find_id-erase_id id c.queries t.one_each
    ]

    pub complete_query_other :
        (k : ℤ)
        → same_int id k ≡ false
        → find_id k (complete_query json bitcoin fmt net id value c).queries ≡ find_id k c.queries
    complete_query_other k h = elim (Option-cases (find_id id c.queries)) [
      | inl e ↦ ap (λ (d : Client Json). find_id k d.queries) (missing e)
      | inr (p, e) ↦
          ap (λ (d : Client Json). find_id k d.queries) (completed p e)
          ∙ find_id-erase_id_other id k c.queries h
    ]

    -- The promise of the query is set, the others are as before.
    pub complete_query_set :
        (p : ℕ)
        → find_id id c.queries ≡ some p
        → get_elem? (complete_query json bitcoin fmt net id value c).promises p ≡ some (some value)
    complete_query_set p e =
        ap (λ (d : Client Json). get_elem? d.promises p) (completed p e)
        ∙ get_elem?-set_nth_self p (some value) none c.promises
            (found_below id p (length c.promises) c.queries c.promises t.waiting e).1

    pub complete_query_keeps :
        (q : ℕ)
        → ((p : ℕ) → find_id id c.queries ≡ some p → p ≢ q)
        → get_elem? (complete_query json bitcoin fmt net id value c).promises q
          ≡ get_elem? c.promises q
    complete_query_keeps q h = elim (Option-cases (find_id id c.queries)) [
      | inl e ↦ ap (λ (d : Client Json). get_elem? d.promises q) (missing e)
      | inr (p, e) ↦
          ap (λ (d : Client Json). get_elem? d.promises q) (completed p e)
          ∙ get_elem?-set_nth p q (some value) c.promises (h p e)
    ]
