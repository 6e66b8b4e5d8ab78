-- ===== src/Rpc/Order.antt =====
-- Several answers, in any order.
use electrumz.Base.{
  ℕ, Bool, true, false, ◌≡◌, refl, ap, sym, ◌∙◌, inl, inr, Option, none, some, none-ne-some,
  some-injective, List, [], ◌∷◌, length, get_elem?, ℤ, Bool-cases, if◌then◌else◌,
}
use electrumz.Base.Outcome.{Outcome, done, Exec, pure, ◌>>=◌, continue}
use electrumz.Bitcoin.{BitcoinLib}
use electrumz.Commands.{FormatLib}
use electrumz.Json.{JsonLib}
use electrumz.Rpc.{Network, Client, same_int, find_id, complete_query, handle_response}
use electrumz.Rpc.Answer.{IsAnswer}
use electrumz.Rpc.Queries.{found_below}
use electrumz.Rpc.Open.{IsOpen}
use electrumz.Rpc.Reads.{complete_query-IsOpen}
use electrumz.Rpc.States.{Reached, Reached-IsOpen}
use electrumz.Rpc.Table.{same_int-eq}
use electrumz.Rpc.Completion.{
  complete_query_self, complete_query_other, complete_query_set, complete_query_keeps,
}

module _ (json : JsonLib) (bitcoin : BitcoinLib) (fmt : FormatLib) (net : Network) where
  open json use {Json}

  -- Answers handled one after the other.
  abbrev pub complete_all : List (ℤ × Json) → Client Json → Client Json
  complete_all [] c = c
  complete_all ((id, value) ∷ answers) c =
      complete_all answers (complete_query json bitcoin fmt net id value c)

  -- A promise that is set stays as it is.
  complete_all_stays :
      (answers : List (ℤ × Json)) (q : ℕ) (w : Json) (c : Client Json)
      → IsOpen c
      → get_elem? c.promises q ≡ some (some w)
      → get_elem? (complete_all answers c).promises q ≡ some (some w)
  complete_all_stays [] q w c v e = e
  complete_all_stays ((id, value) ∷ answers) q w c v e =
      complete_all_stays answers q w (complete_query json bitcoin fmt net id value c)
        (complete_query-IsOpen json bitcoin fmt net id value c v)
        (complete_query_keeps json bitcoin fmt net id value c v q (λ p f z.
            let (l, u) = found_below id p (length c.promises) c.queries c.promises v.waiting f in
            none-ne-some w (some-injective none (some w) (sym u ∙ ap (get_elem? c.promises) z ∙ e)))
          ∙ e)

  find_id_here :
      (b : Bool) (id k : ℤ) (value : Json) (answers : List (ℤ × Json))
      → same_int id k ≡ b
      → find_id k ((id, value) ∷ answers) ≡ (if b then some value else find_id k answers)
  find_id_here b id k value answers e =
      ap (λ (t : Bool). if t then some value else find_id k answers) e

  -- Each promise of an open query holds the first answer to its id.
  complete_all_holds :
      (answers : List (ℤ × Json)) (k : ℤ) (p : ℕ) (c : Client Json)
      → IsOpen c
      → find_id k c.queries ≡ some p
      → get_elem? (complete_all answers c).promises p ≡ some (find_id k answers)
  complete_all_holds [] k p c v e =
      (found_below k p (length c.promises) c.queries c.promises v.waiting e).1
  complete_all_holds ((id, value) ∷ answers) k p c v e = elim (Bool-cases (same_int id k)) [
    | inl same ↦
        complete_all_stays answers p value (complete_query json bitcoin fmt net id value c)
          (complete_query-IsOpen json bitcoin fmt net id value c v)
          (complete_query_set json bitcoin fmt net id value c v p
            (ap (λ (i : ℤ). find_id i c.queries) (same_int-eq id k same) ∙ e))
        ∙ ap some (sym (find_id_here true id k value answers same))
    | inr other ↦
        complete_all_holds answers k p (complete_query json bitcoin fmt net id value c)
          (complete_query-IsOpen json bitcoin fmt net id value c v)
          (complete_query_other json bitcoin fmt net id value c v k other ∙ e)
        ∙ ap some (sym (find_id_here false id k value answers other))
  ]

  -- An open query is closed by an answer to its id.
  abbrev pub still_open : Option Json → Option ℕ → Option ℕ
  still_open none o = o
  still_open (some value) o = none

  still_open-none : (a : Option Json) → still_open a none ≡ none
  still_open-none none = refl
  still_open-none (some value) = refl

  complete_all_closes :
      (answers : List (ℤ × Json)) (k : ℤ) (c : Client Json)
      → IsOpen c
      → find_id k (complete_all answers c).queries
        ≡ still_open (find_id k answers) (find_id k c.queries)
  complete_all_closes [] k c v = refl
  complete_all_closes ((id, value) ∷ answers) k c v =
      complete_all_closes answers k (complete_query json bitcoin fmt net id value c)
        (complete_query-IsOpen json bitcoin fmt net id value c v)
      ∙ elim (Bool-cases (same_int id k)) [
        | inl same ↦
            ap (still_open (find_id k answers)) (
              ap (λ (i : ℤ). find_id i (complete_query json bitcoin fmt net id value c).queries)
                (sym (same_int-eq id k same))
              ∙ complete_query_self json bitcoin fmt net id value c v)
            ∙ still_open-none (find_id k answers)
            ∙ ap (λ (a : Option Json). still_open a (find_id k c.queries))
                (sym (find_id_here true id k value answers same))
        | inr other ↦
            ap (still_open (find_id k answers))
              (complete_query_other json bitcoin fmt net id value c v k other)
            ∙ ap (λ (a : Option Json). still_open a (find_id k c.queries))
                (sym (find_id_here false id k value answers other))
      ]

  -- The responses that arrive, one after the other.
  abbrev pub handle_all : List Json → Exec (Client Json) (Unit {0})
  handle_all [] = pure tt
  handle_all (r ∷ responses) = do
    handled ← handle_response json bitcoin fmt net r
    handle_all responses

  -- The responses are these answers, without errors.
  abbrev pub AreAnswers : List Json → List (ℤ × Json) → Type 0
  AreAnswers [] [] = Unit
  AreAnswers (r ∷ responses) ((id, value) ∷ answers) =
      IsAnswer json bitcoin fmt net r id value × AreAnswers responses answers
  AreAnswers _ _ = ⊥

  handle_response_answer :
      (r : Json) (id : ℤ) (value : Json) (c : Client Json)
      → IsAnswer json bitcoin fmt net r id value
      → handle_response json bitcoin fmt net r c
        ≡ done (complete_query json bitcoin fmt net id value c) 1
  unfolding handle_response
  handle_response_answer r id value c a =
      rw (a.has_error, a.no_error, a.has_id, a.numbered, a.has_result) refl

  handle_all-complete_all :
      (responses : List Json) (answers : List (ℤ × Json)) (c : Client Json)
      → AreAnswers responses answers
      → handle_all responses c ≡ done (complete_all answers c) tt
  handle_all-complete_all [] [] c h = refl
  handle_all-complete_all (r ∷ responses) ((id, value) ∷ answers) c (h, hs) =
      ap (λ (o : Outcome (Client Json) ℕ). continue o (λ handled. handle_all responses))
        (handle_response_answer r id value c h)
      ∙ handle_all-complete_all responses answers (complete_query json bitcoin fmt net id value c)
          hs
  handle_all-complete_all [] (a ∷ answers) c h = absurd h
  handle_all-complete_all (r ∷ responses) [] c h = absurd h

  -- On a client that the operations have led to, answers without errors, to any ids and in any
  -- order, are all handled without an exception. After them the promise of each query that was
  -- open holds the first answer to its id, or is still unset when there was none, and a query is
  -- still open when there was no answer to it.
  pub handle_all-completes :
      (responses : List Json) (answers : List (ℤ × Json)) (c : Client Json)
      → Reached json bitcoin fmt net c
      → AreAnswers responses answers
      → (c' : Client Json) × (handle_all responses c ≡ done c' tt)
        × ((k : ℤ) (p : ℕ)
            → find_id k c.queries ≡ some p
            → (get_elem? c'.promises p ≡ some (find_id k answers))
              × (find_id k c'.queries ≡ still_open (find_id k answers) (some p)))
  handle_all-completes responses answers c r h =
      let v = Reached-IsOpen json bitcoin fmt net c r in
      (
        complete_all answers c,
        handle_all-complete_all responses answers c h,
        λ k p e. (
          complete_all_holds answers k p c v e,
          complete_all_closes answers k c v ∙ ap (still_open (find_id k answers)) e,
        ),
      )
