-- ===== src/Examples/Results.antt =====
-- Runs of the end of a match and of the rating step.
use elo_service.Prelude.{◌≡◌, refl, true, none, some, List, [], ◌∷◌, nat_eq, string_eq, find_by}
use elo_service.Store.{Match, Rating, Db}
use elo_service.Elo.{is_rating_of, apply_classic_elo}
use elo_service.Elo.Rows.{apply_classic_elo_total}
use elo_service.Elo.Others.{apply_classic_elo-others}
use elo_service.Util.{is_guest_id}
use elo_service.Matches.{get_match, can_user_see_match}
use elo_service.Results.{
  match_ended, result_row, patch, finalize_match_teardown, get_match_result,
  can_user_see_match_result,
}
use elo_service.Results.Phases.{match_ended_once}
use elo_service.Results.Visibility.{finalize-match_ended, can_user_see_match_result-match_ended}
use elo_service.Examples.Fixtures.{int_floats, one_queue, one_db}

abbrev ended_db : Db
unfolding match_ended
ended_db = elim (match_ended int_floats 5 "m1" ("ann" ∷ []) "win" "" [] true one_db) [
  | none ↦ one_db
  | some db ↦ db
]

ended : match_ended int_floats 5 "m1" ("ann" ∷ []) "win" "" [] true one_db ≡ some ended_db
unfolding match_ended
ended = refl

seen : can_user_see_match "bob" "m1" one_db ≡ some true
unfolding can_user_see_match
seen = refl

rated :
    apply_classic_elo int_floats one_queue ("ann" ∷ "bob" ∷ []) ("ann" ∷ []) []
    ≡ some ended_db.ratings
unfolding apply_classic_elo ended_db
rated = refl

apply_classic_elo_total_example :
    (after : List Rating) × (apply_classic_elo int_floats one_queue
        ("ann" ∷ "bob" ∷ [])
        ("ann" ∷ [])
        []
      ≡ some after)
apply_classic_elo_total_example =
    apply_classic_elo_total int_floats one_queue ("ann" ∷ "bob" ∷ []) ("ann" ∷ []) []

apply_classic_elo-others_example :
    find_by (is_rating_of "q1" "cat") ended_db.ratings ≡ find_by (is_rating_of "q1" "cat") []
unfolding is_guest_id
apply_classic_elo-others_example =
    apply_classic_elo-others int_floats one_queue "q1" "cat" ("ann" ∷ "bob" ∷ []) ("ann" ∷ []) []
      refl rated

match_ended_once_example :
    match_ended int_floats 6 "m1" ("bob" ∷ []) "win" "" [] true ended_db ≡ none
match_ended_once_example =
    match_ended_once int_floats 5 "m1" ("ann" ∷ []) "win" "" [] true one_db ended 6 ("bob" ∷ [])
      "win" "" [] true

finalize-match_ended_example :
    (get_match "m1" (finalize_match_teardown "m1" "logs" (some ("replay" ∷ [])) ended_db) ≡ none)
    × (m : Match) × (get_match "m1" one_db ≡ some m)
    × (get_match_result "m1" (finalize_match_teardown "m1" "logs" (some ("replay" ∷ [])) ended_db)
        ≡ some (patch "logs" (some ("replay" ∷ [])) (result_row m 5 ("ann" ∷ []) "win" "" [])))
finalize-match_ended_example =
    finalize-match_ended int_floats 5 "m1" ("ann" ∷ []) "win" true "logs" (some ("replay" ∷ []))
      one_db ended

can_user_see_match_result-match_ended_example :
    can_user_see_match_result "bob" "m1"
      (finalize_match_teardown "m1" "logs" (some ("replay" ∷ [])) ended_db)
    ≡ some true
can_user_see_match_result-match_ended_example =
    can_user_see_match_result-match_ended int_floats 5 "m1" ("ann" ∷ []) "win" true "logs"
      (some ("replay" ∷ [])) one_db "bob" seen ended
