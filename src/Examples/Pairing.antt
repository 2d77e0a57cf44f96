-- ===== src/Examples/Pairing.antt =====
-- Runs of the pairing by rating: three players wait, one of them for a minute.
use elo_service.Prelude.{◌≡◌, refl, String, List, [], ◌∷◌}
use elo_service.Prelude.Int.{ℤ, pos, ◌-ℤ◌}
use elo_service.Prelude.Sorting.{by_insertion}
use elo_service.Matchmaking.Join.{queue_key}
use elo_service.Matchmaking.Rating.{Candidate, Choice, choose_group, rating_window, abs}
use elo_service.Matchmaking.Rating.Group.{IsGroup, choose_group-IsGroup}
use elo_service.Matchmaking.Walk.{parse_queue_key, parse_queue_key-queue_key}

abbrev pub waiting : String → ℤ → ℤ → Candidate
waiting id rating waited = record { id = id; rating = rating; waited = waited }

abbrev pub three_waiting : List Candidate
three_waiting =
    waiting "ann" (pos 1000) (pos 5)
    ∷ waiting "bob" (pos 1300) (pos 40000000000)
    ∷ waiting "cat" (pos 1400) (pos 7)
    ∷ []

abbrev pub the_closest : List Candidate
the_closest = waiting "bob" (pos 1300) (pos 40000000000) ∷ waiting "cat" (pos 1400) (pos 7) ∷ []

chosen_two : choose_group (by_insertion Candidate) (pos 2) three_waiting ≡ Choice.chosen the_closest
unfolding choose_group by_insertion ◌-ℤ◌ rating_window abs
chosen_two = refl

choose_group-IsGroup_example : IsGroup (by_insertion Candidate) (pos 2) three_waiting the_closest
choose_group-IsGroup_example =
    choose_group-IsGroup (by_insertion Candidate) (pos 2) three_waiting refl chosen_two

parse_queue_key-queue_key_example :
    parse_queue_key (queue_key (λ metadata. "0a::1b") "q1" "casual") ≡ "q1"
parse_queue_key-queue_key_example =
    parse_queue_key-queue_key (λ metadata. "0a::1b") "q1" "casual" refl
