-- ===== src/Matchmaking/Rating.antt =====
-- worker/matchmaking/pairPlayers.go: pairing by rating, and the walk over all queues. A wait is a number of
-- nanoseconds, which may be negative when clocks differ. `sort.Slice` is the parameter `s`.
pub mod Group
use elo_service.Prelude.{
  ℕ, zero, suc, ◌*◌, String, Bool, true, false, not, ◌&&◌, ◌||◌, Option, none, some, List, [], ◌∷◌,
  map, nat_eq, string_eq, if◌then◌else◌, ◌==◌, length, take, find_by, filter_by, contains,
}
use elo_service.Prelude.Int.{ℤ, pos, negsuc, ltb_ℤ, ◌-ℤ◌}
use elo_service.Prelude.Sorting.{Sorting}
use elo_service.Store.{Rating, GameQueue, Game, Db}
use elo_service.Util.{is_guest_id}
use elo_service.GameQueues.{value_or}
use elo_service.Queue.{PlayerQueue, remove_players_from_queue}
use elo_service.Matchmaking.{
  Config, StartEnv, World, on_queue, is_started_ok, is_enough, start_match,
}

-- models/rating.go. A guest has no rating, and a player has one row in a queue.
unfoldable pub get_ratings_for_players : String → List String → Db → String → Option ℤ
get_ratings_for_players game_queue_id player_ids db id =
    let wanted = filter_by (λ p. not (is_guest_id p)) player_ids in
    let row =
      find_by (λ (r : Rating). r.game_queue_id == game_queue_id && r.player_id == id) db.ratings in
    if contains wanted id then elim row [ none ↦ none | some r ↦ some r.rating ] else none

abbrev pub rating_window_tight : ℤ
rating_window_tight = pos 100

abbrev pub rating_window_loose : ℤ
rating_window_loose = pos 300

-- 30 and 60 seconds.
abbrev pub rating_tier_tight : ℤ
rating_tier_tight = pos 30000000000

abbrev pub rating_tier_loose : ℤ
rating_tier_loose = pos 60000000000

unfoldable pub rating_window : ℤ → ℤ
rating_window waited =
    if ltb_ℤ waited rating_tier_tight
    then rating_window_tight
    else if ltb_ℤ waited rating_tier_loose
    then rating_window_loose
    else pos 1048576

pub record Candidate : Type 0 where
  pub id : String
  pub rating : ℤ
  pub waited : ℤ

-- One with no join time counts as having waited the loose tier out.
unfoldable pub candidate :
    ℕ → GameQueue → (String → Option ℤ) → (String → Option ℕ) → String → Candidate
candidate now queue ratings join_times id = record {
  id = id;
  rating = value_or (ratings id) queue.default_rating;
  waited = elim (join_times id) [
    | none ↦ rating_tier_loose
    | some ts ↦ pos now -ℤ pos (ts * 1000000000)
  ];
}

unfoldable pub abs : ℤ → ℕ
abs (pos n) = n
abs (negsuc n) = suc n

abbrev pub waited_longer : Candidate → Candidate → Bool
waited_longer a b = ltb_ℤ b.waited a.waited

abbrev pub distance : Candidate → Candidate → ℤ
distance seed c = pos (abs (c.rating -ℤ seed.rating))

abbrev pub is_closer : Candidate → Candidate → Candidate → Bool
is_closer seed a b = ltb_ℤ (distance seed a) (distance seed b)

-- The loop for the least and the greatest rating.
abbrev pub min_rating : ℤ → List Candidate → ℤ
min_rating r [] = r
min_rating r (c ∷ cs) = min_rating (if ltb_ℤ c.rating r then c.rating else r) cs

abbrev pub max_rating : ℤ → List Candidate → ℤ
max_rating r [] = r
max_rating r (c ∷ cs) = max_rating (if ltb_ℤ r c.rating then c.rating else r) cs

-- `panicked` is an index or a slice out of range.
pub data Choice : Type 0 where
  deferred panicked : Choice
  chosen : List Candidate → Choice

pub data RatingLoop : Type 0 where
  finished : Bool → World → RatingLoop
  failed : World → RatingLoop
  running : RatingLoop

module _ (s : Sorting Candidate) where
  -- The group around the seed: `others[:LobbySize-1]`, kept if its spread is within the seed's window.
  unfoldable pub group_around : ℤ → Candidate → List Candidate → Choice
  unfolding rating_window
  group_around (negsuc n) seed others = panicked
  group_around (pos zero) seed others = panicked
  group_around (pos (suc k)) seed others =
      let rest = take k (s.sort (is_closer seed) others) in
      if ltb_ℤ (rating_window seed.waited)
        (max_rating seed.rating rest -ℤ min_rating seed.rating rest)
      then deferred
      else chosen (seed ∷ rest)

  unfoldable pub choose_group : ℤ → List Candidate → Choice
  unfolding group_around
  choose_group lobby_size cands = elim (s.sort waited_longer cands) [
    | [] ↦ panicked
    | seed ∷ others ↦ group_around lobby_size seed others
  ]

  unfoldable pub candidates : ℕ → GameQueue → PlayerQueue → Db → List Candidate
  unfolding candidate get_ratings_for_players
  candidates now queue q db =
      map (candidate now queue (get_ratings_for_players queue.id q.players db) q.joined) q.players

  -- `envs n` is what the outside answers to the call of `StartMatch` in round n.
  unfoldable pub pair_by_rating :
      ℕ → (ℕ → StartEnv) → ℕ → Config → Game → GameQueue → String → Bool → World → RatingLoop
  unfolding choose_group candidates
  pair_by_rating zero envs n cfg game queue composite paired w = running
  pair_by_rating (suc fuel) envs n cfg game queue composite paired w =
      let q = w.queues composite in
      if not (is_enough queue (length q.players))
      then finished paired w
      else elim (choose_group queue.lobby_size (candidates (envs n).now queue q w.db)) [
        | panicked ↦ failed w
        | deferred ↦ finished paired w
        | chosen group ↦
            let ids = map (λ (c : Candidate). c.id) group in
            let taken = on_queue composite (remove_players_from_queue ids q) w in
            let (result, w') = start_match (envs n) cfg game queue composite ids none taken in
            pair_by_rating fuel envs (suc n) cfg game queue composite
              (paired || is_started_ok result) w'
      ]
