-- ===== src/Results.antt =====
-- models/matchResult.go: the two phases of a match's completion, and who may see the result.
pub mod Phases
pub mod Visibility
use elo_service.Prelude.{
  ℕ, String, Bool, true, false, not, ◌&&◌, Option, none, some, List, [], ◌∷◌, ◌++◌, map, nat_eq,
  string_eq, if◌then◌else◌, ◌==◌, find_by, filter_by, update_by, contains,
}
use elo_service.Store.{Match, MatchResult, InstanceStatus, GameQueue, Db}
use elo_service.Util.{is_guest_id}
use elo_service.Elo.{FloatOps, apply_classic_elo}
use elo_service.Instances.{set_server_instance_status}
use elo_service.Matches.{
  is_live_id, get_match, set_match_status_cooldown, get_by_id, is_admin_id, owner_of, get_game,
}

abbrev pub result_id : MatchResult → String
result_id r = r.id

-- The row that phase A writes.
abbrev pub result_row : Match → ℕ → List String → String → String → List String → MatchResult
result_row m now winner_ids result logs_key artifacts = record {
  id = m.id;
  game_id = m.game_id;
  players = m.players;
  guest_ids = m.guest_ids;
  winner_ids = winner_ids;
  result = result;
  logs_key = logs_key;
  artifacts = artifacts;
  created_at = now;
}

abbrev pub get_queue : String → Db → Option GameQueue
get_queue i db = find_by (λ q. q.id == i) db.queues

module _ (fl : FloatOps) where
  -- The last step of the transaction. `match.GameQueue` is preloaded; a missing queue has no strategy.
  unfoldable pub rate_match : Match → List String → Bool → Db → Option Db
  unfolding apply_classic_elo
  rate_match m winner_ids adjust_ratings db = elim (get_queue m.game_queue_id db) [
    | none ↦ some db
    | some q ↦
        if adjust_ratings && q.elo_strategy == "classic"
        then elim (apply_classic_elo fl q (m.players ++ m.guest_ids) winner_ids db.ratings) [
          | none ↦ none
          | some rows ↦ some (record db { ratings = rows })
        ]
        else some db
  ]

  -- Phase A. `none` is an error, on which the transaction leaves the store as it was: the match is
  -- missing, or its result is there already (the primary key of the results).
  unfoldable pub match_ended :
      ℕ → String → List String → String → String → List String → Bool → Db → Option Db
  unfolding rate_match get_match set_match_status_cooldown set_server_instance_status
  match_ended now i winner_ids result logs_key artifacts adjust_ratings db = elim (get_match i db) [
    | none ↦ none
    | some m ↦
        if contains (map result_id db.results) i
        then none
        else let written : Db = record db {
          results = db.results ++ (result_row m now winner_ids result logs_key artifacts ∷ []);
        } in
          let cooling = set_match_status_cooldown i written in
          let flipped =
            if not (m.server_instance_id == "")
            then set_server_instance_status m.server_instance_id InstanceStatus.cooldown cooling
            else cooling in
          rate_match m winner_ids adjust_ratings flipped
  ]

-- The columns that phase B patches: an empty key and a nil list leave what is there.
abbrev pub patch : String → Option (List String) → MatchResult → MatchResult
patch logs_key artifacts r = record r {
  logs_key = if not (logs_key == "") then logs_key else r.logs_key;
  artifacts = elim artifacts [ none ↦ r.artifacts | some names ↦ names ];
}

-- Phase B. The join rows of the match go with its list of players.
unfoldable pub finalize_match_teardown : String → String → Option (List String) → Db → Db
finalize_match_teardown i logs_key artifacts db = record db {
  results = update_by (λ r. r.id == i) (patch logs_key artifacts) db.results;
  matches = filter_by (λ m. not (m.id == i)) db.matches;
}

-- `Preload("Players")`, which hides the soft-deleted users. The row keeps them.
unfoldable pub load_result : Db → MatchResult → MatchResult
load_result db r = record r { players = filter_by (is_live_id db) r.players }

unfoldable pub get_match_result : String → Db → Option MatchResult
unfolding load_result
get_match_result i db = elim (find_by (λ (r : MatchResult). r.id == i) db.results) [
  | none ↦ none
  | some r ↦ some (load_result db r)
]

unfoldable pub has_public_results : String → Db → Bool
unfolding get_game
has_public_results game_id db = elim (get_game game_id db) [
  | none ↦ false
  | some g ↦ g.public_results
]

unfoldable pub can_user_see_match_result : String → String → Db → Option Bool
unfolding get_match_result is_admin_id owner_of has_public_results
can_user_see_match_result user_id i db = elim (get_match_result i db) [
  | none ↦ none
  | some r ↦ some (
      if has_public_results r.game_id db
      then true
      else if is_admin_id user_id db
      then true
      else if owner_of r.game_id db == user_id
      then true
      else if contains r.players user_id
      then true
      else contains r.guest_ids user_id)
]

unfoldable pub is_user_match_result_admin : String → String → Db → Option Bool
unfolding get_match_result is_guest_id get_by_id owner_of
is_user_match_result_admin user_id i db =
    if is_guest_id user_id then some false else elim (get_by_id user_id db) [
      | none ↦ none
      | some u ↦ if u.is_admin then some true else elim (get_match_result i db) [
        | none ↦ none
        | some r ↦ some (owner_of r.game_id db == user_id)
      ]
    ]
