-- ===== src/Games.antt =====
-- models/game.go: the games and their owners' operations. A failure that only the store decides is a
-- Boolean argument.
pub mod Stock
pub mod Queues
use elo_service.Prelude.{
  ℕ, String, Bool, true, false, not, ◌&&◌, ◌||◌, Option, none, some, List, [], ◌∷◌, ◌++◌, nat_eq,
  string_eq, if◌then◌else◌, ◌==◌, any_by, filter_by, update_by, contains, map,
}
use elo_service.Prelude.Int.{ℤ, pos}
use elo_service.Store.{Game, GameQueue, Rating, User, Db}
use elo_service.Matches.{get_game}
use elo_service.GameQueues
use elo_service.GameQueues.{
  QueueConfig, QueueConfigError, CreateGameQueueParams, UpdateGameQueueParams, apply_queue_defaults,
  queue_from_params, apply_queue_update, get_game_queues_for_game, value_or, text_or, is_zero,
  is_of_game,
}

pub data GameError : Type 0 where
  -- gorm.ErrRecordNotFound, ErrNotGameOwner, the unique index on the name, "game has no queues to update"
  not_found not_game_owner duplicate_name no_queues store_failed : GameError
  invalid_queue : QueueConfigError → GameError

pub data GameResult (A : Type 0) : Type 0 where
  ok : A → GameResult A
  err : GameError → GameResult A

pub record CreateGameParams : Type 0 where
  pub name : String
  pub description : String
  pub guests_allowed : Option Bool
  pub public_results : Option Bool
  pub public_match_logs : Option Bool
  pub spectate_enabled : Option Bool
  pub primary_queue : CreateGameQueueParams

-- Is the name taken by another game?
abbrev pub is_game_name_taken : String → String → Db → Bool
is_game_name_taken i name db = any_by (λ (g : Game). not (g.id == i) && g.name == name) db.games

-- The game and its primary queue go into the store together. The ids are what the store generates.
unfoldable pub create_game :
    String → String → ℕ → CreateGameParams → User → Db → GameResult Game × Db
create_game new_id new_queue_id now params owner db =
    elim (apply_queue_defaults params.primary_queue) [
      | QueueConfig.err e ↦ (err (invalid_queue e), db)
      | QueueConfig.ok primary ↦
          let game : Game = record {
            id = new_id;
            owner_id = owner.id;
            name = params.name;
            description = params.description;
            guests_allowed = value_or params.guests_allowed true;
            public_results = value_or params.public_results true;
            public_match_logs = value_or params.public_match_logs false;
            spectate_enabled = value_or params.spectate_enabled false;
          } in
          let queue = queue_from_params new_queue_id new_id now primary in
          if is_game_name_taken new_id params.name db then (err duplicate_name, db) else (
            ok game,
            record db { games = db.games ++ (game ∷ []); queues = db.queues ++ (queue ∷ []) },
          )
    ]

pub record UpdateGameParams : Type 0 where
  pub name : String
  pub description : String
  pub guests_allowed : Option Bool
  pub public_results : Option Bool
  pub public_match_logs : Option Bool
  pub spectate_enabled : Option Bool
  pub lobby_enabled : Option Bool
  pub lobby_size : ℤ
  pub matchmaking_strategy : String
  pub matchmaking_machine_name : String
  pub matchmaking_machine_ports : Option (List ℕ)
  pub elo_strategy : String
  pub k_factor : ℤ
  pub metadata_enabled : Option Bool

abbrev is_given {ℓ} : {A : Type ℓ} → Option A → Bool
is_given none = false
is_given (some a) = true

unfoldable pub has_queue_field_updates : UpdateGameParams → Bool
has_queue_field_updates p =
    is_given p.lobby_enabled
    || not (is_zero p.lobby_size)
    || not (p.matchmaking_strategy == "")
    || not (p.matchmaking_machine_name == "")
    || is_given p.matchmaking_machine_ports
    || not (p.elo_strategy == "")
    || not (is_zero p.k_factor)
    || is_given p.metadata_enabled

unfoldable pub to_queue_update : UpdateGameParams → UpdateGameQueueParams
to_queue_update p = record {
  name = "";
  lobby_enabled = p.lobby_enabled;
  lobby_size = p.lobby_size;
  matchmaking_strategy = p.matchmaking_strategy;
  matchmaking_machine_name = p.matchmaking_machine_name;
  matchmaking_machine_ports = p.matchmaking_machine_ports;
  elo_strategy = p.elo_strategy;
  default_rating = pos 0;
  k_factor = p.k_factor;
  metadata_enabled = p.metadata_enabled;
}

abbrev pub with_fields : UpdateGameParams → Game → Game
with_fields p g = record g {
  name = text_or p.name g.name;
  description = text_or p.description g.description;
  guests_allowed = value_or p.guests_allowed g.guests_allowed;
  public_results = value_or p.public_results g.public_results;
  public_match_logs = value_or p.public_match_logs g.public_match_logs;
  spectate_enabled = value_or p.spectate_enabled g.spectate_enabled;
}

abbrev pub put_queue : GameQueue → Db → Db
put_queue q db = record db { queues = update_by (λ x. x.id == q.id) (λ x. q) db.queues }

-- Both writes are one transaction, so an error in the second leaves the store as it was.
unfoldable pub update_game : String → UpdateGameParams → User → Db → GameResult Game × Db
unfolding get_game get_game_queues_for_game has_queue_field_updates to_queue_update
    apply_queue_update
update_game i params owner db = elim (get_game i db) [
  | none ↦ (err not_found, db)
  | some game ↦
      let game' = with_fields params game in
      let saved : Db = record db { games = update_by (λ g. g.id == i) (λ g. game') db.games } in
      if not (game.owner_id == owner.id)
      then (err not_game_owner, db)
      else if is_game_name_taken i game'.name db
      then (err duplicate_name, db)
      else if not (has_queue_field_updates params)
      then (ok game', saved)
      else elim (get_game_queues_for_game i db) [
        | [] ↦ (err no_queues, db)
        | q ∷ qs ↦ elim (apply_queue_update q (to_queue_update params)) [
          | QueueConfig.err e ↦ (err (invalid_queue e), db)
          | QueueConfig.ok q' ↦ (ok game', put_queue q' saved)
        ]
      ]
]

-- The queues of the game go with it, and their ratings with them.
unfoldable pub delete_game : Bool → String → User → Db → GameResult (Unit {0}) × Db
unfolding get_game
delete_game store_fails i owner db =
    let gone = map (λ (q : GameQueue). q.id) (filter_by (is_of_game i) db.queues) in
    elim (get_game i db) [
      | none ↦ (err not_found, db)
      | some game ↦
          if not (game.owner_id == owner.id)
          then (err not_game_owner, db)
          else if store_fails
          then (err store_failed, db)
          else (
            ok tt,
            record db {
              games = filter_by (λ g. not (g.id == i)) db.games;
              queues = filter_by (λ q. not (is_of_game i q)) db.queues;
              ratings = filter_by (λ r. not (contains gone r.game_queue_id)) db.ratings;
            },
          )
    ]
