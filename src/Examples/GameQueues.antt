-- ===== src/Examples/GameQueues.antt =====
-- Runs of the queues' configuration.
use elo_service.Prelude.{
  String, Option, filter_by, ◌≡◌, refl, arith, true, false, some, none, [], ◌∷◌, nat_eq, string_eq,
}
use elo_service.Prelude.Int.{pos}
use elo_service.Store.{GameQueue, Db, User}
use elo_service.GameQueues.{
  QueueConfig, CreateGameQueueParams, UpdateGameQueueParams, apply_queue_update, resolve_queue,
  check_not_last, remove_queue_row, create_game_queue, get_game_queue, is_of_game,
  apply_queue_defaults, queue_from_params,
}
use elo_service.GameQueues.Config.{IsUsable, apply_queue_update-IsUsable}
use elo_service.GameQueues.Default.{resolve_queue-of_game}
use elo_service.Games.{CreateGameParams, create_game}
use elo_service.Games.Stock.{IsStocked}
use elo_service.Games.Queues.{Run, Change, Changes, Changes-IsStocked, remove_queue_row-overlap}
use elo_service.Examples.Fixtures.{one_queue, one_db}

abbrev blank : CreateGameQueueParams
blank = record {
  name = "";
  lobby_enabled = none;
  lobby_size = pos 0;
  matchmaking_strategy = "";
  matchmaking_machine_name = "";
  matchmaking_machine_ports = 9000 ∷ [];
  elo_strategy = "classic";
  default_rating = pos 0;
  k_factor = pos 0;
  metadata_enabled = none;
}

abbrev to_rating : UpdateGameQueueParams
to_rating = record {
  name = "";
  lobby_enabled = some false;
  lobby_size = pos 4;
  matchmaking_strategy = "rating";
  matchmaking_machine_name = "";
  matchmaking_machine_ports = none;
  elo_strategy = "";
  default_rating = pos 0;
  k_factor = pos 0;
  metadata_enabled = none;
}

abbrev rated_queue : GameQueue
rated_queue = record one_queue {
  lobby_enabled = false;
  lobby_size = pos 4;
  matchmaking_strategy = "rating";
}

usable : IsUsable one_queue
usable = record {
  named = refl;
  machine_named = refl;
  strategy_known = refl;
  elo_known = refl;
  sized = refl;
  rated = refl;
  weighted = refl;
}

changed : apply_queue_update one_queue to_rating ≡ QueueConfig.ok rated_queue
unfolding apply_queue_update
changed = refl

apply_queue_update-IsUsable_example : IsUsable rated_queue
apply_queue_update-IsUsable_example = apply_queue_update-IsUsable one_queue to_rating usable changed

abbrev two_queues : Db
two_queues = record one_db {
  queues = one_queue ∷ record one_queue { id = "q2"; created_at = 1 } ∷ [];
}

resolved : resolve_queue "g1" "" two_queues ≡ QueueConfig.ok one_queue
unfolding resolve_queue
resolved = refl

resolve_queue-of_game_example : one_queue.game_id ≡ "g1"
resolve_queue-of_game_example = resolve_queue-of_game "g1" "" two_queues resolved

abbrev anyone : User
anyone = record {
  id = "owner";
  username = "owner";
  email = "";
  password = "";
  is_admin = false;
  can_create_game = true;
  is_deleted = false;
}

abbrev new_game : CreateGameParams
new_game = record {
  name = "go";
  description = "";
  guests_allowed = none;
  public_results = none;
  public_match_logs = none;
  spectate_enabled = none;
  primary_queue = blank;
}

abbrev one_more : Db
one_more = (create_game "g2" "q7" 4 new_game anyone two_queues).1

stocked : IsStocked two_queues
stocked = record { ids = (refl, (refl, tt)); stocked = (omega arith, tt) }

abbrev a_run : Db → Option String → Run
a_run db deleting = record { db = db; deleting = deleting }

may_go : check_not_last "q2" one_more ≡ QueueConfig.ok tt
unfolding check_not_last create_game apply_queue_defaults queue_from_params
may_go = refl

-- A queue is created between the reads and the write of the deletion of another.
abbrev two_more : Db
two_more = (create_game_queue "q8" 5 "g2" blank one_more).1

a_day : Changes (a_run two_queues none) (a_run (remove_queue_row "q2" two_more) none)
unfolding create_game create_game_queue apply_queue_defaults queue_from_params
a_day =
    Changes.and_then
      (Changes.and_then
        (Changes.and_then
          (Changes.and_then Changes.none_yet
            (Change.create "g2" "q7" 4 new_game anyone (a_run two_queues none) refl refl))
          (Change.check_queue "q2" one_more may_go))
        (Change.create_queue "q8" 5 "g2" blank (a_run one_more (some "q2")) refl refl))
      (Change.remove_queue "q2" two_more)

Changes-IsStocked_example : IsStocked (remove_queue_row "q2" two_more)
Changes-IsStocked_example = Changes-IsStocked stocked a_day

abbrev second_queue : GameQueue
second_queue = record one_queue { id = "q2"; created_at = 1 }

remove_queue_row-overlap_example :
    (check_not_last "q1" two_queues ≡ QueueConfig.ok tt)
    × (check_not_last "q2" two_queues ≡ QueueConfig.ok tt)
    × (filter_by (is_of_game "g1") (remove_queue_row "q2" (remove_queue_row "q1" two_queues)).queues
        ≡ [])
unfolding get_game_queue
remove_queue_row-overlap_example =
    remove_queue_row-overlap one_queue second_queue "g1" two_queues refl refl refl refl refl
