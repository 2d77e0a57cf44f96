-- ===== src/Examples/Matchmaking.antt =====
-- Runs of the start of a match.
use elo_service.Prelude.{String, ◌≡◌, refl, arith, false, none, [], ◌∷◌, nat_eq, string_eq}
use elo_service.Hosts.{find_available_host, count_machine_hosts}
use elo_service.Ledger.{Ledger}
use elo_service.Queue.{player_already_in_queue, add_player_to_queue_with_ttl, game_queue_size}
use elo_service.Matchmaking.{World, start_match, pair_fifo, Loop}
use elo_service.Matchmaking.Start.{IsFresh}
use elo_service.Matchmaking.Cleanup.{Outcome, place_match-Outcome}
use elo_service.Matchmaking.Balance.{start_match-Ledger}
use elo_service.Matchmaking.Capacity.{IsFull, IsAnswering, pair_fifo-at_capacity}
use elo_service.Matchmaking.Join.{
  JoinError, JoinResult, JoinQueueResult, queue_key, composite_key, join_queue, leave_queue,
}
use elo_service.Matchmaking.Leave.{leave_queue-join_queue}
use elo_service.GameQueues.{resolve_queue}
use elo_service.Examples.Fixtures.{
  one_host, one_queue, one_game, one_db, one_world, one_config, good_env, one_db-Ledger,
}

new_ids : IsFresh good_env one_db
new_ids = record { host = refl; instance_row = refl; unused = (refl, tt) }

place_match-Outcome_example :
    Outcome good_env one_config one_game one_queue ("cat" ∷ "dan" ∷ []) none one_host one_world
place_match-Outcome_example =
    place_match-Outcome good_env one_config one_game one_queue ("cat" ∷ "dan" ∷ []) none one_host
      one_world (refl, tt)

start_match-Ledger_example :
    Ledger
      (start_match good_env one_config one_game one_queue "q1"
        ("cat" ∷ "dan" ∷ [])
        none
        one_world).1.db
start_match-Ledger_example =
    start_match-Ledger good_env one_config one_game one_queue ("cat" ∷ "dan" ∷ []) none "q1"
      one_world new_ids one_db-Ledger

-- The one host has no slot left, and there may be no other.
abbrev full_world : World
full_world = record one_world {
  db = record one_db { hosts = record one_host { max_slots = 1 } ∷ [] };
}

full : IsFull one_config one_queue full_world.db
unfolding find_available_host count_machine_hosts
full = record { no_host = refl; capped = refl }

answering : IsAnswering good_env
answering = record { finds = refl; counts = refl }

pair_fifo-at_capacity_example :
    pair_fifo 100 (λ n. good_env) 0 one_config one_game one_queue "q1" false full_world
    ≡ Loop.running
pair_fifo-at_capacity_example =
    pair_fifo-at_capacity one_config one_game one_queue "q1" 100 (λ n. good_env) 0 false full_world
      2 (λ n. answering) refl full refl (omega arith) (omega arith)

-- A constant stands for the hash of the metadata.
abbrev same_hash : String → String
same_hash s = "f00d"

abbrev eve_joined : JoinQueueResult
eve_joined = record { queue_size = 3; queue_id = "q1"; game_queue_id = "q1" }

joins : (join_queue same_hash 3 "eve" "g1" "q1" "mode=fast" one_world).0 ≡ JoinResult.ok eve_joined
unfolding join_queue resolve_queue composite_key queue_key add_player_to_queue_with_ttl
    game_queue_size
joins = refl

leave_queue-join_queue_example :
    let joined = (join_queue same_hash 3 "eve" "g1" "q1" "mode=fast" one_world).1 in
    let left = leave_queue same_hash "eve" "g1" "q1" "mode=fast" joined in
    ((join_queue same_hash 4 "eve" "g1" "q1" "mode=fast" joined).0
      ≡ JoinResult.err (JoinError.queue player_already_in_queue))
    × (left.0 ≡ JoinResult.ok tt)
    × ((left.1.queues "q1").players ≡ (one_world.queues "q1").players)
leave_queue-join_queue_example =
    leave_queue-join_queue same_hash "eve" "g1" "q1" "mode=fast" 3 4 one_world joins
