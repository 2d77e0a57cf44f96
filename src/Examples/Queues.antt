-- ===== src/Examples/Queues.antt =====
-- Runs of the player queue.
use elo_service.Prelude.{◌≡◌, refl, [], ◌∷◌, nat_eq, string_eq, filter_by}
use elo_service.Prelude.Int.{pos}
use elo_service.Queue.{
  QueueResult, add_player_to_queue_with_ttl, is_player_connection_alive, pop_players_from_queue,
  cleanup_expired_players,
}
use elo_service.Queue.Fifo.{cleanup_expired_players-players}
use elo_service.Examples.Fixtures.{two_waiting}

popped : (pop_players_from_queue (pos 1) two_waiting).0 ≡ QueueResult.ok ("cat" ∷ [])
unfolding pop_players_from_queue
popped = refl

joined : (add_player_to_queue_with_ttl 1 "eve" 9 two_waiting).0 ≡ QueueResult.ok tt
unfolding add_player_to_queue_with_ttl
joined = refl

cleanup_expired_players-players_example :
    (cleanup_expired_players 7 two_waiting).players
    ≡ filter_by (is_player_connection_alive 7 two_waiting) two_waiting.players
cleanup_expired_players-players_example =
    cleanup_expired_players-players 7 two_waiting (refl, (refl, tt))
