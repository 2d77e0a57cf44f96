-- ===== src/Matchmaking/Join.antt =====
-- Joining and leaving a queue (worker/matchmaking/pairPlayers.go), with the key of a sub-queue
-- (external/redis/redis.go). The SHA-256 of the metadata, in hexadecimal, is the parameter `fingerprint`.
use Prim.Native.String.{◌++◌ as string_append}
use elo_service.Prelude.{ℕ, String, not, nat_eq, string_eq, if◌then◌else◌, ◌==◌}
use elo_service.Store.{GameQueue}
use elo_service.GameQueues.{QueueConfig, QueueConfigError, resolve_queue}
use elo_service.Queue.{
  QueueError, QueueResult, add_player_to_queue_with_ttl, remove_player_from_queue, game_queue_size,
}
use elo_service.Matchmaking.{World, on_queue}

pub data JoinError : Type 0 where
  config : QueueConfigError → JoinError
  queue : QueueError → JoinError

pub data JoinResult (A : Type 0) : Type 0 where
  ok : A → JoinResult A
  err : JoinError → JoinResult A

pub record JoinQueueResult : Type 0 where
  pub queue_size : ℕ
  pub queue_id : String
  pub game_queue_id : String

-- Two minutes, in nanoseconds.
abbrev pub queue_ttl : ℕ
queue_ttl = 120000000000

module _ (fingerprint : String → String) where
  unfoldable pub queue_key : String → String → String
  queue_key game_queue_id metadata =
      if metadata == ""
      then game_queue_id
      else string_append (string_append game_queue_id "::") (fingerprint metadata)

  -- The key for the metadata of a player; a queue may ignore it.
  unfoldable pub composite_key : GameQueue → String → String
  unfolding queue_key
  composite_key q metadata = queue_key q.id (if not q.metadata_enabled then "" else metadata)

  unfoldable pub join_queue :
      ℕ → String → String → String → String → World → JoinResult JoinQueueResult × World
  unfolding composite_key
  join_queue now player game_id queue_id metadata w = elim (resolve_queue game_id queue_id w.db) [
    | QueueConfig.err e ↦ (err (config e), w)
    | QueueConfig.ok q ↦
        let key = composite_key q metadata in
        let (added, after) = add_player_to_queue_with_ttl now player queue_ttl (w.queues key) in
        elim added [
          | QueueResult.err e ↦ (err (queue e), w)
          | QueueResult.ok _ ↦ (
            ok (record {
              queue_size = game_queue_size after;
              queue_id = key;
              game_queue_id = q.id;
            }),
            on_queue key after w,
          )
        ]
  ]

  unfoldable pub leave_queue :
      String → String → String → String → World → JoinResult (Unit {0}) × World
  unfolding composite_key
  leave_queue player game_id queue_id metadata w = elim (resolve_queue game_id queue_id w.db) [
    | QueueConfig.err e ↦ (err (config e), w)
    | QueueConfig.ok q ↦
        let key = composite_key q metadata in
        let (removed, after) = remove_player_from_queue player (w.queues key) in
        elim removed [
          | QueueResult.err e ↦ (err (queue e), w)
          | QueueResult.ok _ ↦ (ok tt, on_queue key after w)
        ]
  ]
