-- ===== src/Queue.antt =====
-- external/redis/redis.go: one matchmaking queue. `players` is the list `queue_<key>`, `ttl` the keys
-- `player_queue_<key>_<player>` with the time at which each expires, and `joined` the hash
-- `qjoined_<key>` of join times in unix seconds. Times are nanoseconds elsewhere.
pub mod Fifo
use elo_service.Prelude.{
  ℕ, zero, suc, ◌+◌, ◌*◌, ◌/◌, ◌≤◌, String, Bool, true, false, not, ◌&&◌, Option, none, some, List,
  [], ◌∷◌, ◌++◌, nat_eq, string_eq, ltb, if◌then◌else◌, ◌==◌, length, take, drop, contains, erase,
}
use elo_service.Prelude.Int.{ℤ, pos, negsuc}

pub record PlayerQueue : Type 0 where
  pub players : List String
  pub ttl : String → Option ℕ
  pub joined : String → Option ℕ

pub data QueueError : Type 0 where
  player_already_in_queue player_not_in_queue : QueueError
  -- the client's `redis.Nil` and the server's "value is out of range"
  redis_nil out_of_range : QueueError

pub data QueueResult (A : Type 0) : Type 0 where
  ok : A → QueueResult A
  err : QueueError → QueueResult A

abbrev pub put_key {ℓ} : {A : Type ℓ} → String → A → (String → A) → String → A
put_key k v f j = if k == j then v else f j

abbrev pub unix : ℕ → ℕ
unix now = now / 1000000000

unfoldable pub add_player_to_queue_with_ttl :
    ℕ → String → ℕ → PlayerQueue → QueueResult (Unit {0}) × PlayerQueue
add_player_to_queue_with_ttl now player ttl q =
    if contains q.players player then (err player_already_in_queue, q) else (
      ok tt,
      record {
        players = q.players ++ (player ∷ []);
        ttl = put_key player (some (now + ttl)) q.ttl;
        joined = put_key player (some (unix now)) q.joined;
      },
    )

unfoldable pub remove_player_from_queue :
    String → PlayerQueue → QueueResult (Unit {0}) × PlayerQueue
remove_player_from_queue player q =
    if contains q.players player
    then (
      ok tt,
      record {
        players = erase player q.players;
        ttl = put_key player none q.ttl;
        joined = put_key player none q.joined;
      },
    )
    else (err player_not_in_queue, q)

-- A key is there until it expires.
unfoldable pub is_player_connection_alive : ℕ → PlayerQueue → String → Bool
is_player_connection_alive now q player = elim (q.ttl player) [
  | none ↦ false
  | some expires ↦ ltb now expires
]

-- EXPIRE does nothing for a key that is not there.
unfoldable pub refresh_player_queue_ttl : ℕ → String → ℕ → PlayerQueue → PlayerQueue
unfolding is_player_connection_alive
refresh_player_queue_ttl now player ttl q =
    if is_player_connection_alive now q player
    then record q { ttl = put_key player (some (now + ttl)) q.ttl }
    else q

unfoldable pub game_queue_size : PlayerQueue → ℕ
game_queue_size q = length q.players

abbrev pub drop_keys {ℓ} : {A : Type ℓ} → List String → (String → Option A) → String → Option A
drop_keys ps f j = if contains ps j then none else f j

-- LPOP with a count: nil for a missing list, an error for a negative count.
unfoldable pub pop_players_from_queue : ℤ → PlayerQueue → QueueResult (List String) × PlayerQueue
pop_players_from_queue (negsuc n) q = (err out_of_range, q)
pop_players_from_queue (pos n) q = if length q.players == 0 then (err redis_nil, q) else (
  ok (take n q.players),
  record q { players = drop n q.players; joined = drop_keys (take n q.players) q.joined },
)

abbrev pub erase_all : List String → List String → List String
erase_all [] xs = xs
erase_all (p ∷ ps) xs = erase_all ps (erase p xs)

unfoldable pub remove_players_from_queue : List String → PlayerQueue → PlayerQueue
remove_players_from_queue ps q = record {
  players = erase_all ps q.players;
  ttl = drop_keys ps q.ttl;
  joined = drop_keys ps q.joined;
}

-- HSETNX keeps a join time that is there.
abbrev pub keep_or_put : List String → ℕ → (String → Option ℕ) → String → Option ℕ
keep_or_put ps now f j = elim (f j) [
  | some t ↦ some t
  | none ↦ if contains ps j then some now else none
]

-- RPUSH of nothing is an error, which writes nothing.
unfoldable pub push_players_to_queue : ℕ → List String → PlayerQueue → PlayerQueue
push_players_to_queue now ps q = record q {
  players = q.players ++ ps;
  joined = keep_or_put ps (unix now) q.joined;
}

-- `CleanupExpiredPlayers` (worker/matchmaking/garbageCollectMatches.go) on one queue: the loop over
-- the players that the list had when it was read.
unfoldable pub cleanup_player : ℕ → String → PlayerQueue → PlayerQueue
cleanup_player now p q =
    if is_player_connection_alive now q p then q else (remove_player_from_queue p q).1

unfoldable pub cleanup_players : ℕ → List String → PlayerQueue → PlayerQueue
cleanup_players now [] q = q
cleanup_players now (p ∷ ps) q = cleanup_players now ps (cleanup_player now p q)

unfoldable pub cleanup_expired_players : ℕ → PlayerQueue → PlayerQueue
unfolding cleanup_players
cleanup_expired_players now q = cleanup_players now q.players q
