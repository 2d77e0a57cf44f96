-- ===== src/Lobbies.antt =====
-- external/redis/lobby.go: the lobbies in redis. `records` are the hashes `lobby_<id>`, `players` the
-- hashes `lobby_players_<id>` from a player's id to the name, `ttl` the keys
-- `lobby_player_ttl_<id>_<player>` with the time at which each expires, and `index` the sets
-- `lobby_index_<game>`. Times are nanoseconds.
pub mod Tags
pub mod Session
pub mod Commands
pub mod Expiry
pub mod Sweep
pub mod Capacity
pub mod Passwords
pub mod Hosting
use elo_service.Prelude.{
  ℕ, ◌+◌, String, Bool, true, false, not, Option, none, some, List, [], ◌∷◌, ◌++◌, map, nat_eq,
  string_eq, ltb, if◌then◌else◌, ◌==◌, length, find_by, filter_by, update_by, contains,
}
use elo_service.Prelude.Int.{ℤ, pos, ltb_ℤ}
use elo_service.Queue.{put_key}

-- A lobby with no password has the hash "".
pub record LobbyRecord : Type 0 where
  pub id : String
  pub game_id : String
  pub game_queue_id : String
  pub host_id : String
  pub host_name : String
  pub tags : List String
  pub metadata : String
  pub max_players : ℤ
  pub created_at : ℕ
  pub password_hash : String
  pub private : Bool
  pub spectate : Bool

pub record LobbyStore : Type 0 where
  pub records : String → Option LobbyRecord
  pub players : String → List (String × String)
  pub ttl : String → String → Option ℕ
  pub index : String → List String

-- The player's id, in an entry of a hash of players.
abbrev pub player_id : String × String → String
player_id p = p.0

-- HSET, HDEL, SADD, SREM.
unfoldable pub hset : String → String → List (String × String) → List (String × String)
hset k name ps =
    if contains (map player_id ps) k
    then update_by (λ p. player_id p == k) (λ p. (k, name)) ps
    else ps ++ ((k, name) ∷ [])

unfoldable pub hdel : String → List (String × String) → List (String × String)
hdel k ps = filter_by (λ p. not (player_id p == k)) ps

abbrev pub add_member : String → List String → List String
add_member x xs = if contains xs x then xs else xs ++ (x ∷ [])

abbrev pub remove_member : String → List String → List String
remove_member x xs = filter_by (λ y. not (y == x)) xs

abbrev pub put_ttl : String → String → Option ℕ → LobbyStore → String → String → Option ℕ
put_ttl lobby_id player t s = put_key lobby_id (put_key player t (s.ttl lobby_id)) s.ttl

unfoldable pub create_lobby : LobbyRecord → LobbyStore → LobbyStore
create_lobby lobby s = record s {
  records = put_key lobby.id (some lobby) s.records;
  index = put_key lobby.game_id (add_member lobby.id (s.index lobby.game_id)) s.index;
}

-- `none` is ErrLobbyNotFound.
unfoldable pub get_lobby : String → LobbyStore → Option LobbyRecord
get_lobby lobby_id s = s.records lobby_id

unfoldable pub delete_lobby : String → String → LobbyStore → LobbyStore
delete_lobby lobby_id game_id s = record s {
  records = put_key lobby_id none s.records;
  players = put_key lobby_id [] s.players;
  index = put_key game_id (remove_member lobby_id (s.index game_id)) s.index;
}

unfoldable pub add_lobby_player : ℕ → String → String → String → ℕ → LobbyStore → LobbyStore
unfolding hset
add_lobby_player now lobby_id player name ttl s = record s {
  players = put_key lobby_id (hset player name (s.players lobby_id)) s.players;
  ttl = put_ttl lobby_id player (some (now + ttl)) s;
}

-- The script answers `false` for a full lobby, ErrLobbyFull, and writes nothing then.
unfoldable pub add_lobby_player_with_cap :
    ℕ → String → String → String → ℤ → ℕ → LobbyStore → Bool × LobbyStore
unfolding add_lobby_player
add_lobby_player_with_cap now lobby_id player name max_players ttl s =
    if not (ltb_ℤ (pos (length (s.players lobby_id))) max_players)
    then (false, s)
    else (true, add_lobby_player now lobby_id player name ttl s)

unfoldable pub remove_lobby_player : String → String → LobbyStore → LobbyStore
unfolding hdel
remove_lobby_player lobby_id player s = record s {
  players = put_key lobby_id (hdel player (s.players lobby_id)) s.players;
  ttl = put_ttl lobby_id player none s;
}

unfoldable pub is_lobby_player_alive : ℕ → String → String → LobbyStore → Bool
is_lobby_player_alive now lobby_id player s = elim (s.ttl lobby_id player) [
  | none ↦ false
  | some expires ↦ ltb now expires
]

-- EXPIRE does nothing for a key that is not there.
unfoldable pub refresh_lobby_player_ttl : ℕ → String → String → ℕ → LobbyStore → LobbyStore
unfolding is_lobby_player_alive
refresh_lobby_player_ttl now lobby_id player ttl s =
    if is_lobby_player_alive now lobby_id player s
    then record s { ttl = put_ttl lobby_id player (some (now + ttl)) s }
    else s

unfoldable pub lobby_players : String → LobbyStore → List (String × String)
lobby_players lobby_id s = s.players lobby_id

unfoldable pub lobby_player_count : String → LobbyStore → ℕ
lobby_player_count lobby_id s = length (s.players lobby_id)

-- The range over the map has an order of its own; here it is that of the list.
unfoldable pub find_lobby_player_by_name : String → String → LobbyStore → Option String
unfolding lobby_players
find_lobby_player_by_name lobby_id name s =
    elim (find_by (λ p. p.1 == name) (lobby_players lobby_id s)) [ none ↦ none | some p ↦ some p.0 ]

-- The members of the index, one by one; one with no record is taken off the index.
unfoldable pub read_lobbies : String → List String → LobbyStore → List LobbyRecord × LobbyStore
unfolding get_lobby
read_lobbies game_id [] s = ([], s)
read_lobbies game_id (i ∷ is) s =
    let pruned : LobbyStore = record s {
      index = put_key game_id (remove_member i (s.index game_id)) s.index;
    } in
    let (skipping, after_skip) = read_lobbies game_id is pruned in
    let (keeping, after_keep) = read_lobbies game_id is s in
    elim (get_lobby i s) [
      | none ↦ (skipping, after_skip)
      | some lobby ↦ (lobby ∷ keeping, after_keep)
    ]

unfoldable pub lobbies_for_game : String → LobbyStore → List LobbyRecord × LobbyStore
unfolding read_lobbies
lobbies_for_game game_id s = read_lobbies game_id (s.index game_id) s
