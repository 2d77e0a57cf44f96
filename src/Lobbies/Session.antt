-- ===== src/Lobbies/Session.antt =====
-- api/lobby/lobby.go: hosting, joining and leaving a lobby. A websocket session is the handler's
-- part before its loop, a sequence of messages (Commands), and the part after the loop. bcrypt's two functions are parameters: `hash_password`, which may fail, and
-- `is_hash_of`, a hash and a password.
use Prim.Native.String.{len}
use elo_service.Prelude.{
  ℕ, String, Bool, true, false, not, ◌&&◌, ◌||◌, Option, none, some, List, [], ◌∷◌, ◌++◌, nat_eq,
  string_eq, ltb, if◌then◌else◌, ◌==◌,
}
use elo_service.Store.{GameQueue}
use elo_service.Text.{parse_bool}
use elo_service.Matches.{get_game}
use elo_service.GameQueues.{QueueConfig, resolve_queue, value_or}
use elo_service.Matchmaking.{StartError, World}
use elo_service.Lobbies.{
  LobbyRecord, LobbyStore, create_lobby, get_lobby, delete_lobby, add_lobby_player,
  add_lobby_player_with_cap, remove_lobby_player,
}
use elo_service.Lobbies.Tags.{parse_tags}

-- A `player_say` of "system" is `start_failed`.
pub data LobbyEvent : Type 0 where
  player_join : String → String → LobbyEvent
  player_leave player_say : String → String → String → LobbyEvent
  lobby_starting : LobbyEvent
  start_failed : StartError → LobbyEvent

-- `events` and `kicks` are what was published: the lobby and the event; the lobby, the player, the reason.
pub record LobbyWorld : Type 0 where
  pub world : World
  pub lobbies : LobbyStore
  pub events : List (String × LobbyEvent)
  pub kicks : List (String × String × String)

pub data LobbyError : Type 0 where
  game_id_required lobby_id_required game_not_found queue_not_found lobby_not_found : LobbyError
  lobbies_disabled password_too_long hash_failed store_failed invalid_password lobby_full :
      LobbyError

pub data LobbyResult (A : Type 0) : Type 0 where
  ok : A → LobbyResult A
  err : LobbyError → LobbyResult A

-- The query of /lobby/host, and what the store and the generators answer to it.
pub record HostQuery : Type 0 where
  pub game_id : String
  pub queue_id : String
  pub tags : String
  pub metadata : String
  pub password : String
  pub private : String
  pub spectate : String

pub record HostEnv : Type 0 where
  pub now : ℕ
  pub new_lobby_id : String
  pub create_fails : Bool
  pub add_fails : Bool

-- Two minutes.
abbrev pub lobby_player_ttl : ℕ
lobby_player_ttl = 120000000000

unfoldable pub on_lobbies : (LobbyStore → LobbyStore) → LobbyWorld → LobbyWorld
on_lobbies f w = record w { lobbies = f w.lobbies }

unfoldable pub publish_lobby_event : String → LobbyEvent → LobbyWorld → LobbyWorld
publish_lobby_event lobby_id e w = record w { events = w.events ++ ((lobby_id, e) ∷ []) }

unfoldable pub publish_lobby_kick : String → String → String → LobbyWorld → LobbyWorld
publish_lobby_kick lobby_id player reason w = record w {
  kicks = w.kicks ++ ((lobby_id, player, reason) ∷ []);
}

unfoldable pub host_record :
    HostEnv → HostQuery → GameQueue → String → String → String → LobbyRecord
unfolding parse_tags parse_bool
host_record env query queue id name password_hash = record {
  id = env.new_lobby_id;
  game_id = query.game_id;
  game_queue_id = queue.id;
  host_id = id;
  host_name = name;
  tags = parse_tags query.tags;
  metadata = query.metadata;
  max_players = queue.lobby_size;
  created_at = env.now;
  password_hash = password_hash;
  private = value_or (parse_bool query.private) false;
  spectate = value_or (parse_bool query.spectate) true;
}

-- The two writes of HostLobby; a write that fails writes nothing.
unfoldable pub open_lobby :
    HostEnv → LobbyRecord → LobbyStore → LobbyResult LobbyRecord × LobbyStore
unfolding create_lobby delete_lobby add_lobby_player
open_lobby env lobby s =
    let created = create_lobby lobby s in
    if env.create_fails
    then (err store_failed, s)
    else if env.add_fails
    then (err store_failed, delete_lobby lobby.id lobby.game_id created)
    else (
      ok lobby,
      add_lobby_player env.now lobby.id lobby.host_id lobby.host_name lobby_player_ttl created,
    )

module _ (hash_password : String → Option String) (is_hash_of : String → String → Bool) where
  -- An empty password is not hashed.
  unfoldable pub password_hash_of : String → Option String
  password_hash_of password = if password == "" then some "" else hash_password password

  -- HostLobby up to its session.
  unfoldable pub host_lobby :
      HostEnv → HostQuery → String → String → LobbyWorld → LobbyResult LobbyRecord × LobbyWorld
  unfolding password_hash_of host_record open_lobby
  host_lobby env query id name w =
      if query.game_id == ""
      then (err game_id_required, w)
      else elim (get_game query.game_id w.world.db) [
        | none ↦ (err game_not_found, w)
        | some game ↦ elim (resolve_queue query.game_id query.queue_id w.world.db) [
          | QueueConfig.err e ↦ (err queue_not_found, w)
          | QueueConfig.ok queue ↦
              if not queue.lobby_enabled
              then (err lobbies_disabled, w)
              else if ltb 72 (len query.password)
              then (err password_too_long, w)
              else elim (password_hash_of query.password) [
                | none ↦ (err hash_failed, w)
                | some password_hash ↦
                    let (result, s) =
                      open_lobby env (host_record env query queue id name password_hash)
                        w.lobbies in
                    (result, record w { lobbies = s })
              ]
        ]
      ]

  -- The gate of a lobby with a password.
  unfoldable pub is_let_in : LobbyRecord → String → Bool
  is_let_in lobby supplied =
      lobby.password_hash == "" || (not (supplied == "") && is_hash_of lobby.password_hash supplied)

  -- The last part of JoinLobby: the gate, and then the cap.
  unfoldable pub enter_lobby :
      ℕ
      → String
      → String
      → String
      → String
      → LobbyRecord
      → LobbyWorld
      → LobbyResult LobbyRecord × LobbyWorld
  unfolding is_let_in add_lobby_player_with_cap publish_lobby_event
  enter_lobby now lobby_id supplied id name lobby w =
      let (added, s) =
        add_lobby_player_with_cap now lobby_id id name lobby.max_players lobby_player_ttl
          w.lobbies in
      if not (is_let_in lobby supplied)
      then (err invalid_password, w)
      else if added
      then (ok lobby, publish_lobby_event lobby_id (player_join id name) (record w { lobbies = s }))
      else (err lobby_full, w)

  -- JoinLobby up to its session.
  unfoldable pub join_lobby :
      ℕ → String → String → String → String → LobbyWorld → LobbyResult LobbyRecord × LobbyWorld
  unfolding enter_lobby get_lobby
  join_lobby now lobby_id supplied id name w =
      if lobby_id == "" then (err lobby_id_required, w) else elim (get_lobby lobby_id w.lobbies) [
        | none ↦ (err lobby_not_found, w)
        | some lobby ↦ elim (get_game lobby.game_id w.world.db) [
          | none ↦ (err game_not_found, w)
          | some game ↦ elim (resolve_queue lobby.game_id lobby.game_queue_id w.world.db) [
            | QueueConfig.err e ↦ (err queue_not_found, w)
            | QueueConfig.ok queue ↦ enter_lobby now lobby_id supplied id name lobby w
          ]
        ]
      ]

-- What JoinLobby and HostLobby do when the session is over.
unfoldable pub leave_lobby : LobbyRecord → String → String → LobbyWorld → LobbyWorld
unfolding on_lobbies publish_lobby_event remove_lobby_player
leave_lobby lobby id name w =
    publish_lobby_event lobby.id (player_leave id name "left")
      (on_lobbies (remove_lobby_player lobby.id id) w)

unfoldable pub close_lobby : LobbyRecord → LobbyWorld → LobbyWorld
unfolding on_lobbies publish_lobby_event remove_lobby_player delete_lobby
close_lobby lobby w = on_lobbies (delete_lobby lobby.id lobby.game_id) (
    publish_lobby_event lobby.id (player_leave lobby.host_id lobby.host_name "host_left")
      (on_lobbies (remove_lobby_player lobby.id lobby.host_id) w))
