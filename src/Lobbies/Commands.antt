-- ===== src/Lobbies/Commands.antt =====
-- api/lobby/lobby.go: what a message of a client does in a lobby.

use text.Mathlib.Text.{starts_with}
use elo_service.Prelude.{
  ◌≡◌, ◌≢◌, ◌⊎◌, ◌∙◌, inl, inr, refl, Bool-cases, Option-cases, contains, eq_of_test, ne_of_test,
  eq_self, test_of_ne, String, Bool, true, false, ◌&&◌, none, some, List, [], ◌∷◌, map, nat_eq,
  string_eq, if◌then◌else◌, ◌==◌,
}
use elo_service.Store.{GameQueue, Game}
use elo_service.Text.{trim_space, cut}
use elo_service.Matchmaking.{Config, StartEnv, StartResult, StartResult-cases, World, start_match}
use elo_service.Lobbies.{
  LobbyRecord, hdel, player_id, delete_lobby, remove_lobby_player, lobby_players,
  find_lobby_player_by_name,
}
use elo_service.Lobbies.Session.{
  LobbyWorld, player_leave, player_say, lobby_starting, start_failed, on_lobbies,
  publish_lobby_event, publish_lobby_kick,
}

-- `/disconnect <name>`: the host is never the target.
unfoldable pub kick_player : LobbyRecord → String → LobbyWorld → LobbyWorld
unfolding find_lobby_player_by_name on_lobbies publish_lobby_event publish_lobby_kick
    remove_lobby_player
kick_player lobby target w = elim (find_lobby_player_by_name lobby.id target w.lobbies) [
  | none ↦ w
  | some target_id ↦
      if target_id == lobby.host_id
      then w
      else publish_lobby_event lobby.id (player_leave target_id target "kicked") (
          on_lobbies (remove_lobby_player lobby.id target_id)
            (publish_lobby_kick lobby.id target_id "kicked_by_host" w))
]

-- `/start`: the composite key is the queue's id.
unfoldable pub start_lobby :
    StartEnv → Config → Game → GameQueue → LobbyRecord → LobbyWorld → LobbyWorld
unfolding on_lobbies publish_lobby_event delete_lobby lobby_players
start_lobby env cfg game queue lobby w =
    let starting = publish_lobby_event lobby.id lobby_starting w in
    let (result, world) =
      start_match env cfg game queue queue.id (map player_id (lobby_players lobby.id w.lobbies))
        (some lobby.spectate) w.world in
    let started : LobbyWorld = record starting { world = world } in
    elim result [
      | StartResult.err e ↦ publish_lobby_event lobby.id (start_failed e) started
      | StartResult.ok match_id ↦ on_lobbies (delete_lobby lobby.id lobby.game_id) started
    ]

unfoldable pub run_host_command :
    StartEnv → Config → Game → GameQueue → LobbyRecord → String → LobbyWorld → LobbyWorld
unfolding kick_player start_lobby cut trim_space
run_host_command env cfg game queue lobby text w =
    let (cmd, rest) = cut b' ' (trim_space text) in
    if cmd == "/disconnect"
    then elim rest [ none ↦ w | some name ↦ kick_player lobby (trim_space name) w ]
    else if cmd == "/start"
    then start_lobby env cfg game queue lobby w
    else w

-- The Boolean is whether the session ends.
unfoldable pub handle_inbound :
    StartEnv
    → Config
    → Game
    → GameQueue
    → LobbyRecord
    → String
    → String
    → Bool
    → String
    → LobbyWorld
    → Bool × LobbyWorld
unfolding run_host_command publish_lobby_event
handle_inbound env cfg game queue lobby id name is_host text w =
    if text == "/disconnect"
    then (true, w)
    else if is_host && starts_with text "/"
    then (false, run_host_command env cfg game queue lobby text w)
    else (false, publish_lobby_event lobby.id (player_say id name text) w)

abbrev pub HasHost : LobbyRecord → LobbyWorld → Type 0
HasHost lobby w = contains (map player_id (w.lobbies.players lobby.id)) lobby.host_id ≡ true

contains-hdel :
    (k j : String) (ps : List (String × String))
    → k ≢ j
    → contains (map player_id (hdel k ps)) j ≡ contains (map player_id ps) j
unfolding hdel
contains-hdel k j [] h = refl
contains-hdel k j (p ∷ ps) h = elim (Bool-cases (player_id p == k)) [
  | inl same ↦
      rw (same, eq_of_test (player_id p) k same, test_of_ne k j h, contains-hdel k j ps h) refl
  | inr other ↦ rw (other, contains-hdel k j ps h) refl
]

kick_player-keeps_host :
    (lobby : LobbyRecord) (target : String) (w : LobbyWorld)
    → HasHost lobby w
    → HasHost lobby (kick_player lobby target w)
unfolding kick_player on_lobbies publish_lobby_event publish_lobby_kick remove_lobby_player
kick_player-keeps_host lobby target w h =
    elim (Option-cases (find_lobby_player_by_name lobby.id target w.lobbies)) [
      | inl nobody ↦ rw (kick_player, nobody) h
      | inr (id, found) ↦ elim (Bool-cases (id == lobby.host_id)) [
        | inl self ↦ rw (kick_player, found, self) h
        | inr other ↦
            rw (kick_player, found, other, eq_self lobby.id)
              (contains-hdel id lobby.host_id (w.lobbies.players lobby.id)
                  (ne_of_test id lobby.host_id other)
                ∙ h)
      ]
    ]

module _ (env : StartEnv) (cfg : Config) (game : Game) (queue : GameQueue)
    (lobby : LobbyRecord) where
  -- The call of StartMatch that `/start` makes.
  abbrev pub start_result : LobbyWorld → StartResult String × World
  start_result w =
      start_match env cfg game queue queue.id (map player_id (lobby_players lobby.id w.lobbies))
        (some lobby.spectate) w.world

  abbrev pub IsHandled : LobbyWorld → LobbyWorld → Type 0
  IsHandled w w' =
      HasHost lobby w'
      ⊎ ((match_id : String) × ((start_result w).0 ≡ StartResult.ok match_id)
          × (w'.lobbies.records lobby.id ≡ none))

  start_lobby-IsHandled :
      (w : LobbyWorld) → HasHost lobby w → IsHandled w (start_lobby env cfg game queue lobby w)
  unfolding start_lobby on_lobbies publish_lobby_event delete_lobby lobby_players
  start_lobby-IsHandled w h = elim (StartResult-cases (start_result w).0) [
    | inl (e, failed) ↦ rw (start_lobby, failed) (inl h)
    | inr (match_id, started) ↦
        rw (start_lobby, started) (inr (match_id, refl, rw (eq_self lobby.id) refl))
  ]

  run_host_command-IsHandled :
      (text : String) (w : LobbyWorld)
      → HasHost lobby w
      → IsHandled w (run_host_command env cfg game queue lobby text w)
  unfolding run_host_command
  run_host_command-IsHandled text w h =
      let cmd = (cut b' ' (trim_space text)).0 in
      let rest = (cut b' ' (trim_space text)).1 in
      elim (Bool-cases (cmd == "/disconnect")) [
        | inl kick ↦ elim (Option-cases rest) [
          | inl nobody ↦ rw (kick, nobody) (inl h)
          | inr (name, given) ↦
              rw (kick, given) (inl (kick_player-keeps_host lobby (trim_space name) w h))
        ]
        | inr other ↦ elim (Bool-cases (cmd == "/start")) [
          | inl start ↦ rw (other, start) (start_lobby-IsHandled w h)
          | inr unknown ↦ rw (other, unknown) (inl h)
        ]
      ]

  -- Of a lobby whose host is in it, and any message of a client: either it is "/disconnect", changes nothing and ends the
  -- client's session; or the session goes on, and the host stays in the lobby, unless a match was started and the lobby is
  -- gone. A message of a client that is not the host changes no lobby.
  pub handle_inbound-keeps_host :
      (id name : String) (is_host : Bool) (text : String) (w : LobbyWorld)
      → HasHost lobby w
      → (((text ≡ "/disconnect")
            × (handle_inbound env cfg game queue lobby id name is_host text w ≡ (true, w)))
          ⊎ (((handle_inbound env cfg game queue lobby id name is_host text w).0 ≡ false)
              × IsHandled w (handle_inbound env cfg game queue lobby id name is_host text w).1))
        × (is_host ≡ false
            → (handle_inbound env cfg game queue lobby id name is_host text w).1.lobbies
              ≡ w.lobbies)
  unfolding handle_inbound publish_lobby_event
  handle_inbound-keeps_host id name is_host text w h = elim (Bool-cases (text == "/disconnect")) [
    | inl bye ↦ rw bye (inl (eq_of_test text "/disconnect" bye, refl), λ _. refl)
    | inr more ↦ elim (Bool-cases (is_host && starts_with text "/")) [
      | inl command ↦
          rw (more, command)
            (inr (refl, run_host_command-IsHandled text w h), λ guest. cc (rw guest at command))
      | inr say ↦ rw (more, say) (inr (refl, inl h), λ _. refl)
    ]
  ]
