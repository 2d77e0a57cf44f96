-- ===== src/Lobbies/Expiry.antt =====
-- CleanupExpiredLobbies (worker/matchmaking/garbageCollectMatches.go): the sweep of the lobbies.

use elo_service.Prelude.{
  ℕ, String, Bool, true, false, not, List, [], ◌∷◌, nat_eq, string_eq, if◌then◌else◌, ◌==◌,
}
use elo_service.Lobbies.{
  LobbyRecord, LobbyStore, player_id, delete_lobby, remove_lobby_player, is_lobby_player_alive,
  lobby_players, lobbies_for_game,
}

-- CleanupExpiredLobbies (worker/matchmaking/garbageCollectMatches.go): the loop over the players of one
-- lobby, with `hostAlive` so far.
unfoldable pub cleanup_lobby_players :
    ℕ → LobbyRecord → List (String × String) → Bool → LobbyStore → Bool × LobbyStore
unfolding is_lobby_player_alive remove_lobby_player
cleanup_lobby_players now lobby [] host_alive s = (host_alive, s)
cleanup_lobby_players now lobby (p ∷ ps) host_alive s =
    let id = player_id p in
    let alive =
      cleanup_lobby_players now lobby ps (if id == lobby.host_id then true else host_alive) s in
    let dead = cleanup_lobby_players now lobby ps host_alive (remove_lobby_player lobby.id id s) in
    if not (is_lobby_player_alive now lobby.id id s) then dead else alive

unfoldable pub cleanup_lobby : ℕ → LobbyRecord → LobbyStore → LobbyStore
unfolding cleanup_lobby_players delete_lobby lobby_players
cleanup_lobby now lobby s =
    let (host_alive, s') = cleanup_lobby_players now lobby (lobby_players lobby.id s) false s in
    if not host_alive then delete_lobby lobby.id lobby.game_id s' else s'

unfoldable pub cleanup_lobbies : ℕ → List LobbyRecord → LobbyStore → LobbyStore
unfolding cleanup_lobby
cleanup_lobbies now [] s = s
cleanup_lobbies now (lobby ∷ lobbies) s = cleanup_lobbies now lobbies (cleanup_lobby now lobby s)

-- `games` are the games of the keys `lobby_index_*`.
unfoldable pub cleanup_expired_lobbies : ℕ → List String → LobbyStore → LobbyStore
unfolding lobbies_for_game cleanup_lobbies
cleanup_expired_lobbies now [] s = s
cleanup_expired_lobbies now (game_id ∷ games) s =
    let (lobbies, s') = lobbies_for_game game_id s in
    cleanup_expired_lobbies now games (cleanup_lobbies now lobbies s')
