-- ===== src/Lobbies/Passwords.antt =====
-- Who gets into a lobby, and what a refusal leaves.
use mathlib.Core.Path.{subst}
use elo_service.Prelude.{
  ◌≡◌, ◌⊎◌, inl, inr, sym, refl, arith, ℕ, String, Bool, true, false, Option, some, nat_eq,
  string_eq, ◌==◌, length, Bool-cases, Option-cases, eq_self,
}
use elo_service.Prelude.Int.{ℤ, pos, ltb_ℤ}
use elo_service.Matches.{get_game}
use elo_service.GameQueues.{QueueConfig-cases, resolve_queue}
use elo_service.Lobbies.{
  LobbyRecord, LobbyStore, hset, get_lobby, add_lobby_player, add_lobby_player_with_cap,
}
use elo_service.Lobbies.Session.{
  LobbyWorld, LobbyError, LobbyResult, ok, err, lobby_player_ttl, publish_lobby_event, is_let_in,
  enter_lobby, join_lobby,
}

add-full :
    (now : ℕ) (i player name : String) (cap : ℤ) (ttl : ℕ) (s : LobbyStore)
    → ltb_ℤ (pos (length (s.players i))) cap ≡ false
    → add_lobby_player_with_cap now i player name cap ttl s ≡ (false, s)
unfolding add_lobby_player_with_cap
add-full now i player name cap ttl s h = rw h refl

pub add-room :
    (now : ℕ) (i player name : String) (cap : ℤ) (ttl : ℕ) (s : LobbyStore)
    → ltb_ℤ (pos (length (s.players i))) cap ≡ true
    → add_lobby_player_with_cap now i player name cap ttl s
      ≡ (true, add_lobby_player now i player name ttl s)
unfolding add_lobby_player_with_cap
add-room now i player name cap ttl s h = rw h refl

pub players-add :
    (now : ℕ) (i player name : String) (ttl : ℕ) (s : LobbyStore)
    → (add_lobby_player now i player name ttl s).players i ≡ hset player name (s.players i)
unfolding add_lobby_player
players-add now i player name ttl s = rw (eq_self i) refl

module _ (hash_password : String → Option String) (is_hash_of : String → String → Bool) where
  -- A player got in: the lobby and its queue are there, the password fits, and there was room.
  abbrev pub IsJoined :
      String → String → String → String → LobbyWorld → LobbyRecord → LobbyWorld → Type 0
  IsJoined lobby_id supplied id name w lobby w' =
      (get_lobby lobby_id w.lobbies ≡ some lobby)
      × ((lobby.password_hash == "") ≡ true ⊎ is_hash_of lobby.password_hash supplied ≡ true)
      × (ltb_ℤ (pos (length (w.lobbies.players lobby_id))) lobby.max_players ≡ true)
      × (w'.lobbies.players lobby_id ≡ hset id name (w.lobbies.players lobby_id))

  abbrev pub IsOutcome :
      String → String → String → String → LobbyWorld → LobbyResult LobbyRecord × LobbyWorld → Type 0
  IsOutcome lobby_id supplied id name w r =
      ((e : LobbyError) × (r ≡ (err e, w)))
      ⊎ ((lobby : LobbyRecord) × (w' : LobbyWorld) × (r ≡ (ok lobby, w'))
          × IsJoined lobby_id supplied id name w lobby w')

  gate :
      (lobby : LobbyRecord) (supplied : String)
      → is_let_in hash_password is_hash_of lobby supplied ≡ true
      → (lobby.password_hash == "") ≡ true ⊎ is_hash_of lobby.password_hash supplied ≡ true
  unfolding is_let_in
  gate lobby supplied h = ground arith

  enter_lobby-Outcome :
      (now : ℕ) (lobby_id supplied id name : String) (w : LobbyWorld) (lobby : LobbyRecord)
      → get_lobby lobby_id w.lobbies ≡ some lobby
      → IsOutcome lobby_id supplied id name w
          (enter_lobby hash_password is_hash_of now lobby_id supplied id name lobby w)
  unfolding enter_lobby publish_lobby_event
  enter_lobby-Outcome now lobby_id supplied id name w lobby found =
      let cap = lobby.max_players in
      elim (Bool-cases (is_let_in hash_password is_hash_of lobby supplied)) [
        | inr refused ↦ rw refused (inl (_, refl))
        | inl let_in ↦ elim (Bool-cases (ltb_ℤ (pos (length (w.lobbies.players lobby_id))) cap)) [
          | inr full ↦
              rw (let_in, add-full now lobby_id id name cap lobby_player_ttl w.lobbies full)
                (inl (_, refl))
          | inl room ↦
              rw (let_in, add-room now lobby_id id name cap lobby_player_ttl w.lobbies room)
                (inr (
                  lobby,
                  _,
                  refl,
                  (
                    found,
                    gate lobby supplied let_in,
                    room,
                    players-add now lobby_id id name lobby_player_ttl w.lobbies,
                  ),
                ))
        ]
      ]

  -- What JoinLobby looks up before it lets anyone in.
  join_lobby-lookups :
      (now : ℕ) (lobby_id supplied id name : String) (w : LobbyWorld)
      → ((e : LobbyError) × (join_lobby hash_password is_hash_of now lobby_id supplied id name w
            ≡ (err e, w)))
        ⊎ ((lobby : LobbyRecord) × (get_lobby lobby_id w.lobbies ≡ some lobby)
            × (join_lobby hash_password is_hash_of now lobby_id supplied id name w
                ≡ enter_lobby hash_password is_hash_of now lobby_id supplied id name lobby w))
  unfolding join_lobby
  join_lobby-lookups now lobby_id supplied id name w = elim (Bool-cases (lobby_id == "")) [
    | inl missing ↦ rw missing (inl (_, refl))
    | inr given ↦ elim (Option-cases (get_lobby lobby_id w.lobbies)) [
      | inl none_there ↦ rw (given, none_there) (inl (_, refl))
      | inr (lobby, found) ↦ elim (Option-cases (get_game lobby.game_id w.world.db)) [
        | inl no_game ↦ rw (given, found, no_game) (inl (_, refl))
        | inr (game, its_game) ↦
            elim (QueueConfig-cases (resolve_queue lobby.game_id lobby.game_queue_id w.world.db)) [
              | inl (e, no_queue) ↦ rw (given, found, its_game, no_queue) (inl (_, refl))
              | inr (queue, its_queue) ↦
                  rw (given, found, its_game, its_queue) (inr (lobby, refl, refl))
            ]
      ]
    ]
  ]

  -- JoinLobby refuses and leaves the world as it was, or the lobby is there, its password, if it has
  -- one, is the one supplied, it has room, and exactly the player is put into it.
  pub join_lobby-Outcome :
      (now : ℕ) (lobby_id supplied id name : String) (w : LobbyWorld)
      → IsOutcome lobby_id supplied id name w
          (join_lobby hash_password is_hash_of now lobby_id supplied id name w)
  join_lobby-Outcome now lobby_id supplied id name w =
      elim (join_lobby-lookups now lobby_id supplied id name w) [
        | inl refused ↦ inl refused
        | inr (lobby, found, entered) ↦
            subst (IsOutcome lobby_id supplied id name w) (sym entered)
              (enter_lobby-Outcome now lobby_id supplied id name w lobby found)
      ]
