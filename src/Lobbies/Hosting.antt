-- ===== src/Lobbies/Hosting.antt =====
-- Hosting a lobby and letting a guest in.

use elo_service.Prelude.{
  ◌≡◌, ◌≢◌, ◌∙◌, ◌⊎◌, inl, inr, sym, ap, refl, arith, ℕ, String, Bool, true, false, Option, some,
  List, [], ◌∷◌, nat_eq, string_eq, ltb, ◌==◌, length, Bool-cases, Option-cases, eq_self, or-true,
  test_of_ne,
}
use Prim.Native.String.{len}
use elo_service.Prelude.Int.{pos, ltb_ℤ}
use elo_service.Store.{Game, GameQueue}
use elo_service.Matches.{get_game}
use elo_service.GameQueues.{QueueConfig, QueueConfig-cases, resolve_queue}
use elo_service.Lobbies.{LobbyRecord, LobbyStore, hset, get_lobby, create_lobby, add_lobby_player}
use elo_service.Lobbies.Session.{
  LobbyWorld, LobbyError, LobbyResult, ok, err, HostQuery, HostEnv, lobby_player_ttl,
  publish_lobby_event, password_hash_of, host_record, open_lobby, host_lobby, is_let_in,
  enter_lobby, join_lobby,
}
use elo_service.Lobbies.Passwords.{add-room, players-add}

-- The store in which a lobby was made and its host put in.
abbrev pub opened : HostEnv → LobbyRecord → LobbyStore → LobbyStore
opened env lobby s =
    add_lobby_player env.now lobby.id lobby.host_id lobby.host_name lobby_player_ttl
      (create_lobby lobby s)

get_lobby-opened :
    (env : HostEnv) (lobby : LobbyRecord) (s : LobbyStore)
    → get_lobby lobby.id (opened env lobby s) ≡ some lobby
unfolding get_lobby add_lobby_player create_lobby
get_lobby-opened env lobby s = rw (eq_self lobby.id) refl

players-opened :
    (env : HostEnv) (lobby : LobbyRecord) (s : LobbyStore)
    → s.players lobby.id ≡ []
    → (opened env lobby s).players lobby.id ≡ (lobby.host_id, lobby.host_name) ∷ []
unfolding create_lobby hset
players-opened env lobby s h =
    players-add env.now lobby.id lobby.host_id lobby.host_name lobby_player_ttl
      (create_lobby lobby s)
    ∙ ap (hset lobby.host_id lobby.host_name) h

hset_guest :
    (host host_name guest guest_name : String)
    → guest ≢ host
    → hset guest guest_name ((host, host_name) ∷ []) ≡ (host, host_name) ∷ (guest, guest_name) ∷ []
unfolding hset
hset_guest host host_name guest guest_name h = rw (test_of_ne host guest (λ e. h (sym e))) refl

module _ (hash_password : String → Option String) (is_hash_of : String → String → Bool) where
  abbrev pub IsHosting :
      HostEnv
      → HostQuery
      → String
      → String
      → LobbyWorld
      → LobbyResult LobbyRecord × LobbyWorld
      → Type 0
  IsHosting env query id name w r =
      ((e : LobbyError) × (w' : LobbyWorld) × (r ≡ (err e, w')))
      ⊎ ((queue : GameQueue) × (h : String) × (password_hash_of hash_password is_hash_of
              query.password
            ≡ some h)
          × (r ≡ (
            ok (host_record env query queue id name h),
            record w { lobbies = opened env (host_record env query queue id name h) w.lobbies },
          )))

  open_lobby-cases :
      (env : HostEnv) (lobby : LobbyRecord) (s : LobbyStore)
      → ((e : LobbyError) × (s' : LobbyStore) × (open_lobby env lobby s ≡ (err e, s')))
        ⊎ (open_lobby env lobby s ≡ (ok lobby, opened env lobby s))
  unfolding open_lobby
  open_lobby-cases env lobby s = elim (Bool-cases env.create_fails) [
    | inl failed ↦ rw failed (inl (_, _, refl))
    | inr created ↦ elim (Bool-cases env.add_fails) [
      | inl failed ↦ rw (created, failed) (inl (_, _, refl))
      | inr added ↦ rw (created, added) (inr refl)
    ]
  ]

  host_lobby-cases :
      (env : HostEnv) (query : HostQuery) (id name : String) (w : LobbyWorld)
      → IsHosting env query id name w (host_lobby hash_password is_hash_of env query id name w)
  unfolding host_lobby
  host_lobby-cases env query id name w = elim (Bool-cases (query.game_id == "")) [
    | inl missing ↦ rw missing (inl (_, _, refl))
    | inr given ↦ elim (Option-cases (get_game query.game_id w.world.db)) [
      | inl no_game ↦ rw (given, no_game) (inl (_, _, refl))
      | inr (game, its_game) ↦
          elim (QueueConfig-cases (resolve_queue query.game_id query.queue_id w.world.db)) [
            | inl (e, no_queue) ↦ rw (given, its_game, no_queue) (inl (_, _, refl))
            | inr (queue, its_queue) ↦ elim (Bool-cases queue.lobby_enabled) [
              | inr disabled ↦ rw (given, its_game, its_queue, disabled) (inl (_, _, refl))
              | inl enabled ↦ elim (Bool-cases (ltb 72 (len query.password))) [
                | inl long ↦ rw (given, its_game, its_queue, enabled, long) (inl (_, _, refl))
                | inr short ↦
                    elim (Option-cases (password_hash_of hash_password is_hash_of query.password)) [
                      | inl failed ↦
                          rw (given, its_game, its_queue, enabled, short, failed) (inl (_, _, refl))
                      | inr (h, hashed) ↦
                          elim (open_lobby-cases env (host_record env query queue id name h)
                            w.lobbies) [
                              | inl (e, s, refused) ↦
                                  rw (given, its_game, its_queue, enabled, short, hashed, refused)
                                    (inl (_, _, refl))
                              | inr done ↦
                                  rw (given, its_game, its_queue, enabled, short, hashed, done)
                                    (inr (queue, h, refl, refl))
                            ]
                    ]
              ]
            ]
          ]
    ]
  ]

  gate_opens :
      ((p h : String) → hash_password p ≡ some h → is_hash_of h p ≡ true)
      → (lobby : LobbyRecord) (password : String)
      → password_hash_of hash_password is_hash_of password ≡ some lobby.password_hash
      → is_let_in hash_password is_hash_of lobby password ≡ true
  unfolding is_let_in password_hash_of
  gate_opens hashes lobby password h = elim (Bool-cases (password == "")) [
    | inl blank ↦
        let same : "" ≡ lobby.password_hash = cc (rw blank at h) in
        ground (arith, ap (λ x. x == "") (sym same))
    | inr given ↦
        let fits = hashes password lobby.password_hash (rw given at h) in
        rw (given, fits, or-true (lobby.password_hash == "")) refl
  ]

  enter_lobby-opens :
      (now : ℕ) (supplied id name : String) (lobby : LobbyRecord) (w : LobbyWorld)
      → is_let_in hash_password is_hash_of lobby supplied ≡ true
      → ltb_ℤ (pos (length (w.lobbies.players lobby.id))) lobby.max_players ≡ true
      → (w' : LobbyWorld) × (enter_lobby hash_password is_hash_of now lobby.id supplied id name
            lobby w
          ≡ (ok lobby, w'))
        × (w'.lobbies.players lobby.id ≡ hset id name (w.lobbies.players lobby.id))
  unfolding enter_lobby publish_lobby_event
  enter_lobby-opens now supplied id name lobby w let_in room =
      rw (let_in, add-room now lobby.id id name lobby.max_players lobby_player_ttl w.lobbies room)
        (_, refl, players-add now lobby.id id name lobby_player_ttl w.lobbies)

  -- What a guest finds in a lobby that was just opened.
  join_lobby-opened :
      (env : HostEnv) (lobby : LobbyRecord) (supplied guest guest_name : String) (now : ℕ)
      (w : LobbyWorld) {game : Game} {queue : GameQueue}
      → (lobby.id == "") ≡ false
      → w.lobbies.players lobby.id ≡ []
      → guest ≢ lobby.host_id
      → ltb_ℤ (pos 1) lobby.max_players ≡ true
      → get_game lobby.game_id w.world.db ≡ some game
      → resolve_queue lobby.game_id lobby.game_queue_id w.world.db ≡ QueueConfig.ok queue
      → is_let_in hash_password is_hash_of lobby supplied ≡ true
      → (w'' : LobbyWorld) × (join_lobby hash_password is_hash_of now lobby.id supplied guest
            guest_name
            (record w { lobbies = opened env lobby w.lobbies })
          ≡ (ok lobby, w''))
        × (w''.lobbies.players lobby.id
            ≡ (lobby.host_id, lobby.host_name) ∷ (guest, guest_name) ∷ [])
  unfolding join_lobby
  join_lobby-opened env lobby supplied guest guest_name now w id_given fresh distinct room its_game
        its_queue let_in =
      let v : LobbyWorld = record w { lobbies = opened env lobby w.lobbies } in
      let alone = players-opened env lobby w.lobbies fresh in
      let (w'', entered, seated) = enter_lobby-opens now supplied guest guest_name lobby v let_in (
        ap (λ (ps : List (String × String)). ltb_ℤ (pos (length ps)) lobby.max_players) alone
        ∙ room) in
      (
        w'',
        rw (id_given, get_lobby-opened env lobby w.lobbies, its_game, its_queue) entered,
        seated
            ∙ ap (hset guest guest_name) alone
            ∙ hset_guest lobby.host_id lobby.host_name guest guest_name distinct,
      )

  -- A guest joins a lobby with the password that it was hosted with and sits in it behind its host, given
  -- that bcrypt accepts the hashes it makes, the id was new, the lobby has room for two, and its game and queue are there.
  pub join_lobby-host_lobby :
      ((p h : String) → hash_password p ≡ some h → is_hash_of h p ≡ true)
      → (env : HostEnv) (query : HostQuery) (host host_name guest guest_name : String) (now : ℕ)
        (w : LobbyWorld) {w' : LobbyWorld} {lobby : LobbyRecord} {game : Game} {queue : GameQueue}
      → host_lobby hash_password is_hash_of env query host host_name w ≡ (ok lobby, w')
      → (lobby.id == "") ≡ false
      → w.lobbies.players lobby.id ≡ []
      → guest ≢ host
      → ltb_ℤ (pos 1) lobby.max_players ≡ true
      → get_game lobby.game_id w.world.db ≡ some game
      → resolve_queue lobby.game_id lobby.game_queue_id w.world.db ≡ QueueConfig.ok queue
      → (w'' : LobbyWorld) × (join_lobby hash_password is_hash_of now lobby.id query.password guest
            guest_name w'
          ≡ (ok lobby, w''))
        × (w''.lobbies.players lobby.id ≡ (host, host_name) ∷ (guest, guest_name) ∷ [])
  unfolding host_record
  join_lobby-host_lobby hashes env query host host_name guest guest_name now w {w' = w'}
        {lobby = lobby} hosted id_given fresh distinct room its_game its_queue =
      elim (host_lobby-cases env query host host_name w) [
        | inl (e, v, refused) ↦ cc
        | inr (q, h, hashed, done) ↦
            let made : host_record env query q host host_name h ≡ lobby = cc in
            let v : LobbyWorld = record w {
              lobbies = opened env (host_record env query q host host_name h) w.lobbies;
            } in
            let same : v ≡ w' = cc in
            let host_is : host ≡ lobby.host_id = ap (λ (l : LobbyRecord). l.host_id) made in
            let host_entry : (lobby.host_id, lobby.host_name) ≡ (host, host_name) =
              ap (λ (l : LobbyRecord). (l.host_id, l.host_name)) (sym made) in
            let hash_is = hashed ∙ ap (λ (l : LobbyRecord). some l.password_hash) made in
            let now_in : record w { lobbies = opened env lobby w.lobbies } ≡ w' =
              ap (λ l. record w { lobbies = opened env l w.lobbies }) (sym made) ∙ same in
            let (w'', joined, seated) =
              join_lobby-opened env lobby query.password guest guest_name now w id_given fresh
                (λ e. distinct (e ∙ sym host_is)) room its_game its_queue
                (gate_opens hashes lobby query.password hash_is) in
            (
              w'',
              ap (join_lobby hash_password is_hash_of now lobby.id query.password guest guest_name)
                    (sym now_in)
                  ∙ joined,
              seated ∙ ap (λ p. p ∷ (guest, guest_name) ∷ []) host_entry,
            )
      ]
