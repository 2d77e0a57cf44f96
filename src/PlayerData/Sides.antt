-- ===== src/PlayerData/Sides.antt =====
-- Which entries a request of a player, and one of a game server, can change.
use elo_service.Prelude.{
  ◌≡◌, ◌∙◌, ◌⊎◌, inl, inr, sym, ap, refl, String, Bool, true, false, not, ◌||◌, Option, none, some,
  List, string_eq, ◌==◌, Bool-cases, Option-cases, eq_of_test,
}
use elo_service.Store.{Match, Db}
use elo_service.Util.{is_guest_id}
use elo_service.Matches.{get_match_by_token_id, is_match_active_or_cooling}
use elo_service.PlayerData.{
  PlayerGameEntry, EntryKey, entry_key_eq, max_value_bytes, has_owner, is_key_valid,
  validate_player_game_entry_value, upsert_player_game_entry, delete_player_game_entry,
}
use elo_service.PlayerData.Refinement.{
  call_table, put, view, IsKeyed, upsert-IsRefined, delete-IsRefined,
}
use elo_service.PlayerData.Handlers.{
  Answer, Request, granted, refused, without_bearer, read_bounded_body, match_includes_player,
  upsert_entry, delete_entry, player_id_from_context, upsert_my_entry, delete_my_entry,
  check_request, require_match_auth, upsert_entry_as_server, delete_entry_as_server,
}

-- The two tables agree but on the keys of which `P` holds.
abbrev pub IsSameBut : (EntryKey → Type 0) → List PlayerGameEntry → List PlayerGameEntry → Type 0
IsSameBut P es es' = (j : EntryKey) → (view es' j ≡ view es j) ⊎ P j

IsSameBut-put :
    (k : EntryKey) (v : Option String) (es es' : List PlayerGameEntry)
    → view es' ≡ put k v (view es)
    → IsSameBut (λ j. j ≡ k) es es'
IsSameBut-put k v es es' h j = elim (Bool-cases (k == j)) [
  | inl here ↦ inr (sym (eq_of_test k j here))
  | inr away ↦ inl (ap (λ t. t j) h ∙ rw away refl)
]

upsert-IsSameBut :
    (to_jsonb : String → Option String) (g p k : String) (s : Bool) (v : String) (db : Db)
    (es : List PlayerGameEntry)
    → IsKeyed es
    → IsSameBut (λ j. j ≡ ((g, p), (k, s))) es (upsert_player_game_entry to_jsonb g p k s v db es).1
upsert-IsSameBut to_jsonb g p k s v db es h =
    let (_, seen, _) = upsert-IsRefined to_jsonb db g p k s v es h in
    elim (Option-cases (to_jsonb v)) [
      | inl invalid ↦ λ j. inl (ap (λ t. t j) (rw (call_table, invalid) at seen))
      | inr (stored, taken) ↦ elim (Bool-cases (has_owner g p db)) [
        | inl owned ↦
            IsSameBut-put ((g, p), (k, s)) (some stored) es _
              (rw (call_table, taken, owned) at seen)
        | inr nobody ↦ λ j. inl (ap (λ t. t j) (rw (call_table, taken, nobody) at seen))
      ]
    ]

delete-IsSameBut :
    (to_jsonb : String → Option String) (g p k : String) (s : Bool) (db : Db)
    (es : List PlayerGameEntry)
    → IsKeyed es
    → IsSameBut (λ j. j ≡ ((g, p), (k, s))) es (delete_player_game_entry g p k s es).1
delete-IsSameBut to_jsonb g p k s db es h =
    let (_, seen, _) = delete-IsRefined to_jsonb db g p k s es h in
    IsSameBut-put ((g, p), (k, s)) none es _ seen

-- The key is the player's own: theirs in the request's game, and not the servers'.
abbrev pub IsOwn : Request → EntryKey → Type 0
IsOwn r j = (id : String) × (r.user_id ≡ some id) × (j ≡ ((r.game_id, id), (r.key, false)))

-- What holds of a match and a request that pass the checks.
abbrev pub IsChecked : Request → Match → Type 0
IsChecked r m =
    (is_match_active_or_cooling m ≡ true)
    × (match_includes_player m r.player_id ≡ true)
    × (is_guest_id r.player_id ≡ false)

-- The key is the servers', in the game of a live match that the token names, of a player in it who is no guest.
abbrev pub IsServers : Db → Request → EntryKey → Type 0
IsServers db r j =
    (m : Match) × (get_match_by_token_id (without_bearer r.authorization) db ≡ some m)
    × IsChecked r m
    × (j ≡ ((m.game_id, r.player_id), (r.key, true)))

module _ (is_json : String → Bool) (to_jsonb : String → Option String) (db : Db) where
  upsert_entry-IsSameBut :
      (g p k : String) (s : Bool) (body : String) (es : List PlayerGameEntry)
      → IsKeyed es
      → IsSameBut
          (λ j. j ≡ ((g, p), (k, s)))
          es
          (upsert_entry is_json to_jsonb g p k s body db es).1
  unfolding upsert_entry
  upsert_entry-IsSameBut g p k s body es h = elim (Bool-cases (is_key_valid k)) [
    | inr bad ↦ rw bad (λ j. inl refl)
    | inl fine ↦ elim (Option-cases (read_bounded_body body max_value_bytes)) [
      | inl long ↦ rw (fine, long) (λ j. inl refl)
      | inr (v, short) ↦ elim (Option-cases (validate_player_game_entry_value is_json v)) [
        | inr (e, invalid) ↦ rw (fine, short, invalid) (λ j. inl refl)
        | inl valid ↦ rw (fine, short, valid) (upsert-IsSameBut to_jsonb g p k s v db es h)
      ]
    ]
  ]

  delete_entry-IsSameBut :
      (g p k : String) (s : Bool) (es : List PlayerGameEntry)
      → IsKeyed es
      → IsSameBut (λ j. j ≡ ((g, p), (k, s))) es (delete_entry g p k s es).1
  unfolding delete_entry
  delete_entry-IsSameBut g p k s es h = elim (Bool-cases (is_key_valid k)) [
    | inr bad ↦ rw bad (λ j. inl refl)
    | inl fine ↦ elim (Bool-cases (delete_player_game_entry g p k s es).0) [
      | inl gone ↦ rw (fine, gone) (delete-IsSameBut to_jsonb g p k s db es h)
      | inr missing ↦ rw (fine, missing) (λ j. inl refl)
    ]
  ]

  logged_in : (r : Request) (id : String) → player_id_from_context r ≡ some id → r.user_id ≡ some id
  unfolding player_id_from_context
  logged_in r id h = elim (Option-cases r.user_id) [
    | inl nobody ↦ cc (rw nobody at h)
    | inr (i, is_me) ↦ elim (Bool-cases (i == "")) [
      | inl empty ↦ cc (rw (is_me, empty) at h)
      | inr given ↦ is_me ∙ rw (is_me, given) at h
    ]
  ]

  -- A request of a player changes at most the entry of the key in the player's own half.
  my_entry-IsSameBut :
      (r : Request) (es : List PlayerGameEntry)
      → IsKeyed es
      → IsSameBut (IsOwn r) es (upsert_my_entry is_json to_jsonb r db es).1
        × IsSameBut (IsOwn r) es (delete_my_entry r es).1
  unfolding upsert_my_entry delete_my_entry
  my_entry-IsSameBut r es h = elim (Option-cases (player_id_from_context r)) [
    | inl nobody ↦ rw (upsert_my_entry, delete_my_entry, nobody) (λ j. inl refl, λ j. inl refl)
    | inr (id, is_me) ↦
        let me = logged_in r id is_me in
        rw (upsert_my_entry, delete_my_entry, is_me)
          (
            λ j. elim (upsert_entry-IsSameBut r.game_id id r.key false r.body es h j) [
              | inl same ↦ inl same
              | inr own ↦ inr (id, me, own)
            ],
            λ j. elim (delete_entry-IsSameBut r.game_id id r.key false es h j) [
              | inl same ↦ inl same
              | inr own ↦ inr (id, me, own)
            ],
          )
  ]

  check_request-cases :
      (m : Match) (r : Request)
      → ((a : Answer) × (check_request m r ≡ refused a))
        ⊎ (IsChecked r m × (check_request m r ≡ granted m))
  unfolding check_request
  check_request-cases m r = elim (Bool-cases (is_match_active_or_cooling m)) [
    | inr over ↦ rw over (inl (_, refl))
    | inl live ↦ elim (Bool-cases (r.game_id == "" || not (r.game_id == m.game_id))) [
      | inl elsewhere ↦ rw (live, elsewhere) (inl (_, refl))
      | inr here ↦ elim (Bool-cases (r.player_id == "")) [
        | inl empty ↦ rw (live, here, empty) (inl (_, refl))
        | inr given ↦ elim (Bool-cases (is_guest_id r.player_id)) [
          | inl guest ↦ rw (live, here, given, guest) (inl (_, refl))
          | inr user ↦ elim (Bool-cases (match_includes_player m r.player_id)) [
            | inr outside ↦ rw (live, here, given, user, outside) (inl (_, refl))
            | inl inside ↦ rw (live, here, given, user, inside) (inr ((refl, refl, refl), refl))
          ]
        ]
      ]
    ]
  ]

  match_auth-cases :
      (r : Request)
      → ((a : Answer) × (require_match_auth r db ≡ refused a))
        ⊎ ((m : Match) × (get_match_by_token_id (without_bearer r.authorization) db ≡ some m)
            × IsChecked r m
            × (require_match_auth r db ≡ granted m))
  unfolding require_match_auth
  match_auth-cases r = elim (Bool-cases (without_bearer r.authorization == "")) [
    | inl missing ↦ rw missing (inl (_, refl))
    | inr given ↦ elim (Option-cases (get_match_by_token_id (without_bearer r.authorization) db)) [
      | inl nobody ↦ rw (given, nobody) (inl (_, refl))
      | inr (m, its) ↦ elim (check_request-cases m r) [
        | inl (a, denied) ↦ rw (given, its, denied) (inl (_, refl))
        | inr (fine, passed) ↦ rw (given, its, passed) (inr (m, refl, fine, refl))
      ]
    ]
  ]

  server_entry-IsSameBut :
      (r : Request) (es : List PlayerGameEntry)
      → IsKeyed es
      → IsSameBut (IsServers db r) es (upsert_entry_as_server is_json to_jsonb r db es).1
        × IsSameBut (IsServers db r) es (delete_entry_as_server r db es).1
  unfolding upsert_entry_as_server delete_entry_as_server
  server_entry-IsSameBut r es h = elim (match_auth-cases r) [
    | inl (a, denied) ↦
        rw (upsert_entry_as_server, delete_entry_as_server, denied) (λ j. inl refl, λ j. inl refl)
    | inr (m, its, fine, passed) ↦
        rw (upsert_entry_as_server, delete_entry_as_server, passed)
          (
            λ j. elim (upsert_entry-IsSameBut m.game_id r.player_id r.key true r.body es h j) [
              | inl same ↦ inl same
              | inr own ↦ inr (m, its, fine, own)
            ],
            λ j. elim (delete_entry-IsSameBut m.game_id r.player_id r.key true es h j) [
              | inl same ↦ inl same
              | inr own ↦ inr (m, its, fine, own)
            ],
          )
  ]

  -- No request of a player changes an entry but the one of its key in that player's own half, and none of a game server one
  -- but that of its key in the servers' half, of a player of its live match; primary keys stand once in the table.
  pub entry-IsSameBut :
      (r : Request) (es : List PlayerGameEntry)
      → IsKeyed es
      → (IsSameBut (IsOwn r) es (upsert_my_entry is_json to_jsonb r db es).1
          × IsSameBut (IsOwn r) es (delete_my_entry r es).1)
        × (IsSameBut (IsServers db r) es (upsert_entry_as_server is_json to_jsonb r db es).1
            × IsSameBut (IsServers db r) es (delete_entry_as_server r db es).1)
  entry-IsSameBut r es h = (my_entry-IsSameBut r es h, server_entry-IsSameBut r es h)
