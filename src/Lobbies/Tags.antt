-- ===== src/Lobbies/Tags.antt =====
-- api/lobby/core.go and api/lobby/crud.go: the tags of a lobby, and the search for lobbies by them.
use elo_service.Prelude.{
  ◌≤◌, ◌<◌, ◌+◌, ◌≢◌, inl, inr, arith, length, All, Bool-cases, ne_of_test, ℕ, suc, String, Bool,
  not, Option, none, some, List, [], ◌∷◌, nat_eq, string_eq, leb, if◌then◌else◌, ◌==◌, all_by,
  contains,
}
use elo_service.Prelude.Int.{ℤ}
use elo_service.Text.{trim_space, split}
use elo_service.Lobbies.{LobbyRecord, LobbyStore, lobbies_for_game, lobby_player_count}

abbrev pub max_lobby_tags : ℕ
max_lobby_tags = 16

-- The loop over the parts, with the number of tags that are out already.
unfoldable pub take_tags : ℕ → List String → List String
unfolding trim_space
take_tags n [] = []
take_tags n (p ∷ ps) =
    let t = trim_space p in
    let skip = take_tags n ps in
    let more = take_tags (suc n) ps in
    if t == "" then skip else if leb max_lobby_tags (suc n) then t ∷ [] else t ∷ more

unfoldable pub parse_tags : String → List String
unfolding take_tags split
parse_tags raw =
    let (part, parts) = split b',' raw in if raw == "" then [] else take_tags 0 (part ∷ parts)

unfoldable pub tags_contain_all : List String → List String → Bool
tags_contain_all have want = all_by (λ t. contains have t) want

pub record LobbyResp : Type 0 where
  pub id : String
  pub game_id : String
  pub host_id : String
  pub host_name : String
  pub tags : List String
  pub metadata : String
  pub players : ℕ
  pub max_players : ℤ
  pub created_at : ℕ
  pub password_protected : Bool

unfoldable pub to_resp : LobbyRecord → ℕ → LobbyResp
to_resp lobby players = record {
  id = lobby.id;
  game_id = lobby.game_id;
  host_id = lobby.host_id;
  host_name = lobby.host_name;
  tags = lobby.tags;
  metadata = lobby.metadata;
  players = players;
  max_players = lobby.max_players;
  created_at = lobby.created_at;
  password_protected = not (lobby.password_hash == "");
}

-- The loop over the records of a game.
unfoldable pub list_lobbies : List String → List LobbyRecord → LobbyStore → List LobbyResp
unfolding tags_contain_all to_resp lobby_player_count
list_lobbies wanted [] s = []
list_lobbies wanted (lobby ∷ lobbies) s =
    let rest = list_lobbies wanted lobbies s in
    if lobby.private
    then rest
    else if not (tags_contain_all lobby.tags wanted)
    then rest
    else to_resp lobby (lobby_player_count lobby.id s) ∷ rest

-- `none` is the answer 400.
unfoldable pub find_lobby : String → String → LobbyStore → Option (List LobbyResp) × LobbyStore
unfolding parse_tags lobbies_for_game list_lobbies
find_lobby game_id tags s =
    let (lobbies, s') = lobbies_for_game game_id s in
    if game_id == "" then (none, s) else (some (list_lobbies (parse_tags tags) lobbies s'), s')

take_tags-bounds :
    (n : ℕ) (ps : List String)
    → n < max_lobby_tags
    → (n + length (take_tags n ps) ≤ max_lobby_tags) × All (λ t. t ≢ "") (take_tags n ps)
unfolding take_tags
take_tags-bounds n [] h = (omega arith, tt)
take_tags-bounds n (p ∷ ps) h = elim (Bool-cases (trim_space p == "")) [
  | inl blank ↦ rw blank (take_tags-bounds n ps h)
  | inr some_tag ↦ elim (Bool-cases (leb max_lobby_tags (suc n))) [
    | inl last ↦ rw (some_tag, last) (omega arith, (ne_of_test (trim_space p) "" some_tag, tt))
    | inr room ↦
        let rest = take_tags-bounds (suc n) ps (ground arith) in
        rw (some_tag, room) (omega (arith, rest.0), (ne_of_test (trim_space p) "" some_tag, rest.1))
  ]
]

-- Whatever text is given, a lobby has at most 16 tags, and none of them is empty.
pub parse_tags-bounds :
    (raw : String) → (length (parse_tags raw) ≤ max_lobby_tags) × All (λ t. t ≢ "") (parse_tags raw)
unfolding parse_tags
parse_tags-bounds raw = elim (Bool-cases (raw == "")) [
  | inl empty ↦ rw empty (omega arith, tt)
  | inr given ↦
      let bounds = take_tags-bounds 0 ((split b',' raw).0 ∷ (split b',' raw).1) (omega arith) in
      rw given (omega (arith, bounds.0), bounds.1)
]
