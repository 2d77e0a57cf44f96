-- ===== src/PlayerData/Handlers.antt =====
-- api/playerData: who may read and write which entries. A handler's answer is its HTTP status, or the map of entries.
use Prim.Native.String.{len, slice}
use text.Mathlib.Text.{starts_with}
use elo_service.Prelude.{
  ℕ, String, Bool, true, false, not, ◌||◌, Option, none, some, List, nat_eq, string_eq, ltb,
  if◌then◌else◌, ◌==◌, contains,
}
use elo_service.Store.{Match, Db}
use elo_service.Util.{is_guest_id}
use elo_service.Matches.{get_match_by_token_id, is_match_active_or_cooling}
use elo_service.PlayerData.{
  PlayerGameEntry, EntryError, value_too_large, value_invalid, key_invalid, max_value_bytes,
  is_key_valid, validate_player_game_entry_value, upsert_player_game_entry,
  list_player_game_entries, delete_player_game_entry, entries_to_response,
}

pub data Answer : Type 0 where
  ok bad_request unauthorized forbidden not_found too_large internal_error : Answer
  listed : (String → Option String) → Answer

-- A request: the header, the parameters of the path, the body, and the id that the middleware found.
pub record Request : Type 0 where
  pub authorization : String
  pub game_id : String
  pub player_id : String
  pub key : String
  pub body : String
  pub user_id : Option String

-- `none` is a body over the cap.
unfoldable pub read_bounded_body : String → ℕ → Option String
read_bounded_body body max_bytes = if ltb max_bytes (len body) then none else some body

abbrev pub without_bearer : String → String
without_bearer token = if starts_with token "Bearer " then slice token 7 (len token) else token

unfoldable pub match_includes_player : Match → String → Bool
match_includes_player m player_id = contains m.players player_id || contains m.guest_ids player_id

-- The status of an error of the validation.
abbrev pub refusal : EntryError → Answer
refusal value_too_large = too_large
refusal value_invalid = bad_request
refusal key_invalid = bad_request

unfoldable pub upsert_entry :
    (String → Bool)
    → (String → Option String)
    → String
    → String
    → String
    → Bool
    → String
    → Db
    → List PlayerGameEntry
    → Answer × List PlayerGameEntry
unfolding is_key_valid read_bounded_body validate_player_game_entry_value upsert_player_game_entry
upsert_entry is_json to_jsonb game_id player_id key server_authored body db es =
    if not (is_key_valid key)
    then (bad_request, es)
    else elim (read_bounded_body body max_value_bytes) [
      | none ↦ (too_large, es)
      | some value ↦ elim (validate_player_game_entry_value is_json value) [
        | some e ↦ (refusal e, es)
        | none ↦
            let (written, es') =
              upsert_player_game_entry to_jsonb game_id player_id key server_authored value db es in
            (if written then ok else internal_error, es')
      ]
    ]

unfoldable pub delete_entry :
    String → String → String → Bool → List PlayerGameEntry → Answer × List PlayerGameEntry
unfolding is_key_valid delete_player_game_entry
delete_entry game_id player_id key server_authored es =
    let (deleted, es') = delete_player_game_entry game_id player_id key server_authored es in
    if not (is_key_valid key)
    then (bad_request, es)
    else if deleted
    then (ok, es')
    else (not_found, es)

-- The id is missing or empty when nobody is logged in.
unfoldable pub player_id_from_context : Request → Option String
player_id_from_context r = elim r.user_id [
  | none ↦ none
  | some id ↦ if id == "" then none else some id
]

unfoldable pub list_mine : Bool → Request → List PlayerGameEntry → Answer
unfolding player_id_from_context list_player_game_entries entries_to_response
list_mine server_authored r es = elim (player_id_from_context r) [
  | none ↦ unauthorized
  | some id ↦
      listed (entries_to_response (list_player_game_entries r.game_id id server_authored es))
]

unfoldable pub upsert_my_entry :
    (String → Bool)
    → (String → Option String)
    → Request
    → Db
    → List PlayerGameEntry
    → Answer × List PlayerGameEntry
unfolding player_id_from_context upsert_entry
upsert_my_entry is_json to_jsonb r db es = elim (player_id_from_context r) [
  | none ↦ (unauthorized, es)
  | some id ↦ upsert_entry is_json to_jsonb r.game_id id r.key false r.body db es
]

unfoldable pub delete_my_entry : Request → List PlayerGameEntry → Answer × List PlayerGameEntry
unfolding player_id_from_context delete_entry
delete_my_entry r es = elim (player_id_from_context r) [
  | none ↦ (unauthorized, es)
  | some id ↦ delete_entry r.game_id id r.key false es
]

pub data MatchAuth : Type 0 where
  refused : Answer → MatchAuth
  granted : Match → MatchAuth

-- The checks of requireMatchAuth on the match that its token names, in order.
unfoldable pub check_request : Match → Request → MatchAuth
unfolding match_includes_player
check_request m r =
    if not (is_match_active_or_cooling m)
    then refused forbidden
    else if r.game_id == "" || not (r.game_id == m.game_id)
    then refused forbidden
    else if r.player_id == ""
    then refused bad_request
    else if is_guest_id r.player_id
    then refused bad_request
    else if not (match_includes_player m r.player_id)
    then refused forbidden
    else granted m

unfoldable pub require_match_auth : Request → Db → MatchAuth
unfolding check_request
require_match_auth r db =
    let token = without_bearer r.authorization in
    if token == "" then refused unauthorized else elim (get_match_by_token_id token db) [
      | none ↦ refused unauthorized
      | some m ↦ check_request m r
    ]

unfoldable pub list_as_server : Bool → Request → Db → List PlayerGameEntry → Answer
unfolding require_match_auth list_player_game_entries entries_to_response
list_as_server server_authored r db es = elim (require_match_auth r db) [
  | refused a ↦ a
  | granted m ↦
      listed
        (entries_to_response (list_player_game_entries m.game_id r.player_id server_authored es))
]

unfoldable pub upsert_entry_as_server :
    (String → Bool)
    → (String → Option String)
    → Request
    → Db
    → List PlayerGameEntry
    → Answer × List PlayerGameEntry
unfolding require_match_auth upsert_entry
upsert_entry_as_server is_json to_jsonb r db es = elim (require_match_auth r db) [
  | refused a ↦ (a, es)
  | granted m ↦ upsert_entry is_json to_jsonb m.game_id r.player_id r.key true r.body db es
]

unfoldable pub delete_entry_as_server :
    Request → Db → List PlayerGameEntry → Answer × List PlayerGameEntry
unfolding require_match_auth delete_entry
delete_entry_as_server r db es = elim (require_match_auth r db) [
  | refused a ↦ (a, es)
  | granted m ↦ delete_entry m.game_id r.player_id r.key true es
]
