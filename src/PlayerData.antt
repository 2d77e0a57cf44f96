-- ===== src/PlayerData.antt =====
-- models/player_game_entry.go and api/playerData: the key-value entries of a player in a game, one half
-- written by the player, the other by the game servers. A value is the text of its JSON as the jsonb column
-- gives it back; the validity test of encoding/json is the parameter `is_json`. An error of the store's own is
-- a text that the column refuses, or a foreign key that fails: the game or the player has no row.
pub mod Handlers
pub mod Listing
pub mod Refinement
pub mod Sides
use Prim.Native.Nat.{Ordering}
use Prim.Native.Char.{Char, code}
use Prim.Native.String.{len, compare as compare_strings}
use elo_service.Prelude.{
  ℕ, ◌*◌, suc, String, Bool, true, false, not, ◌&&◌, ◌||◌, Option, none, some, List, [], ◌∷◌, ◌++◌,
  map, Eq, nat_eq, string_eq, bool_eq, pair_eq, ltb, leb, if◌then◌else◌, ◌==◌, find_by, filter_by,
  update_by, any_by, contains,
}
use elo_service.Store.{Game, User, Db}

pub record PlayerGameEntry : Type 0 where
  pub game_id : String
  pub player_id : String
  pub key : String
  pub server_authored : Bool
  pub value : String

-- The primary key: the game, the player, the key, and whether the entry is the servers'.
abbrev pub EntryKey : Type 0
EntryKey = (String × String) × (String × Bool)

instance abbrev pub entry_key_eq : Eq EntryKey
entry_key_eq =
    pair_eq ⦃d = pair_eq ⦃d = string_eq⦄ ⦃e = string_eq⦄⦄
      ⦃e = pair_eq ⦃d = string_eq⦄ ⦃e = bool_eq⦄⦄

abbrev pub entry_key : PlayerGameEntry → EntryKey
entry_key e = ((e.game_id, e.player_id), (e.key, e.server_authored))

abbrev pub max_value_bytes : ℕ
max_value_bytes = 64 * 1024

abbrev pub max_key_len : ℕ
max_key_len = 128

pub data EntryError : Type 0 where
  key_invalid value_too_large value_invalid : EntryError

-- `[a-zA-Z0-9._-]`
unfoldable pub is_key_char : ℕ → Bool
is_key_char c =
    (leb b'a' c && leb c b'z')
    || (leb b'A' c && leb c b'Z')
    || (leb b'0' c && leb c b'9')
    || c == b'.'
    || c == b'_'
    || c == b'-'

unfoldable pub all_key_chars : String → Bool
unfolding is_key_char
all_key_chars String.[] = true
all_key_chars (String.◌∷◌ c s) = is_key_char (code c) && all_key_chars s

unfoldable pub is_key_valid : String → Bool
unfolding all_key_chars
is_key_valid key = not (key == "") && leb (len key) max_key_len && all_key_chars key

unfoldable pub validate_player_game_entry_value : (String → Bool) → String → Option EntryError
validate_player_game_entry_value is_json value =
    if value == ""
    then some value_invalid
    else if ltb max_value_bytes (len value)
    then some value_too_large
    else if not (is_json value)
    then some value_invalid
    else none

-- The foreign keys of an entry.
unfoldable pub has_owner : String → String → Db → Bool
has_owner game_id player_id db =
    any_by (λ (g : Game). g.id == game_id) db.games
    && any_by (λ (u : User). u.id == player_id) db.users

-- `to_jsonb` is what the jsonb column makes of a text: `none` where it refuses it, and else the text that it gives back when
-- it is read. `false` is an error, which writes nothing.
unfoldable pub upsert_player_game_entry :
    (String → Option String)
    → String
    → String
    → String
    → Bool
    → String
    → Db
    → List PlayerGameEntry
    → Bool × List PlayerGameEntry
unfolding has_owner
upsert_player_game_entry to_jsonb game_id player_id key server_authored value db es =
    elim (to_jsonb value) [
      | none ↦ (false, es)
      | some stored ↦
          let entry : PlayerGameEntry = record {
            game_id = game_id;
            player_id = player_id;
            key = key;
            server_authored = server_authored;
            value = stored;
          } in
          if not (has_owner game_id player_id db)
          then (false, es)
          else if contains (map entry_key es) (entry_key entry)
          then (true, update_by (λ e. entry_key e == entry_key entry) (λ e. entry) es)
          else (true, es ++ (entry ∷ []))
    ]

unfoldable pub get_player_game_entry :
    String → String → String → Bool → List PlayerGameEntry → Option PlayerGameEntry
get_player_game_entry game_id player_id key server_authored es =
    find_by (λ e. entry_key e == ((game_id, player_id), (key, server_authored))) es

-- `ORDER BY key ASC`
abbrev pub is_key_le : PlayerGameEntry → PlayerGameEntry → Bool
is_key_le d e = elim (compare_strings d.key e.key) [ Ordering.gt ↦ false | _ ↦ true ]

unfoldable pub insert_entry : PlayerGameEntry → List PlayerGameEntry → List PlayerGameEntry
insert_entry e [] = e ∷ []
insert_entry e (d ∷ ds) =
    let rest = insert_entry e ds in if is_key_le e d then e ∷ d ∷ ds else d ∷ rest

unfoldable pub sort_entries : List PlayerGameEntry → List PlayerGameEntry
unfolding insert_entry
sort_entries [] = []
sort_entries (e ∷ es) = insert_entry e (sort_entries es)

-- The rows of one player in one game, on one side.
abbrev pub is_of : String → String → Bool → PlayerGameEntry → Bool
is_of game_id player_id server_authored e =
    e.game_id == game_id && e.player_id == player_id && e.server_authored == server_authored

unfoldable pub list_player_game_entries :
    String → String → Bool → List PlayerGameEntry → List PlayerGameEntry
unfolding sort_entries
list_player_game_entries game_id player_id server_authored es =
    sort_entries (filter_by (is_of game_id player_id server_authored) es)

-- `false` is gorm.ErrRecordNotFound: no row was affected.
unfoldable pub delete_player_game_entry :
    String → String → String → Bool → List PlayerGameEntry → Bool × List PlayerGameEntry
delete_player_game_entry game_id player_id key server_authored es =
    let k : EntryKey = ((game_id, player_id), (key, server_authored)) in
    if contains (map entry_key es) k
    then (true, filter_by (λ e. not (entry_key e == k)) es)
    else (false, es)

abbrev pub later_or : Option String → Option String → Option String
later_or (some v) o = some v
later_or none o = o

-- The map of a response: a later entry of the same key overwrites an earlier one.
unfoldable pub entries_to_response : List PlayerGameEntry → String → Option String
entries_to_response [] k = none
entries_to_response (e ∷ es) k =
    later_or (entries_to_response es k) (if e.key == k then some e.value else none)
