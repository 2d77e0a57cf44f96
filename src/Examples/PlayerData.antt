-- ===== src/Examples/PlayerData.antt =====
-- Runs of the entries of players: a table with one entry of each half under the same key.
use elo_service.Prelude.{
  ◌≡◌, refl, Option, none, string_eq, ◌==◌, if◌then◌else◌, String, Bool, true, false, some, List,
  [], ◌∷◌,
}
use elo_service.Store.{User, Db}
use elo_service.Matches.{get_match_by_token_id, is_match_active_or_cooling}
use elo_service.Util.{is_guest_id}
use elo_service.PlayerData.{PlayerGameEntry}
use elo_service.PlayerData.Handlers.{
  Request, upsert_my_entry, delete_my_entry, upsert_entry_as_server, delete_entry_as_server, Answer,
}
use elo_service.PlayerData.Refinement.{
  Call, upsert, delete, get, list_of, run, run_table, view, run-run_table,
}
use elo_service.PlayerData.Sides.{IsSameBut, IsOwn, IsServers, entry-IsSameBut}
use elo_service.Examples.Fixtures.{one_db}

abbrev pub ann : User
ann = record {
  id = "ann";
  username = "Ann";
  email = "ann@example.com";
  password = "#pw";
  is_admin = false;
  can_create_game = false;
  is_deleted = false;
}

abbrev pub db_with_ann : Db
db_with_ann = record one_db { users = ann ∷ [] }

abbrev pub entry_of : Bool → String → PlayerGameEntry
entry_of side value = record {
  game_id = "g1";
  player_id = "ann";
  key = "level";
  server_authored = side;
  value = value;
}

abbrev pub two_entries : List PlayerGameEntry
two_entries = entry_of false "1" ∷ entry_of true "2" ∷ []

abbrev pub some_calls : List Call
some_calls =
    upsert "g1" "ann" "level" false "3"
    ∷ upsert "g1" "ann" "level" false "bad"
    ∷ upsert "g1" "zoe" "level" false "3"
    ∷ delete "g1" "ann" "level" true
    ∷ delete "g1" "ann" "level" true
    ∷ get "g1" "ann" "level" false
    ∷ list_of "g1" "ann" false
    ∷ []

-- A column that refuses one text and writes another in its own way.
abbrev pub to_column : String → Option String
to_column s = if s == "bad" then none else if s == "4 " then some "4" else some s

run-run_table_example :
    run to_column db_with_ann some_calls two_entries
    ≡ run_table to_column db_with_ann some_calls (view two_entries)
run-run_table_example =
    run-run_table to_column db_with_ann some_calls two_entries (refl, (refl, tt))

-- The server of the match m1 writes, and so does Ann.
abbrev pub one_request : Request
one_request = record {
  authorization = "Bearer a1";
  game_id = "g1";
  player_id = "ann";
  key = "level";
  body = "4 ";
  user_id = some "ann";
}

abbrev pub is_anything : String → Bool
is_anything s = true

entry-IsSameBut_example :
    (IsSameBut
        (IsOwn one_request)
        two_entries
        (upsert_my_entry is_anything to_column one_request db_with_ann two_entries).1
      × IsSameBut (IsOwn one_request) two_entries (delete_my_entry one_request two_entries).1)
    × (IsSameBut
          (IsServers db_with_ann one_request)
          two_entries
          (upsert_entry_as_server is_anything to_column one_request db_with_ann two_entries).1
        × IsSameBut
            (IsServers db_with_ann one_request)
            two_entries
            (delete_entry_as_server one_request db_with_ann two_entries).1)
entry-IsSameBut_example =
    entry-IsSameBut is_anything to_column db_with_ann one_request two_entries (refl, (refl, tt))

the_server_writes :
    upsert_entry_as_server is_anything to_column one_request db_with_ann two_entries
    ≡ (Answer.ok, entry_of false "1" ∷ entry_of true "4" ∷ [])
unfolding upsert_entry_as_server get_match_by_token_id is_match_active_or_cooling is_guest_id
the_server_writes = refl
