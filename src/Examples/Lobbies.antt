-- ===== src/Examples/Lobbies.antt =====
-- Runs of the lobbies: one with a host and a guest, and one that is made.
use elo_service.Prelude.{
  ◌≡◌, ◌⊎◌, ◌≢◌, ◌≤◌, refl, arith, String, Bool, true, false, Option, none, some, [], ◌∷◌, nat_eq,
  string_eq, if◌then◌else◌, ◌==◌, length, All, any_by, ne_of_test,
}
use elo_service.Prelude.Int.{pos}
use elo_service.Matches.{get_game}
use elo_service.GameQueues.{resolve_queue}
use elo_service.Lobbies.{is_lobby_player_alive, LobbyRecord, LobbyStore}
use elo_service.Lobbies.Tags.{max_lobby_tags, parse_tags, parse_tags-bounds}
use elo_service.Lobbies.Session.{
  LobbyWorld, LobbyResult, HostQuery, HostEnv, host_lobby, join_lobby, host_record,
}
use elo_service.Lobbies.Commands.{IsHandled, handle_inbound, handle_inbound-keeps_host}
use elo_service.Lobbies.Expiry.{cleanup_lobby}
use elo_service.Lobbies.Sweep.{is_live_host, IsCleaned, IsDropped, cleanup_lobby-players}
use elo_service.Lobbies.Capacity.{IsSeated, Calls, next, done, joined, removed, Calls-IsSeated}
use elo_service.Lobbies.Passwords.{IsOutcome, join_lobby-Outcome}
use elo_service.Lobbies.Hosting.{join_lobby-host_lobby}
use elo_service.Examples.Fixtures.{one_queue, one_game, one_world, one_config, good_env}

abbrev pub one_lobby : LobbyRecord
one_lobby = record {
  id = "l1";
  game_id = "g1";
  game_queue_id = "q1";
  host_id = "ann";
  host_name = "Ann";
  tags = "casual" ∷ [];
  metadata = "";
  max_players = pos 2;
  created_at = 0;
  password_hash = "#pw";
  private = false;
  spectate = true;
}

-- The guest's key has expired at the time 10.
abbrev pub one_lobby_store : LobbyStore
one_lobby_store = record {
  records = λ i. if i == "l1" then some one_lobby else none;
  players = λ i. if i == "l1" then ("ann", "Ann") ∷ ("bob", "Bob") ∷ [] else [];
  ttl = λ i p. if p == "ann" then some 20 else some 5;
  index = λ g. if g == "g1" then "l1" ∷ [] else [];
}

abbrev pub one_lobby_world : LobbyWorld
one_lobby_world = record { world = one_world; lobbies = one_lobby_store; events = []; kicks = [] }

-- In place of bcrypt: the hash of every password is one text, which fits every password.
abbrev pub one_hash : String → Option String
one_hash password = some "#pw"

abbrev pub fits_all : String → String → Bool
fits_all h password = true

abbrev pub host_env : HostEnv
host_env = record { now = 1; new_lobby_id = "l2"; create_fails = false; add_fails = false }

abbrev pub host_query : HostQuery
host_query = record {
  game_id = "g1";
  queue_id = "q1";
  tags = " casual, ,ranked";
  metadata = "";
  password = "pw";
  private = "";
  spectate = "nope";
}

parse_tags-bounds_example :
    (length (parse_tags " casual, ,ranked") ≤ max_lobby_tags)
    × All (λ t. t ≢ "") (parse_tags " casual, ,ranked")
parse_tags-bounds_example = parse_tags-bounds " casual, ,ranked"

tags_of_query : parse_tags " casual, ,ranked" ≡ "casual" ∷ "ranked" ∷ []
unfolding parse_tags
tags_of_query = refl

all_capped : IsSeated (λ i. pos 2) (λ i. "ann") one_lobby_store
all_capped i = ground arith

-- The guest leaves, and another one joins with a record read before.
a_leave_and_a_join : (s : LobbyStore) × Calls (λ i. pos 2) (λ i. "ann") one_lobby_store s
a_leave_and_a_join =
    (_, next (removed "l1" "bob") (next (joined 6 9 one_lobby "cat" "Cat" (refl, refl)) done))

Calls-IsSeated_example : IsSeated (λ i. pos 2) (λ i. "ann") a_leave_and_a_join.0
unfolding a_leave_and_a_join
Calls-IsSeated_example = Calls-IsSeated (λ i. pos 2) (λ i. "ann") a_leave_and_a_join.1 all_capped

cleanup_lobby-players_example :
    (((any_by (is_live_host 10 one_lobby one_lobby_store) (one_lobby_store.players "l1") ≡ true)
        × IsCleaned 10 one_lobby one_lobby_store (cleanup_lobby 10 one_lobby one_lobby_store))
      ⊎ ((any_by (is_live_host 10 one_lobby one_lobby_store) (one_lobby_store.players "l1") ≡ false)
          × IsDropped 10 one_lobby one_lobby_store (cleanup_lobby 10 one_lobby one_lobby_store)))
    × ((j q : String)
        → is_lobby_player_alive 10 j q (cleanup_lobby 10 one_lobby one_lobby_store)
          ≡ is_lobby_player_alive 10 j q one_lobby_store)
cleanup_lobby-players_example = cleanup_lobby-players 10 one_lobby one_lobby_store

guest_is_swept : (cleanup_lobby 10 one_lobby one_lobby_store).players "l1" ≡ ("ann", "Ann") ∷ []
unfolding cleanup_lobby
guest_is_swept = refl

join_lobby-Outcome_example :
    IsOutcome one_hash fits_all "l1" "pw" "cat" "Cat" one_lobby_world
      (join_lobby one_hash fits_all 3 "l1" "pw" "cat" "Cat" one_lobby_world)
join_lobby-Outcome_example =
    join_lobby-Outcome one_hash fits_all 3 "l1" "pw" "cat" "Cat" one_lobby_world

handle_inbound-keeps_host_example :
    (((◌≡◌ {A = String} "/disconnect Bob" "/disconnect")
        × ((handle_inbound good_env one_config one_game one_queue one_lobby "ann" "Ann" true
              "/disconnect Bob" one_lobby_world)
            ≡ (true, one_lobby_world)))
      ⊎ (((handle_inbound good_env one_config one_game one_queue one_lobby "ann" "Ann" true
              "/disconnect Bob" one_lobby_world).0
            ≡ false)
          × IsHandled good_env one_config one_game one_queue one_lobby one_lobby_world
              (handle_inbound good_env one_config one_game one_queue one_lobby "ann" "Ann" true
                "/disconnect Bob" one_lobby_world).1))
    × (true ≡ false
        → (handle_inbound good_env one_config one_game one_queue one_lobby "ann" "Ann" true
            "/disconnect Bob" one_lobby_world).1.lobbies
          ≡ one_lobby_world.lobbies)
handle_inbound-keeps_host_example =
    handle_inbound-keeps_host good_env one_config one_game one_queue one_lobby "ann" "Ann" true
      "/disconnect Bob" one_lobby_world refl

the_guest_is_kicked :
    (handle_inbound good_env one_config one_game one_queue one_lobby "ann" "Ann" true
        "/disconnect Bob" one_lobby_world).1.lobbies.players
      "l1"
    ≡ ("ann", "Ann") ∷ []
unfolding handle_inbound
the_guest_is_kicked = refl

hosted :
    (lobby : LobbyRecord) × (w : LobbyWorld) × (host_lobby one_hash fits_all host_env host_query
        "ann" "Ann" one_lobby_world
      ≡ (LobbyResult.ok lobby, w))
unfolding host_lobby get_game resolve_queue
hosted = (_, _, refl)

join_lobby-host_lobby_example :
    (w : LobbyWorld) × (join_lobby one_hash fits_all 3 "l2" "pw" "cat" "Cat" hosted.1
      ≡ (LobbyResult.ok hosted.0, w))
    × (w.lobbies.players "l2" ≡ ("ann", "Ann") ∷ ("cat", "Cat") ∷ [])
unfolding hosted host_record get_game resolve_queue
join_lobby-host_lobby_example =
    join_lobby-host_lobby one_hash fits_all (λ p h e. refl) host_env host_query "ann" "Ann" "cat"
      "Cat" 3 one_lobby_world hosted.2 refl refl (ne_of_test "cat" "ann" refl) refl refl refl
