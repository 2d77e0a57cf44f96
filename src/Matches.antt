-- ===== src/Matches.antt =====
-- models/match.go: the rows of the matches in flight.
use mathlib.Core.Path.{subst}
use elo_service.Prelude.{
  ℕ, String, Bool, true, false, not, ◌&&◌, ◌||◌, Option, none, some, List, [], ◌∷◌, ◌++◌, nat_eq,
  string_eq, if◌then◌else◌, ◌==◌, ltb, map, any_by, ◌≡◌, ◌∙◌, sym, ap, inl, inr, arith,
  Option-cases, find_by-key, filter_by-filter_by, filter_by-cong, All-always, find_by, filter_by,
  update_by, contains,
}
use elo_service.Prelude.Sorting.{Sorting}
use elo_service.Store.{Match, MatchStatus, Game, User, Db, is_started}
use elo_service.Util.{is_guest_id}

abbrev pub match_id : Match → String
match_id m = m.id

-- `id` and `created_at` are what the store fills in. The ids are split as the code splits them.
unfoldable pub match_started :
    String → ℕ → String → String → String → String → List String → Bool → Db → Match × Db
unfolding is_guest_id
match_started new_id now game_id game_queue_id server_instance_id auth_code player_ids spectate db =
    let m : Match = record {
      id = new_id;
      game_id = game_id;
      game_queue_id = game_queue_id;
      server_instance_id = server_instance_id;
      players = filter_by (λ p. not (is_guest_id p)) player_ids;
      guest_ids = filter_by is_guest_id player_ids;
      auth_code = auth_code;
      status = MatchStatus.started;
      spectate_enabled = spectate;
      created_at = now;
    } in
    (m, record db { matches = db.matches ++ (m ∷ []) })

abbrev pub is_live_id : Db → String → Bool
is_live_id db i = any_by (λ (u : User). not u.is_deleted && u.id == i) db.users

-- `Preload("Players")`, which hides the soft-deleted users. The row keeps them.
unfoldable pub load_match : Db → Match → Match
load_match db m = record m { players = filter_by (is_live_id db) m.players }

abbrev pub load_found : Db → Option Match → Option Match
load_found db none = none
load_found db (some m) = some (load_match db m)

unfoldable pub get_match : String → Db → Option Match
unfolding load_match
get_match i db = load_found db (find_by (λ m. m.id == i) db.matches)

unfoldable pub get_match_by_token_id : String → Db → Option Match
unfolding load_match
get_match_by_token_id token db = load_found db (find_by (λ m. m.auth_code == token) db.matches)

pub get_match-id : (i : String) (db : Db) {m : Match} → get_match i db ≡ some m → m.id ≡ i
unfolding get_match load_match
get_match-id i db {m} h = elim (Option-cases (find_by (λ (x : Match). x.id == i) db.matches)) [
  | inl gone ↦ cc (rw gone at h)
  | inr (x, here) ↦
      let all : ◌≡◌ {A = Option Match} (some (load_match db x)) (some m) = rw here at h in
      let same : load_match db x ≡ m = cc in
      ap (λ (y : Match). y.id) (sym same) ∙ find_by-key match_id i db.matches here
]

-- The players of a loaded match are live.
pub get_match-players :
    (i : String) (db : Db) {m : Match}
    → get_match i db ≡ some m
    → filter_by (is_live_id db) m.players ≡ m.players
unfolding get_match load_match
get_match-players i db {m} h = elim (Option-cases (find_by (λ (x : Match). x.id == i) db.matches)) [
  | inl gone ↦ cc (rw gone at h)
  | inr (x, here) ↦
      let all : ◌≡◌ {A = Option Match} (some (load_match db x)) (some m) = rw here at h in
      let same : load_match db x ≡ m = cc in
      subst (λ (y : Match). filter_by (is_live_id db) y.players ≡ y.players) same
        (filter_by-filter_by (is_live_id db) (is_live_id db) x.players
          ∙ filter_by-cong _ (is_live_id db) x.players (All-always _ x.players (λ p. ground arith)))
]

-- `none` is the error of a missing match.
unfoldable pub is_match_underway : String → Db → Option Bool
unfolding get_match
is_match_underway i db = elim (get_match i db) [ none ↦ none | some m ↦ some (is_started m.status) ]

abbrev is_cooling : MatchStatus → Bool
is_cooling MatchStatus.cooldown = true
is_cooling _ = false

unfoldable pub is_match_active_or_cooling : Match → Bool
is_match_active_or_cooling m = is_started m.status || is_cooling m.status

abbrev pub cool : Match → Match
cool m = record m { status = MatchStatus.cooldown }

unfoldable pub set_match_status_cooldown : String → Db → Db
set_match_status_cooldown i db = record db { matches = update_by (λ m. m.id == i) cool db.matches }

-- `GetById` of models/user.go hides the soft-deleted rows.
unfoldable pub get_by_id : String → Db → Option User
get_by_id i db = find_by (λ u. not u.is_deleted && u.id == i) db.users

unfoldable pub get_game : String → Db → Option Game
get_game i db = find_by (λ g. g.id == i) db.games

unfoldable pub is_admin_id : String → Db → Bool
unfolding get_by_id
is_admin_id i db = elim (get_by_id i db) [ none ↦ false | some u ↦ u.is_admin ]

-- `match.Game` is preloaded: the zero game, whose owner is "", where no row is found.
unfoldable pub owner_of : String → Db → String
unfolding get_game
owner_of game_id db = elim (get_game game_id db) [ none ↦ "" | some g ↦ g.owner_id ]

-- `none` is the error of a missing match.
unfoldable pub can_user_see_match : String → String → Db → Option Bool
unfolding get_match is_admin_id owner_of
can_user_see_match user_id i db = elim (get_match i db) [
  | none ↦ none
  | some m ↦ some (
      if is_admin_id user_id db
      then true
      else if owner_of m.game_id db == user_id
      then true
      else if contains m.players user_id
      then true
      else contains m.guest_ids user_id)
]

unfoldable pub get_spectatable_live_matches_in_game : Sorting Match → String → Db → List Match
unfolding load_match
get_spectatable_live_matches_in_game s game_id db = map (load_match db) (
    s.sort (λ a b. ltb a.created_at b.created_at)
      (filter_by (λ m. m.game_id == game_id && is_started m.status && m.spectate_enabled)
        db.matches))

-- The query has no order; the rows are in that of the table here.
unfoldable pub get_active_matches_in_game_for_player : String → String → Db → List Match
unfolding is_guest_id load_match
get_active_matches_in_game_for_player game_id player_id db =
    let live = filter_by (λ m. m.game_id == game_id && is_started m.status) db.matches in
    map (load_match db) (
      if is_guest_id player_id
      then filter_by (λ m. contains m.guest_ids player_id) live
      else filter_by (λ m. contains m.players player_id) live)
