-- ===== src/Pages.antt =====
-- The paged listings of src/models. A query without an order gives its rows in an order of its own, which may be another one in
-- the next query: the interface `Scan`. An order is the interface `Sorting`, which leaves the order of equals open. The
-- next page is `none` for -1. Pages and their sizes are natural numbers: a negative one is what the requests are not to give.
pub mod Lengths
use elo_service.Prelude.{
  ◌≡◌, ℕ, suc, ◌*◌, ◌+◌, String, Bool, true, false, not, ◌&&◌, ◌||◌, Option, none, some, List, [],
  ◌∷◌, nat_eq, string_eq, ltb, leb, if◌then◌else◌, ◌==◌, length, map, take, drop, filter_by, any_by,
  contains,
}
use elo_service.Prelude.Int.{ℤ, ltb_ℤ}
use elo_service.Prelude.Sorting.{Sorting}
use elo_service.Util.{is_guest_id}
use elo_service.Elo.{string_leb}
use elo_service.Matches.{load_match}
use elo_service.Results.{load_result}
use elo_service.Store.{Match, MatchResult, Rating, Game, User, Db, is_started}

-- The order in which one query without ORDER BY finds its rows.
pub record Scan (A : Type 0) : Type 0 where
  pub rows : List A → List A
  pub same_count :
      (p : A → Bool) (xs : List A) → length (filter_by p (rows xs)) ≡ length (filter_by p xs)

-- OFFSET page * size LIMIT size
unfoldable pub page_of {ℓ} : {A : Type ℓ} → ℕ → ℕ → List A → List A × Option ℕ
page_of page size rows =
    let found = take size (drop (page * size) rows) in
    (found, if ltb (length found) size then none else some (suc page))

-- A page of a slice in memory.
unfoldable pub page_within {ℓ} : {A : Type ℓ} → ℕ → ℕ → List A → List A × Option ℕ
page_within page size rows =
    let offset = page * size in
    if leb (length rows) offset then ([], none) else (
      take size (drop offset rows),
      if leb (length rows) (offset + size) then none else some (suc page),
    )

-- Each row of a page is loaded with its players.
abbrev pub each_loaded : {A : Type 0} → (A → A) → List A × Option ℕ → List A × Option ℕ
each_loaded load page = (map load page.0, page.1)

unfoldable pub get_matches : Scan Match → ℕ → ℕ → Db → List Match × Option ℕ
unfolding page_of load_match
get_matches scan page size db =
    each_loaded (load_match db) (page_of page size (scan.rows db.matches))

unfoldable pub get_matches_of_game : Scan Match → String → ℕ → ℕ → Db → List Match × Option ℕ
unfolding page_of load_match
get_matches_of_game scan game_id page size db =
    each_loaded (load_match db)
      (page_of page size (scan.rows (filter_by (λ (m : Match). m.game_id == game_id) db.matches)))

unfoldable pub get_matches_underway : Scan Match → ℕ → ℕ → Db → List Match × Option ℕ
unfolding page_of load_match
get_matches_underway scan page size db =
    each_loaded (load_match db)
      (page_of page size (scan.rows (filter_by (λ (m : Match). is_started m.status) db.matches)))

unfoldable pub get_match_results : Scan MatchResult → ℕ → ℕ → Db → List MatchResult × Option ℕ
unfolding page_of load_result
get_match_results scan page size db =
    each_loaded (load_result db) (page_of page size (scan.rows db.results))

unfoldable pub get_match_results_of_game :
    Scan MatchResult → String → ℕ → ℕ → Db → List MatchResult × Option ℕ
unfolding page_of load_result
get_match_results_of_game scan game_id page size db = each_loaded (load_result db) (
    page_of page size
      (scan.rows (filter_by (λ (r : MatchResult). r.game_id == game_id) db.results)))

unfoldable pub get_games : Scan Game → ℕ → ℕ → Db → List Game × Option ℕ
unfolding page_of
get_games scan page size db = page_of page size (scan.rows db.games)

unfoldable pub get_games_of_user : Scan Game → ℕ → ℕ → String → Db → List Game × Option ℕ
unfolding page_of
get_games_of_user scan page size user_id db =
    page_of page size (scan.rows (filter_by (λ (g : Game). g.owner_id == user_id) db.games))

-- The rows of deleted accounts are hidden.
unfoldable pub get_users : Scan User → ℕ → ℕ → Db → List User × Option ℕ
unfolding page_of
get_users scan page size db =
    page_of page size (scan.rows (filter_by (λ (u : User). not u.is_deleted) db.users))

-- `rating DESC, player_id ASC`
abbrev pub is_ranked_before : Rating → Rating → Bool
is_ranked_before a b =
    ltb_ℤ b.rating a.rating
    || (not (ltb_ℤ a.rating b.rating) && not (string_leb b.player_id a.player_id))

unfoldable pub ranked : Sorting Rating → String → Db → List Rating
ranked s game_queue_id db =
    s.sort is_ranked_before
      (filter_by (λ (r : Rating). r.game_queue_id == game_queue_id) db.ratings)

unfoldable pub get_leaderboard : Sorting Rating → String → ℕ → ℕ → Db → List Rating × Option ℕ
unfolding page_of ranked
get_leaderboard s game_queue_id page size db = page_of page size (ranked s game_queue_id db)

abbrev pub is_of_game_or_any : Option String → MatchResult → Bool
is_of_game_or_any none r = true
is_of_game_or_any (some game_id) r = r.game_id == game_id

-- The test of the loop that collects `matched`.
unfoldable pub has_artifacts_named : List String → MatchResult → Bool
has_artifacts_named names r =
    not (length r.artifacts == 0)
    && (length names == 0 || any_by (λ name. contains names name) r.artifacts)

-- `matched`. A guest's results are picked by a loop, a user's by the join on match_result_players.
unfoldable pub artifact_results :
    Sorting MatchResult → String → Option String → List String → Db → List MatchResult
unfolding has_artifacts_named
artifact_results s player_id game_id names db =
    let newest_first = s.sort (λ a b. ltb b.created_at a.created_at) in
    let candidates =
      if is_guest_id player_id
      then filter_by (λ r. contains r.guest_ids player_id)
          (newest_first (filter_by (is_of_game_or_any game_id) db.results))
      else newest_first (
          filter_by (λ r. contains r.players player_id && is_of_game_or_any game_id r)
            db.results) in
    filter_by (has_artifacts_named names) candidates

unfoldable pub get_match_results_with_artifacts_for_player :
    Sorting MatchResult
    → String
    → Option String
    → List String
    → ℕ
    → ℕ
    → Db
    → List MatchResult × Option ℕ
unfolding page_within artifact_results load_result
get_match_results_with_artifacts_for_player s player_id game_id names page size db =
    each_loaded (load_result db)
      (page_within page size (artifact_results s player_id game_id names db))
