-- ===== src/Lifecycle/Timeout.antt =====
-- `GarbageCollectMatches` of worker/matchmaking/garbageCollectMatches.go: the matches that run for too long. A
-- time is a number of nanoseconds. The loop over the pages runs on fuel; `none` is out of fuel. `scans` is
-- the order in which the query of each page finds its rows.
pub mod Fewer
pub mod Ends
use elo_service.Prelude.{
  ◌≡◌, ◌∙◌, sym, refl, ap, inl, inr, arith, ℕ, ◌^◌, zero, suc, ◌*◌, ◌+◌, ◌≤◌, ◌<◌, String, Bool,
  true, false, not, ◌&&◌, Option, none, some, List, [], ◌∷◌, ◌++◌, ltb, leb, if◌then◌else◌, length,
  filter_by, length-filter_by, update_by, take, drop, Bool-cases, Option-cases, nat_eq, string_eq,
  ◌==◌, map, contains,
}
use elo_service.Store.{Match, Db, ServerInstance, InstanceStatus, is_started}
use elo_service.Elo.{FloatOps}
use elo_service.Hosts.{free_ports, get_machine_host, update_host}
use elo_service.Instances.{
  get_server_instance, set_server_instance_status, claim_cooldown_instance,
  revert_tearing_down_to_cooldown, update_instances,
}
use elo_service.Matches.{is_match_underway, get_match, set_match_status_cooldown, cool}
use elo_service.Results.{
  match_ended, rate_match, finalize_match_teardown, result_id, result_row, get_queue,
}
use elo_service.Pages.{Scan, get_matches_underway, page_of}
use elo_service.Lifecycle.{AgentOutcome, teardown_cooled_match, end_match}

abbrev pub match_max_duration : ℕ
match_max_duration = 6 * 3600 * 10 ^ 9

abbrev pub gc_page_size : ℕ
gc_page_size = 100

module _ (fl : FloatOps) where
  -- One turn of the inner loop. An error of EndMatch is logged.
  unfoldable pub end_if_timed_out : ℕ → ℕ → (String → AgentOutcome) → Match → Db → Db
  unfolding end_match
  end_if_timed_out now cooldown agents m db =
      if ltb (m.created_at + match_max_duration) now
      then elim (end_match fl now cooldown (agents m.id) m [] "timeout" false db) [
        | none ↦ db
        | some ended ↦ ended
      ]
      else db

  unfoldable pub end_timed_out : ℕ → ℕ → (String → AgentOutcome) → List Match → Db → Db
  unfolding end_if_timed_out
  end_timed_out now cooldown agents [] db = db
  end_timed_out now cooldown agents (m ∷ ms) db =
      end_timed_out now cooldown agents ms (end_if_timed_out now cooldown agents m db)

  unfoldable pub garbage_collect_pages :
      (ℕ → Scan Match) → ℕ → ℕ → ℕ → (String → AgentOutcome) → ℕ → Db → Option Db
  unfolding get_matches_underway end_timed_out
  garbage_collect_pages scans zero now cooldown agents page db = none
  garbage_collect_pages scans (suc fuel) now cooldown agents page db =
      let (found, next) = get_matches_underway (scans page) page gc_page_size db in
      let ended = end_timed_out now cooldown agents found db in
      elim next [
        | none ↦ some ended
        | some p ↦ garbage_collect_pages scans fuel now cooldown agents p ended
      ]

  unfoldable pub garbage_collect_matches :
      (ℕ → Scan Match) → ℕ → ℕ → ℕ → (String → AgentOutcome) → Db → Option Db
  unfolding garbage_collect_pages
  garbage_collect_matches scans fuel now cooldown agents db =
      garbage_collect_pages scans fuel now cooldown agents 0 db
