-- ===== src/Examples/Lifecycle.antt =====
-- Runs of the end of a match and of the sweeps.
use elo_service.Prelude.{
  length, ℕ, ◌^◌, Option, ◌≤◌, ◌≡◌, refl, true, none, some, [], ◌∷◌, map, arith, nat_eq, string_eq,
  inl,
}
use elo_service.Pages.{Scan}
use elo_service.Store.{Match, MachineHost, ServerInstance, InstanceStatus, Db, is_deleted}
use elo_service.Instances.{claim_cooldown_instance}
use elo_service.Results.{match_ended}
use elo_service.Ledger.{IsBalanced, Ledger}
use elo_service.Lifecycle.{AgentOutcome, report_results, sweep_cooled_matches, try_delete_idle_host}
use elo_service.Lifecycle.Timeout.{garbage_collect_matches}
use elo_service.Lifecycle.Timeout.Ends.{garbage_collect_matches-Ends}
use elo_service.Lifecycle.Reports.{IsReported, report_results-IsReported}
use elo_service.Lifecycle.Idle.{try_delete_idle_host-keeps_warm}
use elo_service.Hosts.{get_machine_host, count_active_instances_on_host, count_available_slots}
use elo_service.Lifecycle.Sweep.{sweep_cooled_matches-Ledger}
use elo_service.Lifecycle.Claim.{Sweep, Step, Reach, IsExclusive, Reach-IsExclusive}
use elo_service.Examples.Fixtures.{one_host, one_instance, one_db, int_floats}

abbrev cooled_db : Db
cooled_db = record one_db {
  instances = record one_instance { status = InstanceStatus.cooldown } ∷ [];
}

abbrev before_claims : Sweep
before_claims = record { db = cooled_db; holders = [] }

abbrev after_win : Sweep
unfolding claim_cooldown_instance
after_win = record { db = (claim_cooldown_instance "s1" cooled_db).1; holders = 7 ∷ [] }

abbrev after_miss : Sweep
unfolding claim_cooldown_instance
after_miss = record { db = (claim_cooldown_instance "s1" after_win.db).1; holders = 7 ∷ [] }

two_claims : Reach "s1" before_claims after_miss
unfolding claim_cooldown_instance
two_claims =
    Reach.next (Reach.next Reach.here (Step.win before_claims 7 refl)) (Step.miss after_win refl)

Reach-IsExclusive_example : IsExclusive "s1" after_miss
Reach-IsExclusive_example =
    Reach-IsExclusive (record { ids = (refl, tt); held_once = inl refl }) two_claims

-- An agent that stops the container and finds one artifact.
abbrev good_agent : AgentOutcome
good_agent = record {
  logs_key = some "logs";
  artifact_names = some ("replay" ∷ []);
  stopped = true;
}

abbrev reported_db : Db
unfolding match_ended
reported_db = elim (match_ended int_floats 5 "m1" ("ann" ∷ []) "win" "" [] true one_db) [
  | none ↦ one_db
  | some db ↦ db
]

reported_host-IsBalanced : IsBalanced reported_db.instances one_host
unfolding match_ended
reported_host-IsBalanced up q = ground arith

reported_db-Ledger : Ledger reported_db
unfolding match_ended
reported_db-Ledger = record {
  host_ids = (refl, tt);
  instance_ids = (refl, tt);
  balanced = (reported_host-IsBalanced, tt);
}

-- The sweep finds the match's instance and deletes it.
swept :
    map
      (λ (si : ServerInstance). is_deleted si.status)
      (sweep_cooled_matches 20 10 60 (λ i. good_agent) reported_db).instances
    ≡ true ∷ []
unfolding match_ended sweep_cooled_matches
swept = refl

sweep_cooled_matches-Ledger_example :
    Ledger (sweep_cooled_matches 20 10 60 (λ i. good_agent) reported_db)
sweep_cooled_matches-Ledger_example =
    sweep_cooled_matches-Ledger 20 10 60 (λ i. good_agent) reported_db reported_db-Ledger

-- Two hosts with nothing on them.
abbrev idle_db : Db
idle_db = record one_db { hosts = one_host ∷ record one_host { id = "h2" } ∷ []; instances = [] }

-- The host as it was read before its port was freed.
abbrev stale_host : MachineHost
stale_host = record one_host { allocated_ports = 7000 ∷ 7001 ∷ [] }

removed : (try_delete_idle_host 1 stale_host idle_db).0 ≡ true
unfolding try_delete_idle_host
removed = refl

try_delete_idle_host-keeps_warm_example :
    (count_active_instances_on_host "h1" idle_db ≡ 0)
    × (1 ≤ count_available_slots (try_delete_idle_host 1 stale_host idle_db).1)
unfolding get_machine_host
try_delete_idle_host-keeps_warm_example =
    try_delete_idle_host-keeps_warm 1 stale_host idle_db {row = one_host} (refl, (refl, tt)) refl
      refl removed

abbrev as_stored : ℕ → Scan Match
as_stored page = record { rows = λ xs. xs; same_count = λ p xs. refl }

-- One match, which began long before.
garbage_collect_matches-Ends_example :
    (db' : Db) × (garbage_collect_matches int_floats as_stored 1
        (10 ^ 20)
        0
        (λ i. good_agent)
        one_db
      ≡ some db')
    × (length db'.matches ≤ length one_db.matches)
garbage_collect_matches-Ends_example =
    garbage_collect_matches-Ends int_floats as_stored (10 ^ 20) 0 (λ i. good_agent) one_db 1
      (omega arith)

abbrev count_matches : Option Db → Option ℕ
count_matches none = none
count_matches (some db) = some (length db.matches)

collected :
    count_matches
      (garbage_collect_matches int_floats as_stored 1 (10 ^ 20) 0 (λ i. good_agent) one_db)
    ≡ some 0
unfolding garbage_collect_matches
collected = refl

report_results-IsReported_example :
    IsReported int_floats "a1" one_db
      (report_results int_floats 5 0 good_agent "a1" "ann" [] "win" true one_db)
report_results-IsReported_example =
    report_results-IsReported int_floats 5 0 good_agent "a1" "ann" [] "win" true one_db
