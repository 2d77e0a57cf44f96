-- ===== src/Lifecycle.antt =====
-- api/matchResults/reportResults.go and the sweeps of worker/matchmaking/garbageCollectMatches.go that
-- end a match: phase A, the claim of a cooled instance, phase B, and the removal of an idle host. What
-- the host agent and the object store answer is `AgentOutcome`, one value for each teardown.
pub mod Claim
pub mod Balance
pub mod Sweep
pub mod Idle
pub mod Timeout
pub mod Reports
use elo_service.Prelude.{
  ℕ, ◌+◌, ◌-◌, ◌≤◌, String, Bool, true, false, not, ◌&&◌, ◌||◌, Option, none, some, List, [], ◌∷◌,
  nat_eq, string_eq, ltb, leb, if◌then◌else◌, ◌==◌, length, find_by, filter_by, contains,
}
use elo_service.Store.{
  MachineHost, ServerInstance, InstanceStatus, Match, MatchStatus, Db, is_ready, is_started,
  is_deleted, is_deleted_host,
}
use elo_service.Elo.{FloatOps}
use elo_service.Hosts.{
  free_ports, count_active_instances_on_host, count_available_slots, set_machine_host_deleted,
}
use elo_service.Instances.{
  CooldownEntry, get_server_instance, set_server_instance_status, claim_cooldown_instance,
  revert_tearing_down_to_cooldown, list_cooldown_instances_ready,
}
use elo_service.Matches.{is_match_underway, get_match_by_token_id}
use elo_service.Results.{match_ended, finalize_match_teardown}

-- `saveMatchLogs`, `GetMatchArtifactIndex` (the names only) and `StopContainer`; `none` and `false` are
-- their errors.
pub record AgentOutcome : Type 0 where
  pub logs_key : Option String
  pub artifact_names : Option (List String)
  pub stopped : Bool

abbrev pub key_or_empty : Option String → String
key_or_empty none = ""
key_or_empty (some k) = k

-- Phase B. The Boolean is whether the teardown went through to the end, where the code starts
-- `tryDeleteIdleHost` in the background.
unfoldable pub teardown_cooled_match :
    AgentOutcome → ServerInstance → String → Bool → Db → Bool × Db
unfolding free_ports set_server_instance_status finalize_match_teardown
    revert_tearing_down_to_cooldown
teardown_cooled_match agent si match_id force db =
    if not agent.stopped && not force
    then (false, revert_tearing_down_to_cooldown si.id db)
    else let freed = (free_ports si.machine_host_id si.host_ports db).1 in
      let marked = set_server_instance_status si.id InstanceStatus.deleted freed in
      (
        true,
        finalize_match_teardown match_id (key_or_empty agent.logs_key) agent.artifact_names marked,
      )

-- The Boolean is whether the VM and its DNS record are deleted next. `available - MaxSlots < warmSlots`
-- is written without a negative number.
unfoldable pub try_delete_idle_host : ℕ → MachineHost → Db → Bool × Db
unfolding count_active_instances_on_host count_available_slots set_machine_host_deleted
try_delete_idle_host warm_slots host db =
    if ltb 0 (count_active_instances_on_host host.id db)
    then (false, db)
    else if ltb 0 warm_slots && ltb (count_available_slots db) (warm_slots + host.max_slots)
    then (false, db)
    else (true, set_machine_host_deleted host.id db)

module _ (fl : FloatOps) where
  -- `cooldown` is `Config.MatchCooldownDuration`. `none` is an error: the match is missing, is not
  -- underway, or has a result already.
  unfoldable pub end_match :
      ℕ → ℕ → AgentOutcome → Match → List String → String → Bool → Db → Option Db
  unfolding is_match_underway match_ended finalize_match_teardown get_server_instance
      claim_cooldown_instance teardown_cooled_match
  end_match now cooldown agent m winner_ids reason adjust_ratings db =
      elim (is_match_underway m.id db) [
        | none ↦ none
        | some underway ↦
            if not underway
            then none
            else elim (match_ended fl now m.id winner_ids reason "" [] adjust_ratings db) [
              | none ↦ none
              | some ended ↦
                  if m.server_instance_id == ""
                  then some (finalize_match_teardown m.id "" none ended)
                  else if cooldown == 0
                  then some (elim (get_server_instance m.server_instance_id ended) [
                    | none ↦ ended
                    | some si ↦
                        let (claimed, taken) = claim_cooldown_instance si.id ended in
                        if claimed
                        then (teardown_cooled_match agent si m.id false taken).1
                        else taken
                  ])
                  else some ended
            ]
      ]

  pub data ReportStatus : Type 0 where
    ok_200 not_found_404 conflict_409 internal_500 : ReportStatus

  -- The request is decoded by the caller; `adjust_ratings` is true where the request leaves it out.
  unfoldable pub report_results :
      ℕ → ℕ → AgentOutcome → String → String → List String → String → Bool → Db → ReportStatus × Db
  unfolding get_match_by_token_id end_match
  report_results now cooldown agent token_id winner_id winner_ids reason adjust_ratings db =
      let winners =
        if not (winner_id == "") && length winner_ids == 0 then winner_id ∷ [] else winner_ids in
      elim (get_match_by_token_id token_id db) [
        | none ↦ (not_found_404, db)
        | some m ↦
            if not (is_started m.status)
            then (conflict_409, db)
            else elim (end_match now cooldown agent m winners reason adjust_ratings db) [
              | none ↦ (internal_500, db)
              | some db' ↦ (ok_200, db')
            ]
      ]

-- One turn of the loop of `SweepCooledMatches`, at the time `now`.
unfoldable pub sweep_entry : ℕ → ℕ → (String → AgentOutcome) → CooldownEntry → Db → Db
unfolding claim_cooldown_instance teardown_cooled_match
sweep_entry now force_deadline agents e db =
    let (claimed, taken) = claim_cooldown_instance e.instance_row.id db in
    let done =
      teardown_cooled_match (agents e.instance_row.id) e.instance_row e.match_row.id
        (leb (e.result_ended + force_deadline) now) taken in
    if claimed then done.1 else taken

unfoldable pub sweep_entries : ℕ → ℕ → (String → AgentOutcome) → List CooldownEntry → Db → Db
unfolding sweep_entry
sweep_entries now force_deadline agents [] db = db
sweep_entries now force_deadline agents (e ∷ es) db =
    sweep_entries now force_deadline agents es (sweep_entry now force_deadline agents e db)

unfoldable pub sweep_cooled_matches : ℕ → ℕ → ℕ → (String → AgentOutcome) → Db → Db
unfolding list_cooldown_instances_ready sweep_entries
sweep_cooled_matches now cooldown force_deadline agents db =
    sweep_entries now force_deadline agents (list_cooldown_instances_ready now cooldown db) db

-- `ReconcileLiveHosts`: the ready hosts whose VM the provider does not list.
unfoldable pub reconcile_hosts : List String → List MachineHost → Db → Db
unfolding free_ports set_machine_host_deleted
reconcile_hosts live [] db = db
reconcile_hosts live (h ∷ hs) db = reconcile_hosts live hs (
    if contains live h.provider_id
    then db
    else set_machine_host_deleted h.id (free_ports h.id h.allocated_ports db).1)

unfoldable pub reconcile_live_hosts : List String → Db → Db
unfolding reconcile_hosts
reconcile_live_hosts live db = reconcile_hosts live (filter_by (λ h. is_ready h.status) db.hosts) db

-- `ReconcileOrphanedInstances`: the instances that are not deleted, on a host that is.
abbrev pub on_deleted_host : Db → ServerInstance → Bool
on_deleted_host db si =
    not (is_deleted si.status)
    && elim (find_by (λ (h : MachineHost). h.id == si.machine_host_id) db.hosts) [
      | none ↦ false
      | some h ↦ is_deleted_host h.status
    ]

unfoldable pub reconcile_instances : List ServerInstance → Db → Db
unfolding free_ports set_server_instance_status
reconcile_instances [] db = db
reconcile_instances (si ∷ sis) db = reconcile_instances sis (
    set_server_instance_status si.id InstanceStatus.deleted
      (free_ports si.machine_host_id si.host_ports db).1)

unfoldable pub reconcile_orphaned_instances : Db → Db
unfolding reconcile_instances
reconcile_orphaned_instances db =
    reconcile_instances (filter_by (on_deleted_host db) db.instances) db
