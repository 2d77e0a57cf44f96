-- ===== src/Lifecycle/Balance.antt =====
-- Claiming and tearing down a cooled instance, and the ledger of ports.
use elo_service.Prelude.{
  ℕ, ◌≡◌, refl, sym, ap, ◌∙◌, inl, inr, String, Bool, true, false, not, ◌&&◌, Option, some, List,
  [], ◌∷◌, map, arith, nat_eq, string_eq, leb, ◌+◌, if◌then◌else◌, ◌==◌, find_by, update_by,
  Bool-cases, Option-cases, All-always, IsNodup, eq_self,
}
use elo_service.Store.{ServerInstance, InstanceStatus, Db, is_deleted, is_cooldown, is_tearing_down}
use elo_service.Hosts.{free_ports, get_machine_host, update_host}
use elo_service.Instances.{
  si_id, with_status, update_instances, CooldownEntry, get_server_instance,
  set_server_instance_status, claim_cooldown_instance, revert_tearing_down_to_cooldown,
}
use elo_service.Results.{finalize_match_teardown}
use elo_service.Ledger.{Ledger}
use elo_service.Ledger.Steps.{with_status-Ledger, delete_instance-Ledger}
use elo_service.Lifecycle.{AgentOutcome, key_or_empty, teardown_cooled_match, sweep_entry}
use elo_service.Lifecycle.Claim.{status_in, has_status, guarded-rows}

-- The row is in the store, with any status.
abbrev pub Found : ServerInstance → Db → Type 0
Found si db =
    (s : InstanceStatus) × (get_server_instance si.id db ≡ some (record si { status = s }))

find_by-with_status :
    (p : ServerInstance → Bool) (t : InstanceStatus) (i : String) (sis : List ServerInstance)
    {si : ServerInstance}
    → find_by (λ x. x.id == i) sis ≡ some si
    → find_by (λ x. x.id == i) (update_by p (with_status t) sis)
      ≡ some (if p si then with_status t si else si)
find_by-with_status p t i [] e = cc
find_by-with_status p t i (x ∷ sis) {si = si} e = elim (Bool-cases (x.id == i)) [
  | inl hit ↦
      let whole : some x ≡ some si = rw hit at e in
      let same : x ≡ si = cc in
      elim (Bool-cases (p x)) [
        | inl on ↦
            let on' : p si ≡ true = ap p (sym same) ∙ on in
            rw (on, hit, on') (ap (λ y. some (with_status t y)) same)
        | inr off ↦
            let off' : p si ≡ false = ap p (sym same) ∙ off in rw (off, hit, off') (ap some same)
      ]
  | inr miss ↦ elim (Bool-cases (p x)) [
    | inl on ↦ rw (on, miss) (find_by-with_status p t i sis (rw miss at e))
    | inr off ↦ rw (off, miss) (find_by-with_status p t i sis (rw miss at e))
  ]
]

update_instances-Found :
    (p : ServerInstance → Bool) (t : InstanceStatus) (si : ServerInstance) (db : Db)
    → Found si db
    → Found si (update_instances p (with_status t) db)
unfolding update_instances get_server_instance
update_instances-Found p t si db (s, e) = elim (Bool-cases (p (record si { status = s }))) [
  | inl on ↦ (t, find_by-with_status p t si.id db.instances e ∙ rw on)
  | inr off ↦ (s, find_by-with_status p t si.id db.instances e ∙ rw off)
]

free_ports-instances :
    (host_id : String) (ports : List ℕ) (db : Db)
    → (free_ports host_id ports db).1.instances ≡ db.instances
unfolding free_ports update_host
free_ports-instances host_id ports db = elim (Option-cases (get_machine_host host_id db)) [
  | inl gone ↦ rw (gone, free_ports)
  | inr (h, here) ↦ rw (here, free_ports)
]

free_ports-Found :
    (host_id : String) (ports : List ℕ) (si : ServerInstance) (db : Db)
    → Found si db
    → Found si (free_ports host_id ports db).1
unfolding get_server_instance
free_ports-Found host_id ports si db (s, e) =
    (s, ap (find_by (λ x. x.id == si.id)) (free_ports-instances host_id ports db) ∙ e)

finalize-Ledger :
    (i logs_key : String) (artifacts : Option (List String)) (db : Db)
    → Ledger db
    → Ledger (finalize_match_teardown i logs_key artifacts db)
unfolding finalize_match_teardown
finalize-Ledger i logs_key artifacts db l = record {
  host_ids = l.host_ids;
  instance_ids = l.instance_ids;
  balanced = l.balanced;
}

tearing_down-live :
    (b : Bool) (s : InstanceStatus) → (b && is_tearing_down s) ≡ true → is_deleted s ≡ false
tearing_down-live b InstanceStatus.tearing_down h = refl
tearing_down-live b InstanceStatus.starting h = refl
tearing_down-live b InstanceStatus.cooldown h = refl
tearing_down-live b InstanceStatus.deleted h = ground arith

cooldown-live : (b : Bool) (s : InstanceStatus) → (b && is_cooldown s) ≡ true → is_deleted s ≡ false
cooldown-live b InstanceStatus.tearing_down h = refl
cooldown-live b InstanceStatus.starting h = refl
cooldown-live b InstanceStatus.cooldown h = refl
cooldown-live b InstanceStatus.deleted h = ground arith

-- Phase B keeps the ledger: it ends with the ports released and the row marked deleted, or puts the
-- row back to cooldown. The row is known by its id, host and ports; its status in the store is one that
-- still holds ports.
pub teardown_cooled_match-Ledger :
    (agent : AgentOutcome) (si : ServerInstance) (match_id : String) (force : Bool) (db : Db)
    (s : InstanceStatus)
    → get_server_instance si.id db ≡ some (record si { status = s })
    → is_deleted s ≡ false
    → Ledger db
    → Ledger (teardown_cooled_match agent si match_id force db).1
unfolding teardown_cooled_match revert_tearing_down_to_cooldown
teardown_cooled_match-Ledger agent si match_id force db s e live l =
    elim (Bool-cases (not agent.stopped && not force)) [
      | inl back ↦ rw back (
          with_status-Ledger (λ x. x.id == si.id && is_tearing_down x.status)
            InstanceStatus.cooldown db refl
            (All-always _ db.instances (λ x on. tearing_down-live (x.id == si.id) x.status on)) l)
      | inr on ↦ rw on (
          finalize-Ledger match_id (key_or_empty agent.logs_key) agent.artifact_names _
            (delete_instance-Ledger (record si { status = s }) db e live l))
    ]

teardown_cooled_match-Found :
    (agent : AgentOutcome) (si : ServerInstance) (match_id : String) (force : Bool)
    (row : ServerInstance) (db : Db)
    → Found row db
    → Found row (teardown_cooled_match agent si match_id force db).1
unfolding teardown_cooled_match revert_tearing_down_to_cooldown set_server_instance_status
    finalize_match_teardown get_server_instance
teardown_cooled_match-Found agent si match_id force row db f =
    elim (Bool-cases (not agent.stopped && not force)) [
      | inl back ↦ rw back (
          update_instances-Found (λ x. x.id == si.id && is_tearing_down x.status)
            InstanceStatus.cooldown row db f)
      | inr on ↦ rw on (
          update_instances-Found (λ x. x.id == si.id) InstanceStatus.deleted row
            (free_ports si.machine_host_id si.host_ports db).1
            (free_ports-Found si.machine_host_id si.host_ports row db f))
    ]

claim-Ledger : (i : String) (db : Db) → Ledger db → Ledger (claim_cooldown_instance i db).1
unfolding claim_cooldown_instance
claim-Ledger i db l =
    with_status-Ledger (λ x. x.id == i && is_cooldown x.status) InstanceStatus.tearing_down db refl
      (All-always _ db.instances (λ x on. cooldown-live (x.id == i) x.status on)) l

claim-Found :
    (i : String) (row : ServerInstance) (db : Db)
    → Found row db
    → Found row (claim_cooldown_instance i db).1
unfolding claim_cooldown_instance
claim-Found i row db f =
    update_instances-Found (λ x. x.id == i && is_cooldown x.status) InstanceStatus.tearing_down row
      db f

status_in-find_by :
    (i : String) (sis : List ServerInstance) {si : ServerInstance}
    → find_by (λ x. x.id == i) sis ≡ some si
    → status_in i sis ≡ some si.status
status_in-find_by i [] e = cc
status_in-find_by i (x ∷ sis) {si = si} e = elim (Bool-cases (x.id == i)) [
  | inl hit ↦
      let whole : some x ≡ some si = rw hit at e in
      let same : x ≡ si = cc in rw hit (ap (λ (y : ServerInstance). some y.status) same)
  | inr miss ↦ rw miss (status_in-find_by i sis (rw miss at e))
]

-- A claim that is won leaves the instance in `tearing_down`.
claimed :
    (row : ServerInstance) (db : Db)
    → IsNodup (map si_id db.instances)
    → Found row db
    → (claim_cooldown_instance row.id db).0 ≡ true
    → get_server_instance row.id (claim_cooldown_instance row.id db).1
      ≡ some (record row { status = InstanceStatus.tearing_down })
unfolding claim_cooldown_instance get_server_instance update_instances
claimed row db u (s, e) won =
    let was : is_cooldown s ≡ true =
      sym (
        guarded-rows row.id is_cooldown db.instances u
        ∙ ap (has_status is_cooldown) (status_in-find_by row.id db.instances e))
      ∙ won in
    find_by-with_status (λ x. x.id == row.id && is_cooldown x.status) InstanceStatus.tearing_down
      row.id db.instances e
    ∙ rw (was, eq_self row.id)

pub sweep_entry-Ledger :
    (now deadline : ℕ) (agents : String → AgentOutcome) (e : CooldownEntry) (db : Db)
    → Found e.instance_row db
    → Ledger db
    → Ledger (sweep_entry now deadline agents e db)
unfolding sweep_entry
sweep_entry-Ledger now deadline agents e db f l =
    let after = claim-Ledger e.instance_row.id db l in
    elim (Bool-cases (claim_cooldown_instance e.instance_row.id db).0) [
      | inl won ↦ rw won (
          teardown_cooled_match-Ledger (agents e.instance_row.id) e.instance_row e.match_row.id
            (leb (e.result_ended + deadline) now) (claim_cooldown_instance e.instance_row.id db).1
            InstanceStatus.tearing_down (claimed e.instance_row db l.instance_ids f won) refl after)
      | inr lost ↦ rw lost after
    ]

pub sweep_entry-Found :
    (now deadline : ℕ) (agents : String → AgentOutcome) (e : CooldownEntry) (row : ServerInstance)
    (db : Db)
    → Found row db
    → Found row (sweep_entry now deadline agents e db)
unfolding sweep_entry
sweep_entry-Found now deadline agents e row db f =
    let after = claim-Found e.instance_row.id row db f in
    elim (Bool-cases (claim_cooldown_instance e.instance_row.id db).0) [
      | inl won ↦ rw won (
          teardown_cooled_match-Found (agents e.instance_row.id) e.instance_row e.match_row.id
            (leb (e.result_ended + deadline) now) row
            (claim_cooldown_instance e.instance_row.id db).1 after)
      | inr lost ↦ rw lost after
    ]
