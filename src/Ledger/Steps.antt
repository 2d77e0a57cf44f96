-- ===== src/Ledger/Steps.antt =====
-- The writes to the hosts and the instances, and the ledger: the status changes, the release of an
-- instance's ports when it is marked deleted, and the start of an instance on fresh ports.
use elo_service.Prelude.{
  ℕ, ◌≡◌, refl, sym, ap, String, Bool, true, false, some, List, map, arith, nat_eq, string_eq, ◌==◌,
  Bool-cases, Option-cases, inl, inr, find_by, update_by, contains, IsNodup, All, All-map,
  All-update_by, All-always, find_by_unique, find_by-none, update_by-cong, update_by-miss,
  map-update_by, eq_of_test, eq_self, count-of_contains, count-of_not_contains,
}
use elo_service.Store.{MachineHost, ServerInstance, InstanceStatus, Db, is_deleted}
use elo_service.Hosts.{
  is_active_on, with_id, get_machine_host, put_ports, remaining_ports, free_ports,
}
use elo_service.Hosts.Release.{count-remaining_ports}
use elo_service.Instances.{
  si_id, with_status, update_instances, get_server_instance, set_server_instance_status,
}
use elo_service.Ledger.{IsBalanced, Ledger}
use elo_service.Ledger.Held.{held-with_status, held-deleted}

abbrev host_key : MachineHost → String
host_key h = h.id

abbrev release : List ℕ → MachineHost → MachineHost
release ports h = put_ports (remaining_ports ports h.allocated_ports) h

-- With distinct ids the release is one update of the rows.
pub free_ports-eq :
    (host_id : String) (ports : List ℕ) (db : Db)
    → IsNodup (map host_key db.hosts)
    → (free_ports host_id ports db).1
      ≡ record db { hosts = update_by (with_id host_id) (release ports) db.hosts }
unfolding free_ports
free_ports-eq host_id ports db u = elim (Option-cases (get_machine_host host_id db)) [
  | inl missing ↦
      rw (missing, free_ports)
        (ap (λ (hs : List MachineHost). record db { hosts = hs })
          (sym (
            update_by-miss (with_id host_id) (release ports) db.hosts
              (find_by-none (with_id host_id) db.hosts missing))))
  | inr (h, found) ↦
      rw (found, free_ports)
        (ap (λ (hs : List MachineHost). record db { hosts = hs })
          (update_by-cong (with_id host_id) (put_ports (remaining_ports ports h.allocated_ports))
            (release ports) db.hosts
            (All-map (λ x. (x.id == host_id) ≡ true → x ≡ h)
              (λ x.
                (x.id == host_id) ≡ true
                → put_ports (remaining_ports ports h.allocated_ports) x ≡ release ports x)
              db.hosts (λ x same on. rw (same on))
              (find_by_unique host_key host_id db.hosts u found))))
]

-- A change of status between two that are not deleted.
pub with_status-Ledger :
    (p : ServerInstance → Bool) (s : InstanceStatus) (db : Db)
    → is_deleted s ≡ false
    → All (λ si. p si ≡ true → is_deleted si.status ≡ false) db.instances
    → Ledger db
    → Ledger (update_instances p (with_status s) db)
unfolding update_instances
with_status-Ledger p s db live h l = record {
  host_ids = l.host_ids;
  instance_ids = rw (map-update_by si_id p (with_status s) db.instances (λ x. refl)) l.instance_ids;
  balanced =
      All-map (IsBalanced db.instances) (IsBalanced (update_by p (with_status s) db.instances))
        db.hosts (λ x b up q. rw (held-with_status p s db.instances x.id q live h) (b up q))
        l.balanced;
}

release-IsBalanced :
    (sis : List ServerInstance) (si : ServerInstance)
    → IsNodup (map si_id sis)
    → find_by (λ x. x.id == si.id) sis ≡ some si
    → is_deleted si.status ≡ false
    → (h : MachineHost) → IsBalanced sis h
    → with_id si.machine_host_id h ≡ true
    → IsBalanced
        (update_by (λ x. x.id == si.id) (with_status InstanceStatus.deleted) sis)
        (release si.host_ports h)
release-IsBalanced sis si u e live h b on up q =
    let here : h.id ≡ si.machine_host_id = eq_of_test h.id si.machine_host_id on in
    let act : is_active_on h.id si ≡ true = rw (here, eq_self si.machine_host_id, live) in
    let after = rw act at (held-deleted sis si h.id q u e) in
    let before = b up q in
    let left = count-remaining_ports q si.host_ports h.allocated_ports in
    elim (Bool-cases (contains si.host_ports q)) [
      | inl mine ↦
          let left' = rw mine at left in
          let one = count-of_contains q si.host_ports mine in (omega arith, omega arith)
      | inr other ↦
          let left' = rw other at left in
          let zero_held = count-of_not_contains q si.host_ports other in (omega arith, omega arith)
    ]

keep-IsBalanced :
    (sis : List ServerInstance) (si : ServerInstance)
    → IsNodup (map si_id sis)
    → find_by (λ x. x.id == si.id) sis ≡ some si
    → (h : MachineHost) → IsBalanced sis h
    → with_id si.machine_host_id h ≡ false
    → IsBalanced (update_by (λ x. x.id == si.id) (with_status InstanceStatus.deleted) sis) h
keep-IsBalanced sis si u e h b off up q =
    let idle : is_active_on h.id si ≡ false = ground (
      arith,
      string_eq.same_iff h.id si.machine_host_id,
      string_eq.same_iff si.machine_host_id h.id,
    ) in
    let after = rw idle at (held-deleted sis si h.id q u e) in
    let before = b up q in (omega arith, before.1)

-- Phase B of an instance that is not deleted yet: its ports are released and its row marked deleted.
pub delete_instance-Ledger :
    (si : ServerInstance) (db : Db)
    → get_server_instance si.id db ≡ some si
    → is_deleted si.status ≡ false
    → Ledger db
    → Ledger (
        set_server_instance_status si.id InstanceStatus.deleted
          (free_ports si.machine_host_id si.host_ports db).1)
unfolding get_server_instance set_server_instance_status
delete_instance-Ledger si db e live l =
    let mark : ServerInstance → Bool = λ x. x.id == si.id in
    rw (free_ports-eq si.machine_host_id si.host_ports db l.host_ids) (record {
      host_ids =
          rw
            (map-update_by host_key (with_id si.machine_host_id) (release si.host_ports) db.hosts
              (λ x. refl))
            l.host_ids;
      instance_ids =
          rw
            (map-update_by si_id mark (with_status InstanceStatus.deleted) db.instances (λ x. refl))
            l.instance_ids;
      balanced =
          All-update_by (IsBalanced db.instances)
            (IsBalanced (update_by mark (with_status InstanceStatus.deleted) db.instances))
            (with_id si.machine_host_id) (release si.host_ports) db.hosts l.balanced
            (All-always _ db.hosts
              (λ x. release-IsBalanced db.instances si l.instance_ids e live x))
            (All-always _ db.hosts (λ x. keep-IsBalanced db.instances si l.instance_ids e x));
    })
