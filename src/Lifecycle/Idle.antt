-- ===== src/Lifecycle/Idle.antt =====
-- The removal of an idle host against the warm pool of slots.
use elo_service.Prelude.{
  ℕ, ◌+◌, ◌≤◌, ◌≡◌, refl, ap, inl, inr, String, true, false, ◌&&◌, some, List, [], ◌∷◌, map, arith,
  nat_eq, string_eq, ltb, ◌==◌, filter_by, update_by, IsNodup, All, Bool-cases, eq_of_test,
  no_match, update_by-miss, find_by_unique, All-map,
}
use elo_service.Store.{MachineHost, HostStatus, Db, is_ready}
use elo_service.Hosts.{
  with_id, get_machine_host, count_active_instances_on_host, free_slots, sum_slots,
  count_available_slots,
}
use elo_service.Lifecycle.{try_delete_idle_host}

abbrev host_key : MachineHost → String
host_key h = h.id

abbrev bury : MachineHost → MachineHost
bury h = record h { status = HostStatus.deleted }

abbrev ready_hosts : List MachineHost → List MachineHost
ready_hosts = filter_by (λ h. is_ready h.status)

free_slots-le : (h : MachineHost) (db : Db) → free_slots h db ≤ h.max_slots
unfolding free_slots
free_slots-le h db = ground arith

sum_slots-hosts :
    (hs more : List MachineHost) (db : Db)
    → sum_slots hs (record db { hosts = more }) ≡ sum_slots hs db
unfolding sum_slots free_slots count_active_instances_on_host
sum_slots-hosts [] more db = refl
sum_slots-hosts (h ∷ hs) more db = ap (λ n. free_slots h db + n) (sum_slots-hosts hs more db)

-- Burying one host takes at most its slots.
sum_slots-bury :
    (i : String) (m : ℕ) (hs : List MachineHost) (db : Db)
    → IsNodup (map host_key hs)
    → All (λ h. (h.id == i) ≡ true → h.max_slots ≤ m) hs
    → sum_slots (ready_hosts hs) db ≤ sum_slots (ready_hosts (update_by (with_id i) bury hs)) db + m
unfolding sum_slots
sum_slots-bury i m [] db u small = omega arith
sum_slots-bury i m (h ∷ hs) db u small = elim (Bool-cases (h.id == i)) [
  | inl hit ↦
      let same_rest =
        update_by-miss (with_id i) bury hs
          (no_match host_key i hs (rw (eq_of_test h.id i hit) at u.0)) in
      let few = small.0 hit in
      let bound = free_slots-le h db in
      elim (Bool-cases (is_ready h.status)) [
        | inl on ↦ rw (on, hit, same_rest) (omega arith)
        | inr off ↦ rw (off, hit, same_rest) (omega arith)
      ]
  | inr miss ↦
      let rest = sum_slots-bury i m hs db u.1 small.1 in
      elim (Bool-cases (is_ready h.status)) [
        | inl on ↦ rw (on, miss, on) (omega arith)
        | inr off ↦ rw (off, miss, off) (omega arith)
      ]
]

none_left : (n : ℕ) → ltb 0 n ≡ false → n ≡ 0
none_left n h = ground arith

warm_left :
    (warm available slots left after : ℕ)
    → available ≤ left + slots
    → (ltb 0 warm && ltb available (warm + slots)) ≡ false
    → after ≡ left
    → warm ≤ after
warm_left warm available slots left after h enough same = ground arith

-- Where a host is removed, no instance is active on it, and the free slots of the hosts that stay
-- ready are at least as many as the warm pool asks for. Host ids are distinct. The host may be an old
-- reading of its row, from before its ports were freed, as long as the row has the same number of slots.
pub try_delete_idle_host-keeps_warm :
    (warm_slots : ℕ) (host : MachineHost) (db : Db) {row : MachineHost}
    → IsNodup (map (λ (h : MachineHost). h.id) db.hosts)
    → get_machine_host host.id db ≡ some row
    → row.max_slots ≡ host.max_slots
    → (try_delete_idle_host warm_slots host db).0 ≡ true
    → (count_active_instances_on_host host.id db ≡ 0)
      × (warm_slots ≤ count_available_slots (try_delete_idle_host warm_slots host db).1)
unfolding try_delete_idle_host get_machine_host
try_delete_idle_host-keeps_warm warm_slots host db {row} u here slots gone =
    let unique = find_by_unique host_key host.id db.hosts u here in
    let bound = sum_slots-bury host.id host.max_slots db.hosts db u (
      All-map (λ x. (x.id == host.id) ≡ true → x ≡ row)
        (λ x. (x.id == host.id) ≡ true → x.max_slots ≤ host.max_slots) db.hosts
        (λ x same on. omega (arith, ap (λ (h : MachineHost). h.max_slots) (same on), slots))
        unique) in
    elim (Bool-cases (ltb 0 (count_active_instances_on_host host.id db))) [
      | inl busy ↦ let bad : false ≡ true = rw busy at gone in cc
      | inr idle ↦
          elim (Bool-cases
            (ltb 0 warm_slots && ltb (count_available_slots db) (warm_slots + host.max_slots))) [
              | inl short ↦ let bad : false ≡ true = rw (idle, short) at gone in cc
              | inr enough ↦
                  let after = update_by (with_id host.id) bury db.hosts in
                  let same = sum_slots-hosts (ready_hosts after) after db in
                  rw (idle, enough)
                    (
                      none_left (count_active_instances_on_host host.id db) idle,
                      warm_left warm_slots (count_available_slots db) host.max_slots _ _ bound
                          enough same,
                    )
            ]
    ]
