-- ===== src/Hosts/RoundTrip.antt =====
-- `free_ports` after `allocate_ports`.
use elo_service.Prelude.{
  ℕ, ◌≤◌, ◌≡◌, refl, ap, ◌∙◌, String, true, false, List, ◌++◌, map, some, nat_eq, string_eq, ◌==◌,
  contains, IsNodup, find_by-key, find_by_unique, All-map, update_by-update_by, update_by_self,
  find_by-update_by, eq_self,
}
use elo_service.Store.{MachineHost, Db}
use elo_service.Hosts.{
  ok, get_machine_host, update_host, put_ports, allocate_ports, remaining_ports, free_ports,
}
use elo_service.Hosts.Release.{remaining_ports-append}
use elo_service.Hosts.Capacity.{allocate_ports-IsAllocation}

abbrev host_key : MachineHost → String
host_key h = h.id

update_host-get :
    (host_id : String) (ports : List ℕ) (db : Db) (h : MachineHost)
    → get_machine_host host_id db ≡ some h
    → get_machine_host host_id (update_host host_id (put_ports ports) db) ≡ some (put_ports ports h)
unfolding get_machine_host update_host
update_host-get host_id ports db h e =
    let same : (h.id == host_id) ≡ true =
      ap (λ (k : String). k == host_id) (find_by-key host_key host_id db.hosts e)
      ∙ eq_self host_id in
    rw (find_by-update_by host_key host_id host_id (put_ports ports) db.hosts (λ x. refl), e, same)

update_host_twice :
    (host_id : String) (ports : List ℕ) (db : Db) (h : MachineHost)
    → IsNodup (map host_key db.hosts)
    → get_machine_host host_id db ≡ some h
    → update_host host_id (put_ports h.allocated_ports) (update_host host_id (put_ports ports) db)
      ≡ db
unfolding get_machine_host update_host
update_host_twice host_id ports db h u e =
    let rows =
      update_by-update_by host_key host_id (put_ports ports) (put_ports h.allocated_ports) db.hosts
        (λ x. refl) in
    let back = update_by_self host_key host_id (put_ports h.allocated_ports) db.hosts (
      All-map (λ x. (x.id == host_id) ≡ true → x ≡ h)
        (λ x. (x.id == host_id) ≡ true → put_ports h.allocated_ports x ≡ x) db.hosts
        (λ x same on. rw (same on)) (find_by_unique host_key host_id db.hosts u e)) in
    ap (λ (hs : List MachineHost). record db { hosts = hs }) (rows ∙ back)

free_ports-found :
    (host_id : String) (ports : List ℕ) (db : Db) (h : MachineHost)
    → get_machine_host host_id db ≡ some h
    → free_ports host_id ports db
      ≡ (true, update_host host_id (put_ports (remaining_ports ports h.allocated_ports)) db)
unfolding free_ports
free_ports-found host_id ports db h e = rw (e, free_ports)

-- Releasing the ports of a successful allocation finds the host and gives back the store from before
-- it. Host ids are distinct, as the primary key makes them.
pub free_ports-allocate_ports :
    (host_id : String) (count range_start range_end : ℕ) (db : Db) {ports : List ℕ}
    → IsNodup (map (λ (x : MachineHost). x.id) db.hosts)
    → (allocate_ports host_id count range_start range_end db).0 ≡ ok ports
    → free_ports host_id ports (allocate_ports host_id count range_start range_end db).1
      ≡ (true, db)
free_ports-allocate_ports host_id count range_start range_end db {ports} u e =
    let (h, here, fit, after) =
      allocate_ports-IsAllocation host_id count range_start range_end db e in
    let disjoint =
      All-map (λ q. (range_start ≤ q) × (q ≤ range_end) × (contains h.allocated_ports q ≡ false))
        (λ q. contains h.allocated_ports q ≡ false) ports (λ q f. f.2) fit.fresh in
    rw (
      after,
      free_ports-found host_id ports
          (update_host host_id (put_ports (h.allocated_ports ++ ports)) db)
          (put_ports (h.allocated_ports ++ ports) h)
          (update_host-get host_id (h.allocated_ports ++ ports) db h here),
      remaining_ports-append h.allocated_ports ports disjoint,
      update_host_twice host_id (h.allocated_ports ++ ports) db h u here,
    )
