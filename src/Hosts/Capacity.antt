-- ===== src/Hosts/Capacity.antt =====
-- The contract of `allocate_ports`, its agreement with `find_available_host`, and the way back by
-- `free_ports`.

use elo_service.Prelude.{
  ℕ, ◌+◌, ◌-◌, ◌≤◌, ◌≡◌, sym, ap, ◌∙◌, inl, inr, String, Bool, true, false, ◌&&◌, List, ◌++◌, map,
  none, some, arith, ltb, if◌then◌else◌, nat_eq, string_eq, length, find_by, contains, IsNodup, All,
  Bool-cases, Option-cases, All-map, find_by-filter_by, find_by-by_key, All-find_by, All-always,
}
use elo_service.Store.{MachineHost, Db, is_ready}
use elo_service.Hosts.{
  PortResult, PortError, ok, err, record_not_found, not_enough_ports, get_machine_host, update_host,
  put_ports, has_room, find_available_host, ports_left, scan_ports, allocate_ports,
}
use elo_service.Hosts.Ports.{
  IsFree, scan_ports-IsFree, scan_ports-IsNodup, length-scan_ports, length-scan_ports-le,
}

-- The ports that a call of `allocate_ports` on the row `h` would return.
abbrev pub fresh_ports : ℕ → ℕ → ℕ → MachineHost → List ℕ
fresh_ports count range_start range_end h =
    scan_ports h.allocated_ports (range_end + 1 - range_start) range_start count

-- What the ports returned for a host are: as many as asked for, distinct, inside the range, and none
-- of them allocated on the host before.
pub record IsAllocation (count range_start range_end : ℕ) (h : MachineHost) (ports : List ℕ)
    : Type 0 where
  pub enough : length ports ≡ count
  pub distinct : IsNodup ports
  pub fresh :
      All (λ q. (range_start ≤ q) × (q ≤ range_end) × (contains h.allocated_ports q ≡ false)) ports

-- The whole call, once the host is found.
allocate_ports-found :
    (host_id : String) (count range_start range_end : ℕ) (db : Db) (h : MachineHost)
    → get_machine_host host_id db ≡ some h
    → allocate_ports host_id count range_start range_end db ≡ (
        if ltb (length (fresh_ports count range_start range_end h)) count
        then (err (not_enough_ports host_id count (ports_left range_start range_end h)), db)
        else (
          ok (fresh_ports count range_start range_end h),
          update_host host_id
              (put_ports (h.allocated_ports ++ fresh_ports count range_start range_end h))
              db,
        ))
unfolding allocate_ports
allocate_ports-found host_id count range_start range_end db h e = rw (e, allocate_ports)

allocate_ports-missing :
    (host_id : String) (count range_start range_end : ℕ) (db : Db)
    → get_machine_host host_id db ≡ none
    → allocate_ports host_id count range_start range_end db ≡ (err record_not_found, db)
unfolding allocate_ports
allocate_ports-missing host_id count range_start range_end db e = rw (e, allocate_ports)

IsFree-bounds :
    (count range_start range_end : ℕ) (h : MachineHost) (q : ℕ)
    → IsFree h.allocated_ports range_start (range_end + 1 - range_start) q
    → (range_start ≤ q) × (q ≤ range_end) × (contains h.allocated_ports q ≡ false)
IsFree-bounds count range_start range_end h q f = (f.0, omega arith, f.2)

fresh_ports-IsAllocation :
    (count range_start range_end : ℕ) (h : MachineHost)
    → ltb (length (fresh_ports count range_start range_end h)) count ≡ false
    → IsAllocation count range_start range_end h (fresh_ports count range_start range_end h)
fresh_ports-IsAllocation count range_start range_end h e = record {
  enough = ground (
    arith,
    length-scan_ports-le h.allocated_ports (range_end + 1 - range_start) range_start count,
  );
  distinct = scan_ports-IsNodup h.allocated_ports (range_end + 1 - range_start) range_start count;
  fresh =
      All-map (IsFree h.allocated_ports range_start (range_end + 1 - range_start))
        (λ q. (range_start ≤ q) × (q ≤ range_end) × (contains h.allocated_ports q ≡ false))
        (fresh_ports count range_start range_end h) (IsFree-bounds count range_start range_end h)
        (scan_ports-IsFree h.allocated_ports (range_end + 1 - range_start) range_start count);
}

-- On success the ports returned are as many as asked for, distinct, inside the range and none of them
-- allocated on the host before, and they are appended to the allocated ports of that host.
pub allocate_ports-IsAllocation :
    (host_id : String) (count range_start range_end : ℕ) (db : Db) {ports : List ℕ}
    → (allocate_ports host_id count range_start range_end db).0 ≡ ok ports
    → (h : MachineHost) × (get_machine_host host_id db ≡ some h)
      × IsAllocation count range_start range_end h ports
      × ((allocate_ports host_id count range_start range_end db).1
          ≡ update_host host_id (put_ports (h.allocated_ports ++ ports)) db)
allocate_ports-IsAllocation host_id count range_start range_end db {ports} e =
    elim (Option-cases (get_machine_host host_id db)) [
      | inl missing ↦ cc (
          ap (λ (r : PortResult (List ℕ) × Db). r.0)
            (allocate_ports-missing host_id count range_start range_end db missing))
      | inr (h, found) ↦
          let run = allocate_ports-found host_id count range_start range_end db h found in
          elim (Bool-cases (ltb (length (fresh_ports count range_start range_end h)) count)) [
            | inl short ↦
                let failed = rw short at run in
                cc (ap (λ (r : PortResult (List ℕ) × Db). r.0) failed)
            | inr full ↦
                let done = rw full at run in
                let same : fresh_ports count range_start range_end h ≡ ports =
                  cc (ap (λ (r : PortResult (List ℕ) × Db). r.0) done) in
                rw (← same) (
                  h,
                  found,
                  fresh_ports-IsAllocation count range_start range_end h full,
                  ap (λ (r : PortResult (List ℕ) × Db). r.1) done,
                )
          ]
    ]

-- `allocate_ports` fails only where the host is missing or its free ports are too few; the store is
-- then as it was.
pub allocate_ports-failed :
    (host_id : String) (count range_start range_end : ℕ) (db : Db) {e : PortError}
    → (allocate_ports host_id count range_start range_end db).0 ≡ err e
    → (allocate_ports host_id count range_start range_end db).1 ≡ db
unfolding allocate_ports
allocate_ports-failed host_id count range_start range_end db e = ground arith

abbrev by_room : ℕ → ℕ → ℕ → Db → MachineHost → Bool
by_room needed range_start range_end db h =
    is_ready h.status && has_room needed range_start range_end db h

find_available_host-eq :
    (needed range_start range_end : ℕ) (db : Db)
    → find_available_host needed range_start range_end db
      ≡ find_by (by_room needed range_start range_end db) db.hosts
unfolding find_available_host
find_available_host-eq needed range_start range_end db =
    find_by-filter_by (has_room needed range_start range_end db) (λ h. is_ready h.status) db.hosts

has_room-ports :
    (needed range_start range_end : ℕ) (db : Db) (h : MachineHost)
    → by_room needed range_start range_end db h ≡ true
    → needed + length h.allocated_ports ≤ range_end + 1 - range_start
unfolding has_room
has_room-ports needed range_start range_end db h e = ground arith

-- A host that `find_available_host` returns has room for a call of `allocate_ports` with the same
-- arguments, which therefore succeeds. Host ids are distinct, as the primary key makes them.
pub find_available_host-allocates :
    (needed range_start range_end : ℕ) (db : Db) {h : MachineHost}
    → IsNodup (map (λ (x : MachineHost). x.id) db.hosts)
    → find_available_host needed range_start range_end db ≡ some h
    → (get_machine_host h.id db ≡ some h)
      × (ports : List ℕ) × ((allocate_ports h.id needed range_start range_end db).0 ≡ ok ports)
      × IsAllocation needed range_start range_end h ports
unfolding get_machine_host
find_available_host-allocates needed range_start range_end db {h} u e =
    let test = by_room needed range_start range_end db in
    let found : find_by test db.hosts ≡ some h =
      sym (find_available_host-eq needed range_start range_end db) ∙ e in
    let here = find_by-by_key (λ (x : MachineHost). x.id) test db.hosts u found in
    let room =
      has_room-ports needed range_start range_end db h
        (All-find_by (λ _. Unit {0}) test db.hosts (All-always (λ _. Unit {0}) db.hosts (λ _. tt))
          found).1 in
    let enough =
      length-scan_ports h.allocated_ports (range_end + 1 - range_start) range_start needed room in
    let full : ltb (length (fresh_ports needed range_start range_end h)) needed ≡ false =
      ground (arith, enough) in
    (
      here,
      fresh_ports needed range_start range_end h,
      rw (allocate_ports-found h.id needed range_start range_end db h here, full),
      fresh_ports-IsAllocation needed range_start range_end h full,
    )
