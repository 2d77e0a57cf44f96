-- ===== src/Hosts.antt =====
-- models/machine_host.go: the rows of the game-server hosts, their container slots and the pool of
-- host ports that each has. Slot counts are nonnegative, as the configuration's are.
pub mod Ports
pub mod Capacity
pub mod Release
pub mod RoundTrip
use elo_service.Prelude.{
  ℕ, zero, suc, ◌+◌, ◌-◌, ◌≡◌, refl, ◌⊎◌, inl, inr, String, Bool, true, false, not, ◌&&◌, ◌||◌,
  Option, none, some, List, [], ◌∷◌, ◌++◌, nat_eq, string_eq, ltb, leb, if◌then◌else◌, ◌==◌, length,
  find_by, filter_by, update_by, contains,
}
use elo_service.Prelude.Int.{ℤ, pos, ltb_ℤ, sub_ℕ}
use elo_service.Store.{
  MachineHost, HostStatus, ServerInstance, Db, is_ready, is_deleted_host, is_deleted,
}

pub data PortError : Type 0 where
  record_not_found : PortError
  -- "not enough ports available on host %s (need %d, have %d free)"
  not_enough_ports : String → ℕ → ℤ → PortError

pub data PortResult (A : Type 0) : Type 0 where
  ok : A → PortResult A
  err : PortError → PortResult A

pub PortResult-cases :
    {A : Type 0} (r : PortResult A) → ((e : PortError) × (r ≡ err e)) ⊎ ((a : A) × (r ≡ ok a))
PortResult-cases (ok a) = inr (a, refl)
PortResult-cases (err e) = inl (e, refl)

abbrev pub with_id : String → MachineHost → Bool
with_id i h = h.id == i

-- `First(&host, "id = ?", id)`
unfoldable pub get_machine_host : String → Db → Option MachineHost
get_machine_host i db = find_by (with_id i) db.hosts

unfoldable pub update_host : String → (MachineHost → MachineHost) → Db → Db
update_host i f db = record db { hosts = update_by (with_id i) f db.hosts }

abbrev pub put_ports : List ℕ → MachineHost → MachineHost
put_ports ps h = record h { allocated_ports = ps }

-- `id` is the primary key that the store generates.
unfoldable pub create_machine_host :
    String → String → String → String → ℕ → ℕ → Db → MachineHost × Db
create_machine_host new_id provider_id public_ip agent_token agent_port max_slots db =
    let host : MachineHost = record {
      id = new_id;
      provider_id = provider_id;
      public_ip = public_ip;
      agent_port = agent_port;
      agent_token = agent_token;
      status = HostStatus.provisioning;
      max_slots = max_slots;
      allocated_ports = [];
      public_hostname = "";
      dns_record_id = "";
    } in
    (host, record db { hosts = db.hosts ++ (host ∷ []) })

unfoldable pub set_machine_host_ready : String → Db → Db
unfolding update_host
set_machine_host_ready i = update_host i (λ h. record h { status = HostStatus.ready })

unfoldable pub set_machine_host_deleted : String → Db → Db
unfolding update_host
set_machine_host_deleted i = update_host i (λ h. record h { status = HostStatus.deleted })

unfoldable pub set_machine_host_hostname : String → String → String → Db → Db
unfolding update_host
set_machine_host_hostname i hostname record_id =
    update_host i (λ h. record h { public_hostname = hostname; dns_record_id = record_id })

unfoldable pub public_address : MachineHost → String
public_address h = if not (h.public_hostname == "") then h.public_hostname else h.public_ip

unfoldable pub count_machine_hosts : Db → ℕ
count_machine_hosts db = length (filter_by (λ h. not (is_deleted_host h.status)) db.hosts)

-- models/server_instance.go
abbrev pub is_active_on : String → ServerInstance → Bool
is_active_on host_id si = si.machine_host_id == host_id && not (is_deleted si.status)

unfoldable pub count_active_instances_on_host : String → Db → ℕ
count_active_instances_on_host host_id db = length (filter_by (is_active_on host_id) db.instances)

-- `free > 0` is tested before the addition, so the truncated `-` is exact.
unfoldable pub free_slots : MachineHost → Db → ℕ
unfolding count_active_instances_on_host
free_slots h db =
    let active = count_active_instances_on_host h.id db in
    if ltb active h.max_slots then h.max_slots - active else 0

unfoldable pub sum_slots : List MachineHost → Db → ℕ
sum_slots [] db = 0
sum_slots (h ∷ hs) db = free_slots h db + sum_slots hs db

unfoldable pub count_available_slots : Db → ℕ
unfolding sum_slots free_slots
count_available_slots db = sum_slots (filter_by (λ h. is_ready h.status) db.hosts) db

-- `int(rangeEnd-rangeStart+1) - len(host.AllocatedPorts)`, which may be negative.
abbrev pub ports_left : ℕ → ℕ → MachineHost → ℤ
ports_left range_start range_end h = sub_ℕ (range_end + 1) (range_start + length h.allocated_ports)

-- One turn of the loop of `FindAvailableHost`: does the host qualify?
unfoldable pub has_room : ℕ → ℕ → ℕ → Db → MachineHost → Bool
unfolding count_active_instances_on_host
has_room needed range_start range_end db h =
    not (leb h.max_slots (count_active_instances_on_host h.id db))
    && not (ltb_ℤ (ports_left range_start range_end h) (pos needed))

unfoldable pub find_available_host : ℕ → ℕ → ℕ → Db → Option MachineHost
unfolding has_room
find_available_host needed range_start range_end db =
    find_by (has_room needed range_start range_end db) (filter_by (λ h. is_ready h.status) db.hosts)

-- The loop `for p := rangeStart; p <= rangeEnd && len(allocated) < count; p++`: `rounds` is the number
-- of ports from `p` to the end of the range, and `needed` is `count - len(allocated)`.
unfoldable pub scan_ports : List ℕ → ℕ → ℕ → ℕ → List ℕ
scan_ports taken zero p needed = []
scan_ports taken (suc rounds) p needed =
    let skip = scan_ports taken rounds (p + 1) needed in
    let keep = p ∷ scan_ports taken rounds (p + 1) (needed - 1) in
    if needed == 0 then [] else if contains taken p then skip else keep

unfoldable pub allocate_ports : String → ℕ → ℕ → ℕ → Db → PortResult (List ℕ) × Db
unfolding get_machine_host update_host scan_ports
allocate_ports host_id count range_start range_end db = elim (get_machine_host host_id db) [
  | none ↦ (err record_not_found, db)
  | some host ↦
      let allocated =
        scan_ports host.allocated_ports (range_end + 1 - range_start) range_start count in
      if ltb (length allocated) count
      then (err (not_enough_ports host_id count (ports_left range_start range_end host)), db)
      else (ok allocated, update_host host_id (put_ports (host.allocated_ports ++ allocated)) db)
]

-- The ports that stay when `ports` are released.
unfoldable pub remaining_ports : List ℕ → List ℕ → List ℕ
remaining_ports ports = filter_by (λ p. not (contains ports p))

-- The Boolean says whether the host was found; the only failure that is not the store's own.
unfoldable pub free_ports : String → List ℕ → Db → Bool × Db
unfolding get_machine_host update_host remaining_ports
free_ports host_id ports db = elim (get_machine_host host_id db) [
  | none ↦ (false, db)
  | some host ↦
      (true, update_host host_id (put_ports (remaining_ports ports host.allocated_ports)) db)
]
