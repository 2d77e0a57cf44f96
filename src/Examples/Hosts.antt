-- ===== src/Examples/Hosts.antt =====
-- Runs of the port allocation.
use elo_service.Prelude.{ℕ, ◌≡◌, refl, true, some, List, [], ◌∷◌, ◌++◌, nat_eq, string_eq}
use elo_service.Store.{MachineHost}
use elo_service.Hosts.{
  PortResult, get_machine_host, update_host, put_ports, allocate_ports, find_available_host,
  free_ports,
}
use elo_service.Hosts.Capacity.{
  IsAllocation, allocate_ports-IsAllocation, find_available_host-allocates,
}
use elo_service.Hosts.RoundTrip.{free_ports-allocate_ports}
use elo_service.Examples.Fixtures.{one_host, one_db}

allocated : (allocate_ports "h1" 2 7000 7003 one_db).0 ≡ PortResult.ok (7001 ∷ 7002 ∷ [])
unfolding allocate_ports
allocated = refl

found : find_available_host 2 7000 7003 one_db ≡ some one_host
unfolding find_available_host
found = refl

allocate_ports-IsAllocation_example :
    (h : MachineHost) × (get_machine_host "h1" one_db ≡ some h)
    × IsAllocation 2 7000 7003 h (7001 ∷ 7002 ∷ [])
    × ((allocate_ports "h1" 2 7000 7003 one_db).1
        ≡ update_host "h1" (put_ports (h.allocated_ports ++ (7001 ∷ 7002 ∷ []))) one_db)
allocate_ports-IsAllocation_example = allocate_ports-IsAllocation "h1" 2 7000 7003 one_db allocated

find_available_host-allocates_example :
    (get_machine_host "h1" one_db ≡ some one_host)
    × (ports : List ℕ) × ((allocate_ports "h1" 2 7000 7003 one_db).0 ≡ PortResult.ok ports)
    × IsAllocation 2 7000 7003 one_host ports
find_available_host-allocates_example =
    find_available_host-allocates 2 7000 7003 one_db (refl, tt) found

free_ports-allocate_ports_example :
    free_ports "h1" (7001 ∷ 7002 ∷ []) (allocate_ports "h1" 2 7000 7003 one_db).1 ≡ (true, one_db)
free_ports-allocate_ports_example =
    free_ports-allocate_ports "h1" 2 7000 7003 one_db (refl, tt) allocated
