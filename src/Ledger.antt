-- ===== src/Ledger.antt =====
-- How two components agree: the ledger says that the allocated ports of a host (models/machine_host.go) are exactly
-- the host ports of the instances that run on it (models/server_instance.go), each held once.
pub mod Held
pub mod Start
pub mod Steps
use elo_service.Prelude.{
  ℕ, ◌+◌, ◌≤◌, ◌≡◌, String, Bool, true, false, List, [], ◌∷◌, map, if◌then◌else◌, nat_eq, string_eq,
  count, IsNodup, All,
}
use elo_service.Store.{MachineHost, ServerInstance, Db, is_deleted_host}
use elo_service.Hosts.{is_active_on}

-- How often a port is held by the instances that are active on a host.
abbrev pub held : List ServerInstance → String → ℕ → ℕ
held [] i q = 0
held (si ∷ sis) i q = (if is_active_on i si then count q si.host_ports else 0) + held sis i q

-- A host whose VM is gone is left out: its row is only read again to release what is left.
abbrev pub IsBalanced : List ServerInstance → MachineHost → Type 0
IsBalanced sis h =
    is_deleted_host h.status ≡ false
    → (q : ℕ) → (count q h.allocated_ports ≡ held sis h.id q) × (count q h.allocated_ports ≤ 1)

pub record Ledger (db : Db) : Type 0 where
  pub host_ids : IsNodup (map (λ (h : MachineHost). h.id) db.hosts)
  pub instance_ids : IsNodup (map (λ (si : ServerInstance). si.id) db.instances)
  pub balanced : All (IsBalanced db.instances) db.hosts
