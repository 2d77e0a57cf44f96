-- ===== src/Matchmaking/Start.antt =====
-- A new host's row and the ledger of ports.
use mathlib.Core.List.{map-append}
use elo_service.Prelude.{
  ℕ, ◌≡◌, refl, inl, inr, String, true, false, List, [], ◌∷◌, ◌++◌, map, arith, nat_eq, string_eq,
  ◌==◌, contains, All, Bool-cases, Option-cases, update_by-concat, no_match, All-concat,
  IsNodup-concat, eq_self,
}
use elo_service.Store.{MachineHost, HostStatus, ServerInstance, Db}
use elo_service.Hosts.{update_host, set_machine_host_ready, set_machine_host_hostname}
use elo_service.Ledger.{held, IsBalanced, Ledger}
use elo_service.Matchmaking.{StartEnv, publish_host}

abbrev host_key : MachineHost → String
host_key h = h.id

-- The keys that the store generates in one call are new: no row has or names them.
pub record IsFresh (env : StartEnv) (db : Db) : Type 0 where
  pub host : contains (map (λ (h : MachineHost). h.id) db.hosts) env.new_host_id ≡ false
  pub instance_row :
      contains (map (λ (si : ServerInstance). si.id) db.instances) env.new_instance_id ≡ false
  pub unused :
      All (λ (si : ServerInstance). (si.machine_host_id == env.new_host_id) ≡ false) db.instances

held_none :
    (i : String) (q : ℕ) (sis : List ServerInstance)
    → All (λ (si : ServerInstance). (si.machine_host_id == i) ≡ false) sis
    → held sis i q ≡ 0
held_none i q [] h = refl
held_none i q (si ∷ sis) h = rw (h.0, held_none i q sis h.1)

update_host-new :
    (i : String) (f : MachineHost → MachineHost) (db : Db) (old : List MachineHost)
    (r : MachineHost)
    → contains (map host_key old) i ≡ false
    → (r.id == i) ≡ true
    → db.hosts ≡ old ++ (r ∷ [])
    → (update_host i f db).hosts ≡ old ++ (f r ∷ [])
unfolding update_host
update_host-new i f db old r new here e =
    rw e (update_by-concat (λ h. h.id == i) f old r (no_match host_key i old new) here)

-- A row with no ports, at the end of the hosts, under the id.
abbrev pub AddsHost : String → Db → Db → Type 0
AddsHost i db db' =
    (r : MachineHost) × (r.id ≡ i)
    × (r.allocated_ports ≡ [])
    × (db'.hosts ≡ db.hosts ++ (r ∷ []))
    × (db'.instances ≡ db.instances)

ready-AddsHost :
    (i : String) (db db' : Db)
    → contains (map host_key db.hosts) i ≡ false
    → AddsHost i db db'
    → AddsHost i db (set_machine_host_ready i db')
unfolding set_machine_host_ready
ready-AddsHost i db db' new (r, here, empty, e, same) = (
  record r { status = HostStatus.ready },
  here,
  empty,
  update_host-new i (λ h. record h { status = HostStatus.ready }) db' db.hosts r new
      (rw here (eq_self i)) e,
  same,
)

hostname-AddsHost :
    (i hostname record_id : String) (db db' : Db)
    → contains (map host_key db.hosts) i ≡ false
    → AddsHost i db db'
    → AddsHost i db (set_machine_host_hostname i hostname record_id db')
unfolding set_machine_host_hostname
hostname-AddsHost i hostname record_id db db' new (r, here, empty, e, same) = (
  record r { public_hostname = hostname; dns_record_id = record_id },
  here,
  empty,
  update_host-new i (λ h. record h { public_hostname = hostname; dns_record_id = record_id }) db'
      db.hosts r new (rw here (eq_self i)) e,
  same,
)

pub publish_host-AddsHost :
    (env : StartEnv) (host : MachineHost) (db db' : Db)
    → contains (map host_key db.hosts) host.id ≡ false
    → AddsHost host.id db db'
    → AddsHost host.id db (publish_host env host db')
unfolding publish_host
publish_host-AddsHost env host db db' new a = elim (Bool-cases env.ready_fails) [
  | inl fails ↦ elim (Option-cases env.dns_record) [
    | inl no_dns ↦ rw (fails, no_dns) a
    | inr (d, e) ↦ rw (fails, e) (hostname-AddsHost host.id d.0 d.1 db db' new a)
  ]
  | inr works ↦ elim (Option-cases env.dns_record) [
    | inl no_dns ↦ rw (works, no_dns) (ready-AddsHost host.id db db' new a)
    | inr (d, e) ↦
        rw (works, e)
          (hostname-AddsHost host.id d.0 d.1 db (set_machine_host_ready host.id db') new
            (ready-AddsHost host.id db db' new a))
  ]
]

pub AddsHost-Ledger :
    (i : String) (db db' : Db)
    → contains (map host_key db.hosts) i ≡ false
    → All (λ (si : ServerInstance). (si.machine_host_id == i) ≡ false) db.instances
    → AddsHost i db db'
    → Ledger db
    → Ledger db'
AddsHost-Ledger i db db' new unused (r, here, empty, e, same) l = record {
  host_ids =
      rw (e, map-append host_key db.hosts (r ∷ []), here)
        (IsNodup-concat (map host_key db.hosts) i l.host_ids new);
  instance_ids = rw same l.instance_ids;
  balanced =
      rw (e, same)
        (All-concat (IsBalanced db.instances) db.hosts r l.balanced
          (λ up q. rw (empty, here, held_none i q db.instances unused) (refl, omega arith)));
}
