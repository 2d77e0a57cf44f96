-- ===== src/WarmPool.antt =====
-- worker/matchmaking/warmPool.go: hosts provisioned ahead of the matches. `WarmEnv` is what the provider,
-- the certificate store, the DNS service and the store answer in one round of the loop.
pub mod Ends
use elo_service.Prelude.{
  ℕ, zero, suc, ◌+◌, String, Bool, true, false, Option, none, some, List, nat_eq, string_eq, ltb,
  leb, if◌then◌else◌, ◌==◌,
}
use elo_service.Store.{MachineHost, Db}
use elo_service.Hosts.{
  create_machine_host, set_machine_host_ready, set_machine_host_hostname, count_machine_hosts,
  count_available_slots,
}
use elo_service.Matchmaking.{Config, ConnInfo}

pub record WarmEnv : Type 0 where
  pub count_fails : Bool
  pub cert_fails : Bool
  pub conn_info : Option ConnInfo
  pub save_host_fails : Bool
  pub ready_fails : Bool
  pub dns_record : Option (String × String)
  pub new_host_id : String

-- `nil` and an error, each with the store that is left, and out of fuel. `reached` also holds the number
-- of slots that the loop has counted.
pub data WarmLoop : Type 0 where
  reached : ℕ → Db → WarmLoop
  failed : Db → WarmLoop
  running : WarmLoop

-- The row of a new host, ready and with its hostname.
unfoldable pub add_warm_host : WarmEnv → Config → ConnInfo → Db → Db
unfolding create_machine_host set_machine_host_ready set_machine_host_hostname
add_warm_host env cfg conn db =
    let (host, saved) =
      create_machine_host env.new_host_id conn.provider_id conn.public_ip conn.agent_token
        conn.agent_port cfg.max_slots_per_host db in
    let ready = set_machine_host_ready host.id saved in
    elim env.dns_record [
      | none ↦ ready
      | some (hostname, record_id) ↦ set_machine_host_hostname host.id hostname record_id ready
    ]

-- `envs n` answers round n.
unfoldable pub warm_loop : ℕ → (ℕ → WarmEnv) → ℕ → Config → ℕ → Db → WarmLoop
unfolding add_warm_host create_machine_host count_machine_hosts
warm_loop zero envs n cfg available db = running
warm_loop (suc fuel) envs n cfg available db =
    let env = envs n in
    let more : ConnInfo → WarmLoop = λ conn.
      warm_loop fuel envs (suc n) cfg (available + cfg.max_slots_per_host)
        (add_warm_host env cfg conn db) in
    if leb cfg.warm_slots available
    then reached available db
    else if env.count_fails
    then failed db
    else if leb cfg.max_hosts (count_machine_hosts db)
    then reached available db
    else if env.cert_fails
    then failed db
    else elim env.conn_info [
      | none ↦ failed db
      | some conn ↦
          if env.save_host_fails
          then failed db
          else if env.ready_fails
          then failed
              (create_machine_host env.new_host_id conn.provider_id conn.public_ip conn.agent_token
                conn.agent_port cfg.max_slots_per_host db).1
          else more conn
    ]

-- With no warm slots asked for, nothing is done.
unfoldable pub maintain_warm_pool : ℕ → (ℕ → WarmEnv) → Config → Db → WarmLoop
unfolding warm_loop count_available_slots
maintain_warm_pool fuel envs cfg db =
    if cfg.warm_slots == 0
    then reached 0 db
    else warm_loop fuel envs 0 cfg (count_available_slots db) db
