-- ===== src/WarmPool/Ends.antt =====
-- How the loop of the warm pool ends.
use elo_service.Prelude.{
  ℕ, zero, suc, ◌+◌, ◌≤◌, ◌<◌, ◌≡◌, refl, inl, inr, Bool, false, not, List, [], ◌∷◌, ◌++◌, arith,
  nat_eq, string_eq, leb, ◌==◌, length, filter_by, update_by, Bool-cases, Option-cases, leb→le,
}
use elo_service.Store.{MachineHost, HostStatus, Db, is_deleted_host}
use elo_service.Hosts.{with_id, update_host, create_machine_host, count_machine_hosts}
use elo_service.Matchmaking.{Config, ConnInfo}
use elo_service.WarmPool.{
  WarmEnv, WarmLoop, reached, failed, add_warm_host, warm_loop, maintain_warm_pool,
}

abbrev kept_hosts : List MachineHost → ℕ
kept_hosts hs = length (filter_by (λ h. not (is_deleted_host h.status)) hs)

kept_hosts-concat :
    (hs : List MachineHost) (h : MachineHost)
    → is_deleted_host h.status ≡ false
    → kept_hosts (hs ++ (h ∷ [])) ≡ suc (kept_hosts hs)
kept_hosts-concat [] h live = rw live refl
kept_hosts-concat (x ∷ hs) h live = ground (arith, kept_hosts-concat hs h live)

-- An update that deletes no host.
kept_hosts-update_by :
    (p : MachineHost → Bool) (f : MachineHost → MachineHost) (hs : List MachineHost)
    → ((h : MachineHost) → is_deleted_host h.status ≡ false → is_deleted_host (f h).status ≡ false)
    → kept_hosts hs ≤ kept_hosts (update_by p f hs)
kept_hosts-update_by p f [] keep = omega arith
kept_hosts-update_by p f (h ∷ hs) keep =
    let rest = kept_hosts-update_by p f hs keep in
    elim (Bool-cases (p h)) [
      | inr miss ↦ rw miss (ground arith)
      | inl hit ↦ elim (Bool-cases (is_deleted_host h.status)) [
        | inl gone ↦ rw (hit, gone) (ground arith)
        | inr live ↦ rw (hit, live, keep h live) (omega arith)
      ]
    ]

count-add_warm_host :
    (env : WarmEnv) (cfg : Config) (conn : ConnInfo) (db : Db)
    → count_machine_hosts db < count_machine_hosts (add_warm_host env cfg conn db)
unfolding add_warm_host count_machine_hosts update_host
count-add_warm_host env cfg conn db =
    let row =
      (create_machine_host env.new_host_id conn.provider_id conn.public_ip conn.agent_token
        conn.agent_port cfg.max_slots_per_host db).0 in
    let added = kept_hosts-concat db.hosts row refl in
    let ready =
      kept_hosts-update_by (with_id env.new_host_id) (λ h. record h { status = HostStatus.ready })
        (db.hosts ++ (row ∷ [])) (λ h live. refl) in
    elim (Option-cases env.dns_record) [
      | inl no_dns ↦ rw (no_dns, add_warm_host) (omega arith)
      | inr ((hostname, record_id), there) ↦
          let named =
            kept_hosts-update_by (with_id env.new_host_id)
              (λ h. record h { public_hostname = hostname; dns_record_id = record_id })
              (update_by (with_id env.new_host_id) (λ h. record h { status = HostStatus.ready })
                (db.hosts ++ (row ∷ [])))
              (λ h live. live) in
          rw (there, add_warm_host) (omega arith)
    ]

-- How the loop may end: with an error, with enough slots, or at the cap of hosts.
pub data IsEnd (cfg : Config) : WarmLoop → Type 0 where
  by_error : (db : Db) → IsEnd cfg (failed db)
  enough : (available : ℕ) (db : Db) → cfg.warm_slots ≤ available → IsEnd cfg (reached available db)
  capped :
      (available : ℕ) (db : Db)
      → cfg.max_hosts ≤ count_machine_hosts db
      → IsEnd cfg (reached available db)

out_of_room : (a b : ℕ) → a ≤ 0 + b → leb a b ≡ false → ⊥
out_of_room a b h k = ground arith

module _ (envs : ℕ → WarmEnv) (cfg : Config) where
  -- A round that does not end the loop has added a host.
  round-IsEnd :
      (fuel n available : ℕ) (db : Db)
      → ((conn : ConnInfo)
          → leb cfg.max_hosts (count_machine_hosts db) ≡ false
          → IsEnd cfg (
              warm_loop fuel envs
                (suc n)
                cfg
                (available + cfg.max_slots_per_host)
                (add_warm_host (envs n) cfg conn db)))
      → IsEnd cfg (warm_loop (suc fuel) envs n cfg available db)
  unfolding warm_loop
  round-IsEnd fuel n available db more = elim (Bool-cases (leb cfg.warm_slots available)) [
    | inl full ↦ rw full (enough available db (leb→le _ _ full))
    | inr short ↦ elim (Bool-cases (envs n).count_fails) [
      | inl bad ↦ rw (short, bad) (by_error db)
      | inr counts ↦ elim (Bool-cases (leb cfg.max_hosts (count_machine_hosts db))) [
        | inl cap ↦ rw (short, counts, cap) (capped available db (leb→le _ _ cap))
        | inr room ↦ elim (Bool-cases (envs n).cert_fails) [
          | inl bad ↦ rw (short, counts, room, bad) (by_error db)
          | inr certified ↦ elim (Option-cases (envs n).conn_info) [
            | inl none_made ↦ rw (short, counts, room, certified, none_made) (by_error db)
            | inr (conn, made) ↦ elim (Bool-cases (envs n).save_host_fails) [
              | inl bad ↦ rw (short, counts, room, certified, made, bad) (by_error db)
              | inr saves ↦ elim (Bool-cases (envs n).ready_fails) [
                | inl bad ↦ rw (short, counts, room, certified, made, saves, bad) (by_error _)
                | inr readies ↦
                    rw (short, counts, room, certified, made, saves, readies) (more conn room)
              ]
            ]
          ]
        ]
      ]
    ]
  ]

  warm_loop-IsEnd :
      (fuel n available : ℕ) (db : Db)
      → cfg.max_hosts ≤ fuel + count_machine_hosts db
      → IsEnd cfg (warm_loop (suc fuel) envs n cfg available db)
  warm_loop-IsEnd zero n available db h =
      round-IsEnd zero n available db (λ conn room. absurd (out_of_room _ _ h room))
  warm_loop-IsEnd (suc fuel) n available db h = round-IsEnd (suc fuel) n available db (λ conn room.
      let grown = count-add_warm_host (envs n) cfg conn db in
      warm_loop-IsEnd fuel (suc n) (available + cfg.max_slots_per_host)
        (add_warm_host (envs n) cfg conn db) (omega arith))

  -- `MaintainWarmPool` ends after at most one round more than the cap of hosts, even where a host has no
  -- slots: with an error, with the slots that were asked for, or with as many hosts as there may be.
  pub maintain_warm_pool-IsEnd :
      (db : Db) → IsEnd cfg (maintain_warm_pool (suc cfg.max_hosts) envs cfg db)
  unfolding maintain_warm_pool
  maintain_warm_pool-IsEnd db = elim (Bool-cases (cfg.warm_slots == 0)) [
    | inl off ↦ rw off (enough 0 db (ground arith))
    | inr on ↦ rw on (warm_loop-IsEnd cfg.max_hosts 0 _ db (omega arith))
  ]
