-- ===== src/Matchmaking/Balance.antt =====
-- `StartMatch` and the ledger of ports: acquiring a host, placing the match, and both in a row.
use elo_service.Prelude.{
  ◌≡◌, refl, ap, ◌∙◌, inl, inr, String, Bool, false, Option, List, map, leb, nat_eq, string_eq,
  ◌==◌, length, contains, Bool-cases, Option-cases,
}
use elo_service.Store.{MachineHost, ServerInstance, GameQueue, Game, Db}
use elo_service.Hosts.{find_available_host, count_machine_hosts, create_machine_host}
use elo_service.Instances.{si_id, create_server_instance}
use elo_service.Matches.{match_started}
use elo_service.Ledger.{Ledger}
use elo_service.Ledger.Start.{start_instance-Ledger}
use elo_service.Matchmaking.{
  Config, StartEnv, StartResult-cases, World, notify, on_queue, publish_host, provision_host,
  acquire_host, persist_match, place_match, start_match,
}
use elo_service.Matchmaking.Cleanup.{place_match-Outcome}
use elo_service.Matchmaking.Start.{IsFresh, publish_host-AddsHost, AddsHost-Ledger}

-- The store after acquiring a host: the ledger holds, and the instances are as before.
abbrev Acquired : Db → Db → Type 0
Acquired db db' = Ledger db' × (db'.instances ≡ db.instances)

module _ (env : StartEnv) (cfg : Config) (queue : GameQueue) (players : List String)
    (w : World) where
  provision_host-Acquired :
      IsFresh env w.db → Ledger w.db → Acquired w.db (provision_host env cfg queue players w).1.db
  unfolding provision_host notify create_machine_host publish_host
  provision_host-Acquired fresh l = elim (Bool-cases env.cert_fails) [
    | inl bad ↦ rw bad (l, refl)
    | inr good ↦ elim (Option-cases env.conn_info) [
      | inl gone ↦ rw (good, gone) (l, refl)
      | inr (conn, e) ↦ elim (Bool-cases env.save_host_fails) [
        | inl bad ↦ rw (good, e, bad) (l, refl)
        | inr saved ↦
            let made =
              create_machine_host env.new_host_id conn.provider_id conn.public_ip conn.agent_token
                conn.agent_port cfg.max_slots_per_host w.db in
            let added =
              publish_host-AddsHost env made.0 w.db made.1 fresh.host
                (made.0, refl, refl, refl, refl) in
            rw (good, e, saved)
              (
                AddsHost-Ledger env.new_host_id w.db (publish_host env made.0 made.1) fresh.host
                    fresh.unused added l,
                added.4,
              )
      ]
    ]
  ]

  acquire_host-Acquired :
      (composite : String)
      → IsFresh env w.db
      → Ledger w.db
      → Acquired w.db (acquire_host env cfg queue composite players w).1.db
  unfolding acquire_host notify provision_host on_queue
  acquire_host-Acquired composite fresh l = elim (Bool-cases env.find_fails) [
    | inl bad ↦ rw bad (l, refl)
    | inr good ↦
        elim (Option-cases (
          find_available_host (length queue.matchmaking_machine_ports) cfg.port_range_start
            cfg.port_range_end w.db)) [
              | inr (host, e) ↦ rw (good, e) (l, refl)
              | inl full ↦ elim (Bool-cases env.count_fails) [
                | inl bad ↦ rw (good, full, bad) (l, refl)
                | inr counted ↦ elim (Bool-cases (leb cfg.max_hosts (count_machine_hosts w.db))) [
                  | inl capped ↦ rw (good, full, counted, capped) (l, refl)
                  | inr room ↦ rw (good, full, counted, room) (provision_host-Acquired fresh l)
                ]
              ]
            ]
  ]

module _ (env : StartEnv) (cfg : Config) (game : Game) (queue : GameQueue) (players : List String)
    (ov : Option Bool) where
  place_match-Ledger :
      (host : MachineHost) (w : World)
      → Ledger w.db
      → contains (map si_id w.db.instances) env.new_instance_id ≡ false
      → Ledger (place_match env cfg game queue players ov host w).1.db
  unfolding persist_match create_server_instance match_started
  place_match-Ledger host w l new =
      elim (place_match-Outcome env cfg game queue players ov host w l.host_ids) [
        | inl (e, failed, same) ↦ rw same l
        | inr (token, container, ports, done, finished, e) ↦
            let si =
              (create_server_instance env.new_instance_id host.id container token env.spectate_id
                queue.matchmaking_machine_ports ports w.db).0 in
            let started =
              start_instance-Ledger (length queue.matchmaking_machine_ports) cfg.port_range_start
                cfg.port_range_end si w.db l done refl new in
            rw e (record {
              host_ids = started.host_ids;
              instance_ids = started.instance_ids;
              balanced = started.balanced;
            })
      ]

  -- On every branch of `StartMatch`, errors included, the ledger is kept: the allocated ports of
  -- each host that is not deleted are exactly the ports of the instances active on it, each held
  -- once. The keys that the store generates are new.
  pub start_match-Ledger :
      (composite : String) (w : World)
      → IsFresh env w.db
      → Ledger w.db
      → Ledger (start_match env cfg game queue composite players ov w).1.db
  unfolding start_match notify
  start_match-Ledger composite w fresh l =
      elim (Bool-cases (length queue.matchmaking_machine_ports == 0)) [
        | inl bad ↦ rw bad l
        | inr good ↦
            let acquired = acquire_host env cfg queue composite players w in
            let (kept, same) = acquire_host-Acquired env cfg queue players w composite fresh l in
            elim (StartResult-cases acquired.0) [
              | inl (e, failed) ↦ rw (good, failed) kept
              | inr (host, found) ↦
                  rw (good, found)
                    (place_match-Ledger host acquired.1 kept (
                      ap (λ (r : List ServerInstance). contains (map si_id r) env.new_instance_id)
                        same
                      ∙ fresh.instance_row))
            ]
      ]
