-- ===== src/Matchmaking/Cleanup.antt =====
-- What `place_match` leaves behind: nothing, or an instance and its match.
use elo_service.Prelude.{
  ℕ, ◌≡◌, ap, ◌⊎◌, inl, inr, String, Bool, Option, List, map, string_eq, length, IsNodup,
  Bool-cases, Option-cases,
}
use elo_service.Store.{MachineHost, GameQueue, Game, Db}
use elo_service.Hosts.{PortResult, PortError, PortResult-cases, allocate_ports, free_ports}
use elo_service.Hosts.RoundTrip.{free_ports-allocate_ports}
use elo_service.Matchmaking.{
  Config, StartEnv, StartError, StartResult, ok, err, World, fail, notify, no_ports_available,
  token_failed, container_failed, persist_failed, persist_match, launch, place_match,
}

module _ (env : StartEnv) (cfg : Config) (game : Game) (queue : GameQueue) (players : List String)
    (ov : Option Bool) (host : MachineHost) (w : World) where
  abbrev pub allocation : PortResult (List ℕ) × Db
  allocation =
      allocate_ports host.id (length queue.matchmaking_machine_ports) cfg.port_range_start
        cfg.port_range_end w.db

  abbrev pub placed : StartResult String × World
  placed = place_match env cfg game queue players ov host w

  -- It failed and the store is as before, or it wrote the rows on the ports that it was given.
  abbrev pub Outcome : Type 0
  Outcome =
      ((e : StartError) × (placed.0 ≡ err e) × (placed.1.db ≡ w.db))
      ⊎ ((token container : String) × (ports : List ℕ) × (allocation.0 ≡ PortResult.ok ports)
          × (placed.0 ≡ ok env.new_match_id)
          × (placed.1.db
              ≡ persist_match env game queue host token container ports players ov allocation.1))

  place_match-failed :
      (e : PortError)
      → allocation.0 ≡ PortResult.err e
      → placed ≡ fail no_ports_available queue.id players w
  unfolding place_match
  place_match-failed e h = rw (h, place_match)

  place_match-launch :
      (ports : List ℕ)
      → allocation.0 ≡ PortResult.ok ports
      → placed ≡ launch env game queue players ov host ports (record w { db = allocation.1 })
  unfolding place_match
  place_match-launch ports h = rw (h, place_match)

  launched-Outcome :
      (ports : List ℕ)
      → allocation.0 ≡ PortResult.ok ports
      → (free_ports host.id ports allocation.1).1 ≡ w.db
      → placed ≡ launch env game queue players ov host ports (record w { db = allocation.1 })
      → Outcome
  unfolding launch notify
  launched-Outcome ports done back run = elim (Option-cases env.auth_token) [
    | inl no_token ↦ inl (token_failed, rw (run, no_token), rw (run, no_token) back)
    | inr (token, e) ↦ elim (Option-cases env.container_id) [
      | inl no_container ↦
          inl (container_failed, rw (run, e, no_container), rw (run, e, no_container) back)
      | inr (container, e') ↦ elim (Bool-cases env.persist_fails) [
        | inl failed ↦ inl (persist_failed, rw (run, e, e', failed), rw (run, e, e', failed) back)
        | inr written ↦
            inr (token, container, ports, done, rw (run, e, e', written), rw (run, e, e', written))
      ]
    ]
  ]

  -- Whatever fails in `place_match`, the error is reported and the store is as it was before the call;
  -- otherwise the instance and the match stand on the allocated ports. Host ids are distinct.
  pub place_match-Outcome : IsNodup (map (λ (h : MachineHost). h.id) w.db.hosts) → Outcome
  unfolding notify
  place_match-Outcome u = elim (PortResult-cases allocation.0) [
    | inl (e, failed) ↦
        let run = place_match-failed e failed in inl (no_ports_available, rw run, rw run)
    | inr (ports, done) ↦
        launched-Outcome ports done
          (ap (λ (r : Bool × Db). r.1)
            (free_ports-allocate_ports host.id (length queue.matchmaking_machine_ports)
              cfg.port_range_start cfg.port_range_end w.db u done))
          (place_match-launch ports done)
  ]
