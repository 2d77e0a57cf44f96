-- ===== src/Matchmaking.antt =====
-- worker/matchmaking/pairPlayers.go: starting a match for a group of players, and the FIFO pairing of
-- one queue. What the provider, the host agent, the DNS service and the random generators answer in
-- one call of `StartMatch` is `StartEnv`; the text of a notification is kept as a value.
pub mod Start
pub mod Cleanup
pub mod Balance
pub mod Capacity
pub mod Join
pub mod Leave
pub mod Rating
pub mod Walk
use elo_service.Prelude.{
  ℕ, zero, suc, ◌≡◌, refl, ◌⊎◌, inl, inr, String, Bool, true, false, not, ◌&&◌, ◌||◌, Option, none,
  some, List, [], ◌∷◌, ◌++◌, map, nat_eq, string_eq, ltb, leb, if◌then◌else◌, ◌==◌, length,
}
use elo_service.Prelude.Int.{ℤ, pos, ltb_ℤ}
use elo_service.Store.{MachineHost, ServerInstance, Match, GameQueue, Game, Db}
use elo_service.Hosts.{
  PortResult, find_available_host, count_machine_hosts, create_machine_host, set_machine_host_ready,
  set_machine_host_hostname, allocate_ports, free_ports,
}
use elo_service.Instances.{create_server_instance}
use elo_service.Matches.{match_started}
use elo_service.Queue
use elo_service.Queue.{
  PlayerQueue, put_key, push_players_to_queue, pop_players_from_queue, game_queue_size,
}

pub record Config : Type 0 where
  pub max_hosts : ℕ
  pub max_slots_per_host : ℕ
  pub warm_slots : ℕ
  pub port_range_start : ℕ
  pub port_range_end : ℕ

pub record ConnInfo : Type 0 where
  pub provider_id : String
  pub public_ip : String
  pub agent_token : String
  pub agent_port : ℕ

-- The answers from outside in one call. A Boolean `..._fails` is an error of the store; `none` an error
-- of the service; the ids are the keys that the store will generate.
pub record StartEnv : Type 0 where
  pub now : ℕ
  pub find_fails : Bool
  pub count_fails : Bool
  pub cert_fails : Bool
  pub conn_info : Option ConnInfo
  pub save_host_fails : Bool
  pub ready_fails : Bool
  pub dns_record : Option (String × String)
  pub auth_token : Option String
  pub spectate_id : String
  pub container_id : Option String
  pub persist_fails : Bool
  pub new_host_id : String
  pub new_instance_id : String
  pub new_match_id : String

pub data StartError : Type 0 where
  no_ports_configured find_failed count_failed at_capacity cert_unavailable provision_failed :
      StartError
  save_failed no_ports_available token_failed container_failed persist_failed : StartError

pub data StartResult (A : Type 0) : Type 0 where
  ok : A → StartResult A
  err : StartError → StartResult A

pub StartResult-cases :
    {A : Type 0} (r : StartResult A) → ((e : StartError) × (r ≡ err e)) ⊎ ((a : A) × (r ≡ ok a))
StartResult-cases (ok a) = inr (a, refl)
StartResult-cases (err e) = inl (e, refl)

pub data Payload : Type 0 where
  error : StartError → Payload
  match_ready : String → Payload

-- `published` holds the messages on the `match_ready` channels: the queue, the player, the message.
pub record World : Type 0 where
  pub db : Db
  pub queues : String → PlayerQueue
  pub published : List (String × String × Payload)

unfoldable pub notify : String → List String → Payload → World → World
notify queue_id players payload w = record w {
  published = w.published ++ map (λ (p : String). (queue_id, p, payload)) players;
}

unfoldable pub on_queue : String → PlayerQueue → World → World
on_queue composite q w = record w { queues = put_key composite q w.queues }

-- An error that every player is told.
abbrev pub fail : {A : Type 0} → StartError → String → List String → World → StartResult A × World
fail e queue_id players w = (err e, notify queue_id players (error e) w)

-- The host row is ready, and has its hostname, as far as these writes succeed; their errors are logged.
unfoldable pub publish_host : StartEnv → MachineHost → Db → Db
unfolding set_machine_host_ready set_machine_host_hostname
publish_host env host db =
    let ready = if env.ready_fails then db else set_machine_host_ready host.id db in
    elim env.dns_record [
      | none ↦ ready
      | some (hostname, record_id) ↦ set_machine_host_hostname host.id hostname record_id ready
    ]

-- A new host: the certificate for it is read, its VM is created, and its row is written.
unfoldable pub provision_host :
    StartEnv → Config → GameQueue → List String → World → StartResult MachineHost × World
provision_host env cfg queue players w =
    if env.cert_fails then fail cert_unavailable queue.id players w else elim env.conn_info [
      | none ↦ fail provision_failed queue.id players w
      | some conn ↦
          if env.save_host_fails
          then fail save_failed queue.id players w
          else let (host, saved) =
              create_machine_host env.new_host_id conn.provider_id conn.public_ip conn.agent_token
                conn.agent_port cfg.max_slots_per_host w.db in
            (ok host, record w { db = publish_host env host saved })
    ]

-- The first part of `StartMatch`: a host with room, or a new one.
unfoldable pub acquire_host :
    StartEnv → Config → GameQueue → String → List String → World → StartResult MachineHost × World
acquire_host env cfg queue composite players w =
    if env.find_fails
    then fail find_failed queue.id players w
    else elim (find_available_host (length queue.matchmaking_machine_ports) cfg.port_range_start
        cfg.port_range_end w.db) [
          | some host ↦ (ok host, w)
          | none ↦
              if env.count_fails
              then fail count_failed queue.id players w
              else if leb cfg.max_hosts (count_machine_hosts w.db)
              then (
                err at_capacity,
                on_queue composite (push_players_to_queue env.now players (w.queues composite)) w,
              )
              else provision_host env cfg queue players w
        ]

-- The game's flag is the floor: the override can only switch it off.
unfoldable pub resolve_spectate : Bool → Option Bool → Bool
resolve_spectate enabled (some false) = false
resolve_spectate enabled _ = enabled

-- The transaction at the end: the instance and the match that refers to it.
unfoldable pub persist_match :
    StartEnv
    → Game
    → GameQueue
    → MachineHost
    → String
    → String
    → List ℕ
    → List String
    → Option Bool
    → Db
    → Db
persist_match env game queue host auth_token container_id host_ports players spectate_override db =
    let (si, written) =
      create_server_instance env.new_instance_id host.id container_id auth_token env.spectate_id
        queue.matchmaking_machine_ports host_ports db in
    let spectate = resolve_spectate game.spectate_enabled spectate_override in
    (match_started env.new_match_id env.now game.id queue.id si.id auth_token players spectate
      written).1

-- After the ports were allocated: a token, a container, and the rows. Whatever fails releases the ports.
unfoldable pub launch :
    StartEnv
    → Game
    → GameQueue
    → List String
    → Option Bool
    → MachineHost
    → List ℕ
    → World
    → StartResult String × World
launch env game queue players spectate_override host host_ports w =
    let released : World = record w { db = (free_ports host.id host_ports w.db).1 } in
    elim env.auth_token [
      | none ↦ fail token_failed queue.id players released
      | some auth_token ↦ elim env.container_id [
        | none ↦ fail container_failed queue.id players released
        | some container_id ↦
            if env.persist_fails then fail persist_failed queue.id players released else (
              ok env.new_match_id,
              notify queue.id players (match_ready env.new_match_id) (record w {
                db =
                    persist_match env game queue host auth_token container_id host_ports players
                      spectate_override w.db;
              }),
            )
      ]
    ]

-- The second part of `StartMatch`, on the host.
unfoldable pub place_match :
    StartEnv
    → Config
    → Game
    → GameQueue
    → List String
    → Option Bool
    → MachineHost
    → World
    → StartResult String × World
place_match env cfg game queue players spectate_override host w =
    let (allocated, db) =
      allocate_ports host.id (length queue.matchmaking_machine_ports) cfg.port_range_start
        cfg.port_range_end w.db in
    elim allocated [
      | PortResult.err e ↦ fail no_ports_available queue.id players w
      | PortResult.ok host_ports ↦
          launch env game queue players spectate_override host host_ports (record w { db = db })
    ]

unfoldable pub start_match :
    StartEnv
    → Config
    → Game
    → GameQueue
    → String
    → List String
    → Option Bool
    → World
    → StartResult String × World
start_match env cfg game queue composite players spectate_override w =
    if length queue.matchmaking_machine_ports == 0
    then fail no_ports_configured queue.id players w
    else let (acquired, w') = acquire_host env cfg queue composite players w in
      elim acquired [
        | err e ↦ (err e, w')
        | ok host ↦ place_match env cfg game queue players spectate_override host w'
      ]

-- How the loop of `pairFIFO` ends: the Boolean is `paired`. `running` is out of fuel.
pub data Loop : Type 0 where
  finished : Bool → World → Loop
  running : Loop

abbrev pub is_started_ok : {A : Type 0} → StartResult A → Bool
is_started_ok (ok _) = true
is_started_ok (err _) = false

-- `queueSize >= int64(queue.LobbySize)`
abbrev pub is_enough : GameQueue → ℕ → Bool
is_enough queue n = not (ltb_ℤ (pos n) queue.lobby_size)

-- `envs n` is what the outside answers to the call of `StartMatch` in round n.
unfoldable pub pair_fifo :
    ℕ → (ℕ → StartEnv) → ℕ → Config → Game → GameQueue → String → Bool → World → Loop
pair_fifo zero envs n cfg game queue composite paired w = running
pair_fifo (suc fuel) envs n cfg game queue composite paired w =
    let (popped, rest) = pop_players_from_queue queue.lobby_size (w.queues composite) in
    if not (is_enough queue (game_queue_size (w.queues composite)))
    then finished paired w
    else elim popped [
      | Queue.err e ↦ finished paired w
      | Queue.ok players ↦
          let taken = on_queue composite rest w in
          let (result, w') = start_match (envs n) cfg game queue composite players none taken in
          let more =
            pair_fifo fuel envs (suc n) cfg game queue composite (paired || is_started_ok result)
              w' in
          if not (is_enough queue (length players))
          then finished paired (
              on_queue composite
                (push_players_to_queue (envs n).now players (taken.queues composite)) taken)
          else more
    ]
