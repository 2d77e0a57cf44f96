-- ===== src/Examples/Fixtures.antt =====
-- A host with one running match, and the answers of the outside to one more.
use elo_service.Prelude.{String, refl, true, false, none, some, [], ◌∷◌, arith, nat_eq, string_eq}
use elo_service.Prelude.Int.{ℤ, pos, ◌+ℤ◌, ◌-ℤ◌}
use elo_service.Store.{
  MachineHost, HostStatus, ServerInstance, InstanceStatus, Match, MatchStatus, GameQueue, Game,
  User, Db,
}
use elo_service.Ledger.{IsBalanced, Ledger}
use elo_service.Queue.{PlayerQueue}
use elo_service.Elo.{FloatOps}
use elo_service.Matchmaking.{Config, StartEnv, World}

abbrev pub one_host : MachineHost
one_host = record {
  id = "h1";
  provider_id = "vm1";
  public_ip = "10.0.0.1";
  agent_port = 8080;
  agent_token = "secret";
  status = HostStatus.ready;
  max_slots = 2;
  allocated_ports = 7000 ∷ [];
  public_hostname = "";
  dns_record_id = "";
}

abbrev pub one_instance : ServerInstance
one_instance = record {
  id = "s1";
  machine_host_id = "h1";
  container_id = "c1";
  auth_code = "a1";
  game_ports = 9000 ∷ [];
  host_ports = 7000 ∷ [];
  status = InstanceStatus.starting;
  spectate_id = "x1";
}

abbrev pub one_match : Match
one_match = record {
  id = "m1";
  game_id = "g1";
  game_queue_id = "q1";
  server_instance_id = "s1";
  players = "ann" ∷ "bob" ∷ [];
  guest_ids = [];
  auth_code = "a1";
  status = MatchStatus.started;
  spectate_enabled = true;
  created_at = 1;
}

abbrev pub one_queue : GameQueue
one_queue = record {
  id = "q1";
  game_id = "g1";
  name = "primary";
  created_at = 0;
  lobby_enabled = true;
  lobby_size = pos 2;
  matchmaking_strategy = "random";
  matchmaking_machine_name = "image";
  matchmaking_machine_ports = 9000 ∷ [];
  elo_strategy = "classic";
  default_rating = pos 1000;
  k_factor = pos 32;
  metadata_enabled = false;
}

abbrev pub one_game : Game
one_game = record {
  id = "g1";
  owner_id = "owner";
  name = "chess";
  description = "";
  guests_allowed = true;
  public_results = true;
  public_match_logs = false;
  spectate_enabled = true;
}

abbrev pub member : String → User
member id = record {
  id = id;
  username = id;
  email = id;
  password = "#pw";
  is_admin = false;
  can_create_game = false;
  is_deleted = false;
}

abbrev pub one_db : Db
one_db = record {
  hosts = one_host ∷ [];
  instances = one_instance ∷ [];
  matches = one_match ∷ [];
  results = [];
  ratings = [];
  queues = one_queue ∷ [];
  games = one_game ∷ [];
  users = member "ann" ∷ member "bob" ∷ [];
}

abbrev pub two_waiting : PlayerQueue
two_waiting = record { players = "cat" ∷ "dan" ∷ []; ttl = λ p. some 5; joined = λ p. some 0 }

abbrev pub one_world : World
one_world = record { db = one_db; queues = λ k. two_waiting; published = [] }

abbrev pub one_config : Config
one_config = record {
  max_hosts = 1;
  max_slots_per_host = 2;
  warm_slots = 1;
  port_range_start = 7000;
  port_range_end = 7003;
}

-- All the services answer.
abbrev pub good_env : StartEnv
good_env = record {
  now = 2;
  find_fails = false;
  count_fails = false;
  cert_fails = false;
  conn_info = some (record {
    provider_id = "vm2";
    public_ip = "10.0.0.2";
    agent_token = "other";
    agent_port = 8080;
  });
  save_host_fails = false;
  ready_fails = false;
  dns_record = none;
  auth_token = some "a2";
  spectate_id = "x2";
  container_id = some "c2";
  persist_fails = false;
  new_host_id = "h2";
  new_instance_id = "s2";
  new_match_id = "m2";
}

one_host-IsBalanced : IsBalanced (one_instance ∷ []) one_host
one_host-IsBalanced up q = ground arith

pub one_db-Ledger : Ledger one_db
one_db-Ledger = record {
  host_ids = (refl, tt);
  instance_ids = (refl, tt);
  balanced = (one_host-IsBalanced, tt);
}

-- Integers in place of floats: each division gives the dividend.
abbrev pub int_floats : FloatOps
int_floats = record {
  F = ℤ;
  of_int = λ n. n;
  half = pos 0;
  add = λ a b. a +ℤ b;
  sub = λ a b. a -ℤ b;
  mul = λ a b. a;
  div = λ a b. a;
  pow = λ a b. b;
  round = λ n. n;
}
