-- ===== src/Store.antt =====
-- The rows of the SQL store (src/models): one record for each gorm model that the components
-- read or write, and `Db`, the tables together. An id or a code is a text; a time is a number of
-- nanoseconds. `CreatedAt` stands where the code reads it; `UpdatedAt` is read nowhere and left out,
-- and so is a preloaded association, which the code finds again through its id.
use elo_service.Prelude.{ℕ, String, Bool, List}
use elo_service.Prelude.Int.{ℤ}

pub data HostStatus : Type 0 where
  provisioning ready deleted : HostStatus

pub record MachineHost : Type 0 where
  pub id : String
  pub provider_id : String
  pub public_ip : String
  pub agent_port : ℕ
  pub agent_token : String
  pub status : HostStatus
  pub max_slots : ℕ
  pub allocated_ports : List ℕ
  pub public_hostname : String
  pub dns_record_id : String

pub data InstanceStatus : Type 0 where
  starting cooldown tearing_down deleted : InstanceStatus

pub record ServerInstance : Type 0 where
  pub id : String
  pub machine_host_id : String
  pub container_id : String
  pub auth_code : String
  pub game_ports : List ℕ
  pub host_ports : List ℕ
  pub status : InstanceStatus
  pub spectate_id : String

pub data MatchStatus : Type 0 where
  started cooldown : MatchStatus

-- `server_instance_id` is "" for a match with no container.
pub record Match : Type 0 where
  pub id : String
  pub game_id : String
  pub game_queue_id : String
  pub server_instance_id : String
  pub players : List String
  pub guest_ids : List String
  pub auth_code : String
  pub status : MatchStatus
  pub spectate_enabled : Bool
  pub created_at : ℕ

pub record MatchResult : Type 0 where
  pub id : String
  pub game_id : String
  pub players : List String
  pub guest_ids : List String
  pub winner_ids : List String
  pub result : String
  pub logs_key : String
  pub artifacts : List String
  pub created_at : ℕ

pub record Rating : Type 0 where
  pub player_id : String
  pub game_queue_id : String
  pub rating : ℤ

pub record GameQueue : Type 0 where
  pub id : String
  pub game_id : String
  pub name : String
  pub created_at : ℕ
  pub lobby_enabled : Bool
  pub lobby_size : ℤ
  pub matchmaking_strategy : String
  pub matchmaking_machine_name : String
  pub matchmaking_machine_ports : List ℕ
  pub elo_strategy : String
  pub default_rating : ℤ
  pub k_factor : ℤ
  pub metadata_enabled : Bool

pub record Game : Type 0 where
  pub id : String
  pub owner_id : String
  pub name : String
  pub description : String
  pub guests_allowed : Bool
  pub public_results : Bool
  pub public_match_logs : Bool
  pub spectate_enabled : Bool

pub record User : Type 0 where
  pub id : String
  pub username : String
  pub email : String
  pub password : String
  pub is_admin : Bool
  pub can_create_game : Bool
  pub is_deleted : Bool

pub record Db : Type 0 where
  pub hosts : List MachineHost
  pub instances : List ServerInstance
  pub matches : List Match
  pub results : List MatchResult
  pub ratings : List Rating
  pub queues : List GameQueue
  pub games : List Game
  pub users : List User

-- `status = 'ready'` and the other comparisons of a status column.
abbrev pub is_ready : HostStatus → Bool
is_ready HostStatus.ready = Bool.true
is_ready _ = Bool.false

abbrev pub is_deleted_host : HostStatus → Bool
is_deleted_host HostStatus.deleted = Bool.true
is_deleted_host _ = Bool.false

abbrev pub is_cooldown : InstanceStatus → Bool
is_cooldown InstanceStatus.cooldown = Bool.true
is_cooldown _ = Bool.false

abbrev pub is_tearing_down : InstanceStatus → Bool
is_tearing_down InstanceStatus.tearing_down = Bool.true
is_tearing_down _ = Bool.false

abbrev pub is_deleted : InstanceStatus → Bool
is_deleted InstanceStatus.deleted = Bool.true
is_deleted _ = Bool.false

abbrev pub is_started : MatchStatus → Bool
is_started MatchStatus.started = Bool.true
is_started _ = Bool.false
