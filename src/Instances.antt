-- ===== src/Instances.antt =====
-- models/server_instance.go: the rows of the running containers and their lifecycle column.
use elo_service.Prelude.{
  ℕ, ◌+◌, String, Bool, ◌&&◌, Option, none, some, List, [], ◌∷◌, ◌++◌, nat_eq, string_eq, leb,
  if◌then◌else◌, ◌==◌, length, find_by, filter_by, update_by,
}
use elo_service.Store.{
  ServerInstance, InstanceStatus, Match, MatchResult, Db, is_cooldown, is_tearing_down,
}

abbrev pub si_id : ServerInstance → String
si_id si = si.id

abbrev pub with_status : InstanceStatus → ServerInstance → ServerInstance
with_status s si = record si { status = s }

unfoldable pub update_instances :
    (ServerInstance → Bool) → (ServerInstance → ServerInstance) → Db → Db
update_instances p f db = record db { instances = update_by p f db.instances }

-- `id` is the primary key that the store generates.
unfoldable pub create_server_instance :
    String → String → String → String → String → List ℕ → List ℕ → Db → ServerInstance × Db
create_server_instance new_id host_id container_id auth_code spectate_id game_ports host_ports db =
    let si : ServerInstance = record {
      id = new_id;
      machine_host_id = host_id;
      container_id = container_id;
      auth_code = auth_code;
      game_ports = game_ports;
      host_ports = host_ports;
      status = InstanceStatus.starting;
      spectate_id = spectate_id;
    } in
    (si, record db { instances = db.instances ++ (si ∷ []) })

unfoldable pub get_server_instance : String → Db → Option ServerInstance
get_server_instance i db = find_by (λ si. si.id == i) db.instances

unfoldable pub set_server_instance_status : String → InstanceStatus → Db → Db
unfolding update_instances
set_server_instance_status i s = update_instances (λ si. si.id == i) (with_status s)

-- `WHERE id = ? AND status = 'cooldown'`; the Boolean is `RowsAffected == 1`.
unfoldable pub claim_cooldown_instance : String → Db → Bool × Db
unfolding update_instances
claim_cooldown_instance i db =
    let claimable : ServerInstance → Bool = λ si. si.id == i && is_cooldown si.status in
    (
      length (filter_by claimable db.instances) == 1,
      update_instances claimable (with_status InstanceStatus.tearing_down) db,
    )

-- `WHERE id = ? AND status = 'tearing_down'`
unfoldable pub revert_tearing_down_to_cooldown : String → Db → Db
unfolding update_instances
revert_tearing_down_to_cooldown i =
    update_instances (λ si. si.id == i && is_tearing_down si.status)
      (with_status InstanceStatus.cooldown)

pub record CooldownEntry : Type 0 where
  pub instance_row : ServerInstance
  pub match_row : Match
  pub result_ended : ℕ

-- The join of the query: instances, their matches, the results of these. `created_at <= now - duration`
-- is written without a negative number.
results_of : ℕ → ℕ → ServerInstance → Match → List MatchResult → List (String × ℕ)
results_of now duration si m [] = []
results_of now duration si m (r ∷ rs) =
    let rest = results_of now duration si m rs in
    if r.id == m.id && is_cooldown si.status && leb (r.created_at + duration) now
    then (si.id, r.created_at) ∷ rest
    else rest

matches_of : ℕ → ℕ → ServerInstance → List MatchResult → List Match → List (String × ℕ)
matches_of now duration si rs [] = []
matches_of now duration si rs (m ∷ ms) =
    (if m.server_instance_id == si.id then results_of now duration si m rs else [])
    ++ matches_of now duration si rs ms

unfoldable pub cooldown_rows : ℕ → ℕ → List ServerInstance → Db → List (String × ℕ)
unfolding results_of matches_of
cooldown_rows now duration [] db = []
cooldown_rows now duration (si ∷ sis) db =
    matches_of now duration si db.results db.matches ++ cooldown_rows now duration sis db

-- The second loop: reads the instance and its match again, and skips a row that it does not find.
unfoldable pub load_entries : List (String × ℕ) → Db → List CooldownEntry
unfolding get_server_instance
load_entries [] db = []
load_entries ((i, ended) ∷ rows) db =
    let rest = load_entries rows db in
    elim (get_server_instance i db) [
      | none ↦ rest
      | some si ↦ elim (find_by (λ (m : Match). m.server_instance_id == i) db.matches) [
        | none ↦ rest
        | some m ↦ record { instance_row = si; match_row = m; result_ended = ended } ∷ rest
      ]
    ]

unfoldable pub list_cooldown_instances_ready : ℕ → ℕ → Db → List CooldownEntry
unfolding cooldown_rows load_entries
list_cooldown_instances_ready now duration db =
    load_entries (cooldown_rows now duration db.instances db) db
