-- ===== src/GameQueues.antt =====
-- models/game_queue.go: the matchmaking pools of a game, their defaults, their updates, and the default
-- pool of a game. Port numbers are natural numbers.
pub mod Config
pub mod Default
use Prim.Native.Nat.{Ordering}
use Prim.Native.String.{compare as compare_strings}
use elo_service.Prelude.{
  ◌≡◌, ◌⊎◌, inl, inr, refl, ℕ, suc, String, Bool, true, false, not, ◌&&◌, ◌||◌, Option, none, some,
  List, [], ◌∷◌, ◌++◌, nat_eq, string_eq, ltb, leb, if◌then◌else◌, ◌==◌, length, find_by, any_by,
  filter_by, update_by, contains,
}
use elo_service.Prelude.Int.{ℤ, pos, negsuc}
use elo_service.Store.{GameQueue, Rating, Db}

pub data QueueConfigError : Type 0 where
  invalid_matchmaking_strategy invalid_elo_strategy : String → QueueConfigError
  -- gorm.ErrRecordNotFound, "queue does not belong to this game", ErrLastQueue
  record_not_found other_game last_queue : QueueConfigError
  -- the unique index on the game and the name
  duplicate_name : QueueConfigError

pub data QueueConfig (A : Type 0) : Type 0 where
  ok : A → QueueConfig A
  err : QueueConfigError → QueueConfig A

pub QueueConfig-cases :
    {A : Type 0} (r : QueueConfig A)
    → ((e : QueueConfigError) × (r ≡ err e)) ⊎ ((a : A) × (r ≡ ok a))
QueueConfig-cases (ok a) = inr (a, refl)
QueueConfig-cases (err e) = inl (e, refl)

abbrev pub matchmaking_strategies : List String
matchmaking_strategies = "random" ∷ "rating" ∷ []

abbrev pub elo_strategies : List String
elo_strategies = "unranked" ∷ "classic" ∷ []

pub record CreateGameQueueParams : Type 0 where
  pub name : String
  pub lobby_enabled : Option Bool
  pub lobby_size : ℤ
  pub matchmaking_strategy : String
  pub matchmaking_machine_name : String
  pub matchmaking_machine_ports : List ℕ
  pub elo_strategy : String
  pub default_rating : ℤ
  pub k_factor : ℤ
  pub metadata_enabled : Option Bool

abbrev pub is_zero : ℤ → Bool
is_zero (pos n) = n == 0
is_zero (negsuc n) = false

abbrev pub text_or : String → String → String
text_or s default = if s == "" then default else s

abbrev pub int_or : ℤ → ℤ → ℤ
int_or n default = if is_zero n then default else n

abbrev pub value_or {ℓ} : {A : Type ℓ} → Option A → A → A
value_or none default = default
value_or (some a) default = a

unfoldable pub apply_queue_defaults : CreateGameQueueParams → QueueConfig CreateGameQueueParams
apply_queue_defaults p =
    let strategy = text_or p.matchmaking_strategy "random" in
    let elo = text_or p.elo_strategy "unranked" in
    if not (contains matchmaking_strategies strategy)
    then err (invalid_matchmaking_strategy strategy)
    else if not (contains elo_strategies elo)
    then err (invalid_elo_strategy elo)
    else ok (record p {
      name = text_or p.name "primary";
      matchmaking_machine_name =
          text_or p.matchmaking_machine_name "docker.io/andy98725/example-server:latest";
      matchmaking_strategy = strategy;
      elo_strategy = elo;
      lobby_size = int_or p.lobby_size (pos 2);
      k_factor = int_or p.k_factor (pos 32);
      default_rating = int_or p.default_rating (pos 1000);
    })

-- Is the name taken by another queue of the game?
abbrev pub is_name_taken : String → String → String → Db → Bool
is_name_taken i game_id name db =
    any_by (λ (x : GameQueue). not (x.id == i) && x.game_id == game_id && x.name == name) db.queues

-- The id, the game and the time are what the caller and the store fill in.
unfoldable pub queue_from_params : String → String → ℕ → CreateGameQueueParams → GameQueue
queue_from_params new_id game_id now p = record {
  id = new_id;
  game_id = game_id;
  name = p.name;
  created_at = now;
  lobby_enabled = value_or p.lobby_enabled true;
  lobby_size = p.lobby_size;
  matchmaking_strategy = p.matchmaking_strategy;
  matchmaking_machine_name = p.matchmaking_machine_name;
  matchmaking_machine_ports = p.matchmaking_machine_ports;
  elo_strategy = p.elo_strategy;
  default_rating = p.default_rating;
  k_factor = p.k_factor;
  metadata_enabled = value_or p.metadata_enabled false;
}

unfoldable pub create_game_queue :
    String → ℕ → String → CreateGameQueueParams → Db → QueueConfig GameQueue × Db
create_game_queue new_id now game_id params db = elim (apply_queue_defaults params) [
  | err e ↦ (err e, db)
  | ok p ↦
      let q = queue_from_params new_id game_id now p in
      if is_name_taken new_id game_id q.name db
      then (err duplicate_name, db)
      else (ok q, record db { queues = db.queues ++ (q ∷ []) })
]

unfoldable pub get_game_queue : String → Db → Option GameQueue
get_game_queue i db = find_by (λ q. q.id == i) db.queues

-- `ORDER BY created_at ASC, id ASC`: may `q` stand before `r`?
abbrev pub older : GameQueue → GameQueue → Bool
older q r =
    ltb q.created_at r.created_at
    || (q.created_at == r.created_at
        && elim (compare_strings q.id r.id) [ Ordering.gt ↦ false | _ ↦ true ])

abbrev pub insert_queue : GameQueue → List GameQueue → List GameQueue
insert_queue q [] = q ∷ []
insert_queue q (r ∷ rs) = let rest = insert_queue q rs in if older q r then q ∷ r ∷ rs else r ∷ rest

unfoldable pub sort_queues : List GameQueue → List GameQueue
sort_queues [] = []
sort_queues (q ∷ qs) = insert_queue q (sort_queues qs)

abbrev pub is_of_game : String → GameQueue → Bool
is_of_game game_id q = q.game_id == game_id

unfoldable pub get_game_queues_for_game : String → Db → List GameQueue
unfolding sort_queues
get_game_queues_for_game game_id db = sort_queues (filter_by (is_of_game game_id) db.queues)

-- The first row of the same order: the least of the rows.
unfoldable pub oldest : List GameQueue → Option GameQueue
oldest [] = none
oldest (q ∷ qs) = elim (oldest qs) [ none ↦ some q | some r ↦ some (if older q r then q else r) ]

unfoldable pub get_default_queue_for_game : String → Db → Option GameQueue
unfolding oldest
get_default_queue_for_game game_id db = oldest (filter_by (is_of_game game_id) db.queues)

unfoldable pub resolve_queue : String → String → Db → QueueConfig GameQueue
unfolding get_default_queue_for_game get_game_queue
resolve_queue game_id queue_id db =
    if queue_id == ""
    then elim (get_default_queue_for_game game_id db) [
      | none ↦ err record_not_found
      | some q ↦ ok q
    ]
    else elim (get_game_queue queue_id db) [
      | none ↦ err record_not_found
      | some q ↦ if not (q.game_id == game_id) then err other_game else ok q
    ]

-- An empty text, a zero and a null leave the field as it is.
pub record UpdateGameQueueParams : Type 0 where
  pub name : String
  pub lobby_enabled : Option Bool
  pub lobby_size : ℤ
  pub matchmaking_strategy : String
  pub matchmaking_machine_name : String
  pub matchmaking_machine_ports : Option (List ℕ)
  pub elo_strategy : String
  pub default_rating : ℤ
  pub k_factor : ℤ
  pub metadata_enabled : Option Bool

unfoldable pub apply_queue_update : GameQueue → UpdateGameQueueParams → QueueConfig GameQueue
apply_queue_update q p =
    if not (p.matchmaking_strategy == "")
      && not (contains matchmaking_strategies p.matchmaking_strategy)
    then err (invalid_matchmaking_strategy p.matchmaking_strategy)
    else if not (p.elo_strategy == "") && not (contains elo_strategies p.elo_strategy)
    then err (invalid_elo_strategy p.elo_strategy)
    else ok (record q {
      name = text_or p.name q.name;
      lobby_enabled = value_or p.lobby_enabled q.lobby_enabled;
      lobby_size = int_or p.lobby_size q.lobby_size;
      matchmaking_strategy = text_or p.matchmaking_strategy q.matchmaking_strategy;
      matchmaking_machine_name = text_or p.matchmaking_machine_name q.matchmaking_machine_name;
      matchmaking_machine_ports = value_or p.matchmaking_machine_ports q.matchmaking_machine_ports;
      elo_strategy = text_or p.elo_strategy q.elo_strategy;
      default_rating = int_or p.default_rating q.default_rating;
      k_factor = int_or p.k_factor q.k_factor;
      metadata_enabled = value_or p.metadata_enabled q.metadata_enabled;
    })

unfoldable pub update_game_queue : String → UpdateGameQueueParams → Db → QueueConfig GameQueue × Db
unfolding get_game_queue apply_queue_update
update_game_queue queue_id params db = elim (get_game_queue queue_id db) [
  | none ↦ (err record_not_found, db)
  | some q ↦ elim (apply_queue_update q params) [
    | err e ↦ (err e, db)
    | ok q' ↦
        if is_name_taken q'.id q'.game_id q'.name db
        then (err duplicate_name, db)
        else (ok q', record db { queues = update_by (λ x. x.id == q'.id) (λ x. q') db.queues })
  ]
]

-- The reads of DeleteGameQueue, which no transaction ties to its write: the queue, and the count of its game's.
unfoldable pub check_not_last : String → Db → QueueConfig (Unit {0})
unfolding get_game_queue
check_not_last queue_id db = elim (get_game_queue queue_id db) [
  | none ↦ err record_not_found
  | some q ↦
      if leb (length (filter_by (is_of_game q.game_id) db.queues)) 1 then err last_queue else ok tt
]

-- Its write. The ratings of the queue go with it.
unfoldable pub remove_queue_row : String → Db → Db
remove_queue_row queue_id db = record db {
  queues = filter_by (λ x. not (x.id == queue_id)) db.queues;
  ratings = filter_by (λ r. not (r.game_queue_id == queue_id)) db.ratings;
}

-- A call that no other one comes between.
unfoldable pub delete_game_queue : String → Db → QueueConfig (Unit {0}) × Db
unfolding check_not_last remove_queue_row
delete_game_queue queue_id db = elim (check_not_last queue_id db) [
  | err e ↦ (err e, db)
  | ok done ↦ (ok tt, remove_queue_row queue_id db)
]
