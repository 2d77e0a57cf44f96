-- ===== src/Games/Queues.antt =====
-- Games and queues as they come and go: does every game have a queue?
use mathlib.Core.Path.{subst}
use elo_service.Prelude.{
  Option, none, some, ℕ, ◌≤◌, ◌≡◌, refl, sym, ap, ◌∙◌, inl, inr, String, Bool, false, not, ◌&&◌,
  List, [], ◌∷◌, ◌++◌, map, arith, nat_eq, string_eq, ◌==◌, length, filter_by, contains, All,
  All-map, All-always, All-concat, Bool-cases, Option-cases, eq_self, filter_by-cong,
  filter_by-filter_by,
}
use elo_service.Store.{GameQueue, User, Db}
use elo_service.Matches.{get_game}
use elo_service.GameQueues.{
  QueueConfig-cases, CreateGameQueueParams, is_name_taken, create_game_queue, is_of_game,
  apply_queue_defaults, queue_from_params, get_game_queue, check_not_last, remove_queue_row,
  delete_game_queue, QueueConfig,
}
use elo_service.GameQueues.Default.{HasQueue, delete_game_queue-HasQueue}
use elo_service.Games.{CreateGameParams, is_game_name_taken, create_game, delete_game}
use elo_service.Games.Stock.{
  IsStocked, IsNodup-filter_ids, All-filter_by, other_game_rows, more_rows, own_row,
  create_game-IsStocked, create_game_queue-IsStocked, delete_game-IsStocked,
}

abbrev others : String → List GameQueue → List GameQueue
others qi qs = filter_by (λ x. not (x.id == qi)) qs

-- Every game has a queue besides this one.
abbrev pub IsSpare : String → Db → Type 0
IsSpare qi db =
    All
      (λ g. 1 ≤ length (filter_by (is_of_game g.id) (filter_by (λ x. not (x.id == qi)) db.queues)))
      db.games

others-last :
    (qi : String) (qs : List GameQueue) (q : GameQueue)
    → (q.id == qi) ≡ false
    → others qi (qs ++ (q ∷ [])) ≡ others qi qs ++ (q ∷ [])
others-last qi [] q h = rw h refl
others-last qi (x ∷ qs) q h = elim (Bool-cases (x.id == qi)) [
  | inl hit ↦ rw hit (others-last qi qs q h)
  | inr miss ↦ rw miss (ap (λ l. x ∷ l) (others-last qi qs q h))
]

filter_by-swap :
    (p q : GameQueue → Bool) (qs : List GameQueue)
    → filter_by p (filter_by q qs) ≡ filter_by q (filter_by p qs)
filter_by-swap p q qs =
    filter_by-filter_by p q qs
    ∙ filter_by-cong (λ x. q x && p x) (λ x. p x && q x) qs (All-always _ qs (λ x. ground arith))
    ∙ sym (filter_by-filter_by q p qs)

create_game-IsSpare :
    (pending i qi : String) (now : ℕ) (params : CreateGameParams) (owner : User) (db : Db)
    → (qi == pending) ≡ false
    → IsSpare pending db
    → IsSpare pending (create_game i qi now params owner db).1
unfolding create_game queue_from_params
create_game-IsSpare pending i qi now params owner db new x =
    elim (QueueConfig-cases (apply_queue_defaults params.primary_queue)) [
      | inl (e, bad) ↦ rw (bad, create_game) x
      | inr (primary, good) ↦ elim (Bool-cases (is_game_name_taken i params.name db)) [
        | inl taken ↦ rw (good, create_game, taken) x
        | inr free ↦
            let q = queue_from_params qi i now primary in
            let rest = others pending db.queues in
            rw (good, create_game, free, others-last pending db.queues q new)
              (All-concat (λ g. 1 ≤ length (filter_by (is_of_game g.id) (rest ++ (q ∷ []))))
                db.games _
                (All-map (λ g. 1 ≤ length (filter_by (is_of_game g.id) rest)) _ db.games
                  (λ g h. more_rows (is_of_game g.id) rest q h) x)
                (own_row i rest q refl))
      ]
    ]

create_game_queue-IsSpare :
    (pending qi : String) (now : ℕ) (i : String) (params : CreateGameQueueParams) (db : Db)
    → (qi == pending) ≡ false
    → IsSpare pending db
    → IsSpare pending (create_game_queue qi now i params db).1
unfolding create_game_queue queue_from_params
create_game_queue-IsSpare pending qi now i params db new x =
    elim (QueueConfig-cases (apply_queue_defaults params)) [
      | inl (e, bad) ↦ rw (bad, create_game_queue) x
      | inr (primary, good) ↦ elim (Bool-cases (is_name_taken qi i primary.name db)) [
        | inl taken ↦ rw (good, create_game_queue, taken) x
        | inr free ↦
            let q = queue_from_params qi i now primary in
            let rest = others pending db.queues in
            rw (good, create_game_queue, free, others-last pending db.queues q new)
              (All-map (λ g. 1 ≤ length (filter_by (is_of_game g.id) rest)) _ db.games
                (λ g h. more_rows (is_of_game g.id) rest q h) x)
      ]
    ]

delete_game-IsSpare :
    (pending : String) (fails : Bool) (i : String) (owner : User) (db : Db)
    → IsSpare pending db
    → IsSpare pending (delete_game fails i owner db).1
unfolding delete_game
delete_game-IsSpare pending fails i owner db x = elim (Option-cases (get_game i db)) [
  | inl gone ↦ rw (gone, delete_game) x
  | inr (game, here) ↦ elim (Bool-cases (not (game.owner_id == owner.id))) [
    | inl foreign ↦ rw (here, delete_game, foreign) x
    | inr own ↦ elim (Bool-cases fails) [
      | inl bad ↦ rw (here, delete_game, own, bad) x
      | inr good ↦
          let rest = others pending db.queues in
          rw (here, delete_game, own, good)
            (All-filter_by (λ g. 1 ≤ length (filter_by (is_of_game g.id) rest)) _
              (λ g. not (g.id == i)) db.games x
              (λ g h on.
                subst (λ qs. 1 ≤ length qs)
                  (sym (
                    ap (filter_by (is_of_game g.id)) (
                      filter_by-swap (λ q. not (q.id == pending)) (λ q. not (is_of_game i q))
                        db.queues)
                    ∙ other_game_rows i g.id rest (ground arith)))
                  h))
    ]
  ]
]

-- The reads of a deletion that go through leave a queue to every game.
check_not_last-IsSpare :
    (qi : String) (db : Db)
    → IsStocked db
    → check_not_last qi db ≡ QueueConfig.ok tt
    → IsSpare qi db
unfolding delete_game_queue remove_queue_row
check_not_last-IsSpare qi db x passed =
    All-map (λ g. HasQueue g.id db) _ db.games
      (λ g h. rw (delete_game_queue, passed) at (delete_game_queue-HasQueue qi g.id db x.ids h))
      x.stocked

-- The store, and the queue of a DeleteGameQueue whose reads went through and whose write is still to come.
pub record Run : Type 0 where
  pub db : Db
  pub deleting : Option String

abbrev is_deleting : String → Option String → Bool
is_deleting qi none = false
is_deleting qi (some pending) = qi == pending

-- The steps of the handlers. A new queue has a new id. The reads of a DeleteGameQueue wait for the write of another one.
pub data Change : Run → Run → Type 0 where
  create :
      (i qi : String) (now : ℕ) (params : CreateGameParams) (owner : User) (r : Run)
      → contains (map (λ (q : GameQueue). q.id) r.db.queues) qi ≡ false
      → is_deleting qi r.deleting ≡ false
      → Change r (record r { db = (create_game i qi now params owner r.db).1 })
  remove :
      (fails : Bool) (i : String) (owner : User) (r : Run)
      → Change r (record r { db = (delete_game fails i owner r.db).1 })
  create_queue :
      (qi : String) (now : ℕ) (i : String) (params : CreateGameQueueParams) (r : Run)
      → contains (map (λ (q : GameQueue). q.id) r.db.queues) qi ≡ false
      → is_deleting qi r.deleting ≡ false
      → Change r (record r { db = (create_game_queue qi now i params r.db).1 })
  check_queue :
      (qi : String) (db : Db)
      → check_not_last qi db ≡ QueueConfig.ok tt
      → Change (record { db = db; deleting = none }) (record { db = db; deleting = some qi })
  remove_queue :
      (qi : String) (db : Db)
      → Change
          (record { db = db; deleting = some qi })
          (record { db = remove_queue_row qi db; deleting = none })

pub data Changes (r : Run) : Run → Type 0 where
  none_yet : Changes r r
  and_then : {mid after : Run} → Changes r mid → Change mid after → Changes r after

abbrev IsSpared : Option String → Db → Type 0
IsSpared none db = Unit
IsSpared (some qi) db = IsSpare qi db

create_game-IsSpared :
    (p : Option String) (i qi : String) (now : ℕ) (params : CreateGameParams) (owner : User)
    (db : Db)
    → is_deleting qi p ≡ false
    → IsSpared p db
    → IsSpared p (create_game i qi now params owner db).1
create_game-IsSpared none i qi now params owner db new x = tt
create_game-IsSpared (some pending) i qi now params owner db new x =
    create_game-IsSpare pending i qi now params owner db new x

create_game_queue-IsSpared :
    (p : Option String) (qi : String) (now : ℕ) (i : String) (params : CreateGameQueueParams)
    (db : Db)
    → is_deleting qi p ≡ false
    → IsSpared p db
    → IsSpared p (create_game_queue qi now i params db).1
create_game_queue-IsSpared none qi now i params db new x = tt
create_game_queue-IsSpared (some pending) qi now i params db new x =
    create_game_queue-IsSpare pending qi now i params db new x

delete_game-IsSpared :
    (p : Option String) (fails : Bool) (i : String) (owner : User) (db : Db)
    → IsSpared p db
    → IsSpared p (delete_game fails i owner db).1
delete_game-IsSpared none fails i owner db x = tt
delete_game-IsSpared (some pending) fails i owner db x =
    delete_game-IsSpare pending fails i owner db x

-- Every game has a queue, and one besides the queue that is being deleted.
abbrev pub IsSafe : Run → Type 0
IsSafe r = IsStocked r.db × IsSpared r.deleting r.db

Change-IsSafe : {r after : Run} → Change r after → IsSafe r → IsSafe after
unfolding remove_queue_row
Change-IsSafe (create i qi now params owner r fresh new) x = (
  create_game-IsStocked i qi now params owner r.db fresh x.0,
  create_game-IsSpared r.deleting i qi now params owner r.db new x.1,
)
Change-IsSafe (remove fails i owner r) x = (
  delete_game-IsStocked fails i owner r.db x.0,
  delete_game-IsSpared r.deleting fails i owner r.db x.1,
)
Change-IsSafe (create_queue qi now i params r fresh new) x = (
  create_game_queue-IsStocked qi now i params r.db fresh x.0,
  create_game_queue-IsSpared r.deleting qi now i params r.db new x.1,
)
Change-IsSafe (check_queue qi db passed) x = (x.0, check_not_last-IsSpare qi db x.0 passed)
Change-IsSafe (remove_queue qi db) x = (
  record { ids = IsNodup-filter_ids (λ q. not (q.id == qi)) db.queues x.0.ids; stocked = x.1 },
  tt,
)

Changes-IsSafe : {r after : Run} → IsSafe r → Changes r after → IsSafe after
Changes-IsSafe x none_yet = x
Changes-IsSafe x (and_then cs c) = Change-IsSafe c (Changes-IsSafe x cs)

-- In a store in which every game has a queue and queue ids are distinct, both stay so however games and queues are created and
-- deleted, by whomever and in whatever order, and also between the reads and the write of a DeleteGameQueue, as long as no
-- two DeleteGameQueue overlap. A new queue has a new id.
pub Changes-IsStocked :
    {db : Db} {after : Run}
    → IsStocked db
    → Changes (record { db = db; deleting = none }) after
    → IsStocked after.db
Changes-IsStocked x cs = (Changes-IsSafe (x, tt) cs).0

-- Two DeleteGameQueue that overlap: of a game with two queues, the reads of both deletions go through, and after both writes the
-- game has no queue.
pub remove_queue_row-overlap :
    (a b : GameQueue) (game_id : String) (db : Db)
    → get_game_queue a.id db ≡ some a
    → get_game_queue b.id db ≡ some b
    → a.game_id ≡ game_id
    → b.game_id ≡ game_id
    → filter_by (is_of_game game_id) db.queues ≡ a ∷ b ∷ []
    → (check_not_last a.id db ≡ QueueConfig.ok tt)
      × (check_not_last b.id db ≡ QueueConfig.ok tt)
      × (filter_by (is_of_game game_id) (remove_queue_row b.id (remove_queue_row a.id db)).queues
          ≡ [])
unfolding check_not_last remove_queue_row
remove_queue_row-overlap a b game_id db has_a has_b of_a of_b two = (
  rw (check_not_last, has_a, of_a, two) refl,
  rw (check_not_last, has_b, of_b, two) refl,
  filter_by-swap (is_of_game game_id) (λ x. not (x.id == b.id)) (others a.id db.queues)
      ∙ ap (others b.id) (filter_by-swap (is_of_game game_id) (λ x. not (x.id == a.id)) db.queues)
      ∙ ap (λ qs. others b.id (others a.id qs)) two
      ∙ both_gone,
)
  where
    both_gone : others b.id (others a.id (a ∷ b ∷ [])) ≡ []
    both_gone = elim (Bool-cases (b.id == a.id)) [
      | inl same ↦ rw (eq_self a.id, same) refl
      | inr other ↦ rw (eq_self a.id, other, eq_self b.id) refl
    ]
