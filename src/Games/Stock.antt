-- ===== src/Games/Stock.antt =====
-- What the creation of games and queues and the deletion of games do to the queues of the games.
use mathlib.Core.Path.{subst}
use elo_service.Prelude.{
  ℕ, ◌+◌, ◌≤◌, ◌≡◌, refl, sym, ap, ◌∙◌, inl, inr, String, Bool, true, false, not, List, [], ◌∷◌,
  ◌++◌, map, arith, nat_eq, string_eq, if◌then◌else◌, ◌==◌, length, filter_by, contains, IsNodup,
  IsNodup-concat, All, All-map, All-always, All-concat, Bool-cases, Option-cases, eq_self,
  filter_by-cong, filter_by-filter_by,
}
use elo_service.Store.{GameQueue, User, Db}
use elo_service.Matches.{get_game}
use elo_service.GameQueues.{
  QueueConfig-cases, CreateGameQueueParams, is_name_taken, create_game_queue, is_of_game,
  apply_queue_defaults, queue_from_params,
}
use elo_service.GameQueues.Default.{HasQueue}
use elo_service.Games.{CreateGameParams, is_game_name_taken, create_game, delete_game}

abbrev pub queue_id : GameQueue → String
queue_id q = q.id

-- Queue ids are distinct, and every game has a queue.
pub record IsStocked (db : Db) : Type 0 where
  pub ids : IsNodup (map (λ (q : GameQueue). q.id) db.queues)
  pub stocked : All (λ g. HasQueue g.id db) db.games

pub ids_last :
    (qs : List GameQueue) (q : GameQueue)
    → map queue_id (qs ++ (q ∷ [])) ≡ map queue_id qs ++ (q.id ∷ [])
ids_last [] q = refl
ids_last (x ∷ qs) q = ap (λ (l : List String). x.id ∷ l) (ids_last qs q)

pub count_last :
    (p : GameQueue → Bool) (qs : List GameQueue) (q : GameQueue)
    → length (filter_by p (qs ++ (q ∷ []))) ≡ length (filter_by p qs) + (if p q then 1 else 0)
count_last p [] q = ground arith
count_last p (x ∷ qs) q = ground (arith, count_last p qs q)

contains-filter_ids :
    (p : GameQueue → Bool) (qs : List GameQueue) (i : String)
    → contains (map queue_id qs) i ≡ false
    → contains (map queue_id (filter_by p qs)) i ≡ false
contains-filter_ids p [] i h = refl
contains-filter_ids p (q ∷ qs) i h = ground (arith, contains-filter_ids p qs i)

pub IsNodup-filter_ids :
    (p : GameQueue → Bool) (qs : List GameQueue)
    → IsNodup (map queue_id qs)
    → IsNodup (map queue_id (filter_by p qs))
IsNodup-filter_ids p [] u = tt
IsNodup-filter_ids p (q ∷ qs) u = elim (Bool-cases (p q)) [
  | inl on ↦ rw on (contains-filter_ids p qs q.id u.0, IsNodup-filter_ids p qs u.1)
  | inr off ↦ rw off (IsNodup-filter_ids p qs u.1)
]

pub All-filter_by :
    {A : Type 0} (P Q : A → Type 0) (p : A → Bool) (xs : List A)
    → All P xs
    → ((x : A) → P x → p x ≡ true → Q x)
    → All Q (filter_by p xs)
All-filter_by P Q p [] h f = tt
All-filter_by P Q p (x ∷ xs) h f = elim (Bool-cases (p x)) [
  | inl on ↦ rw on (f x h.0 on, All-filter_by P Q p xs h.1 f)
  | inr off ↦ rw off (All-filter_by P Q p xs h.1 f)
]

-- The queues of another game are not touched by a game's deletion.
pub other_game_rows :
    (i j : String) (qs : List GameQueue)
    → (j == i) ≡ false
    → filter_by (is_of_game j) (filter_by (λ q. not (is_of_game i q)) qs)
      ≡ filter_by (is_of_game j) qs
other_game_rows i j qs other =
    filter_by-filter_by (is_of_game j) (λ q. not (is_of_game i q)) qs
    ∙ filter_by-cong _ (is_of_game j) qs (
        All-always _ qs (λ q. ground (
          arith,
          string_eq.same_iff q.game_id i,
          string_eq.same_iff q.game_id j,
          string_eq.same_iff j i,
        )))

pub more_rows :
    (p : GameQueue → Bool) (qs : List GameQueue) (q : GameQueue)
    → 1 ≤ length (filter_by p qs)
    → 1 ≤ length (filter_by p (qs ++ (q ∷ [])))
more_rows p qs q h = omega (arith, count_last p qs q)

pub own_row :
    (i : String) (qs : List GameQueue) (q : GameQueue)
    → q.game_id ≡ i
    → 1 ≤ length (filter_by (is_of_game i) (qs ++ (q ∷ [])))
own_row i qs q same =
    let on : is_of_game i q ≡ true = ap (λ j. j == i) same ∙ eq_self i in
    rw (count_last (is_of_game i) qs q, on) (omega arith)

pub create_game-IsStocked :
    (i qi : String) (now : ℕ) (params : CreateGameParams) (owner : User) (db : Db)
    → contains (map queue_id db.queues) qi ≡ false
    → IsStocked db
    → IsStocked (create_game i qi now params owner db).1
unfolding create_game queue_from_params
create_game-IsStocked i qi now params owner db fresh x =
    elim (QueueConfig-cases (apply_queue_defaults params.primary_queue)) [
      | inl (e, bad) ↦ rw (bad, create_game) x
      | inr (primary, good) ↦ elim (Bool-cases (is_game_name_taken i params.name db)) [
        | inl taken ↦ rw (good, create_game, taken) x
        | inr free ↦
            let q = queue_from_params qi i now primary in
            rw (good, create_game, free)
              (record {
                ids =
                    rw (ids_last db.queues q)
                      (IsNodup-concat (map queue_id db.queues) qi x.ids fresh);
                stocked =
                    All-concat
                      (λ g. 1 ≤ length (filter_by (is_of_game g.id) (db.queues ++ (q ∷ []))))
                      db.games _
                      (All-map (λ g. HasQueue g.id db) _ db.games
                        (λ g h. more_rows (is_of_game g.id) db.queues q h) x.stocked)
                      (own_row i db.queues q refl);
              })
      ]
    ]

pub create_game_queue-IsStocked :
    (qi : String) (now : ℕ) (i : String) (params : CreateGameQueueParams) (db : Db)
    → contains (map queue_id db.queues) qi ≡ false
    → IsStocked db
    → IsStocked (create_game_queue qi now i params db).1
unfolding create_game_queue queue_from_params
create_game_queue-IsStocked qi now i params db fresh x =
    elim (QueueConfig-cases (apply_queue_defaults params)) [
      | inl (e, bad) ↦ rw (bad, create_game_queue) x
      | inr (primary, good) ↦ elim (Bool-cases (is_name_taken qi i primary.name db)) [
        | inl taken ↦ rw (good, create_game_queue, taken) x
        | inr free ↦
            let q = queue_from_params qi i now primary in
            rw (good, create_game_queue, free)
              (record {
                ids =
                    rw (ids_last db.queues q)
                      (IsNodup-concat (map queue_id db.queues) qi x.ids fresh);
                stocked =
                    All-map (λ g. HasQueue g.id db) _ db.games
                      (λ g h. more_rows (is_of_game g.id) db.queues q h) x.stocked;
              })
      ]
    ]

pub delete_game-IsStocked :
    (fails : Bool) (i : String) (owner : User) (db : Db)
    → IsStocked db
    → IsStocked (delete_game fails i owner db).1
unfolding delete_game
delete_game-IsStocked fails i owner db x = elim (Option-cases (get_game i db)) [
  | inl gone ↦ rw (gone, delete_game) x
  | inr (game, here) ↦ elim (Bool-cases (not (game.owner_id == owner.id))) [
    | inl foreign ↦ rw (here, delete_game, foreign) x
    | inr own ↦ elim (Bool-cases fails) [
      | inl bad ↦ rw (here, delete_game, own, bad) x
      | inr good ↦
          rw (here, delete_game, own, good)
            (record {
              ids = IsNodup-filter_ids (λ q. not (is_of_game i q)) db.queues x.ids;
              stocked =
                  All-filter_by (λ g. HasQueue g.id db) _ (λ g. not (g.id == i)) db.games x.stocked
                    (λ g h on.
                      subst (λ qs. 1 ≤ length qs)
                        (sym (other_game_rows i g.id db.queues (ground arith))) h);
            })
    ]
  ]
]
