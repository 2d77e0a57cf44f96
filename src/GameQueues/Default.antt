-- ===== src/GameQueues/Default.antt =====
-- The queues of a game and its default queue.
use mathlib.Core.Path.{subst}
use elo_service.Prelude.{
  ℕ, suc, ◌+◌, ◌≤◌, ◌≡◌, refl, sym, ap, ◌∙◌, inl, inr, String, Bool, true, false, not, Option, some,
  none, List, [], ◌∷◌, map, arith, nat_eq, string_eq, if◌then◌else◌, ◌==◌, leb, length, filter_by,
  contains, IsNodup, All, Bool-cases, Option-cases, eq_of_test, find_by_unique, All-map,
}
use elo_service.Store.{GameQueue, Db}
use elo_service.GameQueues.{
  ok, is_of_game, older, oldest, insert_queue, sort_queues, get_game_queues_for_game,
  get_game_queue, get_default_queue_for_game, resolve_queue, check_not_last, remove_queue_row,
  delete_game_queue,
}

-- The game has a queue.
abbrev pub HasQueue : String → Db → Type 0
HasQueue game_id db = 1 ≤ length (filter_by (is_of_game game_id) db.queues)

oldest_total : (qs : List GameQueue) → 1 ≤ length qs → (q : GameQueue) × (oldest qs ≡ some q)
unfolding oldest
oldest_total [] h = absurd (omega arith)
oldest_total (q ∷ qs) h = elim (Option-cases (oldest qs)) [
  | inl last ↦ (q, rw (last, oldest))
  | inr (r, e) ↦ ((if older q r then q else r), rw (e, oldest))
]

oldest-All :
    (P : GameQueue → Type 0) (qs : List GameQueue) {q : GameQueue}
    → All P qs
    → oldest qs ≡ some q
    → P q
unfolding oldest
oldest-All P [] h e = cc
oldest-All P (x ∷ qs) {q = q} h e = elim (Option-cases (oldest qs)) [
  | inl last ↦
      let whole : some x ≡ some q = rw (last, oldest) at e in
      let same : x ≡ q = cc in rw (← same) h.0
  | inr (r, e') ↦
      let whole : some (if older x r then x else r) ≡ some q = rw (e', oldest) at e in
      let there = oldest-All P qs h.1 e' in
      elim (Bool-cases (older x r)) [
        | inl on ↦ let same : x ≡ q = cc (rw on at whole) in rw (← same) h.0
        | inr off ↦ let same : r ≡ q = cc (rw off at whole) in rw (← same) there
      ]
]

filter_by-All : {A : Type 0} (p : A → Bool) (xs : List A) → All (λ x. p x ≡ true) (filter_by p xs)
filter_by-All p [] = tt
filter_by-All p (x ∷ xs) = elim (Bool-cases (p x)) [
  | inl on ↦ rw on (on, filter_by-All p xs)
  | inr off ↦ rw off (filter_by-All p xs)
]

-- Whatever queue is asked for, the one that is resolved belongs to the game.
pub resolve_queue-of_game :
    (game_id queue_id : String) (db : Db) {q : GameQueue}
    → resolve_queue game_id queue_id db ≡ ok q
    → q.game_id ≡ game_id
unfolding resolve_queue get_default_queue_for_game
resolve_queue-of_game game_id queue_id db {q} e = elim (Bool-cases (queue_id == "")) [
  | inl default ↦ elim (Option-cases (oldest (filter_by (is_of_game game_id) db.queues))) [
    | inl gone ↦ let bad = rw (default, gone) at e in cc
    | inr (r, here) ↦
        let whole : ok r ≡ ok q = rw (default, here) at e in
        let same : r ≡ q = cc in
        rw (← same) (
          eq_of_test r.game_id game_id (
            oldest-All (λ x. is_of_game game_id x ≡ true) (filter_by (is_of_game game_id) db.queues)
              (filter_by-All (is_of_game game_id) db.queues) here))
  ]
  | inr named ↦ elim (Option-cases (get_game_queue queue_id db)) [
    | inl gone ↦ let bad = rw (named, gone) at e in cc
    | inr (r, here) ↦ elim (Bool-cases (r.game_id == game_id)) [
      | inr other ↦ let bad = rw (named, here, other) at e in cc
      | inl own ↦
          let whole : ok r ≡ ok q = rw (named, here, own) at e in
          let same : r ≡ q = cc in rw (← same) (eq_of_test r.game_id game_id own)
    ]
  ]
]

-- A game that has a queue has a default one.
pub resolve_queue-default_total :
    (game_id : String) (db : Db)
    → HasQueue game_id db
    → (q : GameQueue) × (resolve_queue game_id "" db ≡ ok q)
unfolding resolve_queue get_default_queue_for_game
resolve_queue-default_total game_id db h =
    let (q, e) = oldest_total (filter_by (is_of_game game_id) db.queues) h in (q, rw e)

nothing_more :
    (i : String) (qs : List GameQueue)
    → contains (map (λ (q : GameQueue). q.id) qs) i ≡ false
    → filter_by (λ x. not (x.id == i)) qs ≡ qs
nothing_more i [] h = refl
nothing_more i (q ∷ qs) h = ground (arith, nothing_more i qs)

-- Deleting the row of one id among distinct ids takes at most one queue of a game, and none of another.
length-delete :
    (i : String) (p : GameQueue → Bool) (qs : List GameQueue)
    → IsNodup (map (λ (q : GameQueue). q.id) qs)
    → length (filter_by p qs) ≤ length (filter_by p (filter_by (λ x. not (x.id == i)) qs)) + 1
length-delete i p [] u = omega arith
length-delete i p (q ∷ qs) u = elim (Bool-cases (q.id == i)) [
  | inl hit ↦
      let rest = nothing_more i qs (rw (eq_of_test q.id i hit) at u.0) in
      rw (hit, rest) (ground arith)
  | inr miss ↦
      let rest = length-delete i p qs u.1 in
      elim (Bool-cases (p q)) [
        | inl on ↦ rw (miss, on) (omega arith)
        | inr off ↦ rw (miss, off) rest
      ]
]

length-delete_other :
    (i : String) (p : GameQueue → Bool) (qs : List GameQueue)
    → All (λ q. (q.id == i) ≡ true → p q ≡ false) qs
    → length (filter_by p (filter_by (λ x. not (x.id == i)) qs)) ≡ length (filter_by p qs)
length-delete_other i p [] h = refl
length-delete_other i p (q ∷ qs) h = elim (Bool-cases (q.id == i)) [
  | inl hit ↦ rw (hit, h.0 hit) (length-delete_other i p qs h.1)
  | inr miss ↦ elim (Bool-cases (p q)) [
    | inl on ↦ rw (miss, on) (ap suc (length-delete_other i p qs h.1))
    | inr off ↦ rw (miss, off) (length-delete_other i p qs h.1)
  ]
]

at_least_one : (before after : ℕ) → leb before 1 ≡ false → before ≤ after + 1 → 1 ≤ after
at_least_one before after h k = ground arith

pub delete_game_queue-HasQueue :
    (queue_id game_id : String) (db : Db)
    → IsNodup (map (λ (q : GameQueue). q.id) db.queues)
    → HasQueue game_id db
    → HasQueue game_id (delete_game_queue queue_id db).1
unfolding delete_game_queue check_not_last remove_queue_row get_game_queue
delete_game_queue-HasQueue queue_id game_id db u h =
    elim (Option-cases (get_game_queue queue_id db)) [
      | inl gone ↦ rw (delete_game_queue, check_not_last, gone) h
      | inr (q, here) ↦
          elim (Bool-cases (leb (length (filter_by (is_of_game q.game_id) db.queues)) 1)) [
            | inl last ↦ rw (delete_game_queue, check_not_last, here, last) h
            | inr more ↦
                let one_less = length-delete queue_id (is_of_game game_id) db.queues u in
                rw (delete_game_queue, check_not_last, here, more)
                  (elim (Bool-cases (q.game_id == game_id)) [
                    | inl own ↦
                        let several = rw (eq_of_test q.game_id game_id own) at more in
                        at_least_one _ _ several one_less
                    | inr other ↦
                        subst (λ n. 1 ≤ n)
                          (sym (
                            length-delete_other queue_id (is_of_game game_id) db.queues (
                              All-map (λ x. (x.id == queue_id) ≡ true → x ≡ q)
                                (λ x. (x.id == queue_id) ≡ true → is_of_game game_id x ≡ false)
                                db.queues (λ x same on. ap (is_of_game game_id) (same on) ∙ other)
                                (find_by_unique (λ (x : GameQueue). x.id) queue_id db.queues u
                                  here))))
                          h
                  ])
          ]
    ]

abbrev pub first_of : List GameQueue → Option GameQueue
first_of [] = none
first_of (q ∷ qs) = some q

first_of-insert_queue :
    (q : GameQueue) (rs : List GameQueue)
    → first_of (insert_queue q rs)
      ≡ elim (first_of rs) [ none ↦ some q | some r ↦ some (if older q r then q else r) ]
first_of-insert_queue q [] = refl
first_of-insert_queue q (r ∷ rs) = elim (Bool-cases (older q r)) [
  | inl on ↦ rw on
  | inr off ↦ rw off
]

first_of-sort_queues : (qs : List GameQueue) → first_of (sort_queues qs) ≡ oldest qs
unfolding sort_queues oldest
first_of-sort_queues [] = refl
first_of-sort_queues (q ∷ qs) =
    first_of-insert_queue q (sort_queues qs)
    ∙ ap
        (λ (o : Option GameQueue). elim o [
          | none ↦ some q
          | some r ↦ some (if older q r then q else r)
        ])
        (first_of-sort_queues qs)

-- The default queue of a game is the first of the game's listing, and there is none where the
-- listing is empty.
get_default_queue-first :
    (game_id : String) (db : Db)
    → get_default_queue_for_game game_id db ≡ first_of (get_game_queues_for_game game_id db)
unfolding get_default_queue_for_game get_game_queues_for_game
get_default_queue-first game_id db =
    sym (first_of-sort_queues (filter_by (is_of_game game_id) db.queues))
