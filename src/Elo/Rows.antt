-- ===== src/Elo/Rows.antt =====
-- The rating rows that models/elo.go creates, locks and saves.
use elo_service.Prelude.{
  ◌≡◌, refl, inl, inr, String, Bool, true, not, none, some, List, [], ◌∷◌, ◌++◌, arith, nat_eq,
  string_eq, ltb, length, find_by, filter_by, All, Bool-cases, Option-cases,
}
use elo_service.Store.{Rating, GameQueue}
use elo_service.Util.{is_guest_id}
use elo_service.Elo.{
  FloatOps, sort_strings, is_rating_of, create_missing, lock_rows, save_rows, deltas_from, k_eff,
  apply_classic_elo,
}

find_by-append :
    {A : Type 0} (p : A → Bool) (xs ys : List A) {x : A}
    → find_by p xs ≡ some x
    → find_by p (xs ++ ys) ≡ some x
find_by-append p [] ys e = cc
find_by-append p (x ∷ xs) ys e = elim (Bool-cases (p x)) [
  | inl hit ↦ rw hit (rw hit at e)
  | inr miss ↦ rw miss (find_by-append p xs ys (rw miss at e))
]

find_by_last :
    {A : Type 0} (p : A → Bool) (xs : List A) (x : A)
    → find_by p xs ≡ none
    → p x ≡ true
    → find_by p (xs ++ (x ∷ [])) ≡ some x
find_by_last p [] x e on = rw on
find_by_last p (y ∷ xs) x e on = elim (Bool-cases (p y)) [
  | inl hit ↦ let bad : some y ≡ none = rw hit at e in cc
  | inr miss ↦ rw miss (find_by_last p xs x (rw miss at e) on)
]

-- The player has a row in the queue.
abbrev HasRow : String → List Rating → String → Type 0
HasRow queue_id rows p = (r : Rating) × (find_by (is_rating_of queue_id p) rows ≡ some r)

module _ (q : GameQueue) where
  abbrev fresh_row : String → Rating
  fresh_row p = record { player_id = p; game_queue_id = q.id; rating = q.default_rating }

  fresh_row-is_rating_of : (p : String) → is_rating_of q.id p (fresh_row p) ≡ true
  fresh_row-is_rating_of p = ground (arith, string_eq.same_iff p p, string_eq.same_iff q.id q.id)

  create_missing-keeps :
      (ps : List String) (rows : List Rating) (test : Rating → Bool) {r : Rating}
      → find_by test rows ≡ some r
      → find_by test (create_missing q ps rows) ≡ some r
  unfolding create_missing
  create_missing-keeps [] rows test e = e
  create_missing-keeps (p ∷ ps) rows test e =
      elim (Option-cases (find_by (is_rating_of q.id p) rows)) [
        | inl gone ↦ rw gone (
            create_missing-keeps ps (rows ++ (fresh_row p ∷ [])) test
              (find_by-append test rows (fresh_row p ∷ []) e))
        | inr (r, here) ↦ rw here (create_missing-keeps ps rows test e)
      ]

  -- The rows after one turn of the creation loop.
  abbrev added : String → List Rating → List Rating
  added p rows = elim (find_by (is_rating_of q.id p) rows) [
    | some _ ↦ rows
    | none ↦ rows ++ (fresh_row p ∷ [])
  ]

  added-HasRow : (p : String) (rows : List Rating) → HasRow q.id (added p rows) p
  added-HasRow p rows = elim (Option-cases (find_by (is_rating_of q.id p) rows)) [
    | inl gone ↦
        rw (gone, added)
          (
            fresh_row p,
            find_by_last (is_rating_of q.id p) rows (fresh_row p) gone (fresh_row-is_rating_of p),
          )
    | inr (r, here) ↦ rw (here, added) (r, here)
  ]

  create_missing-HasRow :
      (ps : List String) (rows : List Rating) → All (HasRow q.id (create_missing q ps rows)) ps
  unfolding create_missing
  create_missing-HasRow [] rows = tt
  create_missing-HasRow (p ∷ ps) rows =
      let (r, here) = added-HasRow p rows in
      (
        (r, create_missing-keeps ps (added p rows) (is_rating_of q.id p) here),
        create_missing-HasRow ps (added p rows),
      )

  lock_rows_total :
      (ps : List String) (rows : List Rating)
      → All (HasRow q.id rows) ps
      → (rs : List Rating) × (lock_rows q ps rows ≡ some rs)
  unfolding lock_rows
  lock_rows_total [] rows h = ([], refl)
  lock_rows_total (p ∷ ps) rows ((r, here), h) =
      let (rs, e) = lock_rows_total ps rows h in (r ∷ rs, rw (here, e, lock_rows))

-- `ApplyClassicElo` never fails on its own account: each row that it locks is one that was there or
-- that it has just created.
pub apply_classic_elo_total :
    (fl : FloatOps) (q : GameQueue) (player_ids winner_ids : List String) (rows : List Rating)
    → (after : List Rating) × (apply_classic_elo fl q player_ids winner_ids rows ≡ some after)
unfolding apply_classic_elo
apply_classic_elo_total fl q player_ids winner_ids rows =
    let ps = sort_strings (filter_by (λ p. not (is_guest_id p)) player_ids) in
    let created = create_missing q ps rows in
    elim (Bool-cases (ltb (length ps) 2)) [
      | inl few ↦ (rows, rw few)
      | inr enough ↦
          let (rs, e) = lock_rows_total q ps created (create_missing-HasRow q ps rows) in
          (
            save_rows fl q rs (deltas_from fl (k_eff fl q (length rs)) winner_ids rs 0 rs) created,
            rw (enough, e),
          )
    ]
