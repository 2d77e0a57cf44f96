-- ===== src/Elo/Others.antt =====
-- The rating rows that models/elo.go leaves alone.
use elo_service.Prelude.{
  ◌≡◌, refl, sym, ap, ◌∙◌, inl, inr, String, Bool, true, false, not, ◌&&◌, some, List, [], ◌∷◌,
  ◌++◌, arith, nat_eq, string_eq, ltb, ◌==◌, length, find_by, filter_by, update_by, contains, All,
  Bool-cases, Option-cases, contains-filter_by, eq_of_test, All-find_by, All-always,
}
use elo_service.Store.{Rating, GameQueue}
use elo_service.Util.{is_guest_id}
use elo_service.Elo.{
  FloatOps, insert_string, sort_strings, is_rating_of, create_missing, lock_rows, save_rows,
  deltas_from, k_eff, apply_classic_elo,
}

find_by-append_miss :
    {A : Type 0} (p : A → Bool) (xs : List A) (x : A)
    → p x ≡ false
    → find_by p (xs ++ (x ∷ [])) ≡ find_by p xs
find_by-append_miss p [] x off = rw off
find_by-append_miss p (y ∷ xs) x off = ground (arith, find_by-append_miss p xs x off)

find_by-update_by_other :
    {A : Type 0} (p test : A → Bool) (f : A → A) (xs : List A)
    → ((x : A) → test (f x) ≡ test x)
    → ((x : A) → p x ≡ true → test x ≡ false)
    → find_by test (update_by p f xs) ≡ find_by test xs
find_by-update_by_other p test f [] keep apart = refl
find_by-update_by_other p test f (x ∷ xs) keep apart = elim (Bool-cases (p x)) [
  | inl hit ↦ rw (hit, keep x, apart x hit) (find_by-update_by_other p test f xs keep apart)
  | inr miss ↦ rw (miss, find_by-update_by_other p test f xs keep apart)
]

contains-filter_by_failing :
    (test : String → Bool) (xs : List String) (p : String)
    → test p ≡ false
    → contains (filter_by test xs) p ≡ false
contains-filter_by_failing test [] p off = refl
contains-filter_by_failing test (x ∷ xs) p off = elim (Bool-cases (x == p)) [
  | inl same ↦ rw (eq_of_test x p same, off) (contains-filter_by_failing test xs p off)
  | inr other ↦ ground (arith, contains-filter_by_failing test xs p off)
]

contains-insert_string :
    (s : String) (ts : List String) (p : String)
    → (s == p) ≡ false
    → contains ts p ≡ false
    → contains (insert_string s ts) p ≡ false
contains-insert_string s [] p h k = ground arith
contains-insert_string s (t ∷ ts) p h k = ground (arith, contains-insert_string s ts p h)

contains-sort_strings :
    (ss : List String) (p : String) → contains ss p ≡ false → contains (sort_strings ss) p ≡ false
unfolding sort_strings
contains-sort_strings [] p h = refl
contains-sort_strings (s ∷ ss) p h = elim (Bool-cases (s == p)) [
  | inl same ↦ cc
  | inr other ↦
      contains-insert_string s (sort_strings ss) p other
        (contains-sort_strings ss p (rw other at h))
]

-- The row of player `p` in the queue `i` is not one of those of `ps` in the queue `q`.
module _ (fl : FloatOps) (q : GameQueue) (i p : String) where
  abbrev IsApart : String → Type 0
  IsApart x = (x == p && q.id == i) ≡ false

  apart :
      (x : String) (r : Rating)
      → IsApart x
      → is_rating_of q.id x r ≡ true
      → is_rating_of i p r ≡ false
  apart x r h on =
      ground (arith, string_eq.same_iff r.player_id x, string_eq.same_iff r.game_queue_id q.id)

  create_missing-IsApart :
      (ps : List String) (rows : List Rating)
      → All IsApart ps
      → find_by (is_rating_of i p) (create_missing q ps rows) ≡ find_by (is_rating_of i p) rows
  unfolding create_missing
  create_missing-IsApart [] rows h = refl
  create_missing-IsApart (x ∷ ps) rows h =
      elim (Option-cases (find_by (is_rating_of q.id x) rows)) [
        | inl gone ↦
            rw gone
              (create_missing-IsApart ps _ h.1 ∙ find_by-append_miss (is_rating_of i p) rows _ h.0)
        | inr (r, here) ↦ rw here (create_missing-IsApart ps rows h.1)
      ]

  save_rows-IsApart :
      (rs : List Rating) (ds : List fl.F) (rows : List Rating)
      → All (λ r. IsApart r.player_id) rs
      → find_by (is_rating_of i p) (save_rows fl q rs ds rows) ≡ find_by (is_rating_of i p) rows
  unfolding save_rows
  save_rows-IsApart [] ds rows h = refl
  save_rows-IsApart (r ∷ rs) [] rows h = refl
  save_rows-IsApart (r ∷ rs) (d ∷ ds) rows h =
      save_rows-IsApart rs ds _ h.1
      ∙ find_by-update_by_other (is_rating_of q.id r.player_id) (is_rating_of i p) _ rows
          (λ x. refl) (λ x on. apart r.player_id x h.0 on)

  All-IsApart : (ps : List String) → (q.id == i && contains ps p) ≡ false → All IsApart ps
  All-IsApart [] h = tt
  All-IsApart (x ∷ ps) h = (ground arith, All-IsApart ps (ground arith))

  found-IsApart :
      (x : String) (r : Rating) (rows : List Rating)
      → IsApart x
      → find_by (is_rating_of q.id x) rows ≡ some r
      → IsApart r.player_id
  found-IsApart x r rows h e =
      let on =
        (All-find_by (λ _. Unit {0}) (is_rating_of q.id x) rows
          (All-always (λ _. Unit {0}) rows (λ _. tt)) e).1 in
      ground (arith, string_eq.same_iff r.player_id x)

  lock_rows-IsApart :
      (ps : List String) (rows : List Rating) {rs : List Rating}
      → All IsApart ps
      → lock_rows q ps rows ≡ some rs
      → All (λ r. IsApart r.player_id) rs
  unfolding lock_rows
  lock_rows-IsApart [] rows {rs} h e = let same : [] ≡ rs = cc in rw (← same) tt
  lock_rows-IsApart (x ∷ ps) rows {rs} h e =
      elim (Option-cases (find_by (is_rating_of q.id x) rows)) [
        | inl gone ↦ let bad = rw (gone, lock_rows) at e in cc
        | inr (r, here) ↦ elim (Option-cases (lock_rows q ps rows)) [
          | inl none_left ↦ let bad = rw (here, none_left, lock_rows) at e in cc
          | inr (rest, locked) ↦
              let whole : some (r ∷ rest) ≡ some rs = rw (here, locked, lock_rows) at e in
              let same : r ∷ rest ≡ rs = cc in
              rw (← same) (found-IsApart x r rows h.0 here, lock_rows-IsApart ps rows h.1 locked)
        ]
      ]

  contains-non_guests :
      (player_ids : List String)
      → (q.id == i && not (is_guest_id p) && contains player_ids p) ≡ false
      → (q.id == i && contains (sort_strings (filter_by (λ x. not (is_guest_id x)) player_ids)) p)
        ≡ false
  contains-non_guests player_ids h =
      let members = filter_by (λ x. not (is_guest_id x)) player_ids in
      elim (Bool-cases (q.id == i)) [
        | inr off ↦ rw off
        | inl on ↦ elim (Bool-cases (is_guest_id p)) [
          | inl guest ↦ rw (
            on,
            contains-sort_strings members p
                (contains-filter_by_failing (λ x. not (is_guest_id x)) player_ids p (ap not guest)),
          )
          | inr user ↦ rw (
            on,
            contains-sort_strings members p
                (contains-filter_by (λ x. not (is_guest_id x)) player_ids p (rw (on, user) at h)),
          )
        ]
      ]

  -- Once `ApplyClassicElo` went through, the row of a player in a queue is found as before, except
  -- in the queue of the match for a player of it who is no guest.
  pub apply_classic_elo-others :
      (player_ids winner_ids : List String) (rows : List Rating) {after : List Rating}
      → (q.id == i && not (is_guest_id p) && contains player_ids p) ≡ false
      → apply_classic_elo fl q player_ids winner_ids rows ≡ some after
      → find_by (is_rating_of i p) after ≡ find_by (is_rating_of i p) rows
  unfolding apply_classic_elo
  apply_classic_elo-others player_ids winner_ids rows {after} h e =
      let ps = sort_strings (filter_by (λ x. not (is_guest_id x)) player_ids) in
      let created = create_missing q ps rows in
      let far = All-IsApart ps (contains-non_guests player_ids h) in
      elim (Bool-cases (ltb (length ps) 2)) [
        | inl few ↦
            let whole : some rows ≡ some after = rw few at e in
            let same : rows ≡ after = cc in ap (find_by (is_rating_of i p)) (sym same)
        | inr enough ↦ elim (Option-cases (lock_rows q ps created)) [
          | inl failed ↦ let bad = rw (enough, failed) at e in cc
          | inr (rs, locked) ↦
              let ds = deltas_from fl (k_eff fl q (length rs)) winner_ids rs 0 rs in
              let whole : some (save_rows fl q rs ds created) ≡ some after =
                rw (enough, locked) at e in
              let same : save_rows fl q rs ds created ≡ after = cc in
              ap (find_by (is_rating_of i p)) (sym same)
              ∙ save_rows-IsApart rs ds created (lock_rows-IsApart ps created far locked)
              ∙ create_missing-IsApart ps rows far
        ]
      ]
