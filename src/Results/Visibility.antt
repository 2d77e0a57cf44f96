-- ===== src/Results/Visibility.antt =====
-- The result that the two phases of models/matchResult.go leave for those who saw the match.
use elo_service.Prelude.{
  ℕ, ◌≡◌, refl, sym, ap, ◌∙◌, inl, inr, String, Bool, true, false, not, Option, none, some, List,
  [], ◌∷◌, ◌++◌, map, arith, nat_eq, string_eq, ◌==◌, find_by, filter_by, contains, Bool-cases,
  eq_self, find_by-update_by,
}
use elo_service.Store.{Match, MatchResult, Rating, Db}
use elo_service.Elo.{FloatOps}
use elo_service.Matches.{
  is_live_id, load_match, load_found, get_match-players, get_match, can_user_see_match, is_admin_id,
  owner_of, get_by_id, get_game,
}
use elo_service.Results.{
  load_result, result_id, result_row, match_ended, patch, finalize_match_teardown, get_match_result,
  has_public_results, can_user_see_match_result,
}
use elo_service.Results.Phases.{ended, match_ended-IsEnded}

gone_after_filter :
    (i : String) (ms : List Match)
    → find_by (λ m. m.id == i) (filter_by (λ m. not (m.id == i)) ms) ≡ none
gone_after_filter i [] = refl
gone_after_filter i (m ∷ ms) = ground (arith, gone_after_filter i ms)

found_last :
    (rs : List MatchResult) (r : MatchResult)
    → contains (map result_id rs) r.id ≡ false
    → find_by (λ x. x.id == r.id) (rs ++ (r ∷ [])) ≡ some r
found_last [] r h = rw (eq_self r.id)
found_last (x ∷ rs) r h = elim (Bool-cases (x.id == r.id)) [
  | inl same ↦ cc
  | inr other ↦ rw other (found_last rs r (rw other at h))
]

finalize-get_match_result :
    (logs_key : String) (artifacts : Option (List String)) (rs : List MatchResult) (r : MatchResult)
    (db : Db)
    → contains (map result_id rs) r.id ≡ false
    → db.results ≡ rs ++ (r ∷ [])
    → filter_by (is_live_id db) r.players ≡ r.players
    → get_match_result r.id (finalize_match_teardown r.id logs_key artifacts db)
      ≡ some (patch logs_key artifacts r)
unfolding finalize_match_teardown get_match_result load_result
finalize-get_match_result logs_key artifacts rs r db fresh e live =
    let row : find_by (λ x. x.id == r.id)
          (finalize_match_teardown r.id logs_key artifacts db).results
        ≡ some (patch logs_key artifacts r) =
      find_by-update_by result_id r.id r.id (patch logs_key artifacts) db.results (λ x. refl)
      ∙ rw (e, found_last rs r fresh, eq_self r.id) in
    ap (λ (o : Option MatchResult). elim o [ none ↦ none | some x ↦ some (load_result db x) ]) row
    ∙ ap (λ ps. some (record (patch logs_key artifacts r) { players = ps })) live

module _ (fl : FloatOps) (now : ℕ) (i : String) (winner_ids : List String) (result : String)
    (adjust : Bool) (logs_key : String) (artifacts : Option (List String)) (db : Db) where
  -- After phase A, called as `EndMatch` calls it, and phase B, the match is gone and its result is
  -- found under its id: the row of phase A with the logs key and the artifacts of phase B.
  pub finalize-match_ended :
      {after : Db}
      → match_ended fl now i winner_ids result "" [] adjust db ≡ some after
      → (get_match i (finalize_match_teardown i logs_key artifacts after) ≡ none)
        × (m : Match) × (get_match i db ≡ some m)
        × (get_match_result i (finalize_match_teardown i logs_key artifacts after)
            ≡ some (patch logs_key artifacts (result_row m now winner_ids result "" [])))
  unfolding get_match finalize_match_teardown load_match
  finalize-match_ended {after} e =
      let x = match_ended-IsEnded fl now i winner_ids result "" [] adjust db e in
      let r = result_row x.row now winner_ids result "" [] in
      (
        ap (load_found (finalize_match_teardown i logs_key artifacts after))
            (gone_after_filter i after.matches),
        x.row,
        ap (λ j. get_match j db) (sym x.same_id) ∙ x.found,
        ap (λ j. get_match_result j (finalize_match_teardown j logs_key artifacts after))
              (sym x.same_id)
            ∙ finalize-get_match_result logs_key artifacts db.results r after
                (ap (contains (map result_id db.results)) x.same_id ∙ x.no_result)
                (ap (λ (d : Db). d.results) x.effect)
                (ap (λ (d : Db). filter_by (is_live_id d) x.row.players) x.effect
                  ∙ get_match-players x.row.id db x.found),
      )

  same_readers :
      (m : Match) (rows : List Rating) (after : Db)
      → after ≡ ended fl now m winner_ids result "" [] rows db
      → (user_id game_id : String)
      → (is_admin_id user_id (finalize_match_teardown i logs_key artifacts after)
          ≡ is_admin_id user_id db)
        × (owner_of game_id (finalize_match_teardown i logs_key artifacts after)
            ≡ owner_of game_id db)
  unfolding finalize_match_teardown get_by_id get_game is_admin_id owner_of
  same_readers m rows after e user_id game_id =
      (ap (λ (d : Db). is_admin_id user_id d) e, ap (λ (d : Db). owner_of game_id d) e)

  seen_result :
      (user_id : String) (m : Match) (d : Db)
      → get_match_result i d
        ≡ some (patch logs_key artifacts (result_row m now winner_ids result "" []))
      → (is_admin_id user_id d ≡ is_admin_id user_id db)
        × (owner_of m.game_id d ≡ owner_of m.game_id db)
      → get_match i db ≡ some m
      → can_user_see_match user_id i db ≡ some true
      → can_user_see_match_result user_id i d ≡ some true
  unfolding can_user_see_match can_user_see_match_result
  seen_result user_id m d found (admins, owners) here sees =
      let seen = rw (here, can_user_see_match) at sees in
      elim (Bool-cases (has_public_results m.game_id d)) [
        | inl open_to_all ↦ rw (found, can_user_see_match_result, open_to_all)
        | inr closed ↦ rw (found, can_user_see_match_result, closed, admins, owners) seen
      ]

  -- Whoever may see a match may see its result once phase A went through, called as `EndMatch`
  -- calls it, and phase B after it.
  pub can_user_see_match_result-match_ended :
      (user_id : String) {after : Db}
      → can_user_see_match user_id i db ≡ some true
      → match_ended fl now i winner_ids result "" [] adjust db ≡ some after
      → can_user_see_match_result user_id i (finalize_match_teardown i logs_key artifacts after)
        ≡ some true
  can_user_see_match_result-match_ended user_id {after} sees e =
      let x = match_ended-IsEnded fl now i winner_ids result "" [] adjust db e in
      let (gone, m, here, found) = finalize-match_ended e in
      seen_result user_id m (finalize_match_teardown i logs_key artifacts after) found
        (same_readers x.row x.rows after x.effect user_id m.game_id) here sees
