-- ===== src/Lifecycle/Reports.antt =====
-- What a report of results that is accepted leaves behind.
use mathlib.Core.Path.{subst}
use elo_service.Prelude.{
  ◌≡◌, ◌∙◌, ◌⊎◌, refl, ap, inl, inr, arith, ℕ, String, Bool, true, false, not, ◌&&◌, Option, none,
  some, List, [], ◌∷◌, if◌then◌else◌, length, filter_by, update_by, any_by, Bool-cases,
  Option-cases, nat_eq, string_eq, ◌==◌, map, contains,
}
use elo_service.Store.{Match, MatchResult, Db, ServerInstance, InstanceStatus, is_started}
use elo_service.Elo.{FloatOps}
use elo_service.Hosts.{free_ports, get_machine_host, update_host}
use elo_service.Instances.{
  get_server_instance, set_server_instance_status, claim_cooldown_instance,
  revert_tearing_down_to_cooldown, update_instances,
}
use elo_service.Matches.{is_match_underway, get_match_by_token_id, cool}
use elo_service.Results.{match_ended, finalize_match_teardown, result_id, patch, result_row}
use elo_service.Results.Phases.{match_ended-IsEnded, contains_last}
use elo_service.Lifecycle.{
  AgentOutcome, teardown_cooled_match, end_match, ReportStatus, report_results, key_or_empty,
}

abbrev pub is_live_match : String → Match → Bool
is_live_match i x = x.id == i && is_started x.status

-- The match has a result, and no row that is still underway.
abbrev pub IsOver : String → Db → Type 0
IsOver i db =
    (contains (map result_id db.results) i ≡ true) × (any_by (is_live_match i) db.matches ≡ false)

free_ports-tables :
    (host_id : String) (ports : List ℕ) (i : String) (db : Db)
    → IsOver i db
    → IsOver i (free_ports host_id ports db).1
unfolding free_ports update_host
free_ports-tables host_id ports i db h = elim (Option-cases (get_machine_host host_id db)) [
  | inl gone ↦ rw (gone, free_ports) h
  | inr (m, here) ↦ rw (here, free_ports) h
]

any_by-filter_by :
    (p q : Match → Bool) (xs : List Match) → any_by p xs ≡ false → any_by p (filter_by q xs) ≡ false
any_by-filter_by p q [] h = refl
any_by-filter_by p q (x ∷ xs) h = ground (arith, any_by-filter_by p q xs)

map-patch :
    (p : MatchResult → Bool) (logs_key : String) (artifacts : Option (List String))
    (rs : List MatchResult)
    → map result_id (update_by p (patch logs_key artifacts) rs) ≡ map result_id rs
map-patch p logs_key artifacts [] = refl
map-patch p logs_key artifacts (r ∷ rs) = elim (Bool-cases (p r)) [
  | inl on ↦ rw on (ap (λ l. r.id ∷ l) (map-patch p logs_key artifacts rs))
  | inr off ↦ rw off (ap (λ l. r.id ∷ l) (map-patch p logs_key artifacts rs))
]

finalize-IsOver :
    (k logs_key : String) (artifacts : Option (List String)) (i : String) (db : Db)
    → IsOver i db
    → IsOver i (finalize_match_teardown k logs_key artifacts db)
unfolding finalize_match_teardown
finalize-IsOver k logs_key artifacts i db h = (
  ap (λ l. contains l i) (map-patch (λ r. r.id == k) logs_key artifacts db.results) ∙ h.0,
  any_by-filter_by (is_live_match i) (λ m. not (m.id == k)) db.matches h.1,
)

teardown-IsOver :
    (agent : AgentOutcome) (si : ServerInstance) (k : String) (force : Bool) (i : String) (db : Db)
    → IsOver i db
    → IsOver i (teardown_cooled_match agent si k force db).1
unfolding teardown_cooled_match revert_tearing_down_to_cooldown set_server_instance_status
    update_instances
teardown-IsOver agent si k force i db h = elim (Bool-cases (not agent.stopped && not force)) [
  | inl back ↦ rw back h
  | inr on ↦
      let freed = (free_ports si.machine_host_id si.host_ports db).1 in
      rw on (
        finalize-IsOver k (key_or_empty agent.logs_key) agent.artifact_names i
          (set_server_instance_status si.id InstanceStatus.deleted freed)
          (free_ports-tables si.machine_host_id si.host_ports i db h))
]

no_live-cool :
    (i : String) (xs : List Match)
    → any_by (is_live_match i) (update_by (λ x. x.id == i) cool xs) ≡ false
no_live-cool i [] = refl
no_live-cool i (x ∷ xs) = elim (Bool-cases (x.id == i)) [
  | inl hit ↦ rw (hit, hit) (no_live-cool i xs)
  | inr miss ↦ rw (miss, miss) (no_live-cool i xs)
]

arrived :
    (i : String) (d d' : Db) → ◌≡◌ {A = Option Db} (some d) (some d') → IsOver i d → IsOver i d'
arrived i d d' h over = let e : d ≡ d' = cc in subst (λ x. IsOver i x) e over

module _ (fl : FloatOps) where
  match_ended-IsOver :
      (now : ℕ) (i : String) (winner_ids : List String) (result : String) (adjust : Bool) (db : Db)
      {after : Db}
      → match_ended fl now i winner_ids result "" [] adjust db ≡ some after
      → IsOver i after
  match_ended-IsOver now i winner_ids result adjust db {after} e =
      let x = match_ended-IsEnded fl now i winner_ids result "" [] adjust db e in
      let here : IsOver x.row.id after = (
        ap (λ (d : Db). contains (map result_id d.results) x.row.id) x.effect
            ∙ contains_last db.results (result_row x.row now winner_ids result "" []),
        ap (λ (d : Db). any_by (is_live_match x.row.id) d.matches) x.effect
            ∙ no_live-cool x.row.id db.matches,
      ) in
      subst (λ j. IsOver j after) x.same_id here

  end_match-IsOver :
      (now cooldown : ℕ) (agent : AgentOutcome) (m : Match) (winner_ids : List String)
      (reason : String) (adjust : Bool) (db : Db) {db' : Db}
      → end_match fl now cooldown agent m winner_ids reason adjust db ≡ some db'
      → IsOver m.id db'
  unfolding end_match claim_cooldown_instance update_instances
  end_match-IsOver now cooldown agent m winner_ids reason adjust db {db'} h =
      elim (Option-cases (is_match_underway m.id db)) [
        | inl gone ↦ let bad : none ≡ some db' = rw (end_match, gone) at h in cc
        | inr (underway, known) ↦ elim (Bool-cases (not underway)) [
          | inl over ↦ let bad : none ≡ some db' = rw (end_match, known, over) at h in cc
          | inr live ↦
              elim (Option-cases (match_ended fl now m.id winner_ids reason "" [] adjust db)) [
                | inl failed ↦
                    let bad : none ≡ some db' = rw (end_match, known, live, failed) at h in cc
                | inr (ended, done) ↦
                    let done' = match_ended-IsOver now m.id winner_ids reason adjust db done in
                    elim (Bool-cases (m.server_instance_id == "")) [
                      | inl bare ↦
                          let all : some (finalize_match_teardown m.id "" none ended) ≡ some db' =
                            rw (end_match, known, live, done, bare) at h in
                          arrived m.id (finalize_match_teardown m.id "" none ended) db' all
                            (finalize-IsOver m.id "" none m.id ended done')
                      | inr hosted ↦ elim (Bool-cases (cooldown == 0)) [
                        | inr later ↦
                            let all : some ended ≡ some db' =
                              rw (end_match, known, live, done, hosted, later) at h in
                            arrived m.id ended db' all done'
                        | inl at_once ↦
                            elim (Option-cases (get_server_instance m.server_instance_id ended)) [
                              | inl missing ↦
                                  let all : some ended ≡ some db' =
                                    rw (end_match, known, live, done, hosted, at_once, missing) at
                                      h in
                                  arrived m.id ended db' all done'
                              | inr (si, found) ↦
                                  let taken = (claim_cooldown_instance si.id ended).1 in
                                  elim (Bool-cases (claim_cooldown_instance si.id ended).0) [
                                    | inl won ↦
                                        let all : some
                                              (teardown_cooled_match agent si m.id false taken).1
                                            ≡ some db' =
                                          rw
                                            (
                                              end_match, known, live, done, hosted, at_once, found,
                                              won,
                                            )
                                            at h in
                                        arrived m.id
                                          (teardown_cooled_match agent si m.id false taken).1 db'
                                          all (teardown-IsOver agent si m.id false m.id taken done')
                                    | inr lost ↦
                                        let all : some taken ≡ some db' =
                                          rw
                                            (
                                              end_match, known, live, done, hosted, at_once, found,
                                              lost,
                                            )
                                            at h in
                                        arrived m.id taken db' all done'
                                  ]
                            ]
                      ]
                    ]
              ]
        ]
      ]

  abbrev pub is_ok : ReportStatus fl → Bool
  is_ok ReportStatus.ok_200 = true
  is_ok _ = false

  abbrev pub IsReported : String → Db → ReportStatus fl × Db → Type 0
  IsReported token_id db answer =
      ((is_ok answer.0 ≡ false) × (answer.1 ≡ db))
      ⊎ ((m : Match) × (get_match_by_token_id token_id db ≡ some m)
          × (is_started m.status ≡ true)
          × (is_ok answer.0 ≡ true)
          × IsOver m.id answer.1)

  -- A report of results is refused and changes nothing, or its token is that of a match that was underway, it is answered
  -- with 200, and the match has a result and is not underway any more, whatever the agent answers.
  pub report_results-IsReported :
      (now cooldown : ℕ) (agent : AgentOutcome) (token_id winner_id : String)
      (winner_ids : List String) (reason : String) (adjust_ratings : Bool) (db : Db)
      → IsReported token_id db (
          report_results fl now cooldown agent token_id winner_id winner_ids reason adjust_ratings
            db)
  unfolding report_results
  report_results-IsReported now cooldown agent token_id winner_id winner_ids reason adjust_ratings
        db =
      let winners =
        if not (winner_id == "") && length winner_ids == 0 then winner_id ∷ [] else winner_ids in
      elim (Option-cases (get_match_by_token_id token_id db)) [
        | inl unknown ↦ rw (report_results, unknown) (inl (refl, refl))
        | inr (m, named) ↦ elim (Bool-cases (is_started m.status)) [
          | inr over ↦ rw (report_results, named, over) (inl (refl, refl))
          | inl live ↦
              elim (Option-cases
                (end_match fl now cooldown agent m winners reason adjust_ratings db)) [
                  | inl failed ↦ rw (report_results, named, live, failed) (inl (refl, refl))
                  | inr (db', done) ↦
                      rw (report_results, named, live, done)
                        (inr (
                          m,
                          refl,
                          live,
                          refl,
                          end_match-IsOver now cooldown agent m winners reason adjust_ratings db
                              done,
                        ))
                ]
        ]
      ]
