-- ===== src/Lifecycle/Timeout/Fewer.antt =====
-- The end of a match adds no row of a match.
use elo_service.Prelude.{
  ◌≡◌, ◌∙◌, sym, refl, ap, inl, inr, arith, ℕ, suc, ◌+◌, ◌≤◌, String, Bool, false, not, ◌&&◌, none,
  some, List, [], ◌∷◌, ◌++◌, ltb, if◌then◌else◌, length, length-filter_by, update_by, Bool-cases,
  Option-cases, nat_eq, string_eq, ◌==◌, map, contains,
}
use elo_service.Store.{Match, Db, ServerInstance, InstanceStatus}
use elo_service.Elo.{FloatOps}
use elo_service.Hosts.{free_ports, get_machine_host, update_host}
use elo_service.Instances.{
  get_server_instance, set_server_instance_status, claim_cooldown_instance,
  revert_tearing_down_to_cooldown, update_instances,
}
use elo_service.Matches.{is_match_underway, get_match, set_match_status_cooldown, cool}
use elo_service.Results.{
  match_ended, rate_match, finalize_match_teardown, result_id, result_row, get_queue,
}
use elo_service.Lifecycle.{AgentOutcome, teardown_cooled_match, end_match}
use elo_service.Lifecycle.Timeout.{match_max_duration, end_if_timed_out, end_timed_out}

length-rows :
    {A : Type 0} (p : A → Bool) (f : A → A) (xs : List A) → length (update_by p f xs) ≡ length xs
length-rows p f [] = refl
length-rows p f (x ∷ xs) = ap suc (length-rows p f xs)

free_ports-matches :
    (host_id : String) (ports : List ℕ) (db : Db)
    → (free_ports host_id ports db).1.matches ≡ db.matches
unfolding free_ports update_host
free_ports-matches host_id ports db = elim (Option-cases (get_machine_host host_id db)) [
  | inl gone ↦ rw (gone, free_ports)
  | inr (h, here) ↦ rw (here, free_ports)
]

-- No row of a match is added.
abbrev pub IsFewer : Db → Db → Type 0
IsFewer db db' = length db'.matches ≤ length db.matches

teardown-IsFewer :
    (agent : AgentOutcome) (si : ServerInstance) (i : String) (force : Bool) (db : Db)
    → IsFewer db (teardown_cooled_match agent si i force db).1
unfolding teardown_cooled_match revert_tearing_down_to_cooldown set_server_instance_status
    finalize_match_teardown update_instances
teardown-IsFewer agent si i force db = elim (Bool-cases (not agent.stopped && not force)) [
  | inl back ↦ rw back (omega arith)
  | inr on ↦
      let freed = (free_ports si.machine_host_id si.host_ports db).1 in
      rw on (
        omega (
          arith,
          length-filter_by (λ (m : Match). not (m.id == i)) freed.matches,
          ap length (free_ports-matches si.machine_host_id si.host_ports db),
        ))
]

module _ (fl : FloatOps) where
  rate_match-matches :
      (m : Match) (winner_ids : List String) (db : Db) {db' : Db}
      → rate_match fl m winner_ids false db ≡ some db'
      → db'.matches ≡ db.matches
  unfolding rate_match
  rate_match-matches m winner_ids db {db'} h = elim (Option-cases (get_queue m.game_queue_id db)) [
    | inl gone ↦
        let same : some db ≡ some db' = rw (rate_match, gone) at h in
        let e : db ≡ db' = cc in ap (λ (d : Db). d.matches) (sym e)
    | inr (q, here) ↦
        let same : some db ≡ some db' = rw (rate_match, here) at h in
        let e : db ≡ db' = cc in ap (λ (d : Db). d.matches) (sym e)
  ]

  abbrev flipped : Match → Db → Db
  unfolding set_server_instance_status
  flipped m db =
      if not (m.server_instance_id == "")
      then set_server_instance_status m.server_instance_id InstanceStatus.cooldown db
      else db

  flipped-matches : (m : Match) (db : Db) → (flipped m db).matches ≡ db.matches
  unfolding set_server_instance_status update_instances
  flipped-matches m db = elim (Bool-cases (not (m.server_instance_id == ""))) [
    | inl on ↦ rw on refl
    | inr off ↦ rw off refl
  ]

  match_ended-IsFewer :
      (now : ℕ) (i : String) (winner_ids : List String) (result : String) (db : Db) {db' : Db}
      → match_ended fl now i winner_ids result "" [] false db ≡ some db'
      → IsFewer db db'
  unfolding match_ended set_match_status_cooldown
  match_ended-IsFewer now i winner_ids result db {db'} h = elim (Option-cases (get_match i db)) [
    | inl gone ↦ let bad : none ≡ some db' = rw (match_ended, gone) at h in cc
    | inr (m, here) ↦ elim (Bool-cases (contains (map result_id db.results) i)) [
      | inl twice ↦ let bad : none ≡ some db' = rw (match_ended, here, twice) at h in cc
      | inr first ↦
          let written : Db = record db {
            results = db.results ++ (result_row m now winner_ids result "" [] ∷ []);
          } in
          let cooling = set_match_status_cooldown i written in
          let rated : rate_match fl m winner_ids false (flipped m cooling) ≡ some db' =
            rw (match_ended, here, first) at h in
          omega (
            arith,
            ap length (
                rate_match-matches m winner_ids (flipped m cooling) rated
                ∙ flipped-matches m cooling),
            length-rows (λ (x : Match). x.id == i) cool db.matches,
          )
    ]
  ]

  end_match-IsFewer :
      (now cooldown : ℕ) (agent : AgentOutcome) (m : Match) (db : Db) {db' : Db}
      → end_match fl now cooldown agent m [] "timeout" false db ≡ some db'
      → IsFewer db db'
  unfolding end_match finalize_match_teardown claim_cooldown_instance update_instances
  end_match-IsFewer now cooldown agent m db {db'} h =
      elim (Option-cases (is_match_underway m.id db)) [
        | inl gone ↦ let bad : none ≡ some db' = rw (end_match, gone) at h in cc
        | inr (underway, known) ↦ elim (Bool-cases (not underway)) [
          | inl over ↦ let bad : none ≡ some db' = rw (end_match, known, over) at h in cc
          | inr live ↦ elim (Option-cases (match_ended fl now m.id [] "timeout" "" [] false db)) [
            | inl failed ↦
                let bad : none ≡ some db' = rw (end_match, known, live, failed) at h in cc
            | inr (ended, done) ↦
                let fewer = match_ended-IsFewer now m.id [] "timeout" db done in
                elim (Bool-cases (m.server_instance_id == "")) [
                  | inl bare ↦
                      let all : some (finalize_match_teardown m.id "" none ended) ≡ some db' =
                        rw (end_match, known, live, done, bare) at h in
                      let e : finalize_match_teardown m.id "" none ended ≡ db' = cc in
                      omega (
                        arith,
                        fewer,
                        length-filter_by (λ (x : Match). not (x.id == m.id)) ended.matches,
                        ap (λ (d : Db). length d.matches) e,
                      )
                  | inr hosted ↦ elim (Bool-cases (cooldown == 0)) [
                    | inr later ↦
                        let all : some ended ≡ some db' =
                          rw (end_match, known, live, done, hosted, later) at h in
                        let e : ended ≡ db' = cc in
                        omega (arith, fewer, ap (λ (d : Db). length d.matches) e)
                    | inl at_once ↦
                        elim (Option-cases (get_server_instance m.server_instance_id ended)) [
                          | inl missing ↦
                              let all : some ended ≡ some db' =
                                rw (end_match, known, live, done, hosted, at_once, missing) at h in
                              let e : ended ≡ db' = cc in
                              omega (arith, fewer, ap (λ (d : Db). length d.matches) e)
                          | inr (si, found) ↦
                              let taken = (claim_cooldown_instance si.id ended).1 in
                              elim (Bool-cases (claim_cooldown_instance si.id ended).0) [
                                | inl won ↦
                                    let all : some
                                          (teardown_cooled_match agent si m.id false taken).1
                                        ≡ some db' =
                                      rw (end_match, known, live, done, hosted, at_once, found, won)
                                        at h in
                                    let e : (teardown_cooled_match agent si m.id false taken).1
                                        ≡ db' =
                                      cc in
                                    omega (
                                      arith,
                                      fewer,
                                      teardown-IsFewer agent si m.id false taken,
                                      ap (λ (d : Db). length d.matches) e,
                                    )
                                | inr lost ↦
                                    let all : some taken ≡ some db' =
                                      rw
                                        (end_match, known, live, done, hosted, at_once, found, lost)
                                        at h in
                                    let e : taken ≡ db' = cc in
                                    omega (arith, fewer, ap (λ (d : Db). length d.matches) e)
                              ]
                        ]
                  ]
                ]
          ]
        ]
      ]

  end_if_timed_out-IsFewer :
      (now cooldown : ℕ) (agents : String → AgentOutcome) (m : Match) (db : Db)
      → IsFewer db (end_if_timed_out fl now cooldown agents m db)
  unfolding end_if_timed_out
  end_if_timed_out-IsFewer now cooldown agents m db =
      elim (Bool-cases (ltb (m.created_at + match_max_duration) now)) [
        | inr young ↦ rw (end_if_timed_out, young) (omega arith)
        | inl old ↦
            elim (Option-cases (end_match fl now cooldown (agents m.id) m [] "timeout" false db)) [
              | inl failed ↦ rw (end_if_timed_out, old, failed) (omega arith)
              | inr (ended, done) ↦
                  rw (end_if_timed_out, old, done)
                    (end_match-IsFewer now cooldown (agents m.id) m db done)
            ]
      ]

  pub end_timed_out-IsFewer :
      (now cooldown : ℕ) (agents : String → AgentOutcome) (ms : List Match) (db : Db)
      → IsFewer db (end_timed_out fl now cooldown agents ms db)
  unfolding end_timed_out
  end_timed_out-IsFewer now cooldown agents [] db = omega arith
  end_timed_out-IsFewer now cooldown agents (m ∷ ms) db = omega (
    arith,
    end_if_timed_out-IsFewer now cooldown agents m db,
    end_timed_out-IsFewer now cooldown agents ms (end_if_timed_out fl now cooldown agents m db),
  )
