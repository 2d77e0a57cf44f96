-- ===== src/Results/Phases.antt =====
-- What the two phases of models/matchResult.go leave in the store.
use elo_service.Prelude.{
  ℕ, ◌≡◌, sym, ap, ◌∙◌, inl, inr, String, Bool, true, false, not, ◌&&◌, ◌||◌, none, some, List, [],
  ◌∷◌, ◌++◌, map, nat_eq, string_eq, if◌then◌else◌, ◌==◌, update_by, contains, Bool-cases,
  Option-cases, eq_self, or-true,
}
use elo_service.Store.{Match, MatchResult, InstanceStatus, Rating, Db}
use elo_service.Elo.{FloatOps}
use elo_service.Elo.Rows.{apply_classic_elo_total}
use elo_service.Instances.{set_server_instance_status, update_instances, with_status}
use elo_service.Matches.{get_match, get_match-id, set_match_status_cooldown, cool}
use elo_service.Results.{result_id, result_row, get_queue, rate_match, match_ended}

pub contains_last :
    (rs : List MatchResult) (r : MatchResult)
    → contains (map result_id (rs ++ (r ∷ []))) r.id ≡ true
contains_last [] r = ap (λ (b : Bool). b || false) (eq_self r.id)
contains_last (x ∷ rs) r =
    ap (λ (b : Bool). x.id == r.id || b) (contains_last rs r) ∙ or-true (x.id == r.id)

module _ (fl : FloatOps) where
  -- The rating step writes the ratings, and it does not fail.
  rate_match_total :
      (m : Match) (winner_ids : List String) (adjust : Bool) (db : Db)
      → (rows : List Rating) × (rate_match fl m winner_ids adjust db
          ≡ some (record db { ratings = rows }))
  unfolding rate_match
  rate_match_total m winner_ids adjust db = elim (Option-cases (get_queue m.game_queue_id db)) [
    | inl gone ↦ (db.ratings, rw (gone, rate_match))
    | inr (q, here) ↦ elim (Bool-cases (adjust && q.elo_strategy == "classic")) [
      | inr off ↦ (db.ratings, rw (here, rate_match, off))
      | inl on ↦
          let (rows, e) =
            apply_classic_elo_total fl q (m.players ++ m.guest_ids) winner_ids db.ratings in
          (rows, rw (here, rate_match, on, e))
    ]
  ]

  -- The store that phase A leaves, up to the ratings.
  abbrev pub ended : ℕ → Match → List String → String → String → List String → List Rating → Db → Db
  ended now m winner_ids result logs_key artifacts rows db = record db {
    results = db.results ++ (result_row m now winner_ids result logs_key artifacts ∷ []);
    matches = update_by (λ x. x.id == m.id) cool db.matches;
    instances =
        if not (m.server_instance_id == "")
        then update_by (λ si. si.id == m.server_instance_id) (with_status InstanceStatus.cooldown)
            db.instances
        else db.instances;
    ratings = rows;
  }

  match_ended-found :
      (now : ℕ) (winner_ids : List String) (result logs_key : String) (artifacts : List String)
      (adjust : Bool) (db : Db) (m : Match)
      → get_match m.id db ≡ some m
      → contains (map result_id db.results) m.id ≡ false
      → (rows : List Rating) × (match_ended fl now m.id winner_ids result logs_key artifacts adjust
            db
          ≡ some (ended now m winner_ids result logs_key artifacts rows db))
  unfolding match_ended set_match_status_cooldown set_server_instance_status update_instances
  match_ended-found now winner_ids result logs_key artifacts adjust db m e fresh =
      let (rows, rated) =
        rate_match_total m winner_ids adjust
          (ended now m winner_ids result logs_key artifacts db.ratings db) in
      elim (Bool-cases (m.server_instance_id == "")) [
        | inl none_there ↦ (rows, rw (e, match_ended, fresh, none_there) (rw none_there at rated))
        | inr there ↦ (rows, rw (e, match_ended, fresh, there) (rw there at rated))
      ]

  match_ended-refused :
      (now : ℕ) (i : String) (winner_ids : List String) (result logs_key : String)
      (artifacts : List String) (adjust : Bool) (db : Db)
      → contains (map result_id db.results) i ≡ true
      → match_ended fl now i winner_ids result logs_key artifacts adjust db ≡ none
  unfolding match_ended
  match_ended-refused now i winner_ids result logs_key artifacts adjust db there =
      elim (Option-cases (get_match i db)) [
        | inl gone ↦ rw (gone, match_ended)
        | inr (m, here) ↦ rw (here, match_ended, there)
      ]

  match_ended-missing :
      (now : ℕ) (i : String) (winner_ids : List String) (result logs_key : String)
      (artifacts : List String) (adjust : Bool) (db : Db)
      → get_match i db ≡ none
      → match_ended fl now i winner_ids result logs_key artifacts adjust db ≡ none
  unfolding match_ended
  match_ended-missing now i winner_ids result logs_key artifacts adjust db gone =
      rw (gone, match_ended)

  -- Phase A went through.
  pub record IsEnded (now : ℕ) (i : String) (winner_ids : List String) (result logs_key : String)
      (artifacts : List String) (db after : Db) : Type 0 where
    pub row : Match
    pub found : get_match row.id db ≡ some row
    pub same_id : row.id ≡ i
    pub no_result : contains (map result_id db.results) i ≡ false
    pub rows : List Rating
    pub effect : after ≡ ended now row winner_ids result logs_key artifacts rows db

  pub match_ended-IsEnded :
      (now : ℕ) (i : String) (winner_ids : List String) (result logs_key : String)
      (artifacts : List String) (adjust : Bool) (db : Db) {after : Db}
      → match_ended fl now i winner_ids result logs_key artifacts adjust db ≡ some after
      → IsEnded now i winner_ids result logs_key artifacts db after
  unfolding get_match
  match_ended-IsEnded now i winner_ids result logs_key artifacts adjust db {after} e =
      elim (Option-cases (get_match i db)) [
        | inl gone ↦
            let run =
              match_ended-missing now i winner_ids result logs_key artifacts adjust db gone in
            cc
        | inr (m, here) ↦ elim (Bool-cases (contains (map result_id db.results) i)) [
          | inl there ↦
              let run =
                match_ended-refused now i winner_ids result logs_key artifacts adjust db there in
              cc
          | inr fresh ↦
              let same : m.id ≡ i = get_match-id i db here in
              let (rows, run) =
                match_ended-found now winner_ids result logs_key artifacts adjust db m
                  (ap (λ j. get_match j db) same ∙ here)
                  (ap (contains (map result_id db.results)) same ∙ fresh) in
              let run' =
                sym (
                  ap (λ j. match_ended fl now j winner_ids result logs_key artifacts adjust db)
                    same)
                ∙ run in
              let whole : some after
                  ≡ some (ended now m winner_ids result logs_key artifacts rows db) =
                sym e ∙ run' in
              record {
                row = m;
                found = ap (λ j. get_match j db) same ∙ here;
                same_id = same;
                no_result = fresh;
                rows = rows;
                effect = cc;
              }
        ]
      ]

  -- A match is ended at most once: after phase A went through, each further one for the same
  -- match, at any time and with any winners, is refused.
  pub match_ended_once :
      (now : ℕ) (i : String) (winner_ids : List String) (result logs_key : String)
      (artifacts : List String) (adjust : Bool) (db : Db) {after : Db}
      → match_ended fl now i winner_ids result logs_key artifacts adjust db ≡ some after
      → (now' : ℕ) (winner_ids' : List String) (result' logs_key' : String)
        (artifacts' : List String) (adjust' : Bool)
      → match_ended fl now' i winner_ids' result' logs_key' artifacts' adjust' after ≡ none
  match_ended_once now i winner_ids result logs_key artifacts adjust db {after} e now' winner_ids'
        result' logs_key' artifacts' adjust' =
      let x = match_ended-IsEnded now i winner_ids result logs_key artifacts adjust db e in
      match_ended-refused now' i winner_ids' result' logs_key' artifacts' adjust' after (
        ap (contains (map result_id after.results)) (sym x.same_id)
        ∙ ap (λ (d : Db). contains (map result_id d.results) x.row.id) x.effect
        ∙ contains_last db.results (result_row x.row now winner_ids result logs_key artifacts))
