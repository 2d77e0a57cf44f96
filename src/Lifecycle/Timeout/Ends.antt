-- ===== src/Lifecycle/Timeout/Ends.antt =====
-- The collection of the timed-out matches ends.
use elo_service.Prelude.{
  filter_by-true, ◌≡◌, sym, refl, true, ◌∙◌, ap, inl, inr, arith, ℕ, zero, suc, ◌*◌, ◌+◌, ◌≤◌, ◌<◌,
  String, false, Option, none, some, ltb, length, filter_by, length-filter_by, take, drop,
  Bool-cases, Option-cases, nat_eq, string_eq,
}
use elo_service.Store.{Match, Db, is_started}
use elo_service.Elo.{FloatOps}
use elo_service.Pages.{Scan, get_matches_underway, page_of}
use elo_service.Pages.Lengths.{length-take_le, length-drop}
use elo_service.Lifecycle.{AgentOutcome}
use elo_service.Lifecycle.Timeout.{
  gc_page_size, end_timed_out, garbage_collect_pages, garbage_collect_matches,
}
use elo_service.Lifecycle.Timeout.Fewer.{IsFewer, end_timed_out-IsFewer}

leb_of_not_ltb : (a b : ℕ) → ltb a b ≡ false → b ≤ a
leb_of_not_ltb a b h = ground arith

module _ (fl : FloatOps) where
  -- A next page means that the rows reach to its start.
  next-reached :
      (scan : Scan Match) (page next : ℕ) (db : Db)
      → (get_matches_underway scan page gc_page_size db).1 ≡ some next
      → (next ≡ suc page) × (suc page * gc_page_size ≤ length db.matches)
  unfolding get_matches_underway page_of
  next-reached scan page next db h =
      let started = filter_by (λ (m : Match). is_started m.status) db.matches in
      let live = scan.rows started in
      let same_length : length live ≡ length started =
        sym (ap length (filter_by-true (λ m. true) live (λ m. refl)))
        ∙ scan.same_count (λ m. true) started
        ∙ ap length (filter_by-true (λ m. true) started (λ m. refl)) in
      let found = take gc_page_size (drop (page * gc_page_size) live) in
      elim (Bool-cases (ltb (length found) gc_page_size)) [
        | inl short ↦ let bad : none ≡ some next = rw short at h in cc
        | inr full ↦
            let e : some (suc page) ≡ some next = rw full at h in
            let same : next ≡ suc page = cc in
            let hundred : gc_page_size ≤ length found =
              leb_of_not_ltb (length found) gc_page_size full in
            (
              same,
              omega (
                arith,
                hundred,
                same_length,
                length-filter_by (λ (m : Match). is_started m.status) db.matches,
                length-take_le gc_page_size (drop (page * gc_page_size) live),
                length-drop (page * gc_page_size) live,
              ),
            )
      ]

  abbrev Ends : Option Db → Db → Type 0
  Ends r db = (db' : Db) × (r ≡ some db') × IsFewer db db'

  garbage_collect_pages-Ends :
      (scans : ℕ → Scan Match) (fuel now cooldown : ℕ) (agents : String → AgentOutcome) (page : ℕ)
      (db : Db)
      → 1 ≤ fuel
      → length db.matches < (page + fuel) * gc_page_size
      → Ends (garbage_collect_pages fl scans fuel now cooldown agents page db) db
  unfolding garbage_collect_pages
  garbage_collect_pages-Ends scans zero now cooldown agents page db f h = absurd (omega arith)
  garbage_collect_pages-Ends scans (suc fuel) now cooldown agents page db f h =
      let found = (get_matches_underway (scans page) page gc_page_size db).0 in
      let ended = end_timed_out fl now cooldown agents found db in
      let fewer = end_timed_out-IsFewer fl now cooldown agents found db in
      let onwards : Option ℕ → Option Db = λ next. elim next [
        | none ↦ some ended
        | some p ↦ garbage_collect_pages fl scans fuel now cooldown agents p ended
      ] in
      elim (Option-cases (get_matches_underway (scans page) page gc_page_size db).1) [
        | inl last ↦ (ended, ap onwards last, fewer)
        | inr (next, more) ↦
            let (same, reached) = next-reached (scans page) page next db more in
            let (db', ends, fewer') =
              garbage_collect_pages-Ends scans fuel now cooldown agents next ended
                (omega (arith, reached, h)) (omega (arith, same, fewer, h)) in
            (db', ap onwards more ∙ ends, omega (arith, fewer, fewer'))
      ]

  -- The collection of timed-out matches ends, with one round for each full page of matches and one more, whatever the
  -- agents answer, in whatever order the query of each page finds the matches, and whichever matches it ends on the way; no match is added.
  pub garbage_collect_matches-Ends :
      (scans : ℕ → Scan Match) (now cooldown : ℕ) (agents : String → AgentOutcome) (db : Db)
      (fuel : ℕ)
      → length db.matches < fuel * gc_page_size
      → (db' : Db) × (garbage_collect_matches fl scans fuel now cooldown agents db ≡ some db')
        × (length db'.matches ≤ length db.matches)
  unfolding garbage_collect_matches
  garbage_collect_matches-Ends scans now cooldown agents db fuel h =
      garbage_collect_pages-Ends scans fuel now cooldown agents 0 db (omega arith) (omega arith)
