-- ===== src/PlayerData/Listing.antt =====
-- What the listing of a player's entries holds.

use elo_service.Prelude.{
  ◌≡◌, ◌∙◌, inl, inr, sym, ap, refl, arith, String, Bool, true, false, ◌||◌, Option, none, some,
  List, [], ◌∷◌, map, string_eq, bool_eq, pair_eq, if◌then◌else◌, ◌==◌, filter_by, contains,
  IsNodup, Bool-cases, eq_self, eq_of_test, lookup, lookup-not_contains,
}
use text.Mathlib.TextEquality.{eq_iff}
use elo_service.PlayerData.{
  PlayerGameEntry, EntryKey, entry_key_eq, entry_key, is_of, is_key_le, insert_entry, sort_entries,
  later_or, list_player_game_entries, entries_to_response,
}

abbrev key_of : PlayerGameEntry → String
key_of e = e.key

contains-insert :
    (e : PlayerGameEntry) (ds : List PlayerGameEntry) (k : String)
    → contains (map key_of (insert_entry e ds)) k ≡ contains (map key_of (e ∷ ds)) k
unfolding insert_entry
contains-insert e [] k = refl
contains-insert e (d ∷ ds) k = ground (arith, contains-insert e ds k)

contains-sort :
    (es : List PlayerGameEntry) (k : String)
    → contains (map key_of (sort_entries es)) k ≡ contains (map key_of es) k
unfolding sort_entries
contains-sort [] k = refl
contains-sort (e ∷ es) k =
    contains-insert e (sort_entries es) k ∙ ap (λ b. e.key == k || b) (contains-sort es k)

later_or-swap :
    (e d : PlayerGameEntry) (k : String) (r : Option String)
    → (d.key == e.key) ≡ false
    → later_or
        (later_or r (if e.key == k then some e.value else none))
        (if d.key == k then some d.value else none)
      ≡ later_or
          (later_or r (if d.key == k then some d.value else none))
          (if e.key == k then some e.value else none)
later_or-swap e d k r h = ground (arith, eq_iff d.key k, eq_iff e.key k, eq_iff d.key e.key)

later_or-none : (r : Option String) → later_or r none ≡ r
later_or-none none = refl
later_or-none (some v) = refl

contains-tail :
    (d : PlayerGameEntry) (ds : List PlayerGameEntry) (k : String)
    → contains (map key_of (d ∷ ds)) k ≡ false
    → ((d.key == k) ≡ false) × (contains (map key_of ds) k ≡ false)
contains-tail d ds k h = ground arith

-- A map does not depend on where an entry of a new key is put.
response-insert :
    (e : PlayerGameEntry) (ds : List PlayerGameEntry) (k : String)
    → contains (map key_of ds) e.key ≡ false
    → entries_to_response (insert_entry e ds) k ≡ entries_to_response (e ∷ ds) k
unfolding insert_entry entries_to_response
response-insert e [] k h = refl
response-insert e (d ∷ ds) k h = elim (Bool-cases (is_key_le e d)) [
  | inl before ↦ rw before refl
  | inr after ↦
      let fresh = contains-tail d ds e.key h in
      rw after (
        ap (λ r. later_or r (if d.key == k then some d.value else none))
          (response-insert e ds k fresh.1)
        ∙ later_or-swap e d k (entries_to_response ds k) fresh.0)
]

response-sort :
    (es : List PlayerGameEntry) (k : String)
    → IsNodup (map key_of es)
    → entries_to_response (sort_entries es) k ≡ entries_to_response es k
unfolding sort_entries entries_to_response
response-sort [] k h = refl
response-sort (e ∷ es) k h =
    response-insert e (sort_entries es) k (contains-sort es e.key ∙ h.0)
    ∙ ap (λ r. later_or r (if e.key == k then some e.value else none)) (response-sort es k h.1)

module _ (game_id player_id : String) (side : Bool) where
  abbrev of : PlayerGameEntry → Bool
  of e = is_of game_id player_id side e

  abbrev key_with : String → EntryKey
  key_with k = ((game_id, player_id), (k, side))

  contains-of :
      (es : List PlayerGameEntry) (k : String)
      → contains (map key_of (filter_by of es)) k ≡ contains (map entry_key es) (key_with k)
  contains-of [] k = refl
  contains-of (e ∷ es) k = ground (arith, contains-of es k)

  key_of_own : (e : PlayerGameEntry) → of e ≡ true → entry_key e ≡ key_with e.key
  key_of_own e h =
      eq_of_test (entry_key e) (key_with e.key) (ground (arith, eq_iff e.key e.key, eq_self e.key))

  IsNodup-of :
      (es : List PlayerGameEntry)
      → IsNodup (map entry_key es)
      → IsNodup (map key_of (filter_by of es))
  IsNodup-of [] h = tt
  IsNodup-of (e ∷ es) h = elim (Bool-cases (of e)) [
    | inl on ↦ rw on (
      contains-of es e.key ∙ ap (contains (map entry_key es)) (sym (key_of_own e on)) ∙ h.0,
      IsNodup-of es h.1,
    )
    | inr off ↦ rw off (IsNodup-of es h.1)
  ]

  response-of :
      (es : List PlayerGameEntry) (k : String)
      → IsNodup (map entry_key es)
      → entries_to_response (filter_by of es) k ≡ lookup entry_key (λ e. e.value) es (key_with k)
  unfolding entries_to_response
  response-of [] k h = refl
  response-of (e ∷ es) k h = elim (Bool-cases (of e)) [
    | inr off ↦
        let other : (entry_key e == key_with k) ≡ false = ground arith in
        rw (off, other) (response-of es k h.1)
    | inl on ↦ elim (Bool-cases (e.key == k)) [
      | inl hit ↦
          let own : entry_key e ≡ key_with k =
            key_of_own e on ∙ ap key_with (eq_of_test e.key k hit) in
          let gone = ap (contains (map entry_key es)) (sym own) ∙ h.0 in
          let none_later =
            response-of es k h.1
            ∙ lookup-not_contains entry_key (λ d. d.value) es (key_with k) gone in
          let same : (entry_key e == key_with k) ≡ true =
            ap (λ j. j == key_with k) own ∙ eq_self (key_with k) in
          rw (on, same)
            (ap (λ r. later_or r (if e.key == k then some e.value else none)) none_later
              ∙ rw hit refl)
      | inr miss ↦
          let other : (entry_key e == key_with k) ≡ false = ground arith in
          rw (on, other)
            (ap
                (λ b.
                  later_or (entries_to_response (filter_by of es) k)
                    (if b then some e.value else none))
                miss
              ∙ later_or-none (entries_to_response (filter_by of es) k)
              ∙ response-of es k h.1)
    ]
  ]

  -- The listing of a player's entries holds what the table has under that player's keys.
  pub response-list :
      (es : List PlayerGameEntry) (k : String)
      → IsNodup (map entry_key es)
      → entries_to_response (list_player_game_entries game_id player_id side es) k
        ≡ lookup entry_key (λ e. e.value) es (key_with k)
  unfolding list_player_game_entries
  response-list es k h = response-sort (filter_by of es) k (IsNodup-of es h) ∙ response-of es k h
