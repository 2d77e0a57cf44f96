-- ===== src/PlayerData/Refinement.antt =====
-- The table of entries against a function from primary keys to values.
use mathlib.Core.Path.{fun_ext, subst}
use elo_service.PlayerData.Listing.{response-list}
use elo_service.Prelude.{
  lookup, lookup-update_by, lookup-concat, lookup-filter_by, lookup-not_contains, map-concat,
  map-update_row, IsNodup-map_filter, ◌≡◌, ◌∙◌, inl, inr, sym, ap, refl, arith, String, Bool, true,
  false, not, Option, none, some, List, [], ◌∷◌, map, nat_eq, string_eq, if◌then◌else◌, ◌==◌,
  find_by, contains, IsNodup, Bool-cases, Option-cases, eq_of_test, IsNodup-concat,
}
use elo_service.Store.{Db}
use elo_service.PlayerData.{
  PlayerGameEntry, EntryKey, entry_key_eq, entry_key, has_owner, upsert_player_game_entry,
  get_player_game_entry, delete_player_game_entry, list_player_game_entries, entries_to_response,
}

-- One call of the table's functions, and its answer.
pub data Call : Type 0 where
  upsert : String → String → String → Bool → String → Call
  delete get : String → String → String → Bool → Call
  list_of : String → String → Bool → Call

pub data Reply : Type 0 where
  wrote found : Bool → Reply
  got : Option String → Reply
  all_of : (String → Option String) → Reply

abbrev pub value_of : Option PlayerGameEntry → Option String
value_of none = none
value_of (some e) = some e.value

abbrev pub call :
    (String → Option String) → Db → Call → List PlayerGameEntry → Reply × List PlayerGameEntry
call to_jsonb db (upsert g p k s v) es =
    let (written, es') = upsert_player_game_entry to_jsonb g p k s v db es in (wrote written, es')
call to_jsonb db (delete g p k s) es =
    let (deleted, es') = delete_player_game_entry g p k s es in (found deleted, es')
call to_jsonb db (get g p k s) es = (got (value_of (get_player_game_entry g p k s es)), es)
call to_jsonb db (list_of g p s) es =
    (all_of (entries_to_response (list_player_game_entries g p s es)), es)

-- The abstract table: what each primary key holds.
abbrev pub Table : Type 0
Table = EntryKey → Option String

abbrev pub put : EntryKey → Option String → Table → Table
put k v t j = if k == j then v else t j

abbrev pub is_some : Option String → Bool
is_some none = false
is_some (some v) = true

-- A write puts what the column makes of the value.
abbrev pub call_table : (String → Option String) → Db → Call → Table → Reply × Table
call_table to_jsonb db (upsert g p k s v) t = elim (to_jsonb v) [
  | none ↦ (wrote false, t)
  | some stored ↦
      if has_owner g p db
      then (wrote true, put ((g, p), (k, s)) (some stored) t)
      else (wrote false, t)
]
call_table to_jsonb db (delete g p k s) t =
    (found (is_some (t ((g, p), (k, s)))), put ((g, p), (k, s)) none t)
call_table to_jsonb db (get g p k s) t = (got (t ((g, p), (k, s))), t)
call_table to_jsonb db (list_of g p s) t = (all_of (λ k. t ((g, p), (k, s))), t)

abbrev pub run : (String → Option String) → Db → List Call → List PlayerGameEntry → List Reply
run to_jsonb db [] es = []
run to_jsonb db (c ∷ cs) es =
    let (reply, es') = call to_jsonb db c es in reply ∷ run to_jsonb db cs es'

abbrev pub run_table : (String → Option String) → Db → List Call → Table → List Reply
run_table to_jsonb db [] t = []
run_table to_jsonb db (c ∷ cs) t =
    let (reply, t') = call_table to_jsonb db c t in reply ∷ run_table to_jsonb db cs t'

abbrev pub view : List PlayerGameEntry → Table
view es = lookup entry_key (λ e. e.value) es

-- Every primary key stands in the table once.
abbrev pub IsKeyed : List PlayerGameEntry → Type 0
IsKeyed es = IsNodup (map entry_key es)

-- A call refines the abstract one: the same answer, the view of the new table, and keys that stay distinct.
abbrev pub IsRefined : (String → Option String) → Db → Call → List PlayerGameEntry → Type 0
IsRefined to_jsonb db c es =
    ((call to_jsonb db c es).0 ≡ (call_table to_jsonb db c (view es)).0)
    × (view (call to_jsonb db c es).1 ≡ (call_table to_jsonb db c (view es)).1)
    × IsKeyed (call to_jsonb db c es).1

is_some-view :
    (es : List PlayerGameEntry) (k : EntryKey) → contains (map entry_key es) k ≡ is_some (view es k)
is_some-view [] k = refl
is_some-view (e ∷ es) k = ground (arith, is_some-view es k)

value_of-find_by :
    (es : List PlayerGameEntry) (k : EntryKey)
    → value_of (find_by (λ e. entry_key e == k) es) ≡ view es k
value_of-find_by [] k = refl
value_of-find_by (e ∷ es) k = ground (arith, value_of-find_by es k)

put_nothing :
    (es : List PlayerGameEntry) (k : EntryKey)
    → contains (map entry_key es) k ≡ false
    → view es ≡ put k none (view es)
put_nothing es k h = fun_ext (λ j. elim (Bool-cases (k == j)) [
  | inl same ↦ rw same (
      ap (view es) (sym (eq_of_test k j same))
      ∙ lookup-not_contains entry_key (λ e. e.value) es k h)
  | inr other ↦ rw other refl
])

pub upsert-IsRefined :
    (to_jsonb : String → Option String) (db : Db) (g p k : String) (s : Bool) (v : String)
    (es : List PlayerGameEntry)
    → IsKeyed es
    → IsRefined to_jsonb db (upsert g p k s v) es
unfolding upsert_player_game_entry
upsert-IsRefined to_jsonb db g p k s v es h = elim (Option-cases (to_jsonb v)) [
  | inl refused ↦ rw (upsert_player_game_entry, call_table, refused) (refl, refl, h)
  | inr (stored, taken) ↦
      let entry : PlayerGameEntry = record {
        game_id = g;
        player_id = p;
        key = k;
        server_authored = s;
        value = stored;
      } in
      elim (Bool-cases (has_owner g p db)) [
        | inr nobody ↦ rw (upsert_player_game_entry, call_table, taken, nobody) (refl, refl, h)
        | inl owned ↦ elim (Bool-cases (contains (map entry_key es) (entry_key entry))) [
          | inl there ↦
              rw (upsert_player_game_entry, call_table, taken, owned, there)
                (
                  refl,
                  fun_ext (λ j. lookup-update_by entry_key (λ e. e.value) entry es j there),
                  subst IsNodup (sym (map-update_row entry_key entry es)) h,
                )
          | inr new ↦
              rw (upsert_player_game_entry, call_table, taken, owned, new)
                (
                  refl,
                  fun_ext (λ j. lookup-concat entry_key (λ e. e.value) entry es j new),
                  subst IsNodup (sym (map-concat entry_key es entry))
                      (IsNodup-concat (map entry_key es) (entry_key entry) h new),
                )
        ]
      ]
]

pub delete-IsRefined :
    (to_jsonb : String → Option String) (db : Db) (g p k : String) (s : Bool)
    (es : List PlayerGameEntry)
    → IsKeyed es
    → IsRefined to_jsonb db (delete g p k s) es
unfolding delete_player_game_entry
delete-IsRefined to_jsonb db g p k s es h =
    let j : EntryKey = ((g, p), (k, s)) in
    elim (Bool-cases (contains (map entry_key es) j)) [
      | inl there ↦ rw there (
        ap found (sym there ∙ is_some-view es j),
        fun_ext (λ i. lookup-filter_by entry_key (λ e. e.value) j es i),
        IsNodup-map_filter entry_key (λ e. not (entry_key e == j)) es h,
      )
      | inr gone ↦ rw gone (ap found (sym gone ∙ is_some-view es j), put_nothing es j gone, h)
    ]

call-IsRefined :
    (to_jsonb : String → Option String) (db : Db) (c : Call) (es : List PlayerGameEntry)
    → IsKeyed es
    → IsRefined to_jsonb db c es
unfolding get_player_game_entry
call-IsRefined to_jsonb db (upsert g p k s v) es h = upsert-IsRefined to_jsonb db g p k s v es h
call-IsRefined to_jsonb db (delete g p k s) es h = delete-IsRefined to_jsonb db g p k s es h
call-IsRefined to_jsonb db (get g p k s) es h =
    (ap got (value_of-find_by es ((g, p), (k, s))), refl, h)
call-IsRefined to_jsonb db (list_of g p s) es h =
    (ap all_of (fun_ext (λ k. response-list g p s es k h)), refl, h)

-- Every sequence of calls on the table of entries answers as the calls on a function from primary keys to
-- what the jsonb column makes of the values written do, whatever that is and whichever texts it refuses, given that the
-- table holds each primary key once at first.
pub run-run_table :
    (to_jsonb : String → Option String) (db : Db) (cs : List Call) (es : List PlayerGameEntry)
    → IsKeyed es
    → run to_jsonb db cs es ≡ run_table to_jsonb db cs (view es)
run-run_table to_jsonb db [] es h = refl
run-run_table to_jsonb db (c ∷ cs) es h =
    let (same, seen, keyed) = call-IsRefined to_jsonb db c es h in
    cc (same, run-run_table to_jsonb db cs (call to_jsonb db c es).1 keyed)
