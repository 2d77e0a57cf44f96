-- ===== src/Users/Columns.antt =====
-- A column of the accounts under the updates of single rows.
use elo_service.Prelude.{
  ◌≡◌, ◌≢◌, ◌∙◌, ◌⊎◌, inl, inr, sym, ap, refl, arith, String, Bool, false, ◌&&◌, some, List, [],
  ◌∷◌, map, string_eq, ◌==◌, update_by, find_by, contains, IsNodup, All, Bool-cases, eq_of_test,
  ne_of_test, test_of_ne, update_by-miss, contains-find_by,
}
use mathlib.Core.Path.{subst}
use elo_service.Store.{User}
use elo_service.Users.{user_id, is_live}

-- An update that keeps a column keeps its values.
pub map-update_live :
    (key : User → String) (p : User → Bool) (f : User → User) (us : List User)
    → ((u : User) → key (f u) ≡ key u)
    → map key (update_by p f us) ≡ map key us
map-update_live key p f [] h = refl
map-update_live key p f (u ∷ us) h = elim (Bool-cases (p u)) [
  | inl hit ↦ rw (hit, h u, map-update_live key p f us h) refl
  | inr miss ↦ rw (miss, map-update_live key p f us h) refl
]

contains_rest :
    (x : String) (xs : List String) (a : String)
    → contains (x ∷ xs) a ≡ false
    → ((x == a) ≡ false) × (contains xs a ≡ false)
contains_rest x xs a h = ground arith

none_of :
    (i : String) (us : List User)
    → contains (map user_id us) i ≡ false
    → All (λ u. (is_live u && u.id == i) ≡ false) us
none_of i [] h = tt
none_of i (u ∷ us) h = (ground arith, none_of i us (contains_rest u.id (map user_id us) i h).1)

-- One row, found by its id, gets a value in a column that no other row has there.
module _ (key : User → String) (f : User → User) (value : String)
    (sets : (u : User) → key (f u) ≡ value) where
  contains-write :
      (p : User → Bool) (us : List User) (a : String)
      → value ≢ a
      → contains (map key us) a ≡ false
      → contains (map key (update_by p f us)) a ≡ false
  contains-write p [] a h c = refl
  contains-write p (u ∷ us) a h c = elim (Bool-cases (p u)) [
    | inl hit ↦
        rw (hit, sets u, test_of_ne value a h)
          (contains-write p us a h (contains_rest (key u) (map key us) a c).1)
    | inr miss ↦
        let both = contains_rest (key u) (map key us) a c in
        rw (miss, both.0) (contains-write p us a h both.1)
  ]

  pub IsNodup-write :
      (i : String) (us : List User) {user : User}
      → IsNodup (map user_id us)
      → IsNodup (map key us)
      → find_by (λ u. is_live u && u.id == i) us ≡ some user
      → (value ≡ key user) ⊎ (contains (map key us) value ≡ false)
      → IsNodup (map key (update_by (λ u. is_live u && u.id == i) f us))
  IsNodup-write i [] ids keys found free = cc
  IsNodup-write i (u ∷ us) {user = user} ids keys found free =
      elim (Bool-cases (is_live u && u.id == i)) [
        | inl hit ↦
            let is_u : u ≡ user = cc in
            let here : u.id ≡ i = eq_of_test u.id i (ground arith) in
            let alone : contains (map user_id us) i ≡ false = rw here at ids.0 in
            let unused : contains (map key us) value ≡ false = elim free [
              | inl same ↦
                  subst (λ v. contains (map key us) v ≡ false) (ap key is_u ∙ sym same) keys.0
              | inr new ↦ (contains_rest (key u) (map key us) value new).1
            ] in
            rw (hit, update_by-miss (λ x. is_live x && x.id == i) f us (none_of i us alone), sets u)
              (unused, keys.1)
        | inr miss ↦
            let later : find_by (λ x. is_live x && x.id == i) us ≡ some user = rw miss at found in
            let other : value ≢ key u = elim free [
              | inl same ↦ λ e.
                  let there = contains-find_by key (λ x. is_live x && x.id == i) us later in
                  let gone : contains (map key us) (key user) ≡ false =
                    subst (λ v. contains (map key us) v ≡ false) (sym e ∙ same) keys.0 in
                  cc
              | inr new ↦ λ e.
                  ne_of_test (key u) value (contains_rest (key u) (map key us) value new).0 (sym e)
            ] in
            let still : (value ≡ key user) ⊎ (contains (map key us) value ≡ false) = elim free [
              | inl same ↦ inl same
              | inr new ↦ inr (contains_rest (key u) (map key us) value new).1
            ] in
            rw miss (
              contains-write (λ x. is_live x && x.id == i) us (key u) other keys.0,
              IsNodup-write i us ids.1 keys.1 later still,
            )
      ]
