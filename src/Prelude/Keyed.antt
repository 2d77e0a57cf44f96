-- ===== src/Prelude/Keyed.antt =====
-- Lists whose elements have keys, seen as functions from the keys.
use mathlib.Core.Path.{◌≡◌, refl, ap, ◌∙◌}
use mathlib.Core.Logic.{inl, inr}
use mathlib.Core.Bool.{Bool, true, false, not}
use mathlib.Core.List.{List, [], ◌∷◌, ◌++◌, map}
use mathlib.Core.Option.{Option, none, some}
use native.Mathlib.Omega.{arith}
use elo_service.Prelude.Tests.{if◌then◌else◌, Bool-cases}
use elo_service.Prelude.EqClass.{Eq, ◌==◌, eq_of_test}
use elo_service.Prelude.Lists.{filter_by, update_by, contains, IsNodup}

-- A list with keys, seen as a function.
module _ {ℓ κ μ} {A : Type ℓ} {K : Type κ} {V : Type μ} ⦃e : Eq K⦄ (key : A → K)
    (value : A → V) where
  abbrev pub lookup : List A → K → Option V
  lookup [] k = none
  lookup (x ∷ xs) k = let rest = lookup xs k in if key x == k then some (value x) else rest

  pub lookup-update_other :
      (x : A) (xs : List A) (j : K)
      → (key x == j) ≡ false
      → lookup (update_by (λ y. key y == key x) (λ y. x) xs) j ≡ lookup xs j
  lookup-update_other x [] j h = refl
  lookup-update_other x (y ∷ xs) j h = ground (
    arith,
    e.same_iff (key y) j,
    e.same_iff (key x) j,
    e.same_iff (key y) (key x),
    lookup-update_other x xs j h,
  )

  pub lookup-update_by :
      (x : A) (xs : List A) (j : K)
      → contains (map key xs) (key x) ≡ true
      → lookup (update_by (λ y. key y == key x) (λ y. x) xs) j
        ≡ (if key x == j then some (value x) else lookup xs j)
  lookup-update_by x [] j h = cc
  lookup-update_by x (y ∷ xs) j h = elim (Bool-cases (key x == j)) [
    | inl here ↦ elim (Bool-cases (key y == key x)) [
      | inl hit ↦ rw (hit, here) refl
      | inr miss ↦
          let other : (key y == j) ≡ false = rw (eq_of_test (key x) j here) at miss in
          rw (miss, other, lookup-update_by x xs j (rw miss at h), here) refl
    ]
    | inr away ↦ lookup-update_other x (y ∷ xs) j away ∙ rw away refl
  ]

  pub lookup-concat :
      (x : A) (xs : List A) (j : K)
      → contains (map key xs) (key x) ≡ false
      → lookup (xs ++ (x ∷ [])) j ≡ (if key x == j then some (value x) else lookup xs j)
  lookup-concat x [] j h = refl
  lookup-concat x (y ∷ xs) j h = ground (
    arith,
    e.same_iff (key y) j,
    e.same_iff (key x) j,
    e.same_iff (key y) (key x),
    lookup-concat x xs j,
  )

  pub lookup-filter_by :
      (k : K) (xs : List A) (j : K)
      → lookup (filter_by (λ y. not (key y == k)) xs) j ≡ (if k == j then none else lookup xs j)
  lookup-filter_by k [] j = ground arith
  lookup-filter_by k (y ∷ xs) j =
      ground
        (arith, e.same_iff (key y) j, e.same_iff k j, e.same_iff (key y) k, lookup-filter_by k xs j)

  pub lookup-not_contains :
      (xs : List A) (k : K) → contains (map key xs) k ≡ false → lookup xs k ≡ none
  lookup-not_contains [] k h = refl
  lookup-not_contains (x ∷ xs) k h = ground (arith, lookup-not_contains xs k)

module _ {ℓ κ} {A : Type ℓ} {K : Type κ} ⦃e : Eq K⦄ (key : A → K) where
  pub map-concat : (xs : List A) (x : A) → map key (xs ++ (x ∷ [])) ≡ map key xs ++ (key x ∷ [])
  map-concat [] x = refl
  map-concat (y ∷ xs) x = ap (λ l. key y ∷ l) (map-concat xs x)

  -- Writing a row over those of its key keeps the keys.
  pub map-update_row :
      (x : A) (xs : List A) → map key (update_by (λ y. key y == key x) (λ y. x) xs) ≡ map key xs
  map-update_row x [] = refl
  map-update_row x (y ∷ xs) = elim (Bool-cases (key y == key x)) [
    | inl hit ↦ rw (hit, eq_of_test (key y) (key x) hit, map-update_row x xs) refl
    | inr miss ↦ rw (miss, map-update_row x xs) refl
  ]

  pub contains-map_filter :
      (p : A → Bool) (xs : List A) (k : K)
      → contains (map key xs) k ≡ false
      → contains (map key (filter_by p xs)) k ≡ false
  contains-map_filter p [] k h = refl
  contains-map_filter p (x ∷ xs) k h = ground (arith, contains-map_filter p xs k)

  pub IsNodup-map_filter :
      (p : A → Bool) (xs : List A) → IsNodup (map key xs) → IsNodup (map key (filter_by p xs))
  IsNodup-map_filter p [] h = tt
  IsNodup-map_filter p (x ∷ xs) h = elim (Bool-cases (p x)) [
    | inl on ↦ rw on (contains-map_filter p xs (key x) h.0, IsNodup-map_filter p xs h.1)
    | inr off ↦ rw off (IsNodup-map_filter p xs h.1)
  ]
