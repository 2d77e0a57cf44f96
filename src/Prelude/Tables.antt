-- ===== src/Prelude/Tables.antt =====
-- Rows found and updated by a key, as `WHERE id = ?` does.
use mathlib.Core.Path.{◌≡◌, refl, ap}
use mathlib.Core.Logic.{inl, inr}
use mathlib.Core.Bool.{Bool, true, false, ◌&&◌, ◌||◌}
use mathlib.Core.List.{List, [], ◌∷◌, ◌++◌, map}
use mathlib.Core.Option.{none, some}
use native.Mathlib.Omega.{arith}
use elo_service.Prelude.Tests.{if◌then◌else◌, Bool-cases}
use elo_service.Prelude.EqClass.{Eq, ◌==◌, eq_self, eq_of_test}
use elo_service.Prelude.Lists.{find_by, update_by, filter_by, contains, IsNodup, All}

module _ {ℓ κ} {A : Type ℓ} where
  pub All-find_by :
      (P : A → Type κ) (p : A → Bool) (xs : List A) {x : A}
      → All P xs
      → find_by p xs ≡ some x
      → P x × (p x ≡ true)
  All-find_by P p [] h e = cc
  All-find_by P p (y ∷ xs) {x = x} h e = elim (Bool-cases (p y)) [
    | inl hit ↦ let same : y ≡ x = cc in rw (← same) (h.0, hit)
    | inr miss ↦ All-find_by P p xs h.1 (rw miss at e)
  ]

  pub All-update_by {μ} :
      (P : A → Type κ) (Q : A → Type μ) (p : A → Bool) (f : A → A) (xs : List A)
      → All P xs
      → All (λ x. P x → p x ≡ true → Q (f x)) xs
      → All (λ x. P x → p x ≡ false → Q x) xs
      → All Q (update_by p f xs)
  All-update_by P Q p f [] h hit miss = tt
  All-update_by P Q p f (x ∷ xs) h hit miss = elim (Bool-cases (p x)) [
    | inl e ↦ rw e (hit.0 h.0 e, All-update_by P Q p f xs h.1 hit.1 miss.1)
    | inr e ↦ rw e (miss.0 h.0 e, All-update_by P Q p f xs h.1 hit.1 miss.1)
  ]

  pub All-map {μ} :
      (P : A → Type κ) (Q : A → Type μ) (xs : List A) → ((x : A) → P x → Q x) → All P xs → All Q xs
  All-map P Q [] f h = tt
  All-map P Q (x ∷ xs) f h = (f x h.0, All-map P Q xs f h.1)

  pub All-always : (P : A → Type κ) (xs : List A) → ((x : A) → P x) → All P xs
  All-always P [] f = tt
  All-always P (x ∷ xs) f = (f x, All-always P xs f)

module _ {ℓ κ} {A : Type ℓ} {K : Type κ} ⦃e : Eq K⦄ (key : A → K) where
  pub find_by-key :
      (k : K) (xs : List A) {x : A} → find_by (λ y. key y == k) xs ≡ some x → key x ≡ k
  find_by-key k xs {x = x} h =
      eq_of_test (key x) k
        (All-find_by (λ _. Unit {0}) (λ y. key y == k) xs (All-always (λ _. Unit {0}) xs (λ _. tt))
          h).1

  pub no_match :
      (k : K) (xs : List A) → contains (map key xs) k ≡ false → All (λ x. (key x == k) ≡ false) xs
  no_match k [] h = tt
  no_match k (x ∷ xs) h = elim (Bool-cases (key x == k)) [
    | inl same ↦ cc
    | inr other ↦ (other, no_match k xs (rw other at h))
  ]

  -- With distinct keys the row that is found is the only one of its key.
  pub find_by_unique :
      (k : K) (xs : List A) {x : A}
      → IsNodup (map key xs)
      → find_by (λ y. key y == k) xs ≡ some x
      → All (λ y. (key y == k) ≡ true → y ≡ x) xs
  find_by_unique k [] u h = tt
  find_by_unique k (y ∷ xs) {x = x} u h = elim (Bool-cases (key y == k)) [
    | inl hit ↦
        let same : y ≡ x = cc in
        let fresh : contains (map key xs) k ≡ false = rw (eq_of_test (key y) k hit) at u.0 in
        (
          λ _. same,
          All-map (λ z. (key z == k) ≡ false) (λ z. (key z == k) ≡ true → z ≡ x) xs (λ z off on. cc)
              (no_match k xs fresh),
        )
    | inr miss ↦ (λ on. cc, find_by_unique k xs u.1 (rw miss at h))
  ]

  -- An update that keeps the keys keeps the list of keys.
  pub map-update_by :
      (p : A → Bool) (f : A → A) (xs : List A)
      → ((x : A) → key (f x) ≡ key x)
      → map key (update_by p f xs) ≡ map key xs
  map-update_by p f [] h = refl
  map-update_by p f (x ∷ xs) h = elim (Bool-cases (p x)) [
    | inl hit ↦ rw (hit, h x, map-update_by p f xs h)
    | inr miss ↦ rw (miss, map-update_by p f xs h)
  ]

  pub update_by-update_by :
      (k : K) (f g : A → A) (xs : List A)
      → ((x : A) → key (f x) ≡ key x)
      → update_by (λ x. key x == k) g (update_by (λ x. key x == k) f xs)
        ≡ update_by (λ x. key x == k) (λ x. g (f x)) xs
  update_by-update_by k f g [] h = refl
  update_by-update_by k f g (x ∷ xs) h = elim (Bool-cases (key x == k)) [
    | inl hit ↦ rw (hit, h x, hit, update_by-update_by k f g xs h)
    | inr miss ↦ rw (miss, miss, update_by-update_by k f g xs h)
  ]

  pub update_by_self :
      (k : K) (f : A → A) (xs : List A)
      → All (λ x. (key x == k) ≡ true → f x ≡ x) xs
      → update_by (λ x. key x == k) f xs ≡ xs
  update_by_self k f [] h = refl
  update_by_self k f (x ∷ xs) h = elim (Bool-cases (key x == k)) [
    | inl hit ↦ rw (hit, h.0 hit, update_by_self k f xs h.1)
    | inr miss ↦ rw (miss, update_by_self k f xs h.1)
  ]

  -- The updated row is found again.
  pub find_by-update_by :
      (k j : K) (f : A → A) (xs : List A)
      → ((x : A) → key (f x) ≡ key x)
      → find_by (λ y. key y == j) (update_by (λ y. key y == k) f xs)
        ≡ elim (find_by (λ y. key y == j) xs) [
          | none ↦ none
          | some x ↦ some (if key x == k then f x else x)
        ]
  find_by-update_by k j f [] h = refl
  find_by-update_by k j f (x ∷ xs) h = ground (arith, h x, find_by-update_by k j f xs h)

  pub contains-find_by :
      (p : A → Bool) (xs : List A) {x : A}
      → find_by p xs ≡ some x
      → contains (map key xs) (key x) ≡ true
  contains-find_by p [] h = cc
  contains-find_by p (y ∷ xs) {x = x} h = elim (Bool-cases (p y)) [
    | inl hit ↦
        let same : y ≡ x = cc in
        rw (← same) (ap (λ (b : Bool). b || contains (map key xs) (key y)) (eq_self (key y)))
    | inr miss ↦ elim (Bool-cases (key y == key x)) [
      | inl same ↦ rw same
      | inr other ↦ rw other (contains-find_by p xs (rw miss at h))
    ]
  ]

  -- A row found by any test is the one that its key finds.
  pub find_by-by_key :
      (p : A → Bool) (xs : List A) {x : A}
      → IsNodup (map key xs)
      → find_by p xs ≡ some x
      → find_by (λ y. key y == key x) xs ≡ some x
  find_by-by_key p [] u h = cc
  find_by-by_key p (y ∷ xs) {x = x} u h = elim (Bool-cases (p y)) [
    | inl hit ↦ let same : y ≡ x = cc in rw (← same) (rw (eq_self (key y)))
    | inr miss ↦ elim (Bool-cases (key y == key x)) [
      | inl same ↦ cc (
        contains-find_by p xs (rw miss at h),
        ap (contains (map key xs)) (eq_of_test (key y) (key x) same),
        u.0,
      )
      | inr other ↦ rw other (find_by-by_key p xs u.1 (rw miss at h))
    ]
  ]

module _ {ℓ} {A : Type ℓ} where
  pub find_by-filter_by :
      (p q : A → Bool) (xs : List A) → find_by p (filter_by q xs) ≡ find_by (λ x. q x && p x) xs
  find_by-filter_by p q [] = refl
  find_by-filter_by p q (x ∷ xs) = ground (arith, find_by-filter_by p q xs)

  pub update_by-cong :
      (p : A → Bool) (f g : A → A) (xs : List A)
      → All (λ x. p x ≡ true → f x ≡ g x) xs
      → update_by p f xs ≡ update_by p g xs
  update_by-cong p f g [] h = refl
  update_by-cong p f g (x ∷ xs) h = elim (Bool-cases (p x)) [
    | inl hit ↦ rw (hit, h.0 hit, update_by-cong p f g xs h.1)
    | inr miss ↦ rw (miss, update_by-cong p f g xs h.1)
  ]

  pub update_by-miss :
      (p : A → Bool) (f : A → A) (xs : List A) → All (λ x. p x ≡ false) xs → update_by p f xs ≡ xs
  update_by-miss p f [] h = refl
  update_by-miss p f (x ∷ xs) h = rw (h.0, update_by-miss p f xs h.1)

  pub find_by-none : (p : A → Bool) (xs : List A) → find_by p xs ≡ none → All (λ x. p x ≡ false) xs
  find_by-none p [] h = tt
  find_by-none p (x ∷ xs) h = elim (Bool-cases (p x)) [
    | inl hit ↦ let bad : some x ≡ none = rw hit at h in cc
    | inr miss ↦ (miss, find_by-none p xs (rw miss at h))
  ]

  pub update_by-concat :
      (p : A → Bool) (f : A → A) (xs : List A) (x : A)
      → All (λ y. p y ≡ false) xs
      → p x ≡ true
      → update_by p f (xs ++ (x ∷ [])) ≡ xs ++ (f x ∷ [])
  update_by-concat p f [] x h on = rw on
  update_by-concat p f (y ∷ xs) x h on = rw (h.0, update_by-concat p f xs x h.1 on)

  pub All-concat {κ} :
      (P : A → Type κ) (xs : List A) (x : A) → All P xs → P x → All P (xs ++ (x ∷ []))
  All-concat P [] x h here = (here, tt)
  All-concat P (y ∷ xs) x h here = (h.0, All-concat P xs x h.1 here)
