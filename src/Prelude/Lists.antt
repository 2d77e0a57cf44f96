-- ===== src/Prelude/Lists.antt =====
-- Lists by Boolean tests, and measured by native numbers, with the lemmas that several components use.
use Prim.Native.Nat.{ℕ, zero, suc, ◌+◌, ◌≤◌}
use mathlib.Core.Path.{◌≡◌, refl, sym, ap, ◌∙◌}
use mathlib.Core.Logic.{◌⊎◌, inl, inr}
use mathlib.Core.Bool.{Bool, true, false, not, ◌&&◌, ◌||◌}
use mathlib.Core.List.{List, [], ◌∷◌, ◌++◌}
use mathlib.Core.Option.{Option, none, some}
use native.Mathlib.Omega.{arith}
use elo_service.Prelude.Tests.{if◌then◌else◌, Bool-cases}
use elo_service.Prelude.EqClass.{Eq, ◌==◌, eq_of_test, eq_self, ne_of_test, test_of_ne}

pub or-false : (b : Bool) → (b || false) ≡ b
or-false b = ground arith

pub or-true : (b : Bool) → (b || true) ≡ true
or-true b = ground arith

module _ {ℓ} {A : Type ℓ} where
  abbrev pub length : List A → ℕ
  length [] = 0
  length (x ∷ xs) = suc (length xs)

  abbrev pub take : ℕ → List A → List A
  take zero xs = []
  take (suc n) [] = []
  take (suc n) (x ∷ xs) = x ∷ take n xs

  abbrev pub drop : ℕ → List A → List A
  drop zero xs = xs
  drop (suc n) [] = []
  drop (suc n) (x ∷ xs) = drop n xs

  -- The first element that passes the test.
  abbrev pub find_by : (A → Bool) → List A → Option A
  find_by p [] = none
  find_by p (x ∷ xs) = if p x then some x else find_by p xs

  abbrev pub filter_by : (A → Bool) → List A → List A
  filter_by p [] = []
  filter_by p (x ∷ xs) = let rest = filter_by p xs in if p x then x ∷ rest else rest

  abbrev pub any_by : (A → Bool) → List A → Bool
  any_by p [] = false
  any_by p (x ∷ xs) = p x || any_by p xs

  abbrev pub all_by : (A → Bool) → List A → Bool
  all_by p [] = true
  all_by p (x ∷ xs) = p x && all_by p xs

  -- `UPDATE ... WHERE p`
  abbrev pub update_by : (A → Bool) → (A → A) → List A → List A
  update_by p f [] = []
  update_by p f (x ∷ xs) = (if p x then f x else x) ∷ update_by p f xs

  abbrev pub All {κ} : (A → Type κ) → List A → Type κ
  All P [] = Unit
  All P (x ∷ xs) = P x × All P xs

  pub length-append : (xs ys : List A) → length (xs ++ ys) ≡ length xs + length ys
  length-append [] ys = omega arith
  length-append (x ∷ xs) ys = omega (arith, length-append xs ys)

  pub length-filter_by : (p : A → Bool) (xs : List A) → length (filter_by p xs) ≤ length xs
  length-filter_by p [] = omega arith
  length-filter_by p (x ∷ xs) = ground (arith, length-filter_by p xs)

  pub length-take : (n : ℕ) (xs : List A) → n ≤ length xs → length (take n xs) ≡ n
  length-take zero xs h = refl
  length-take (suc n) [] h = absurd (omega arith)
  length-take (suc n) (x ∷ xs) h = ap suc (length-take n xs (omega arith))

  pub take-append-drop : (n : ℕ) (xs : List A) → take n xs ++ drop n xs ≡ xs
  take-append-drop zero xs = refl
  take-append-drop (suc n) [] = refl
  take-append-drop (suc n) (x ∷ xs) = ap (λ (l : List A). x ∷ l) (take-append-drop n xs)

  pub All-append {κ} : (P : A → Type κ) (xs ys : List A) → All P xs → All P ys → All P (xs ++ ys)
  All-append P [] ys h k = k
  All-append P (x ∷ xs) ys h k = (h.0, All-append P xs ys h.1 k)

module _ {ℓ} {A : Type ℓ} ⦃e : Eq A⦄ where
  abbrev pub contains : List A → A → Bool
  contains [] a = false
  contains (x ∷ xs) a = x == a || contains xs a

  abbrev pub count : A → List A → ℕ
  count a [] = 0
  count a (x ∷ xs) = let rest = count a xs in if x == a then suc rest else rest

  -- Drops the first occurrence, as `LREM key 1 a` does.
  abbrev pub erase : A → List A → List A
  erase a [] = []
  erase a (x ∷ xs) = let rest = erase a xs in if x == a then xs else x ∷ rest

  abbrev pub IsNodup : List A → Type 0
  IsNodup [] = Unit
  IsNodup (x ∷ xs) = (contains xs x ≡ false) × IsNodup xs

  pub count-append : (a : A) (xs ys : List A) → count a (xs ++ ys) ≡ count a xs + count a ys
  count-append a [] ys = omega arith
  count-append a (x ∷ xs) ys = ground (arith, count-append a xs ys)

  pub contains-append :
      (xs ys : List A) (a : A) → contains (xs ++ ys) a ≡ (contains xs a || contains ys a)
  contains-append [] ys a = refl
  contains-append (x ∷ xs) ys a = ground (arith, contains-append xs ys a)

  pub count-of_not_contains : (a : A) (xs : List A) → contains xs a ≡ false → count a xs ≡ 0
  count-of_not_contains a [] h = refl
  count-of_not_contains a (x ∷ xs) h = ground (arith, count-of_not_contains a xs)

  pub count-of_contains : (a : A) (xs : List A) → contains xs a ≡ true → 1 ≤ count a xs
  count-of_contains a [] h = cc
  count-of_contains a (x ∷ xs) h = ground (arith, count-of_contains a xs)

  pub contains-of_count : (a : A) (xs : List A) → (contains xs a ≡ false) ⊎ (1 ≤ count a xs)
  contains-of_count a [] = inl refl
  contains-of_count a (x ∷ xs) = ground (arith, contains-of_count a xs)

  pub count-IsNodup : (a : A) (xs : List A) → IsNodup xs → count a xs ≤ 1
  count-IsNodup a [] h = omega arith
  count-IsNodup a (x ∷ xs) h = elim (Bool-cases (x == a)) [
    | inl same ↦
        let gone : contains xs a ≡ false = rw (eq_of_test x a same) at h.0 in
        rw same (omega (arith, count-of_not_contains a xs gone))
    | inr other ↦ rw other (count-IsNodup a xs h.1)
  ]

  pub All-contains {κ} :
      (P : A → Type κ) (xs : List A) (a : A) → All P xs → contains xs a ≡ true → P a
  All-contains P [] a h c = cc
  All-contains P (x ∷ xs) a h c = elim (Bool-cases (x == a)) [
    | inl same ↦ rw (← eq_of_test x a same) h.0
    | inr other ↦ All-contains P xs a h.1 (rw other at c)
  ]

  pub IsNodup-concat :
      (xs : List A) (a : A) → IsNodup xs → contains xs a ≡ false → IsNodup (xs ++ (a ∷ []))
  IsNodup-concat [] a h n = (refl, tt)
  IsNodup-concat (x ∷ xs) a h n = elim (Bool-cases (x == a)) [
    | inl same ↦ cc
    | inr other ↦ (
      rw (contains-append xs (a ∷ []) x, h.0)
          (ap (λ (b : Bool). b || false) (test_of_ne a x (λ p. ne_of_test x a other (sym p)))),
      IsNodup-concat xs a h.1 (rw other at n),
    )
  ]

  All-contains_more :
      (x : A) (xs ys : List A)
      → All (λ y. contains xs y ≡ true) ys
      → All (λ y. contains (x ∷ xs) y ≡ true) ys
  All-contains_more x xs [] h = tt
  All-contains_more x xs (y ∷ ys) h =
      (ap (λ (b : Bool). x == y || b) h.0 ∙ or-true (x == y), All-contains_more x xs ys h.1)

  pub All-contains_self : (xs : List A) → All (λ y. contains xs y ≡ true) xs
  All-contains_self [] = tt
  All-contains_self (x ∷ xs) = (
    ap (λ (b : Bool). b || contains xs x) (eq_self x),
    All-contains_more x xs xs (All-contains_self xs),
  )

  pub contains-filter_by :
      (p : A → Bool) (xs : List A) (a : A)
      → contains xs a ≡ false
      → contains (filter_by p xs) a ≡ false
  contains-filter_by p [] a h = refl
  contains-filter_by p (x ∷ xs) a h = ground (arith, contains-filter_by p xs a)

  pub IsNodup-filter_by : (p : A → Bool) (xs : List A) → IsNodup xs → IsNodup (filter_by p xs)
  IsNodup-filter_by p [] h = tt
  IsNodup-filter_by p (x ∷ xs) h = elim (Bool-cases (p x)) [
    | inl on ↦ rw on (contains-filter_by p xs x h.0, IsNodup-filter_by p xs h.1)
    | inr off ↦ rw off (IsNodup-filter_by p xs h.1)
  ]

  pub filter_by-all_others :
      (a : A) (xs : List A) → contains xs a ≡ false → filter_by (λ x. not (x == a)) xs ≡ xs
  filter_by-all_others a [] h = refl
  filter_by-all_others a (x ∷ xs) h = ground (arith, filter_by-all_others a xs)

  -- Among distinct elements, dropping the first occurrence drops all.
  pub erase-IsNodup :
      (a : A) (xs : List A) → IsNodup xs → erase a xs ≡ filter_by (λ x. not (x == a)) xs
  erase-IsNodup a [] h = refl
  erase-IsNodup a (x ∷ xs) h = elim (Bool-cases (x == a)) [
    | inl same ↦
        let gone : contains xs a ≡ false = rw (eq_of_test x a same) at h.0 in
        rw (same, filter_by-all_others a xs gone)
    | inr other ↦ rw (other, erase-IsNodup a xs h.1)
  ]

module _ {ℓ} {A : Type ℓ} where
  pub filter_by-cong :
      (p q : A → Bool) (xs : List A) → All (λ x. p x ≡ q x) xs → filter_by p xs ≡ filter_by q xs
  filter_by-cong p q [] h = refl
  filter_by-cong p q (x ∷ xs) h = rw (h.0, filter_by-cong p q xs h.1)

  pub filter_by-filter_by :
      (p q : A → Bool) (xs : List A) → filter_by p (filter_by q xs) ≡ filter_by (λ x. q x && p x) xs
  filter_by-filter_by p q [] = refl
  filter_by-filter_by p q (x ∷ xs) = ground (arith, filter_by-filter_by p q xs)

  pub filter_by-true : (p : A → Bool) (xs : List A) → ((x : A) → p x ≡ true) → filter_by p xs ≡ xs
  filter_by-true p [] h = refl
  filter_by-true p (x ∷ xs) h = rw (h x, filter_by-true p xs h)

module _ {ℓ} {A : Type ℓ} ⦃e : Eq A⦄ where
  pub erase-append : (xs : List A) (a : A) → contains xs a ≡ false → erase a (xs ++ (a ∷ [])) ≡ xs
  erase-append [] a h = rw (eq_self a)
  erase-append (x ∷ xs) a h = elim (Bool-cases (x == a)) [
    | inl same ↦ cc
    | inr other ↦ rw (other, erase-append xs a (rw other at h))
  ]
