-- ===== src/Prelude/Sorting.antt =====
-- Sorting by a test, as an interface: what `sort.Slice` promises, which leaves the order of equals open;
-- and insertion sort, which fills it.

use mathlib.Core.Path.{◌≡◌, refl}
use mathlib.Core.Logic.{inl, inr}
use mathlib.Core.Bool.{Bool, true, false}
use mathlib.Core.List.{List, [], ◌∷◌}
use native.Mathlib.Omega.{arith}
use elo_service.Prelude.Tests.{if◌then◌else◌, Bool-cases}
use elo_service.Prelude.Lists.{length, filter_by, All}
use elo_service.Prelude.Tables.{All-map}

module _ {ℓ} {A : Type ℓ} where
  -- A strict weak order, as a test.
  pub record IsOrder (less : A → A → Bool) : Type ℓ where
    pub asym : (a b : A) → less a b ≡ true → less b a ≡ false
    pub trans : (a b c : A) → less b a ≡ false → less c b ≡ false → less c a ≡ false

  -- No element is less than one before it.
  abbrev pub IsSorted : (A → A → Bool) → List A → Type 0
  IsSorted less [] = Unit
  IsSorted less (x ∷ xs) = All (λ y. less y x ≡ false) xs × IsSorted less xs

pub record Sorting {ℓ} (A : Type ℓ) : Type ℓ where
  pub sort : (A → A → Bool) → List A → List A
  pub same_count :
      (less : A → A → Bool) (p : A → Bool) (xs : List A)
      → length (filter_by p (sort less xs)) ≡ length (filter_by p xs)
  pub sorted : (less : A → A → Bool) (xs : List A) → IsOrder less → IsSorted less (sort less xs)

module _ {ℓ} {A : Type ℓ} (less : A → A → Bool) where
  abbrev pub insert_by : A → List A → List A
  insert_by x [] = x ∷ []
  insert_by x (y ∷ ys) = let rest = insert_by x ys in if less y x then y ∷ rest else x ∷ y ∷ ys

  abbrev pub insertion_sort : List A → List A
  insertion_sort [] = []
  insertion_sort (x ∷ xs) = insert_by x (insertion_sort xs)

  filter_by-insert :
      (p : A → Bool) (x : A) (ys : List A)
      → length (filter_by p (insert_by x ys)) ≡ length (filter_by p (x ∷ ys))
  filter_by-insert p x [] = refl
  filter_by-insert p x (y ∷ ys) = ground (arith, filter_by-insert p x ys)

  pub filter_by-sort :
      (p : A → Bool) (xs : List A)
      → length (filter_by p (insertion_sort xs)) ≡ length (filter_by p xs)
  filter_by-sort p [] = refl
  filter_by-sort p (x ∷ xs) =
      ground (arith, filter_by-insert p x (insertion_sort xs), filter_by-sort p xs)

  All-insert : (P : A → Type 0) (x : A) (ys : List A) → P x → All P ys → All P (insert_by x ys)
  All-insert P x [] here h = (here, tt)
  All-insert P x (y ∷ ys) here h = elim (Bool-cases (less y x)) [
    | inl before ↦ rw before (h.0, All-insert P x ys here h.1)
    | inr after ↦ rw after (here, h)
  ]

  IsSorted-insert :
      (x : A) (ys : List A) → IsOrder less → IsSorted less ys → IsSorted less (insert_by x ys)
  IsSorted-insert x [] o h = (tt, tt)
  IsSorted-insert x (y ∷ ys) o h = elim (Bool-cases (less y x)) [
    | inl before ↦ rw before (
      All-insert (λ z. less z y ≡ false) x ys (o.asym y x before) h.0,
      IsSorted-insert x ys o h.1,
    )
    | inr after ↦ rw after (
      (
        after,
        All-map (λ z. less z y ≡ false) (λ z. less z x ≡ false) ys
            (λ z above. o.trans x y z after above) h.0,
      ),
      h,
    )
  ]

  pub IsSorted-sort : (xs : List A) → IsOrder less → IsSorted less (insertion_sort xs)
  IsSorted-sort [] o = tt
  IsSorted-sort (x ∷ xs) o = IsSorted-insert x (insertion_sort xs) o (IsSorted-sort xs o)

unfoldable pub by_insertion {ℓ} : (A : Type ℓ) → Sorting A
by_insertion A = record {
  sort = insertion_sort;
  same_count = λ less p xs. filter_by-sort less p xs;
  sorted = λ less xs o. IsSorted-sort less xs o;
}
