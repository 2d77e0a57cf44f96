-- ===== src/Prelude/EqClass.antt =====
-- Equality tests as an interface, at numbers and texts.
use Prim.Native.Nat.{ℕ}
use Prim.Native.String.{String}
use mathlib.Core.Path.{◌≡◌, refl, sym, subst}
use mathlib.Core.Logic.{◌↔◌, ◌≢◌}
use mathlib.Core.Bool.{Bool, true, false, ◌&&◌}
use native.Mathlib.Omega.{arith}
use text.Mathlib.Text.{◌==◌ as str_eq}
use text.Mathlib.TextEquality.{eq_iff}
use elo_service.Prelude.Tests.{nat_beq, nat_beq_iff}

-- A test and why it may be trusted, in both directions.
pub record Eq {ℓ} (A : Type ℓ) : Type ℓ where
  pub same : A → A → Bool
  pub same_iff : (x y : A) → (same x y ≡ true) ↔ (x ≡ y)

instance abbrev pub string_eq : Eq String
string_eq = record { same_iff = eq_iff; same = str_eq }

instance abbrev pub nat_eq : Eq ℕ
nat_eq = record { same_iff = nat_beq_iff; same = nat_beq }

infix 50 ◌==◌
abbrev pub ◌==◌ {ℓ} : {A : Type ℓ} ⦃e : Eq A⦄ → A → A → Bool
◌==◌ ⦃e⦄ = e.same

module _ {ℓ} {A : Type ℓ} ⦃e : Eq A⦄ where
  pub eq_self : (a : A) → (a == a) ≡ true
  eq_self a = (e.same_iff a a).1 refl

  pub eq_of_test : (a b : A) → (a == b) ≡ true → a ≡ b
  eq_of_test a b h = (e.same_iff a b).0 h

  pub ne_of_test : (a b : A) → (a == b) ≡ false → a ≢ b
  ne_of_test a b h p = grind (arith, e.same_iff a b)

  pub test_of_ne : (a b : A) → a ≢ b → (a == b) ≡ false
  test_of_ne a b h = grind (arith, e.same_iff a b)

abbrev pub bool_beq : Bool → Bool → Bool
bool_beq true b = b
bool_beq false true = false
bool_beq false false = true

pub bool_beq_iff : (x y : Bool) → (bool_beq x y ≡ true) ↔ (x ≡ y)
bool_beq_iff true true = (λ _. refl, λ _. refl)
bool_beq_iff true false = (λ h. sym h, λ h. sym h)
bool_beq_iff false true = (λ h. h, λ h. h)
bool_beq_iff false false = (λ _. refl, λ _. refl)

instance abbrev pub bool_eq : Eq Bool
bool_eq = record { same_iff = bool_beq_iff; same = bool_beq }

module _ {ℓ κ} {A : Type ℓ} {B : Type κ} ⦃d : Eq A⦄ ⦃e : Eq B⦄ where
  pub pair_beq_iff : (p q : A × B) → ((p.0 == q.0 && p.1 == q.1) ≡ true) ↔ (p ≡ q)
  pair_beq_iff p q = (
    λ h.
        let first : (p.0 == q.0) ≡ true = ground arith in
        let second : (p.1 == q.1) ≡ true = rw first at h in
        cc (eq_of_test p.0 q.0 first, eq_of_test p.1 q.1 second),
    λ h. subst (λ r. (p.0 == r.0 && p.1 == r.1) ≡ true) h (rw (eq_self p.0, eq_self p.1) refl),
  )

  instance abbrev pub pair_eq : Eq (A × B)
  pair_eq = record { same_iff = pair_beq_iff; same = λ p q. p.0 == q.0 && p.1 == q.1 }
