-- ===== src/Hosts/Release.antt =====
-- Releasing ports: what stays of the allocated ones.
use elo_service.Prelude.{
  ℕ, ◌≡◌, refl, true, false, List, [], ◌∷◌, ◌++◌, arith, if◌then◌else◌, nat_eq, nat_beq_iff, ◌==◌,
  contains, count, All, Bool-cases, inl, inr,
}
use mathlib.Core.List.{append-nil}
use elo_service.Hosts.{remaining_ports}

pub count-remaining_ports :
    (q : ℕ) (ports xs : List ℕ)
    → count q (remaining_ports ports xs) ≡ (if contains ports q then 0 else count q xs)
unfolding remaining_ports
count-remaining_ports q ports [] = ground arith
count-remaining_ports q ports (x ∷ xs) = elim (Bool-cases (x == q)) [
  | inl same ↦ rw ((nat_beq_iff x q).0 same) (ground (arith, count-remaining_ports q ports xs))
  | inr other ↦ ground (arith, count-remaining_ports q ports xs)
]

remaining-All :
    (ports xs : List ℕ) → All (λ q. contains ports q ≡ false) xs → remaining_ports ports xs ≡ xs
unfolding remaining_ports
remaining-All ports [] h = refl
remaining-All ports (x ∷ xs) h = ground (arith, remaining-All ports xs h.1)

remaining-none :
    (ports xs : List ℕ) → All (λ q. contains ports q ≡ true) xs → remaining_ports ports xs ≡ []
unfolding remaining_ports
remaining-none ports [] h = refl
remaining-none ports (x ∷ xs) h = ground (arith, remaining-none ports xs h.1)

remaining-append :
    (ports xs ys : List ℕ)
    → remaining_ports ports (xs ++ ys) ≡ remaining_ports ports xs ++ remaining_ports ports ys
unfolding remaining_ports
remaining-append ports [] ys = refl
remaining-append ports (x ∷ xs) ys = ground (arith, remaining-append ports xs ys)

-- Symmetry of disjointness: no port of `ports` is taken, so no taken port is one of `ports`.
not_contains_cons :
    (x : ℕ) (taken ports : List ℕ)
    → All (λ q. contains (x ∷ taken) q ≡ false) ports
    → (contains ports x ≡ false) × All (λ q. contains taken q ≡ false) ports
not_contains_cons x taken [] h = (refl, tt)
not_contains_cons x taken (p ∷ ports) h =
    let rest = not_contains_cons x taken ports h.1 in
    (ground (arith, h.0, rest.0), (ground (arith, h.0), rest.1))

disjoint_sym :
    (taken ports : List ℕ)
    → All (λ q. contains taken q ≡ false) ports
    → All (λ q. contains ports q ≡ false) taken
disjoint_sym [] ports h = tt
disjoint_sym (x ∷ taken) ports h =
    let split = not_contains_cons x taken ports h in (split.0, disjoint_sym taken ports split.1)

contains_self :
    (ports more : List ℕ)
    → All (λ q. contains ports q ≡ true) more
    → (x : ℕ) → All (λ q. contains (x ∷ ports) q ≡ true) more
contains_self ports [] h x = tt
contains_self ports (q ∷ more) h x = (ground (arith, h.0), contains_self ports more h.1 x)

All-contained : (ports : List ℕ) → All (λ q. contains ports q ≡ true) ports
All-contained [] = tt
All-contained (p ∷ ports) = (ground arith, contains_self ports ports (All-contained ports) p)

-- Releasing fresh ports gives back the list from before they were added.
pub remaining_ports-append :
    (taken ports : List ℕ)
    → All (λ q. contains taken q ≡ false) ports
    → remaining_ports ports (taken ++ ports) ≡ taken
remaining_ports-append taken ports h =
    rw
      (
        remaining-append ports taken ports,
        remaining-All ports taken (disjoint_sym taken ports h),
        remaining-none ports ports (All-contained ports),
      )
      (append-nil taken)
