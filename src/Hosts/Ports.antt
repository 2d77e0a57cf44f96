-- ===== src/Hosts/Ports.antt =====
-- The scan for free ports: what it returns, and how many ports it finds.
use elo_service.Prelude.{
  ℕ, zero, suc, ◌+◌, ◌-◌, ◌≤◌, ◌<◌, ◌≡◌, refl, true, false, ◌&&◌, List, [], ◌∷◌, arith, ltb, leb,
  if◌then◌else◌, nat_eq, ◌==◌, length, contains, IsNodup, All, Bool-cases, inl, inr,
}
use elo_service.Hosts.{scan_ports}

-- A port that the scan may return: in `[p, p + rounds)` and not taken.
abbrev pub IsFree : List ℕ → ℕ → ℕ → ℕ → Type 0
IsFree taken p rounds q = (p ≤ q) × (q < p + rounds) × (contains taken q ≡ false)

All-IsFree-suc :
    (taken : List ℕ) (p rounds : ℕ) (xs : List ℕ)
    → All (IsFree taken (p + 1) rounds) xs
    → All (IsFree taken p (suc rounds)) xs
All-IsFree-suc taken p rounds [] h = tt
All-IsFree-suc taken p rounds (x ∷ xs) h =
    ((omega arith, omega arith, h.0.2), All-IsFree-suc taken p rounds xs h.1)

pub scan_ports-IsFree :
    (taken : List ℕ) (rounds p needed : ℕ)
    → All (IsFree taken p rounds) (scan_ports taken rounds p needed)
unfolding scan_ports
scan_ports-IsFree taken zero p needed = tt
scan_ports-IsFree taken (suc rounds) p needed = elim (Bool-cases (needed == 0)) [
  | inl done ↦ rw done tt
  | inr more ↦ elim (Bool-cases (contains taken p)) [
    | inl used ↦
        rw (more, used)
          (All-IsFree-suc taken p rounds (scan_ports taken rounds (p + 1) needed)
            (scan_ports-IsFree taken rounds (p + 1) needed))
    | inr free ↦
        rw (more, free)
          (
            (omega arith, omega arith, free),
            All-IsFree-suc taken p rounds (scan_ports taken rounds (p + 1) (needed - 1))
                (scan_ports-IsFree taken rounds (p + 1) (needed - 1)),
          )
  ]
]

not_contains_below :
    (taken : List ℕ) (p rounds : ℕ) (xs : List ℕ)
    → All (IsFree taken (p + 1) rounds) xs
    → contains xs p ≡ false
not_contains_below taken p rounds [] h = refl
not_contains_below taken p rounds (x ∷ xs) h =
    ground (arith, not_contains_below taken p rounds xs h.1)

pub scan_ports-IsNodup :
    (taken : List ℕ) (rounds p needed : ℕ) → IsNodup (scan_ports taken rounds p needed)
unfolding scan_ports
scan_ports-IsNodup taken zero p needed = tt
scan_ports-IsNodup taken (suc rounds) p needed = elim (Bool-cases (needed == 0)) [
  | inl done ↦ rw done tt
  | inr more ↦ elim (Bool-cases (contains taken p)) [
    | inl used ↦ rw (more, used) (scan_ports-IsNodup taken rounds (p + 1) needed)
    | inr free ↦
        rw (more, free)
          (
            not_contains_below taken p rounds (scan_ports taken rounds (p + 1) (needed - 1))
                (scan_ports-IsFree taken rounds (p + 1) (needed - 1)),
            scan_ports-IsNodup taken rounds (p + 1) (needed - 1),
          )
  ]
]

pub length-scan_ports-le :
    (taken : List ℕ) (rounds p needed : ℕ) → length (scan_ports taken rounds p needed) ≤ needed
unfolding scan_ports
length-scan_ports-le taken zero p needed = omega arith
length-scan_ports-le taken (suc rounds) p needed = ground (
  arith,
  length-scan_ports-le taken rounds (p + 1) needed,
  length-scan_ports-le taken rounds (p + 1) (needed - 1),
)

-- How many entries of the list lie in `[p, p + rounds)`.
abbrev taken_in : List ℕ → ℕ → ℕ → ℕ
taken_in [] p rounds = 0
taken_in (x ∷ xs) p rounds =
    let rest = taken_in xs p rounds in if leb p x && ltb x (p + rounds) then suc rest else rest

taken_in-le-length : (xs : List ℕ) (p rounds : ℕ) → taken_in xs p rounds ≤ length xs
taken_in-le-length [] p rounds = omega arith
taken_in-le-length (x ∷ xs) p rounds = ground (arith, taken_in-le-length xs p rounds)

taken_in_mono :
    (xs : List ℕ) (p rounds : ℕ) → taken_in xs (p + 1) rounds ≤ taken_in xs p (suc rounds)
taken_in_mono [] p rounds = omega arith
taken_in_mono (x ∷ xs) p rounds = ground (arith, taken_in_mono xs p rounds)

taken_in-contains :
    (xs : List ℕ) (p rounds : ℕ)
    → contains xs p ≡ true
    → suc (taken_in xs (p + 1) rounds) ≤ taken_in xs p (suc rounds)
taken_in-contains [] p rounds h = cc
taken_in-contains (x ∷ xs) p rounds h =
    ground (arith, taken_in-contains xs p rounds, taken_in_mono xs p rounds)

scan_ports-fills :
    (taken : List ℕ) (rounds p needed : ℕ)
    → needed + taken_in taken p rounds ≤ rounds
    → length (scan_ports taken rounds p needed) ≡ needed
unfolding scan_ports
scan_ports-fills taken zero p needed h = omega arith
scan_ports-fills taken (suc rounds) p needed h = ground (
  arith,
  taken_in_mono taken p rounds,
  taken_in-contains taken p rounds,
  scan_ports-fills taken rounds (p + 1) needed,
  scan_ports-fills taken rounds (p + 1) (needed - 1),
)

-- The scan finds all that is needed wherever the range is as long as what is needed and what is
-- taken together, wherever the taken ports lie.
pub length-scan_ports :
    (taken : List ℕ) (rounds p needed : ℕ)
    → needed + length taken ≤ rounds
    → length (scan_ports taken rounds p needed) ≡ needed
length-scan_ports taken rounds p needed h =
    scan_ports-fills taken rounds p needed (omega (arith, taken_in-le-length taken p rounds))
