-- ===== src/Ledger/Held.antt =====
-- How the ports held on a host change with the rows of the instances.
use elo_service.Prelude.{
  ℕ, ◌+◌, ◌≡◌, refl, String, Bool, true, false, List, [], ◌∷◌, ◌++◌, map, some, arith,
  if◌then◌else◌, nat_eq, string_eq, ◌==◌, Bool-cases, inl, inr, find_by, update_by, contains, count,
  IsNodup, All, update_by-miss, no_match,
}
use elo_service.Store.{ServerInstance, InstanceStatus, is_deleted}
use elo_service.Hosts.{is_active_on}
use elo_service.Instances.{si_id, with_status}
use elo_service.Ledger.{held}

-- A change of status between two that are not deleted.
pub held-with_status :
    (p : ServerInstance → Bool) (s : InstanceStatus) (sis : List ServerInstance) (i : String)
    (q : ℕ)
    → is_deleted s ≡ false
    → All (λ si. p si ≡ true → is_deleted si.status ≡ false) sis
    → held (update_by p (with_status s) sis) i q ≡ held sis i q
held-with_status p s [] i q live h = refl
held-with_status p s (si ∷ sis) i q live h = elim (Bool-cases (p si)) [
  | inl hit ↦ rw (hit, live, h.0 hit, held-with_status p s sis i q live h.1)
  | inr miss ↦ rw (miss, held-with_status p s sis i q live h.1)
]

pub held-append :
    (sis more : List ServerInstance) (i : String) (q : ℕ)
    → held (sis ++ more) i q ≡ held sis i q + held more i q
held-append [] more i q = omega arith
held-append (si ∷ sis) more i q = omega (arith, held-append sis more i q)

-- Marking a row deleted gives back what it held.
pub held-deleted :
    (sis : List ServerInstance) (si : ServerInstance) (i : String) (q : ℕ)
    → IsNodup (map si_id sis)
    → find_by (λ x. x.id == si.id) sis ≡ some si
    → held (update_by (λ x. x.id == si.id) (with_status InstanceStatus.deleted) sis) i q
        + (if is_active_on i si then count q si.host_ports else 0)
      ≡ held sis i q
held-deleted [] si i q u e = cc
held-deleted (x ∷ sis) si i q u e = elim (Bool-cases (x.id == si.id)) [
  | inl hit ↦
      let same : x ≡ si = cc in
      let fresh : contains (map si_id sis) si.id ≡ false = rw same at u.0 in
      let rest =
        update_by-miss (λ y. y.id == si.id) (with_status InstanceStatus.deleted) sis
          (no_match si_id si.id sis fresh) in
      let off : is_active_on i (with_status InstanceStatus.deleted si) ≡ false = ground arith in
      rw (hit, rest, same, off) (omega arith)
  | inr miss ↦ rw miss (omega (arith, held-deleted sis si i q u.1 (rw miss at e)))
]
