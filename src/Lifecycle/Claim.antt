-- ===== src/Lifecycle/Claim.antt =====
-- The claim of a cooled instance by several workers that run the sweep at the same time.
use elo_service.Prelude.{
  ℕ, ◌≡◌, refl, sym, ap, ◌∙◌, ◌⊎◌, inl, inr, String, Bool, true, false, ◌&&◌, Option, none, some,
  List, [], ◌∷◌, map, arith, if◌then◌else◌, nat_eq, string_eq, ◌==◌, length, filter_by, update_by,
  contains, erase, IsNodup, Bool-cases, eq_of_test, map-update_by,
}
use elo_service.Store.{ServerInstance, InstanceStatus, Db, is_cooldown, is_tearing_down}
use elo_service.Instances.{
  si_id, with_status, set_server_instance_status, claim_cooldown_instance,
  revert_tearing_down_to_cooldown,
}

abbrev pub status_in : String → List ServerInstance → Option InstanceStatus
status_in i [] = none
status_in i (si ∷ sis) = if si.id == i then some si.status else status_in i sis

abbrev pub status_of : String → Db → Option InstanceStatus
status_of i db = status_in i db.instances

abbrev pub has_status : (InstanceStatus → Bool) → Option InstanceStatus → Bool
has_status p none = false
has_status p (some s) = p s

abbrev change :
    (InstanceStatus → Bool) → InstanceStatus → Option InstanceStatus → Option InstanceStatus
change p t none = none
change p t (some s) = some (if p s then t else s)

module _ (i : String) (p : InstanceStatus → Bool) where
  abbrev pub guarded : ServerInstance → Bool
  guarded si = si.id == i && p si.status

  no_rows :
      (sis : List ServerInstance)
      → contains (map si_id sis) i ≡ false
      → length (filter_by guarded sis) ≡ 0
  no_rows [] h = refl
  no_rows (si ∷ sis) h = ground (arith, no_rows sis)

  pub guarded-rows :
      (sis : List ServerInstance)
      → IsNodup (map si_id sis)
      → (length (filter_by guarded sis) == 1) ≡ has_status p (status_in i sis)
  guarded-rows [] u = refl
  guarded-rows (si ∷ sis) u = elim (Bool-cases (si.id == i)) [
    | inl same ↦
        let rest = no_rows sis (rw (eq_of_test si.id i same) at u.0) in
        elim (Bool-cases (p si.status)) [
          | inl on ↦ rw (same, on, rest)
          | inr off ↦ rw (same, off, rest)
        ]
    | inr other ↦ rw other (guarded-rows sis u.1)
  ]

  guarded-status :
      (t : InstanceStatus) (sis : List ServerInstance)
      → status_in i (update_by guarded (with_status t) sis) ≡ change p t (status_in i sis)
  guarded-status t [] = refl
  guarded-status t (si ∷ sis) = ground (arith, guarded-status t sis)

  guarded-ids :
      (t : InstanceStatus) (sis : List ServerInstance)
      → map si_id (update_by guarded (with_status t) sis) ≡ map si_id sis
  guarded-ids t sis = map-update_by si_id guarded (with_status t) sis (λ x. refl)

-- The store and the workers that are tearing down the instance.
pub record Sweep : Type 0 where
  pub db : Db
  pub holders : List ℕ

-- The steps of any number of workers on one instance: a claim that is won or lost, and a holder's
-- return of the instance to cooldown or its marking as deleted.
pub data Step (i : String) : Sweep → Sweep → Type 0 where
  win :
      (s : Sweep) (worker : ℕ)
      → (claim_cooldown_instance i s.db).0 ≡ true
      → Step i s (record { db = (claim_cooldown_instance i s.db).1; holders = worker ∷ s.holders })
  miss :
      (s : Sweep)
      → (claim_cooldown_instance i s.db).0 ≡ false
      → Step i s (record { db = (claim_cooldown_instance i s.db).1; holders = s.holders })
  revert :
      (s : Sweep) (worker : ℕ)
      → contains s.holders worker ≡ true
      → Step i s
          (record { db = revert_tearing_down_to_cooldown i s.db; holders = erase worker s.holders })
  finish :
      (s : Sweep) (worker : ℕ)
      → contains s.holders worker ≡ true
      → Step i s (record {
        db = set_server_instance_status i InstanceStatus.deleted s.db;
        holders = erase worker s.holders;
      })

pub data Reach (i : String) (s : Sweep) : Sweep → Type 0 where
  here : Reach i s s
  next : {t u : Sweep} → Reach i s t → Step i t u → Reach i s u

-- Nobody holds the instance, or one worker does and the row says so.
pub record IsExclusive (i : String) (s : Sweep) : Type 0 where
  pub ids : IsNodup (map (λ (si : ServerInstance). si.id) s.db.instances)
  pub held_once :
      (s.holders ≡ [])
      ⊎ ((worker : ℕ) × (s.holders ≡ worker ∷ [])
          × (status_of i s.db ≡ some InstanceStatus.tearing_down))

set_status-ids :
    (i : String) (t : InstanceStatus) (sis : List ServerInstance)
    → map si_id (update_by (λ si. si.id == i) (with_status t) sis) ≡ map si_id sis
set_status-ids i t sis = map-update_by si_id (λ si. si.id == i) (with_status t) sis (λ x. refl)

absurd_test {ℓ} : {A : Type ℓ} → false ≡ true → A
absurd_test e = cc

change_of :
    (o : Option InstanceStatus) (p : InstanceStatus → Bool) {t : InstanceStatus}
    → has_status p o ≡ true
    → change p t o ≡ some t
change_of none p h = absurd_test h
change_of (some s) p h = rw h

erase_holder :
    (holders : List ℕ) (v w : ℕ)
    → holders ≡ v ∷ []
    → contains holders w ≡ true
    → erase w holders ≡ []
erase_holder holders v w e c = elim (Bool-cases (v == w)) [
  | inl same ↦ rw (e, same)
  | inr other ↦ absurd_test (rw (e, other) at c)
]

Step-IsExclusive : {i : String} {s t : Sweep} → Step i s t → IsExclusive i s → IsExclusive i t
unfolding claim_cooldown_instance revert_tearing_down_to_cooldown set_server_instance_status
Step-IsExclusive {i} (win s worker won) x = record {
  ids = rw (guarded-ids i is_cooldown InstanceStatus.tearing_down s.db.instances) x.ids;
  held_once = elim x.held_once [
    | inl free ↦ inr (
      worker,
      ap (λ hs. worker ∷ hs) free,
      guarded-status i is_cooldown InstanceStatus.tearing_down s.db.instances
          ∙ change_of (status_of i s.db) is_cooldown
              (sym (guarded-rows i is_cooldown s.db.instances x.ids) ∙ won),
    )
    | inr (v, one, busy) ↦ absurd_test (
        sym (ap (has_status is_cooldown) busy)
        ∙ sym (guarded-rows i is_cooldown s.db.instances x.ids)
        ∙ won)
  ];
}
Step-IsExclusive {i} (miss s lost) x = record {
  ids = rw (guarded-ids i is_cooldown InstanceStatus.tearing_down s.db.instances) x.ids;
  held_once = elim x.held_once [
    | inl free ↦ inl free
    | inr (v, one, busy) ↦ inr (
      v,
      one,
      guarded-status i is_cooldown InstanceStatus.tearing_down s.db.instances
          ∙ ap (change is_cooldown InstanceStatus.tearing_down) busy,
    )
  ];
}
Step-IsExclusive {i} (revert s worker c) x = record {
  ids = rw (guarded-ids i is_tearing_down InstanceStatus.cooldown s.db.instances) x.ids;
  held_once = elim x.held_once [
    | inl free ↦ absurd_test (ap (λ hs. contains hs worker) (sym free) ∙ c)
    | inr (v, one, busy) ↦ inl (erase_holder s.holders v worker one c)
  ];
}
Step-IsExclusive {i} (finish s worker c) x = record {
  ids = rw (set_status-ids i InstanceStatus.deleted s.db.instances) x.ids;
  held_once = elim x.held_once [
    | inl free ↦ absurd_test (ap (λ hs. contains hs worker) (sym free) ∙ c)
    | inr (v, one, busy) ↦ inl (erase_holder s.holders v worker one c)
  ];
}

-- From a store in which instance ids are distinct and at most one worker tears the instance down,
-- which its row then says, every sequence of won and lost claims, reverts and markings as deleted,
-- by any workers in any order, leads to such a store again.
pub Reach-IsExclusive : {i : String} {s t : Sweep} → IsExclusive i s → Reach i s t → IsExclusive i t
Reach-IsExclusive x here = x
Reach-IsExclusive x (next r st) = Step-IsExclusive st (Reach-IsExclusive x r)
