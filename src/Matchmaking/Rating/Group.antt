-- ===== src/Matchmaking/Rating/Group.antt =====
-- Whom pairing by rating puts together.
use mathlib.Core.Path.{subst}
use elo_service.Prelude.{
  ◌≡◌, ◌∙◌, ◌⊎◌, inl, inr, sym, ap, refl, arith, ◌≤◌, ℕ, zero, suc, Bool, true, false, List, [],
  ◌∷◌, if◌then◌else◌, length, take, filter_by, All, Bool-cases, length-take, filter_by-true,
  All-map,
}
use elo_service.Prelude.Int.{ℤ, pos, negsuc, ltb_ℤ, ◌-ℤ◌, ◌≤ℤ◌, -ℤ_parts}
use elo_service.Prelude.Sorting.{Sorting, IsOrder, IsSorted}
use elo_service.Matchmaking.Rating.{
  Candidate, chosen, deferred, panicked, waited_longer, is_closer, min_rating, max_rating,
  rating_window, group_around, choose_group,
}

List-cases :
    (cs : List Candidate) → (cs ≡ []) ⊎ ((c : Candidate) × (ds : List Candidate) × (cs ≡ c ∷ ds))
List-cases [] = inl refl
List-cases (c ∷ cs) = inr (c, cs, refl)

≤ℤ_trans : (a b c : ℤ) → a ≤ℤ b → b ≤ℤ c → a ≤ℤ c
≤ℤ_trans a b c h k = omega (arith, h, k)

lower_of : (a r : ℤ) → ((if ltb_ℤ a r then a else r) ≤ℤ r) × ((if ltb_ℤ a r then a else r) ≤ℤ a)
lower_of a r = ground arith

higher_of : (a r : ℤ) → (r ≤ℤ (if ltb_ℤ r a then a else r)) × (a ≤ℤ (if ltb_ℤ r a then a else r))
higher_of a r = ground arith

min_rating-least :
    (r : ℤ) (cs : List Candidate)
    → (min_rating r cs ≤ℤ r) × All (λ c. min_rating r cs ≤ℤ c.rating) cs
min_rating-least r [] = (omega arith, tt)
min_rating-least r (c ∷ cs) =
    let next = if ltb_ℤ c.rating r then c.rating else r in
    let low = lower_of c.rating r in
    let rest = min_rating-least next cs in
    (
      ≤ℤ_trans (min_rating next cs) next r rest.0 low.0,
      (≤ℤ_trans (min_rating next cs) next c.rating rest.0 low.1, rest.1),
    )

max_rating-greatest :
    (r : ℤ) (cs : List Candidate)
    → (r ≤ℤ max_rating r cs) × All (λ c. c.rating ≤ℤ max_rating r cs) cs
max_rating-greatest r [] = (omega arith, tt)
max_rating-greatest r (c ∷ cs) =
    let next = if ltb_ℤ r c.rating then c.rating else r in
    let high = higher_of c.rating r in
    let rest = max_rating-greatest next cs in
    (
      ≤ℤ_trans r next (max_rating next cs) high.0 rest.0,
      (≤ℤ_trans c.rating next (max_rating next cs) high.1 rest.0, rest.1),
    )

filter_by-take :
    (p : Candidate → Bool) (k : ℕ) (cs : List Candidate)
    → length (filter_by p (take k cs)) ≤ length (filter_by p cs)
filter_by-take p zero cs = omega arith
filter_by-take p (suc k) [] = omega arith
filter_by-take p (suc k) (c ∷ cs) = ground (arith, filter_by-take p k cs)

waited_longer-IsOrder : IsOrder waited_longer
waited_longer-IsOrder = record { asym = λ a b h. ground arith; trans = λ a b c h k. ground arith }

-- No two of the group are further apart than the window.
abbrev pub IsWithin : ℤ → List Candidate → Type 0
IsWithin window g = All (λ a. All (λ b. a.rating -ℤ b.rating ≤ℤ window) g) g

IsWithin-spread :
    (window : ℤ) (seed : Candidate) (cs : List Candidate)
    → max_rating seed.rating cs -ℤ min_rating seed.rating cs ≤ℤ window
    → IsWithin window (seed ∷ cs)
IsWithin-spread window seed cs h =
    let low = min_rating-least seed.rating cs in
    let high = max_rating-greatest seed.rating cs in
    let m = min_rating seed.rating cs in
    let g = max_rating seed.rating cs in
    All-map (λ a. a.rating ≤ℤ g) (λ a. All (λ b. a.rating -ℤ b.rating ≤ℤ window) (seed ∷ cs))
      (seed ∷ cs)
      (λ a below.
        All-map (λ b. m ≤ℤ b.rating) (λ b. a.rating -ℤ b.rating ≤ℤ window) (seed ∷ cs)
          (λ b above. omega (arith, below, above, h, -ℤ_parts a.rating b.rating, -ℤ_parts g m)) low)
      high

not_less : (a b : ℤ) → ltb_ℤ a b ≡ false → b ≤ℤ a
not_less a b h = ground arith

never_longer : (c : Candidate) → waited_longer c c ≡ false
never_longer c = ground arith

module _ (s : Sorting Candidate) where
  length-sort :
      (less : Candidate → Candidate → Bool) (cs : List Candidate)
      → length (s.sort less cs) ≡ length cs
  length-sort less cs =
      ap length (sym (filter_by-true (λ _. true) (s.sort less cs) (λ _. refl)))
      ∙ s.same_count less (λ _. true) cs
      ∙ ap length (filter_by-true (λ _. true) cs (λ _. refl))

  filter_by-none :
      (p : Candidate → Bool) (cs : List Candidate)
      → All (λ c. p c ≡ false) cs
      → length (filter_by p cs) ≡ 0
  filter_by-none p [] h = refl
  filter_by-none p (c ∷ cs) h = rw (h.0, filter_by-none p cs h.1) refl

  -- What holds of a group: its size, that it is drawn from the candidates, each at most as often as it stands
  -- there, that none of them waited longer than its first, and that its ratings are within the window of that one.
  abbrev pub IsGroup : ℤ → List Candidate → List Candidate → Type 0
  IsGroup lobby_size cands g =
      (pos (length g) ≡ lobby_size)
      × ((p : Candidate → Bool) → length (filter_by p g) ≤ length (filter_by p cands))
      × ((seed : Candidate) × (rest : List Candidate) × (g ≡ seed ∷ rest)
          × (length (filter_by (λ c. waited_longer c seed) cands) ≡ 0)
          × IsWithin (rating_window seed.waited) g)

  module _ (cands : List Candidate) (seed : Candidate) (others : List Candidate) where
    enough_near :
        (k : ℕ)
        → s.sort waited_longer cands ≡ seed ∷ others
        → ltb_ℤ (pos (length cands)) (pos (suc k)) ≡ false
        → k ≤ length (s.sort (is_closer seed) others)
    enough_near k first enough = omega (
      arith,
      length-sort (is_closer seed) others,
      sym (length-sort waited_longer cands) ∙ ap length first,
      not_less (pos (length cands)) (pos (suc k)) enough,
    )

    drawn :
        (k : ℕ)
        → s.sort waited_longer cands ≡ seed ∷ others
        → (p : Candidate → Bool)
        → length (filter_by p (seed ∷ take k (s.sort (is_closer seed) others)))
          ≤ length (filter_by p cands)
    drawn k first p =
        let all =
          sym (s.same_count waited_longer p cands) ∙ ap (λ l. length (filter_by p l)) first in
        let near = s.same_count (is_closer seed) p others in
        let taken = filter_by-take p k (s.sort (is_closer seed) others) in ground arith

    none_longer :
        s.sort waited_longer cands ≡ seed ∷ others
        → length (filter_by (λ c. waited_longer c seed) cands) ≡ 0
    none_longer first =
        let above =
          subst (IsSorted waited_longer) first
            (s.sorted waited_longer cands waited_longer-IsOrder) in
        sym (s.same_count waited_longer (λ c. waited_longer c seed) cands)
        ∙ ap (λ l. length (filter_by (λ c. waited_longer c seed) l)) first
        ∙ filter_by-none (λ c. waited_longer c seed) (seed ∷ others) (never_longer seed, above.0)

  group_around-IsGroup :
      (lobby_size : ℤ) (cands : List Candidate) (seed : Candidate) (others : List Candidate)
      {g : List Candidate}
      → s.sort waited_longer cands ≡ seed ∷ others
      → ltb_ℤ (pos (length cands)) lobby_size ≡ false
      → group_around s lobby_size seed others ≡ chosen g
      → IsGroup lobby_size cands g
  unfolding group_around
  group_around-IsGroup (negsuc n) cands seed others first enough h = cc
  group_around-IsGroup (pos zero) cands seed others first enough h = cc
  group_around-IsGroup (pos (suc k)) cands seed others {g = g} first enough h =
      let near = s.sort (is_closer seed) others in
      let rest = take k near in
      let spread = max_rating seed.rating rest -ℤ min_rating seed.rating rest in
      elim (Bool-cases (ltb_ℤ (rating_window seed.waited) spread)) [
        | inl wide ↦ let bad : deferred ≡ chosen g = rw wide at h in cc
        | inr narrow ↦
            let same : chosen (seed ∷ rest) ≡ chosen g = rw narrow at h in
            let is_g : seed ∷ rest ≡ g = cc in
            subst (IsGroup (pos (suc k)) cands) is_g (
              ap (λ n. pos (suc n))
                  (length-take k near (enough_near cands seed others k first enough)),
              drawn cands seed others k first,
              (
                seed,
                rest,
                refl,
                none_longer cands seed others first,
                IsWithin-spread (rating_window seed.waited) seed rest
                    (not_less (rating_window seed.waited) spread narrow),
              ),
            )
      ]

  -- A group that is chosen has the lobby's size, consists of candidates, each at most as often as it
  -- stands among them, begins with one that waited longest, and its ratings are within that one's window, given enough candidates.
  pub choose_group-IsGroup :
      (lobby_size : ℤ) (cands : List Candidate) {g : List Candidate}
      → ltb_ℤ (pos (length cands)) lobby_size ≡ false
      → choose_group s lobby_size cands ≡ chosen g
      → IsGroup lobby_size cands g
  unfolding choose_group
  choose_group-IsGroup lobby_size cands {g = g} enough h =
      elim (List-cases (s.sort waited_longer cands)) [
        | inl empty ↦ let bad : panicked ≡ chosen g = rw (choose_group, empty) at h in cc
        | inr (seed, others, first) ↦
            group_around-IsGroup lobby_size cands seed others first enough
              (rw (choose_group, first) at h)
      ]
