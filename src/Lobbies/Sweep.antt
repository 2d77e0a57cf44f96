-- ===== src/Lobbies/Sweep.antt =====
-- What the sweep of CleanupExpiredLobbies leaves of a lobby.

use elo_service.Prelude.{
  ◌≡◌, ◌≢◌, ◌⊎◌, inl, inr, arith, ap, refl, any_by, sym, map, All-contains_self, ◌∙◌,
  filter_by-true, or-true, or-false, ◌&&◌, ◌||◌, filter_by, contains, All, Bool-cases, eq_of_test,
  eq_self, ne_of_test, test_of_ne, contains, filter_by-cong, filter_by-filter_by, All-always, ℕ,
  String, Bool, true, false, not, ◌&&◌, ◌||◌, none, List, [], ◌∷◌, map, nat_eq, string_eq,
  if◌then◌else◌, ◌==◌,
}
use elo_service.Queue.{put_key}
use elo_service.Lobbies.{
  LobbyRecord, LobbyStore, hdel, player_id, delete_lobby, remove_lobby_player,
  is_lobby_player_alive, lobby_players,
}
use elo_service.Lobbies.Expiry.{cleanup_lobby_players, cleanup_lobby}

module _ (now : ℕ) (lobby : LobbyRecord) where
  abbrev pub is_alive : LobbyStore → String × String → Bool
  is_alive s p = is_lobby_player_alive now lobby.id (player_id p) s

  -- An expired key that is dropped changes no player's liveness.
  is_alive-remove :
      (s : LobbyStore) (id : String)
      → is_lobby_player_alive now lobby.id id s ≡ false
      → (q : String)
      → is_lobby_player_alive now lobby.id q (remove_lobby_player lobby.id id s)
        ≡ is_lobby_player_alive now lobby.id q s
  unfolding remove_lobby_player is_lobby_player_alive
  is_alive-remove s id dead q = elim (Bool-cases (id == q)) [
    | inl same ↦
        rw (eq_self lobby.id, same, is_lobby_player_alive) (sym (rw (eq_of_test id q same) at dead))
    | inr other ↦ rw (eq_self lobby.id, other, is_lobby_player_alive) refl
  ]

  -- What is left of the players when the loop is through a list of them.
  abbrev pub is_left : List (String × String) → LobbyStore → String × String → Bool
  is_left ps s q = is_alive s q || not (contains (map player_id ps) (player_id q))

  is_left-dead :
      (p : String × String) (ps : List (String × String)) (s : LobbyStore)
      → is_alive s p ≡ false
      → (q : String × String)
      → (not (player_id q == player_id p)
          && is_left ps (remove_lobby_player lobby.id (player_id p) s) q)
        ≡ is_left (p ∷ ps) s q
  is_left-dead p ps s dead q = elim (Bool-cases (player_id p == player_id q)) [
    | inl same ↦
        let here = eq_of_test (player_id p) (player_id q) same in
        let gone : is_alive s q ≡ false = rw here at dead in
        rw (same, ← here, eq_self (player_id p)) (ap (λ b. b || false) (sym dead))
    | inr other ↦
        rw
          (
            other,
            test_of_ne (player_id q) (player_id p)
                (λ e. ne_of_test (player_id p) (player_id q) other (sym e)),
            is_alive-remove s (player_id p) dead (player_id q),
          )
          refl
  ]

  is_left-alive :
      (p : String × String) (ps : List (String × String)) (s : LobbyStore)
      → is_alive s p ≡ true
      → (q : String × String) → is_left ps s q ≡ is_left (p ∷ ps) s q
  is_left-alive p ps s alive q = elim (Bool-cases (player_id p == player_id q)) [
    | inl same ↦
        let here : is_alive s q ≡ true =
          rw (eq_of_test (player_id p) (player_id q) same) at alive in
        rw here refl
    | inr other ↦ rw other refl
  ]

  abbrev pub is_live_host : LobbyStore → String × String → Bool
  is_live_host s p = player_id p == lobby.host_id && is_alive s p

  left-hdel :
      (p : String × String) (ps : List (String × String)) (s : LobbyStore)
      (qs : List (String × String))
      → is_alive s p ≡ false
      → filter_by
          (is_left ps (remove_lobby_player lobby.id (player_id p) s))
          (hdel (player_id p) qs)
        ≡ filter_by (is_left (p ∷ ps) s) qs
  unfolding hdel
  left-hdel p ps s qs dead =
      let s' = remove_lobby_player lobby.id (player_id p) s in
      let both : String × String → Bool =
        λ q. not (player_id q == player_id p) && is_left ps s' q in
      filter_by-filter_by (is_left ps s') (λ q. not (player_id q == player_id p)) qs
      ∙ filter_by-cong both (is_left (p ∷ ps) s) qs
          (All-always (λ q. both q ≡ is_left (p ∷ ps) s q) qs (is_left-dead p ps s dead))

  players-remove :
      (s : LobbyStore) (id : String)
      → (remove_lobby_player lobby.id id s).players lobby.id ≡ hdel id (s.players lobby.id)
  unfolding remove_lobby_player
  players-remove s id = rw (eq_self lobby.id) refl

  loop-players :
      (ps : List (String × String)) (b : Bool) (s : LobbyStore)
      → (cleanup_lobby_players now lobby ps b s).1.players lobby.id
        ≡ filter_by (is_left ps s) (s.players lobby.id)
  unfolding cleanup_lobby_players
  loop-players [] b s =
      sym (filter_by-true (is_left [] s) (s.players lobby.id) (λ q. or-true (is_alive s q)))
  loop-players (p ∷ ps) b s = elim (Bool-cases (is_alive s p)) [
    | inl alive ↦ rw alive (
        loop-players ps (if player_id p == lobby.host_id then true else b) s
        ∙ filter_by-cong (is_left ps s) (is_left (p ∷ ps) s) (s.players lobby.id) (
            All-always (λ q. is_left ps s q ≡ is_left (p ∷ ps) s q) (s.players lobby.id)
              (is_left-alive p ps s alive)))
    | inr dead ↦
        let s' = remove_lobby_player lobby.id (player_id p) s in
        rw dead (
          loop-players ps b s'
          ∙ ap (filter_by (is_left ps s')) (players-remove s (player_id p))
          ∙ left-hdel p ps s (s.players lobby.id) dead)
  ]

  any-live_remove :
      (id : String) (s : LobbyStore) (ps : List (String × String))
      → is_lobby_player_alive now lobby.id id s ≡ false
      → any_by (is_live_host (remove_lobby_player lobby.id id s)) ps ≡ any_by (is_live_host s) ps
  any-live_remove id s [] dead = refl
  any-live_remove id s (p ∷ ps) dead =
      rw (is_alive-remove s id dead (player_id p), any-live_remove id s ps dead) refl

  loop-host :
      (ps : List (String × String)) (b : Bool) (s : LobbyStore)
      → (cleanup_lobby_players now lobby ps b s).0 ≡ (b || any_by (is_live_host s) ps)
  unfolding cleanup_lobby_players
  loop-host [] b s = sym (or-false b)
  loop-host (p ∷ ps) b s = elim (Bool-cases (is_alive s p)) [
    | inl alive ↦
        rw alive (loop-host ps (if player_id p == lobby.host_id then true else b) s ∙ ground arith)
    | inr dead ↦ rw dead (
        loop-host ps b (remove_lobby_player lobby.id (player_id p) s)
        ∙ ground (arith, any-live_remove (player_id p) s ps dead))
  ]

  remove-others :
      (id : String) (s : LobbyStore) (j : String)
      → lobby.id ≢ j
      → (remove_lobby_player lobby.id id s).players j ≡ s.players j
  unfolding remove_lobby_player
  remove-others id s j h = rw (test_of_ne lobby.id j h) refl

  loop-others :
      (ps : List (String × String)) (b : Bool) (s : LobbyStore) (j : String)
      → lobby.id ≢ j
      → (cleanup_lobby_players now lobby ps b s).1.players j ≡ s.players j
  unfolding cleanup_lobby_players
  loop-others [] b s j h = refl
  loop-others (p ∷ ps) b s j h = elim (Bool-cases (is_alive s p)) [
    | inl alive ↦ rw alive (loop-others ps (if player_id p == lobby.host_id then true else b) s j h)
    | inr dead ↦ rw dead (
        loop-others ps b (remove_lobby_player lobby.id (player_id p) s) j h
        ∙ remove-others (player_id p) s j h)
  ]

  loop-records :
      (ps : List (String × String)) (b : Bool) (s : LobbyStore)
      → ((cleanup_lobby_players now lobby ps b s).1.records ≡ s.records)
        × ((cleanup_lobby_players now lobby ps b s).1.index ≡ s.index)
  unfolding cleanup_lobby_players remove_lobby_player
  loop-records [] b s = (refl, refl)
  loop-records (p ∷ ps) b s = elim (Bool-cases (is_alive s p)) [
    | inl alive ↦ rw alive (loop-records ps (if player_id p == lobby.host_id then true else b) s)
    | inr dead ↦ rw dead (loop-records ps b (remove_lobby_player lobby.id (player_id p) s))
  ]

  -- Nobody's liveness changes, in any lobby, when an expired key is dropped.
  liveness-remove :
      (s : LobbyStore) (id : String)
      → is_lobby_player_alive now lobby.id id s ≡ false
      → (j q : String)
      → is_lobby_player_alive now j q (remove_lobby_player lobby.id id s)
        ≡ is_lobby_player_alive now j q s
  unfolding remove_lobby_player is_lobby_player_alive
  liveness-remove s id dead j q = elim (Bool-cases (lobby.id == j)) [
    | inl here ↦
        ap (λ k. is_lobby_player_alive now k q (remove_lobby_player lobby.id id s))
          (sym (eq_of_test lobby.id j here))
        ∙ is_alive-remove s id dead q
        ∙ ap (λ k. is_lobby_player_alive now k q s) (eq_of_test lobby.id j here)
    | inr away ↦ rw (is_lobby_player_alive, away) refl
  ]

  loop-liveness :
      (ps : List (String × String)) (b : Bool) (s : LobbyStore) (j q : String)
      → is_lobby_player_alive now j q (cleanup_lobby_players now lobby ps b s).1
        ≡ is_lobby_player_alive now j q s
  unfolding cleanup_lobby_players
  loop-liveness [] b s j q = refl
  loop-liveness (p ∷ ps) b s j q = elim (Bool-cases (is_alive s p)) [
    | inl alive ↦
        rw alive (loop-liveness ps (if player_id p == lobby.host_id then true else b) s j q)
    | inr dead ↦ rw dead (
        loop-liveness ps b (remove_lobby_player lobby.id (player_id p) s) j q
        ∙ liveness-remove s (player_id p) dead j q)
  ]

  All-unmap :
      (P : String → Type 0) (ps : List (String × String))
      → All P (map player_id ps)
      → All (λ p. P (player_id p)) ps
  All-unmap P [] h = tt
  All-unmap P (p ∷ ps) h = (h.0, All-unmap P ps h.1)

  All-known :
      (ps qs : List (String × String))
      → All (λ q. contains (map player_id ps) (player_id q) ≡ true) qs
      → (s : LobbyStore) → filter_by (is_left ps s) qs ≡ filter_by (is_alive s) qs
  All-known ps [] h s = refl
  All-known ps (q ∷ qs) h s = rw (h.0, or-false (is_alive s q), All-known ps qs h.1 s) refl

  -- The lobby keeps its live players, in order, and everything else stays.
  abbrev pub IsCleaned : LobbyStore → LobbyStore → Type 0
  IsCleaned s s' =
      ((j : String)
        → s'.players j ≡ put_key lobby.id (filter_by (is_alive s) (s.players lobby.id)) s.players j)
      × (s'.records ≡ s.records)
      × (s'.index ≡ s.index)

  -- The lobby's record, its players and its place in the index of its game are gone, and no others.
  abbrev pub IsDropped : LobbyStore → LobbyStore → Type 0
  IsDropped s s' =
      ((j : String) → s'.players j ≡ put_key lobby.id [] s.players j)
      × ((j : String) → s'.records j ≡ put_key lobby.id none s.records j)
      × ((g : String)
          → s'.index g
            ≡ put_key lobby.game_id (filter_by (λ i. not (i == lobby.id)) (s.index lobby.game_id))
                s.index g)

  -- The sweep of a lobby whose host is in it and alive leaves its live players in it, in order, and otherwise records, players
  -- and indexes as they were; of any other lobby it takes the record, the players and the place in the index of its game,
  -- and leaves the other lobbies' as they were. No player of any lobby is alive after it who was not before, or the reverse.
  pub cleanup_lobby-players :
      (s : LobbyStore)
      → (((any_by (is_live_host s) (s.players lobby.id) ≡ true)
            × IsCleaned s (cleanup_lobby now lobby s))
          ⊎ ((any_by (is_live_host s) (s.players lobby.id) ≡ false)
              × IsDropped s (cleanup_lobby now lobby s)))
        × ((j q : String)
            → is_lobby_player_alive now j q (cleanup_lobby now lobby s)
              ≡ is_lobby_player_alive now j q s)
  unfolding cleanup_lobby lobby_players delete_lobby is_lobby_player_alive
  cleanup_lobby-players s =
      let ps = s.players lobby.id in
      let s' = (cleanup_lobby_players now lobby ps false s).1 in
      let host = loop-host ps false s in
      let known =
        All-unmap (λ k. contains (map player_id ps) k ≡ true) ps
          (All-contains_self (map player_id ps)) in
      let (records, index) = loop-records ps false s in
      let elsewhere : (j : String) → (lobby.id == j) ≡ false → s'.players j ≡ s.players j =
        λ j away. loop-others ps false s j (ne_of_test lobby.id j away) in
      elim (Bool-cases (any_by (is_live_host s) ps)) [
        | inl live ↦ rw (host ∙ live) (
          inl (
            live,
            (
              λ j. elim (Bool-cases (lobby.id == j)) [
                | inl here ↦ rw here (
                    ap s'.players (sym (eq_of_test lobby.id j here))
                    ∙ loop-players ps false s
                    ∙ All-known ps ps known s)
                | inr away ↦ rw away (elsewhere j away)
              ],
              records,
              index,
            ),
          ),
          loop-liveness ps false s,
        )
        | inr gone ↦ rw (host ∙ gone) (
          inr (
            gone,
            (
              λ j. elim (Bool-cases (lobby.id == j)) [
                | inl here ↦ rw here refl
                | inr away ↦ rw away (elsewhere j away)
              ],
              (λ j. elim (Bool-cases (lobby.id == j)) [
                | inl here ↦ rw here refl
                | inr away ↦ rw away (ap (λ f. f j) records)
              ]),
              λ g. elim (Bool-cases (lobby.game_id == g)) [
                | inl here ↦
                    rw here (ap (λ f. filter_by (λ i. not (i == lobby.id)) (f lobby.game_id)) index)
                | inr away ↦ rw away (ap (λ f. f g) index)
              ],
            ),
          ),
          loop-liveness ps false s,
        )
      ]
