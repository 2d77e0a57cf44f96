-- ===== src/Lobbies/Capacity.antt =====
-- How many players a lobby takes, and how many tags, however the operations on redis interleave.
use elo_service.Prelude.{
  ◌≡◌, ℕ, suc, ◌+◌, ◌≤◌, String, true, not, inl, inr, List, [], ◌∷◌, ◌++◌, map, arith, ap, refl,
  nat_eq, string_eq, ◌==◌, length, filter_by, update_by, contains, ltb→lt, length-filter_by,
  Bool-cases, eq_of_test, eq_self,
}
use elo_service.Prelude.Int.{ℤ, pos, pos_part, neg_part, ltb_ℤ}
use elo_service.Queue.{put_key}
use elo_service.Lobbies.{
  LobbyRecord, LobbyStore, player_id, hset, hdel, create_lobby, delete_lobby, add_lobby_player,
  add_lobby_player_with_cap, remove_lobby_player, refresh_lobby_player_ttl, is_lobby_player_alive,
}

abbrev pub others : String → List (String × String) → List (String × String)
others host ps = filter_by (λ p. not (player_id p == host)) ps

length-others_update :
    (host k name : String) (ps : List (String × String))
    → length (others host (update_by (λ p. player_id p == k) (λ p. (k, name)) ps))
      ≡ length (others host ps)
length-others_update host k name [] = refl
length-others_update host k name (p ∷ ps) = elim (Bool-cases (player_id p == k)) [
  | inl same ↦
      rw (same, ← eq_of_test (player_id p) k same)
        (ground (arith, length-others_update host k name ps))
  | inr other ↦ rw other (ground (arith, length-others_update host k name ps))
]

length-others_concat :
    (host : String) (p : String × String) (ps : List (String × String))
    → length (others host (ps ++ (p ∷ []))) ≤ suc (length (others host ps))
length-others_concat host p [] = ground arith
length-others_concat host p (q ∷ ps) = ground (arith, length-others_concat host p ps)

length-others_concat_host :
    (host : String) (p : String × String) (ps : List (String × String))
    → (player_id p == host) ≡ true
    → length (others host (ps ++ (p ∷ []))) ≡ length (others host ps)
length-others_concat_host host p [] h = rw h
length-others_concat_host host p (q ∷ ps) h = ground (arith, length-others_concat_host host p ps h)

-- A player other than the host adds at most one, the host nothing.
length-others-hset :
    (host k name : String) (ps : List (String × String))
    → length (others host (hset k name ps)) ≤ suc (length (others host ps))
unfolding hset
length-others-hset host k name ps = elim (Bool-cases (contains (map player_id ps) k)) [
  | inl there ↦ rw there (omega (arith, length-others_update host k name ps))
  | inr new ↦ rw new (omega (arith, length-others_concat host (k, name) ps))
]

length-others-hset_host :
    (host k name : String) (ps : List (String × String))
    → k ≡ host
    → length (others host (hset k name ps)) ≡ length (others host ps)
unfolding hset
length-others-hset_host host k name ps same = elim (Bool-cases (contains (map player_id ps) k)) [
  | inl there ↦ rw there (length-others_update host k name ps)
  | inr new ↦ rw new (length-others_concat_host host (k, name) ps (rw same (eq_self host)))
]

length-others-hdel :
    (host k : String) (ps : List (String × String))
    → length (others host (hdel k ps)) ≤ length (others host ps)
unfolding hdel
length-others-hdel host k [] = omega arith
length-others-hdel host k (p ∷ ps) = ground (arith, length-others-hdel host k ps)

length-others : (host : String) (ps : List (String × String)) → length (others host ps) ≤ length ps
length-others host ps = length-filter_by (λ p. not (player_id p == host)) ps

module _ (caps : String → ℤ) (hosts : String → String) where
  -- The record has the cap and the host that were given to its id.
  abbrev pub IsOf : LobbyRecord → Type 0
  IsOf lobby = (lobby.max_players ≡ caps lobby.id) × (lobby.host_id ≡ hosts lobby.id)

  -- Apart from its host, no lobby has more players than its cap.
  abbrev pub IsSeated : LobbyStore → Type 0
  IsSeated s = (i : String) → length (others (hosts i) (s.players i)) ≤ pos_part (caps i)

  -- One call of the store by some handler. The record of a call may have been read at any earlier time.
  pub data Call : LobbyStore → LobbyStore → Type 0 where
    created : (lobby : LobbyRecord) {s : LobbyStore} → IsOf lobby → Call s (create_lobby lobby s)
    host_added :
        (now ttl : ℕ) (lobby : LobbyRecord) {s : LobbyStore}
        → IsOf lobby
        → Call s (add_lobby_player now lobby.id lobby.host_id lobby.host_name ttl s)
    joined :
        (now ttl : ℕ) (lobby : LobbyRecord) (id name : String) {s : LobbyStore}
        → IsOf lobby
        → Call s (add_lobby_player_with_cap now lobby.id id name lobby.max_players ttl s).1
    removed : (lobby_id id : String) {s : LobbyStore} → Call s (remove_lobby_player lobby_id id s)
    closed : (lobby_id game_id : String) {s : LobbyStore} → Call s (delete_lobby lobby_id game_id s)
    refreshed :
        (now ttl : ℕ) (lobby_id id : String) {s : LobbyStore}
        → Call s (refresh_lobby_player_ttl now lobby_id id ttl s)

  pub data Calls : LobbyStore → LobbyStore → Type 0 where
    done : {s : LobbyStore} → Calls s s
    next : {s t u : LobbyStore} → Call s t → Calls t u → Calls s u

  IsSeated-put :
      (s : LobbyStore) (k : String) (ps : List (String × String))
      → IsSeated s
      → length (others (hosts k) ps) ≤ pos_part (caps k)
      → (i : String) → length (others (hosts i) (put_key k ps s.players i)) ≤ pos_part (caps i)
  IsSeated-put s k ps h here i = elim (Bool-cases (k == i)) [
    | inl same ↦ rw (same, ← eq_of_test k i same) here
    | inr other ↦ rw other (h i)
  ]

  IsSeated-join :
      (now ttl : ℕ) (lobby : LobbyRecord) (id name : String) (s : LobbyStore)
      → IsOf lobby
      → IsSeated s
      → IsSeated (add_lobby_player_with_cap now lobby.id id name lobby.max_players ttl s).1
  unfolding add_lobby_player_with_cap
  IsSeated-join now ttl lobby id name s of h =
      elim (Bool-cases (ltb_ℤ (pos (length (s.players lobby.id))) lobby.max_players)) [
        | inl room ↦ rw room (
            IsSeated-put s lobby.id (hset id name (s.players lobby.id)) h (
              omega (
                arith,
                ltb→lt (length (s.players lobby.id) + neg_part lobby.max_players)
                    (pos_part lobby.max_players + 0) room,
                length-others-hset (hosts lobby.id) id name (s.players lobby.id),
                length-others (hosts lobby.id) (s.players lobby.id),
                ap pos_part of.0,
              )))
        | inr full ↦ rw full h
      ]

  IsSeated-call : {s t : LobbyStore} → Call s t → IsSeated s → IsSeated t
  unfolding create_lobby delete_lobby remove_lobby_player add_lobby_player refresh_lobby_player_ttl
  IsSeated-call (created lobby of) h = h
  IsSeated-call (host_added now ttl lobby {s = s} of) h =
      IsSeated-put s lobby.id (hset lobby.host_id lobby.host_name (s.players lobby.id)) h (
        omega (
          arith,
          h lobby.id,
          length-others-hset_host (hosts lobby.id) lobby.host_id lobby.host_name
              (s.players lobby.id) of.1,
        ))
  IsSeated-call (joined now ttl lobby id name {s = s} of) h =
      IsSeated-join now ttl lobby id name s of h
  IsSeated-call (removed k id {s = s}) h =
      IsSeated-put s k (hdel id (s.players k)) h
        (omega (arith, h k, length-others-hdel (hosts k) id (s.players k)))
  IsSeated-call (closed k game_id {s = s}) h = IsSeated-put s k [] h (omega arith)
  IsSeated-call (refreshed now ttl k id {s = s}) h =
      elim (Bool-cases (is_lobby_player_alive now k id s)) [
        | inl alive ↦ rw alive h
        | inr dead ↦ rw dead h
      ]

  -- However the calls of any number of handlers interleave, a lobby has at most as many players as its
  -- cap apart from its host, given that this holds at first and that every record has its id's cap and host.
  pub Calls-IsSeated : {s t : LobbyStore} → Calls s t → IsSeated s → IsSeated t
  Calls-IsSeated done h = h
  Calls-IsSeated (next call rest) h = Calls-IsSeated rest (IsSeated-call call h)
