-- ===== src/Queue/Fifo.antt =====
-- The order of a queue, and what the sweep of expired players leaves.
use elo_service.Prelude.{
  ℕ, ◌≡◌, refl, sym, ap, ◌∙◌, String, Bool, true, false, not, ◌&&◌, ◌||◌, List, [], ◌∷◌, ◌++◌,
  arith, nat_eq, string_eq, ◌==◌, filter_by, contains, IsNodup, Bool-cases, inl, inr,
  take-append-drop, filter_by-all_others, filter_by-true, filter_by-cong, filter_by-filter_by,
  IsNodup-filter_by, erase-IsNodup, erase-append, All-always, All-map, All-contains_self,
  contains-append, or-true, or-false, eq_of_test, eq_self,
}
use elo_service.Prelude.Int.{ℤ, pos, negsuc}
use elo_service.Queue.{
  PlayerQueue, ok, err, player_already_in_queue, add_player_to_queue_with_ttl,
  remove_player_from_queue, is_player_connection_alive, pop_players_from_queue, cleanup_player,
  cleanup_players, cleanup_expired_players,
}

-- A successful pop takes the players from the front, in order: what it returns and what stays are
-- together the queue from before.
pub pop_players-front :
    (n : ℤ) (q : PlayerQueue) {ps : List String}
    → (pop_players_from_queue n q).0 ≡ ok ps
    → ps ++ (pop_players_from_queue n q).1.players ≡ q.players
unfolding pop_players_from_queue
pop_players-front (negsuc n) q e = cc
pop_players-front (pos n) q e = ground (arith, take-append-drop n q.players)

-- One expired player is taken out of the queue, and no other.
drop_expired-players :
    (p : String) (q : PlayerQueue)
    → IsNodup q.players
    → (remove_player_from_queue p q).1.players ≡ filter_by (λ x. not (x == p)) q.players
unfolding remove_player_from_queue
drop_expired-players p q u = elim (Bool-cases (contains q.players p)) [
  | inl here ↦ rw here (erase-IsNodup p q.players u)
  | inr gone ↦ rw gone (sym (filter_by-all_others p q.players gone))
]

alive-remove_player :
    (now : ℕ) (p x : String) (q : PlayerQueue)
    → (p == x) ≡ false
    → is_player_connection_alive now (remove_player_from_queue p q).1 x
      ≡ is_player_connection_alive now q x
unfolding remove_player_from_queue is_player_connection_alive
alive-remove_player now p x q other = elim (Bool-cases (contains q.players p)) [
  | inl here ↦ ground arith
  | inr gone ↦ rw gone
]

swap_test : (a b : String) → (a == b) ≡ (b == a)
swap_test a b = ground (arith, string_eq.same_iff a b, string_eq.same_iff b a)

dead-step :
    (now : ℕ) (p : String) (c : Bool) (q : PlayerQueue) (x : String)
    → is_player_connection_alive now q p ≡ false
    → (not (x == p) && (is_player_connection_alive now (remove_player_from_queue p q).1 x || not c))
      ≡ (is_player_connection_alive now q x || not (p == x || c))
dead-step now p c q x dead = elim (Bool-cases (x == p)) [
  | inl same ↦ rw (eq_of_test x p same, dead, eq_self p)
  | inr other ↦
      let other' : (p == x) ≡ false = swap_test p x ∙ other in
      rw (other, other', alive-remove_player now p x q other')
]

alive-step :
    (now : ℕ) (p : String) (c : Bool) (q : PlayerQueue) (x : String)
    → is_player_connection_alive now q p ≡ true
    → (is_player_connection_alive now q x || not c)
      ≡ (is_player_connection_alive now q x || not (p == x || c))
alive-step now p c q x live = elim (Bool-cases (p == x)) [
  | inl same ↦ rw (← eq_of_test p x same, live)
  | inr other ↦ rw other
]

cleanup_player-live :
    (now : ℕ) (p : String) (q : PlayerQueue)
    → is_player_connection_alive now q p ≡ true
    → cleanup_player now p q ≡ q
unfolding cleanup_player
cleanup_player-live now p q e = rw e

cleanup_player-dead :
    (now : ℕ) (p : String) (q : PlayerQueue)
    → is_player_connection_alive now q p ≡ false
    → cleanup_player now p q ≡ (remove_player_from_queue p q).1
unfolding cleanup_player
cleanup_player-dead now p q e = rw e

cleanup_players-eq :
    (now : ℕ) (ps : List String) (q : PlayerQueue)
    → IsNodup q.players
    → (cleanup_players now ps q).players
      ≡ filter_by (λ x. is_player_connection_alive now q x || not (contains ps x)) q.players
unfolding cleanup_players
cleanup_players-eq now [] q u = sym (
    filter_by-true (λ x. is_player_connection_alive now q x || true) q.players
      (λ x. or-true (is_player_connection_alive now q x)))
cleanup_players-eq now (p ∷ ps) q u = elim (Bool-cases (is_player_connection_alive now q p)) [
  | inl live ↦
      ap (λ (r : PlayerQueue). (cleanup_players now ps r).players)
        (cleanup_player-live now p q live)
      ∙ (cleanup_players-eq now ps q u
          ∙ filter_by-cong _ _ q.players
              (All-always _ q.players (λ x. alive-step now p (contains ps x) q x live)))
  | inr dead ↦
      let q' = (remove_player_from_queue p q).1 in
      let left = drop_expired-players p q u in
      ap (λ (r : PlayerQueue). (cleanup_players now ps r).players)
        (cleanup_player-dead now p q dead)
      ∙ (cleanup_players-eq now ps q' (rw left (IsNodup-filter_by (λ x. not (x == p)) q.players u))
          ∙ ap (filter_by (λ x. is_player_connection_alive now q' x || not (contains ps x))) left
          ∙ filter_by-filter_by (λ x. is_player_connection_alive now q' x || not (contains ps x))
              (λ x. not (x == p)) q.players
          ∙ filter_by-cong _ _ q.players
              (All-always _ q.players (λ x. dead-step now p (contains ps x) q x dead)))
]

-- The sweep leaves exactly the players whose key is alive, in the order in which they queued. A queue
-- holds a player once.
pub cleanup_expired_players-players :
    (now : ℕ) (q : PlayerQueue)
    → IsNodup q.players
    → (cleanup_expired_players now q).players
      ≡ filter_by (is_player_connection_alive now q) q.players
unfolding cleanup_expired_players
cleanup_expired_players-players now q u =
    cleanup_players-eq now q.players q u
    ∙ filter_by-cong _ _ q.players (
        All-map (λ x. contains q.players x ≡ true)
          (λ x.
            (is_player_connection_alive now q x || not (contains q.players x))
            ≡ is_player_connection_alive now q x)
          q.players (λ x c. rw c (or-false (is_player_connection_alive now q x)))
          (All-contains_self q.players))

-- Joining a queue and leaving it again gives back the list of players; a second join is refused.
pub remove_player-add_player :
    (now ttl : ℕ) (p : String) (q : PlayerQueue)
    → (add_player_to_queue_with_ttl now p ttl q).0 ≡ ok tt
    → ((add_player_to_queue_with_ttl now p ttl (add_player_to_queue_with_ttl now p ttl q).1).0
        ≡ err player_already_in_queue)
      × ((remove_player_from_queue p (add_player_to_queue_with_ttl now p ttl q).1).1.players
          ≡ q.players)
unfolding add_player_to_queue_with_ttl remove_player_from_queue
remove_player-add_player now ttl p q e = elim (Bool-cases (contains q.players p)) [
  | inl here ↦ let refused = rw here at e in cc
  | inr gone ↦
      let found : contains (q.players ++ (p ∷ [])) p ≡ true =
        contains-append q.players (p ∷ []) p
        ∙ ap (λ (b : Bool). contains q.players p || (b || false)) (eq_self p)
        ∙ or-true (contains q.players p) in
      rw (gone, found) (refl, erase-append q.players p gone)
]
