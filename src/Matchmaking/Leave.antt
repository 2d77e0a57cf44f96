-- ===== src/Matchmaking/Leave.antt =====
-- Leaving a queue after a join.
use mathlib.Core.Path.{subst}
use elo_service.Prelude.{
  ℕ, ◌≡◌, refl, ap, sym, ◌∙◌, ◌⊎◌, inl, inr, String, true, nat_eq, string_eq, Bool-cases, eq_self,
  contains,
}
use elo_service.Store.{GameQueue, Db}
use elo_service.GameQueues.{QueueConfig, QueueConfigError, QueueConfig-cases, resolve_queue}
use elo_service.Queue.{
  PlayerQueue, QueueError, QueueResult, player_already_in_queue, add_player_to_queue_with_ttl,
  remove_player_from_queue, game_queue_size,
}
use elo_service.Queue.Fifo.{remove_player-add_player}
use elo_service.Matchmaking.{World, on_queue}
use elo_service.Matchmaking.Join.{
  JoinResult, JoinQueueResult, ok, err, config, queue, queue_ttl, composite_key, join_queue,
  leave_queue,
}

QueueResult-cases :
    {A : Type 0} (r : QueueResult A)
    → ((e : QueueError) × (r ≡ QueueResult.err e)) ⊎ ((a : A) × (r ≡ QueueResult.ok a))
QueueResult-cases (QueueResult.ok a) = inr (a, refl)
QueueResult-cases (QueueResult.err e) = inl (e, refl)

on_queue-queues : (key : String) (q : PlayerQueue) (w : World) → (on_queue key q w).queues key ≡ q
unfolding on_queue
on_queue-queues key q w = rw (eq_self key)

on_queue-db : (key : String) (q : PlayerQueue) (w : World) → (on_queue key q w).db ≡ w.db
unfolding on_queue
on_queue-db key q w = refl

waiting :
    (now ttl : ℕ) (p : String) (q : PlayerQueue) {x : QueueError}
    → (add_player_to_queue_with_ttl now p ttl q).0 ≡ QueueResult.err x
    → contains q.players p ≡ true
unfolding add_player_to_queue_with_ttl
waiting now ttl p q e = elim (Bool-cases (contains q.players p)) [
  | inl here ↦ here
  | inr gone ↦ let bad = rw gone at e in cc
]

add_player-refused :
    (now ttl : ℕ) (p : String) (q : PlayerQueue)
    → contains q.players p ≡ true
    → (add_player_to_queue_with_ttl now p ttl q).0 ≡ QueueResult.err player_already_in_queue
unfolding add_player_to_queue_with_ttl
add_player-refused now ttl p q here = rw here

remove_player-succeeds :
    (p : String) (q : PlayerQueue)
    → contains q.players p ≡ true
    → (remove_player_from_queue p q).0 ≡ QueueResult.ok tt
unfolding remove_player_from_queue
remove_player-succeeds p q here = rw here

module _ (fingerprint : String → String) (player game_id queue_id metadata : String) where
  join_queue-added :
      (now : ℕ) (w : World) (q : GameQueue)
      → resolve_queue game_id queue_id w.db ≡ QueueConfig.ok q
      → let key = composite_key fingerprint q metadata in
        let added = add_player_to_queue_with_ttl now player queue_ttl (w.queues key) in
        added.0 ≡ QueueResult.ok tt
        → join_queue fingerprint now player game_id queue_id metadata w ≡ (
          ok (record {
            queue_size = game_queue_size added.1;
            queue_id = key;
            game_queue_id = q.id;
          }),
          on_queue key added.1 w,
        )
  unfolding join_queue
  join_queue-added now w q e done = rw (e, join_queue, done)

  join_queue-failed :
      (now : ℕ) (w : World) (x : QueueConfigError)
      → resolve_queue game_id queue_id w.db ≡ QueueConfig.err x
      → (join_queue fingerprint now player game_id queue_id metadata w).0 ≡ err (config x)
  unfolding join_queue
  join_queue-failed now w x bad = rw (bad, join_queue)

  join_queue-refused :
      (now : ℕ) (w : World) (q : GameQueue) (x : QueueError)
      → resolve_queue game_id queue_id w.db ≡ QueueConfig.ok q
      → (add_player_to_queue_with_ttl now player queue_ttl
          (w.queues (composite_key fingerprint q metadata))).0
        ≡ QueueResult.err x
      → (join_queue fingerprint now player game_id queue_id metadata w).0 ≡ err (queue x)
  unfolding join_queue
  join_queue-refused now w q x e bad = rw (e, join_queue, bad)

  leave_queue-removed :
      (w : World) (q : GameQueue)
      → resolve_queue game_id queue_id w.db ≡ QueueConfig.ok q
      → let key = composite_key fingerprint q metadata in
        let removed = remove_player_from_queue player (w.queues key) in
        removed.0 ≡ QueueResult.ok tt
        → leave_queue fingerprint player game_id queue_id metadata w
          ≡ (ok tt, on_queue key removed.1 w)
  unfolding leave_queue
  leave_queue-removed w q e done = rw (e, leave_queue, done)

  -- What holds of the world after the join, with the key of its sub-queue.
  abbrev IsTakenBack : ℕ → String → PlayerQueue → World → Type 0
  IsTakenBack later key before joined =
      let left = leave_queue fingerprint player game_id queue_id metadata joined in
      ((join_queue fingerprint later player game_id queue_id metadata joined).0
        ≡ err (queue player_already_in_queue))
      × (left.0 ≡ ok tt)
      × ((left.1.queues key).players ≡ before.players)

  on_queue-IsTakenBack :
      (later : ℕ) (w : World) (q : GameQueue) (before after : PlayerQueue)
      → resolve_queue game_id queue_id w.db ≡ QueueConfig.ok q
      → contains after.players player ≡ true
      → (remove_player_from_queue player after).1.players ≡ before.players
      → IsTakenBack later
          (composite_key fingerprint q metadata)
          before
          (on_queue (composite_key fingerprint q metadata) after w)
  on_queue-IsTakenBack later w q before after found here back =
      let key = composite_key fingerprint q metadata in
      let joined = on_queue key after w in
      let stored = on_queue-queues key after w in
      let found' =
        ap (λ (db : Db). resolve_queue game_id queue_id db) (on_queue-db key after w) ∙ found in
      let gone = leave_queue-removed joined q found' (
        ap (λ (pq : PlayerQueue). (remove_player_from_queue player pq).0) stored
        ∙ remove_player-succeeds player after here) in
      (
        join_queue-refused later joined q player_already_in_queue found' (
            ap (λ (pq : PlayerQueue). (add_player_to_queue_with_ttl later player queue_ttl pq).0)
              stored
            ∙ add_player-refused later queue_ttl player after here),
        ap (λ (x : JoinResult (Unit {0}) × World). x.0) gone,
        ap (λ (x : JoinResult (Unit {0}) × World). (x.1.queues key).players) gone
            ∙ ap (λ (pq : PlayerQueue). pq.players)
                (on_queue-queues key (remove_player_from_queue player (joined.queues key)).1 joined)
            ∙ ap (λ (pq : PlayerQueue). (remove_player_from_queue player pq).1.players) stored
            ∙ back,
      )

  -- After a successful join a second one is refused, leaving succeeds, and the sub-queue then holds the
  -- same players in the same order as before the join.
  pub leave_queue-join_queue :
      (now later : ℕ) (w : World) {r : JoinQueueResult}
      → (join_queue fingerprint now player game_id queue_id metadata w).0 ≡ ok r
      → let joined = (join_queue fingerprint now player game_id queue_id metadata w).1 in
        let left = leave_queue fingerprint player game_id queue_id metadata joined in
        ((join_queue fingerprint later player game_id queue_id metadata joined).0
          ≡ err (queue player_already_in_queue))
        × (left.0 ≡ ok tt)
        × ((left.1.queues r.queue_id).players ≡ (w.queues r.queue_id).players)
  leave_queue-join_queue now later w {r} e =
      elim (QueueConfig-cases (resolve_queue game_id queue_id w.db)) [
        | inl (x, bad) ↦ let failed = join_queue-failed now w x bad in cc
        | inr (q, found) ↦
            let key = composite_key fingerprint q metadata in
            let before = w.queues key in
            let added = add_player_to_queue_with_ttl now player queue_ttl before in
            elim (QueueResult-cases added.0) [
              | inl (x, bad) ↦ let failed = join_queue-refused now w q x found bad in cc
              | inr (tt, done) ↦
                  let run = join_queue-added now w q found done in
                  let (again, back) = remove_player-add_player now queue_ttl player before done in
                  let here = waiting now queue_ttl player added.1 again in
                  let same : r.queue_id ≡ key =
                    let whole =
                      sym (ap (λ (x : JoinResult JoinQueueResult × World). x.0) run) ∙ e in
                    let parts : record {
                      queue_size = game_queue_size added.1;
                      queue_id = key;
                      game_queue_id = q.id;
                    }
                        ≡ r =
                      cc in
                    ap (λ (x : JoinQueueResult). x.queue_id) (sym parts) in
                  subst (λ (j : World). IsTakenBack later r.queue_id (w.queues r.queue_id) j)
                    (sym (ap (λ (x : JoinResult JoinQueueResult × World). x.1) run))
                    (subst (λ i. IsTakenBack later i (w.queues i) (on_queue key added.1 w))
                      (sym same) (on_queue-IsTakenBack later w q before added.1 found here back))
            ]
      ]
