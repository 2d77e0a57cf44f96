-- ===== src/Matchmaking/Capacity.antt =====
-- `pairFIFO` when every host is full and no more may be created.
use elo_service.Prelude.{
  ℕ, zero, suc, ◌≤◌, ◌≡◌, refl, ap, ◌∙◌, String, Bool, true, false, not, ◌||◌, Option, none, List,
  arith, leb, nat_eq, string_eq, ◌==◌, length, take, drop, length-append, take-append-drop,
  length-take, eq_self,
}
use elo_service.Prelude.Int.{ℤ, pos, ltb_ℤ}
use elo_service.Store.{GameQueue, Game, Db}
use elo_service.Hosts.{find_available_host, count_machine_hosts}
use elo_service.Queue
use elo_service.Queue.{
  PlayerQueue, QueueResult, put_key, drop_keys, pop_players_from_queue, push_players_to_queue,
  game_queue_size,
}
use elo_service.Matchmaking.{
  Config, StartEnv, StartResult, err, at_capacity, World, on_queue, acquire_host, start_match,
  running, is_started_ok, is_enough, pair_fifo,
}

-- No host has room, and the number of hosts has reached its maximum.
pub record IsFull (cfg : Config) (queue : GameQueue) (db : Db) : Type 0 where
  pub no_host :
      find_available_host
        (length queue.matchmaking_machine_ports)
        cfg.port_range_start
        cfg.port_range_end
        db
      ≡ none
  pub capped : leb cfg.max_hosts (count_machine_hosts db) ≡ true

-- The store answers the two questions that `StartMatch` puts to it first.
pub record IsAnswering (env : StartEnv) : Type 0 where
  pub finds : env.find_fails ≡ false
  pub counts : env.count_fails ≡ false

on_queue_self :
    (composite : String) (q : PlayerQueue) (w : World)
    → (on_queue composite q w).queues composite ≡ q
unfolding on_queue
on_queue_self composite q w = rw (eq_self composite)

on_queue-db :
    (composite : String) (q : PlayerQueue) (w : World) → (on_queue composite q w).db ≡ w.db
unfolding on_queue
on_queue-db composite q w = refl

length-pushed :
    (now m : ℕ) (xs : List String) (q : PlayerQueue)
    → q.players ≡ drop m xs
    → length (push_players_to_queue now (take m xs) q).players ≡ length xs
unfolding push_players_to_queue
length-pushed now m xs q e = rw e (
    omega (
      arith,
      length-append {0} (drop m xs) (take m xs),
      length-append {0} (take m xs) (drop m xs),
      ap (length {0} {A = String}) (take-append-drop m xs),
    ))

module _ (cfg : Config) (game : Game) (queue : GameQueue) (composite : String) where
  -- Where no host has room and no more may be created, a match is refused, nothing is written to
  -- the store, no player is told, and the players are pushed back to the queue. The queue has
  -- ports configured, and the store answers.
  start_match-at_capacity :
      (env : StartEnv) (players : List String) (ov : Option Bool) (w : World)
      → IsAnswering env
      → (length queue.matchmaking_machine_ports == 0) ≡ false
      → IsFull cfg queue w.db
      → start_match env cfg game queue composite players ov w ≡ (
        err at_capacity,
        on_queue composite (push_players_to_queue env.now players (w.queues composite)) w,
      )
  unfolding start_match acquire_host
  start_match-at_capacity env players ov w a ports full =
      simp (ports, a.finds, full.no_host, a.counts, full.capped)

  pair_fifo-round :
      (fuel : ℕ) (envs : ℕ → StartEnv) (n : ℕ) (paired : Bool) (w : World) {ps : List String}
      {rest : PlayerQueue} {result : StartResult String} {w' : World}
      → is_enough queue (game_queue_size (w.queues composite)) ≡ true
      → pop_players_from_queue queue.lobby_size (w.queues composite) ≡ (Queue.ok ps, rest)
      → is_enough queue (length ps) ≡ true
      → start_match (envs n) cfg game queue composite ps none (on_queue composite rest w)
        ≡ (result, w')
      → pair_fifo (suc fuel) envs n cfg game queue composite paired w
        ≡ pair_fifo fuel envs (suc n) cfg game queue composite (paired || is_started_ok result) w'
  unfolding pair_fifo
  pair_fifo-round fuel envs n paired w e1 p e2 s = rw (e1, p, p, e2, s)

  pop_full :
      (m : ℕ) (size : ℤ) (q : PlayerQueue)
      → size ≡ pos m
      → 1 ≤ m
      → m ≤ length q.players
      → pop_players_from_queue size q ≡ (
        Queue.ok (take m q.players),
        record q { players = drop m q.players; joined = drop_keys (take m q.players) q.joined },
      )
  unfolding pop_players_from_queue
  pop_full m size q e one enough =
      let busy : (length q.players == 0) ≡ false = ground arith in rw (e, busy)

  enough_of_le : (m k : ℕ) (size : ℤ) → size ≡ pos m → m ≤ k → not (ltb_ℤ (pos k) size) ≡ true
  enough_of_le m k size e h = rw e (ground arith)

  -- At capacity, where no host has room and no more may be created, the loop of `pairFIFO` is
  -- still running after any number of rounds, once the queue holds a lobby of at least one player:
  -- each round puts back the players that it took. The queue has ports configured, and the store
  -- answers in each round.
  pub pair_fifo-at_capacity :
      (fuel : ℕ) (envs : ℕ → StartEnv) (n : ℕ) (paired : Bool) (w : World) (m : ℕ)
      → ((i : ℕ) → IsAnswering (envs i))
      → (length queue.matchmaking_machine_ports == 0) ≡ false
      → IsFull cfg queue w.db
      → queue.lobby_size ≡ pos m
      → 1 ≤ m
      → m ≤ length (w.queues composite).players
      → pair_fifo fuel envs n cfg game queue composite paired w ≡ running
  pair_fifo-at_capacity zero envs n paired w m a ports full e one enough = unfold pair_fifo in refl
  pair_fifo-at_capacity (suc fuel) envs n paired w m a ports full e one enough =
      let q = w.queues composite in
      let ps = take m q.players in
      let rest : PlayerQueue = record q {
        players = drop m q.players;
        joined = drop_keys ps q.joined;
      } in
      let taken = on_queue composite rest w in
      let back =
        on_queue composite (push_players_to_queue (envs n).now ps (taken.queues composite)) taken in
      let size = length-take m q.players enough in
      let step =
        pair_fifo-round fuel envs n paired w {ps = ps} {rest = rest} {result = err at_capacity}
          {w' = back}
          (unfold game_queue_size in enough_of_le m (length q.players) queue.lobby_size e enough)
          (pop_full m queue.lobby_size q e one enough)
          (enough_of_le m (length ps) queue.lobby_size e (omega (arith, size)))
          (start_match-at_capacity (envs n) ps none taken (a n) ports
            (rw (on_queue-db composite rest w) full)) in
      let after : back.db ≡ w.db =
        on_queue-db composite (push_players_to_queue (envs n).now ps (taken.queues composite)) taken
        ∙ on_queue-db composite rest w in
      let kept : length (back.queues composite).players ≡ length q.players =
        rw
          (on_queue_self composite (push_players_to_queue (envs n).now ps (taken.queues composite))
            taken)
          (length-pushed (envs n).now m q.players (taken.queues composite)
            (rw (on_queue_self composite rest w))) in
      step
      ∙ pair_fifo-at_capacity fuel envs (suc n) (paired || false) back m a ports (rw after full) e
          one (rw kept enough)
