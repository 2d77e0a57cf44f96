-- ===== src/Matchmaking/Walk.antt =====
-- PairPlayers (worker/matchmaking/pairPlayers.go): the walk over all queues; and the two directions of the
-- key of a sub-queue (external/redis/redis.go).
use Prim.Native.Char.{Char, code}
use Prim.Native.String.{◌++◌ as string_append}
use Prim.Native.String.append
use elo_service.Prelude.{
  ◌≡◌, ◌∙◌, ap, refl, arith, ℕ, String, Bool, true, false, not, ◌&&◌, ◌||◌, none, some, List, [],
  ◌∷◌, nat_eq, string_eq, if◌then◌else◌, ◌==◌, Bool-cases, inl, inr,
}
use elo_service.Prelude.Sorting.{Sorting}
use elo_service.Store.{GameQueue, Game}
use elo_service.Matches.{get_game}
use elo_service.GameQueues.{get_game_queue}
use elo_service.Matchmaking.{Config, StartEnv, World, Loop, pair_fifo}
use elo_service.Matchmaking.Join.{queue_key}
use elo_service.Matchmaking.Rating.{
  Candidate, RatingLoop, finished, failed, running, pair_by_rating,
}

abbrev pub starts_with_colon : String → Bool
starts_with_colon String.[] = false
starts_with_colon (String.◌∷◌ c s) = code c == b':'

-- What stands before the first "::".
unfoldable pub parse_queue_key : String → String
parse_queue_key String.[] = ""
parse_queue_key (String.◌∷◌ c s) =
    let rest = parse_queue_key s in
    if code c == b':' && starts_with_colon s then "" else String.◌∷◌ c rest

abbrev pub has_no_colon : String → Bool
has_no_colon String.[] = true
has_no_colon (String.◌∷◌ c s) = not (code c == b':') && has_no_colon s

abbrev pub or_paired : Bool → RatingLoop → RatingLoop
or_paired b (finished paired w) = finished (b || paired) w
or_paired b (failed w) = failed w
or_paired b running = running

abbrev pub of_fifo : Loop → RatingLoop
of_fifo (Loop.finished paired w) = finished paired w
of_fifo Loop.running = running

module _ (s : Sorting Candidate) where
  -- One queue, by its strategy.
  unfoldable pub pair_queue :
      ℕ → (ℕ → StartEnv) → Config → Game → GameQueue → String → World → RatingLoop
  unfolding pair_by_rating pair_fifo
  pair_queue fuel envs cfg game queue composite w =
      if queue.matchmaking_strategy == "rating"
      then pair_by_rating s fuel envs 0 cfg game queue composite false w
      else of_fifo (pair_fifo fuel envs 0 cfg game queue composite false w)

  -- The Boolean of `finished` is `playerPaired`, on which the collection of garbage is triggered. `keys` are what
  -- KEYS answers, without their prefix, and `envs` what the outside answers to each queue's calls.
  unfoldable pub pair_players :
      ℕ → (String → ℕ → StartEnv) → Config → List String → Bool → World → RatingLoop
  unfolding pair_queue parse_queue_key
  pair_players fuel envs cfg [] paired w = finished paired w
  pair_players fuel envs cfg (composite ∷ keys) paired w =
      let skip = pair_players fuel envs cfg keys paired w in
      let onwards : RatingLoop → RatingLoop = λ r. elim r [
        | finished more w' ↦ pair_players fuel envs cfg keys (paired || more) w'
        | failed w' ↦ failed w'
        | running ↦ running
      ] in
      elim (get_game_queue (parse_queue_key composite) w.db) [
        | none ↦ skip
        | some queue ↦ elim (get_game queue.game_id w.db) [
          | none ↦ skip
          | some game ↦ onwards (pair_queue fuel (envs composite) cfg game queue composite w)
        ]
      ]

append_nil : (t : String) → string_append "" t ≡ t
append_nil t = λ i. append.nil t i

append_cons :
    (c : Char) (s t : String) → string_append (String.◌∷◌ c s) t ≡ String.◌∷◌ c (string_append s t)
append_cons c s t = λ i. append.cons c s t i

parse_cons :
    (c : Char) (s t : String)
    → (code c == b':') ≡ false
    → parse_queue_key s ≡ t
    → parse_queue_key (String.◌∷◌ c s) ≡ String.◌∷◌ c t
unfolding parse_queue_key
parse_cons c s t h e = rw h (ap (λ r. String.◌∷◌ c r) e)

parse_separator : (t : String) → parse_queue_key (string_append "::" t) ≡ ""
unfolding parse_queue_key
parse_separator t =
    ap parse_queue_key (append_cons ":" ":" t ∙ ap (λ r. String.◌∷◌ ":" r) (append_cons ":" "" t))

parse-append :
    (id suffix : String)
    → has_no_colon id ≡ true
    → parse_queue_key (string_append (string_append id "::") suffix) ≡ id
parse-append String.[] suffix h =
    ap (λ r. parse_queue_key (string_append r suffix)) (append_nil "::") ∙ parse_separator suffix
parse-append (String.◌∷◌ c s) suffix h =
    let other : (code c == b':') ≡ false = ground arith in
    let more : has_no_colon s ≡ true = ground arith in
    ap (λ r. parse_queue_key (string_append r suffix)) (append_cons c s "::")
    ∙ ap parse_queue_key (append_cons c (string_append s "::") suffix)
    ∙ parse_cons c (string_append (string_append s "::") suffix) s other
        (parse-append s suffix more)

parse_plain : (id : String) → has_no_colon id ≡ true → parse_queue_key id ≡ id
unfolding parse_queue_key
parse_plain String.[] h = refl
parse_plain (String.◌∷◌ c s) h =
    let other : (code c == b':') ≡ false = ground arith in
    let more : has_no_colon s ≡ true = ground arith in parse_cons c s s other (parse_plain s more)

-- The key of a sub-queue leads back to the queue, whatever the metadata and its fingerprint, given that
-- the queue's id has no colon.
pub parse_queue_key-queue_key :
    (fingerprint : String → String) (id metadata : String)
    → has_no_colon id ≡ true
    → parse_queue_key (queue_key fingerprint id metadata) ≡ id
unfolding queue_key
parse_queue_key-queue_key fingerprint id metadata h = elim (Bool-cases (metadata == "")) [
  | inl plain ↦ rw plain (parse_plain id h)
  | inr tagged ↦ rw tagged (parse-append id (fingerprint metadata) h)
]
