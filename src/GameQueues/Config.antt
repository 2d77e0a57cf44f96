-- ===== src/GameQueues/Config.antt =====
-- The configuration of a queue when it is created and when it is updated.
use mathlib.Core.Path.{subst}
use elo_service.Prelude.{
  ℕ, ◌≡◌, refl, inl, inr, String, true, false, not, ◌&&◌, List, arith, nat_eq, string_eq, ◌==◌,
  contains, Bool-cases,
}
use elo_service.Prelude.Int.{ℤ, pos}
use elo_service.Store.{GameQueue}
use elo_service.GameQueues.{
  ok, matchmaking_strategies, elo_strategies, CreateGameQueueParams, is_zero, text_or, int_or,
  value_or, apply_queue_defaults, queue_from_params, UpdateGameQueueParams, apply_queue_update,
}

-- Names are given, the strategies are known, and no number is 0.
pub record IsConfigured (name machine strategy elo : String) (lobby rating k : ℤ) : Type 0 where
  pub named : (name == "") ≡ false
  pub machine_named : (machine == "") ≡ false
  pub strategy_known : contains matchmaking_strategies strategy ≡ true
  pub elo_known : contains elo_strategies elo ≡ true
  pub sized : is_zero lobby ≡ false
  pub rated : is_zero rating ≡ false
  pub weighted : is_zero k ≡ false

abbrev pub IsUsable : GameQueue → Type 0
IsUsable q =
    IsConfigured q.name q.matchmaking_machine_name q.matchmaking_strategy q.elo_strategy
      q.lobby_size q.default_rating q.k_factor

text_or-given : (s d : String) → (d == "") ≡ false → (text_or s d == "") ≡ false
text_or-given s d h = elim (Bool-cases (s == "")) [
  | inl blank ↦ rw blank h
  | inr given ↦ rw (given, given)
]

int_or-given : (n d : ℤ) → is_zero d ≡ false → is_zero (int_or n d) ≡ false
int_or-given n d h = elim (Bool-cases (is_zero n)) [
  | inl blank ↦ rw blank h
  | inr given ↦ rw (given, given)
]

abbrev completed : CreateGameQueueParams → CreateGameQueueParams
completed p = record p {
  name = text_or p.name "primary";
  matchmaking_machine_name =
      text_or p.matchmaking_machine_name "docker.io/andy98725/example-server:latest";
  matchmaking_strategy = text_or p.matchmaking_strategy "random";
  elo_strategy = text_or p.elo_strategy "unranked";
  lobby_size = int_or p.lobby_size (pos 2);
  k_factor = int_or p.k_factor (pos 32);
  default_rating = int_or p.default_rating (pos 1000);
}

-- A queue that is created from any parameters that are accepted is usable: its names are given,
-- its strategies are known, and its lobby size, default rating and K factor are not 0.
apply_queue_defaults-IsUsable :
    (new_id game_id : String) (now : ℕ) (params : CreateGameQueueParams) {p : CreateGameQueueParams}
    → apply_queue_defaults params ≡ ok p
    → IsUsable (queue_from_params new_id game_id now p)
unfolding apply_queue_defaults queue_from_params
apply_queue_defaults-IsUsable new_id game_id now params {p} e =
    elim (Bool-cases
      (contains matchmaking_strategies (text_or params.matchmaking_strategy "random"))) [
        | inr unknown ↦ let bad = rw unknown at e in cc
        | inl known ↦
            elim (Bool-cases (contains elo_strategies (text_or params.elo_strategy "unranked"))) [
              | inr unknown ↦ let bad = rw (known, unknown) at e in cc
              | inl known' ↦
                  let whole : ok (completed params) ≡ ok p = rw (known, known') at e in
                  let same : completed params ≡ p = cc in
                  subst (λ x. IsUsable (queue_from_params new_id game_id now x)) same
                    (record {
                      named = text_or-given params.name "primary" refl;
                      machine_named = text_or-given params.matchmaking_machine_name _ refl;
                      strategy_known = known;
                      elo_known = known';
                      sized = int_or-given params.lobby_size (pos 2) refl;
                      rated = int_or-given params.default_rating (pos 1000) refl;
                      weighted = int_or-given params.k_factor (pos 32) refl;
                    })
            ]
      ]

kept_strategy :
    (strategies : List String) (s old : String)
    → (not (s == "") && not (contains strategies s)) ≡ false
    → contains strategies old ≡ true
    → contains strategies (text_or s old) ≡ true
kept_strategy strategies s old h was = elim (Bool-cases (s == "")) [
  | inl blank ↦ rw blank was
  | inr given ↦ rw given (ground arith)
]

abbrev updated : GameQueue → UpdateGameQueueParams → GameQueue
updated q p = record q {
  name = text_or p.name q.name;
  lobby_enabled = value_or p.lobby_enabled q.lobby_enabled;
  lobby_size = int_or p.lobby_size q.lobby_size;
  matchmaking_strategy = text_or p.matchmaking_strategy q.matchmaking_strategy;
  matchmaking_machine_name = text_or p.matchmaking_machine_name q.matchmaking_machine_name;
  matchmaking_machine_ports = value_or p.matchmaking_machine_ports q.matchmaking_machine_ports;
  elo_strategy = text_or p.elo_strategy q.elo_strategy;
  default_rating = int_or p.default_rating q.default_rating;
  k_factor = int_or p.k_factor q.k_factor;
  metadata_enabled = value_or p.metadata_enabled q.metadata_enabled;
}

-- An update that is accepted keeps a usable queue usable: its names are given, its strategies are
-- known, and its lobby size, default rating and K factor are not 0.
pub apply_queue_update-IsUsable :
    (q : GameQueue) (params : UpdateGameQueueParams) {after : GameQueue}
    → IsUsable q
    → apply_queue_update q params ≡ ok after
    → IsUsable after
unfolding apply_queue_update
apply_queue_update-IsUsable q params {after} x e =
    elim (Bool-cases (
      not (params.matchmaking_strategy == "")
      && not (contains matchmaking_strategies params.matchmaking_strategy))) [
        | inl unknown ↦ let bad = rw unknown at e in cc
        | inr known ↦
            elim (Bool-cases (
              not (params.elo_strategy == "")
              && not (contains elo_strategies params.elo_strategy))) [
                | inl unknown ↦ let bad = rw (known, unknown) at e in cc
                | inr known' ↦
                    let whole : ok (updated q params) ≡ ok after = rw (known, known') at e in
                    let same : updated q params ≡ after = cc in
                    subst IsUsable same (record {
                      named = text_or-given params.name q.name x.named;
                      machine_named =
                          text_or-given params.matchmaking_machine_name _ x.machine_named;
                      strategy_known =
                          kept_strategy matchmaking_strategies params.matchmaking_strategy
                            q.matchmaking_strategy known x.strategy_known;
                      elo_known =
                          kept_strategy elo_strategies params.elo_strategy q.elo_strategy known'
                            x.elo_known;
                      sized = int_or-given params.lobby_size q.lobby_size x.sized;
                      rated = int_or-given params.default_rating q.default_rating x.rated;
                      weighted = int_or-given params.k_factor q.k_factor x.weighted;
                    })
              ]
      ]
