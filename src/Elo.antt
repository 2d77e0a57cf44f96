-- ===== src/Elo.antt =====
-- models/elo.go and the rating rows of models/rating.go. The float64 arithmetic is a parameter of the
-- model, `FloatOps`; ratings and K factors are integers.
pub mod Rows
pub mod Others
use Prim.Native.Nat.{Ordering}
use Prim.Native.String.{compare as compare_strings}
use elo_service.Prelude.{
  ℕ, ◌+◌, String, Bool, true, false, not, ◌&&◌, Option, none, some, List, [], ◌∷◌, ◌++◌, nat_eq,
  string_eq, ltb, if◌then◌else◌, ◌==◌, length, find_by, filter_by, update_by, contains,
}
use elo_service.Prelude.Int.{ℤ, pos, ◌+ℤ◌, ◌-ℤ◌}
use elo_service.Store.{Rating, GameQueue}
use elo_service.Util.{is_guest_id}

-- What the code uses of float64: `of_int` is the conversion `float64(n)`, also for the literals that
-- are integers, `half` is the literal 0.5, `pow` is `math.Pow`, and `round` is `int(math.Round(x))`.
pub record FloatOps : Type 1 where
  pub F : Type 0
  pub of_int : ℤ → F
  pub half : F
  pub add : F → F → F
  pub sub : F → F → F
  pub mul : F → F → F
  pub div : F → F → F
  pub pow : F → F → F
  pub round : F → ℤ

abbrev pub string_leb : String → String → Bool
string_leb s t = elim (compare_strings s t) [ Ordering.gt ↦ false | _ ↦ true ]

-- `sort.Strings`, as an insertion sort.
abbrev pub insert_string : String → List String → List String
insert_string s [] = s ∷ []
insert_string s (t ∷ ts) =
    let rest = insert_string s ts in if string_leb s t then s ∷ t ∷ ts else t ∷ rest

unfoldable pub sort_strings : List String → List String
sort_strings [] = []
sort_strings (s ∷ ss) = insert_string s (sort_strings ss)

abbrev pub is_rating_of : String → String → Rating → Bool
is_rating_of queue_id player r = r.player_id == player && r.game_queue_id == queue_id

-- `OnConflict{DoNothing: true}` on the primary key, then `Create`, for each player.
unfoldable pub create_missing : GameQueue → List String → List Rating → List Rating
create_missing q [] rows = rows
create_missing q (p ∷ ps) rows = create_missing q ps (elim (find_by (is_rating_of q.id p) rows) [
  | some _ ↦ rows
  | none ↦ rows ++ (record { player_id = p; game_queue_id = q.id; rating = q.default_rating } ∷ [])
])

-- `First` for each player; a missing row ends the transaction.
unfoldable pub lock_rows : GameQueue → List String → List Rating → Option (List Rating)
lock_rows q [] rows = some []
lock_rows q (p ∷ ps) rows = elim (find_by (is_rating_of q.id p) rows) [
  | none ↦ none
  | some r ↦ elim (lock_rows q ps rows) [ none ↦ none | some rs ↦ some (r ∷ rs) ]
]

-- The points of player i against player j.
pub data Score : Type 0 where
  win lose draw : Score

unfoldable pub score : Bool → Bool → Score
score i_won j_won = if i_won && not j_won then win else if not i_won && j_won then lose else draw

module _ (fl : FloatOps) where
  open fl use {F, of_int, half, add, sub, mul, div, pow, round}

  abbrev points : Score → F
  points win = of_int (pos 1)
  points lose = of_int (pos 0)
  points draw = half

  -- `1.0 / (1.0 + math.Pow(10, float64(rj-ri)/400.0))`
  unfoldable pub expected : ℤ → ℤ → F
  expected ri rj =
      div (of_int (pos 1))
        (add (of_int (pos 1)) (pow (of_int (pos 10)) (div (of_int (rj -ℤ ri)) (of_int (pos 400)))))

  unfoldable pub k_eff : GameQueue → ℕ → F
  k_eff q n = div (mul (of_int q.k_factor) (of_int (pos 2))) (of_int (pos n))

  -- The inner loop, from player j on.
  unfoldable pub delta_from : F → List String → ℕ → Rating → ℕ → List Rating → F → F
  unfolding expected
  delta_from k winners i ri j [] acc = acc
  delta_from k winners i ri j (rj ∷ rs) acc = delta_from k winners i ri (j + 1) rs (
      if i == j
      then acc
      else add acc (
          mul k (
            sub (points (score (contains winners ri.player_id) (contains winners rj.player_id)))
              (expected ri.rating rj.rating))))

  -- The outer loop, from player i on.
  unfoldable pub deltas_from : F → List String → List Rating → ℕ → List Rating → List F
  unfolding delta_from
  deltas_from k winners all i [] = []
  deltas_from k winners all i (r ∷ rs) =
      delta_from k winners i r 0 all (of_int (pos 0)) ∷ deltas_from k winners all (i + 1) rs

  -- `tx.Save` of each locked row with its rounded delta.
  unfoldable pub save_rows : GameQueue → List Rating → List F → List Rating → List Rating
  save_rows q [] ds rows = rows
  save_rows q (r ∷ rs) [] rows = rows
  save_rows q (r ∷ rs) (d ∷ ds) rows = save_rows q rs ds (
      update_by (is_rating_of q.id r.player_id) (λ x. record x { rating = r.rating +ℤ round d })
        rows)

  -- `none` is an error, which rolls the transaction back.
  unfoldable pub apply_classic_elo :
      GameQueue → List String → List String → List Rating → Option (List Rating)
  unfolding create_missing lock_rows k_eff deltas_from save_rows sort_strings is_guest_id
  apply_classic_elo q player_ids winner_ids rows =
      let non_guests = sort_strings (filter_by (λ p. not (is_guest_id p)) player_ids) in
      if ltb (length non_guests) 2
      then some rows
      else let created = create_missing q non_guests rows in
        elim (lock_rows q non_guests created) [
          | none ↦ none
          | some ratings ↦ some (
              save_rows q ratings
                (deltas_from (k_eff q (length ratings)) winner_ids ratings 0 ratings) created)
        ]
