-- ===== src/Text.antt =====
-- The functions of Go's packages `strings` and `strconv` that the handlers apply to a request's texts.
use Prim.Native.Char.{code}
use Prim.Native.String.{String, ◌++◌ as string_append}
use elo_service.Prelude.{
  ℕ, Bool, true, false, ◌&&◌, ◌||◌, Option, none, some, List, ◌∷◌, nat_eq, string_eq, leb, ◌==◌,
  if◌then◌else◌, contains,
}

-- `unicode.IsSpace` on a code point.
unfoldable pub is_space : ℕ → Bool
is_space c =
    (leb 9 c && leb c 13)
    || (leb 8192 c && leb c 8202)
    || contains (32 ∷ 133 ∷ 160 ∷ 5760 ∷ 8232 ∷ 8233 ∷ 8239 ∷ 8287 ∷ 12288 ∷ List.[]) c

unfoldable pub trim_left : String → String
unfolding is_space
trim_left String.[] = ""
trim_left (String.◌∷◌ c s) =
    let rest = trim_left s in if is_space (code c) then rest else String.◌∷◌ c s

unfoldable pub reverse : String → String
reverse String.[] = ""
reverse (String.◌∷◌ c s) = string_append (reverse s) (String.◌∷◌ c "")

unfoldable pub trim_space : String → String
unfolding trim_left reverse
trim_space s = reverse (trim_left (reverse (trim_left s)))

-- The part before the first separator, and what follows it, if there is one.
unfoldable pub cut : ℕ → String → String × Option String
cut sep String.[] = ("", none)
cut sep (String.◌∷◌ c s) =
    let (before, after) = cut sep s in
    if code c == sep then ("", some s) else (String.◌∷◌ c before, after)

-- `strings.Split` by one character: the part before the first separator, and the other parts.
unfoldable pub split : ℕ → String → String × List String
split sep String.[] = ("", List.[])
split sep (String.◌∷◌ c s) =
    let (part, parts) = split sep s in
    if code c == sep then ("", part ∷ parts) else (String.◌∷◌ c part, parts)

-- `strconv.ParseBool`
unfoldable pub parse_bool : String → Option Bool
parse_bool s =
    if contains ("1" ∷ "t" ∷ "T" ∷ "TRUE" ∷ "true" ∷ "True" ∷ List.[]) s
    then some true
    else if contains ("0" ∷ "f" ∷ "F" ∷ "FALSE" ∷ "false" ∷ "False" ∷ List.[]) s
    then some false
    else none
