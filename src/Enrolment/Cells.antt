-- ===== src/Enrolment/Cells.antt =====
-- Lines and cells of a pasted table.
use intelli_study_planner_br.Base.{
  ℕ, Bool, not, ◌&&◌, ◌||◌, Option, none, some, List, [], ◌∷◌, Text, codes, leb, if◌then◌else◌,
  ◌==◌, nat_eq, text_eq, all, elem, is_empty, keep, map, strip, squeeze, lower,
}
use mathlib.Core.List.{reverse}

-- s.split(c) for a character: never empty.
abbrev pub onto_first : ℕ → List Text → List Text
onto_first d [] = (d ∷ []) ∷ []
onto_first d (s ∷ ss) = (d ∷ s) ∷ ss

unfoldable pub split_on : ℕ → Text → List Text
split_on c [] = [] ∷ []
split_on c (d ∷ s) = let rest = split_on c s in if d == c then [] ∷ rest else onto_first d rest

-- Line ends, but for the carriage return, which may have a line feed behind it.
abbrev is_break : ℕ → Bool
is_break c = leb 10 c && leb c 12 || leb 28 c && leb c 30 || c == 133 || c == 8232 || c == 8233

-- str.splitlines: no line after a last line end.
unfoldable pub split_lines : Text → List Text
split_lines [] = []
split_lines (c ∷ []) = if is_break c || c == 13 then [] ∷ [] else (c ∷ []) ∷ []
split_lines (c ∷ d ∷ s) =
    let rest = split_lines (d ∷ s) in
    let after = split_lines s in
    if c == 13 && d == 10
    then [] ∷ after
    else if is_break c || c == 13
    then [] ∷ rest
    else onto_first c rest

-- s.strip("|")
unfoldable pub drop_pipes : Text → Text
drop_pipes [] = []
drop_pipes (c ∷ s) = let rest = drop_pipes s in if c == b'|' then rest else c ∷ s

unfoldable pub strip_pipes : Text → Text
unfolding drop_pipes
strip_pipes s = reverse (drop_pipes (reverse (drop_pipes s)))

-- _split_row
unfoldable pub split_row : Text → List Text
unfolding strip strip_pipes split_on
split_row line = map strip (split_on b'|' (strip_pipes (strip line)))

-- _norm
unfoldable pub norm : Text → Text
unfolding strip squeeze lower
norm cell = lower (squeeze (strip (keep (λ c. not (c == b'*')) cell)))

-- _is_separator
unfoldable pub is_separator : List Text → Bool
is_separator = all (λ cell. all (λ c. elem c (codes "-: ")) cell && not (is_empty cell))

pub data Kind : Type 0 where
  enrolment specified unspecified : Kind

abbrev has_all : List Text → List Text → Bool
has_all names seen = all (λ name. elem name seen) names

-- _classify
unfoldable pub classify : List Text → Option Kind
classify seen =
    if has_all (codes "year" ∷ codes "subject code" ∷ codes "status" ∷ []) seen
    then some enrolment
    else if has_all (codes "course" ∷ codes "subject code" ∷ codes "nom cp" ∷ []) seen
    then some specified
    else if has_all (codes "course" ∷ codes "level" ∷ codes "nom cp" ∷ []) seen
    then some unspecified
    else none

-- dict(zip(columns, cells)), for lists of one length; `get` takes the last value of a column.
abbrev pub Cells : Type 0
Cells = List (Text × Text)

unfoldable pub zip : List Text → List Text → Cells
zip (k ∷ ks) (v ∷ vs) = (k, v) ∷ zip ks vs
zip _ _ = []

abbrev pub or_value : Option Text → Option Text → Option Text
or_value none o = o
or_value (some v) o = some v

unfoldable pub get : Text → Cells → Option Text
get name [] = none
get name ((k, v) ∷ cells) = or_value (get name cells) (if k == name then some v else none)

-- cells.get(name, "")
abbrev pub text_of : Option Text → Text
text_of none = []
text_of (some s) = s

-- `s or None`
abbrev pub or_none : Text → Option Text
or_none [] = none
or_none (c ∷ s) = some (c ∷ s)
