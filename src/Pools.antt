-- ===== src/Pools.antt =====
-- app/services/elective_pools.py: the subjects that a pool of electives allows. The pool and the catalogue
-- come from JSON files: `str()` of a level or code is a text here, and `int()` of a configured level a
-- number, `none` where it raises. A set is a list without repeats.
pub mod Allowed
mod Samples
use intelli_study_planner_br.Base.{
  ℕ, ◌*◌, ◌-◌, ℤ, pos, Bool, true, false, not, ◌&&◌, ◌||◌, Option, none, some, List, [], ◌∷◌, ◌++◌,
  Text, codes, lower, strip, upper, starts_with, is_empty, is_space, keep, find, any, elem, map,
  if◌then◌else◌, ◌==◌, text_eq, int_eq, nat_eq, int_of_text,
}
use intelli_study_planner_br.Regex.{
  Regex, Scan, fullmatch, group, group_of, ◌>>◌, ◌or◌, opt, plus, star, ilit, lit, any_of, space,
  digit, capital, repeat,
}

-- An entry of the catalogue.
pub record Subject : Type 0 where
  pub code : Option Text
  pub subject_level : Option Text
  pub tags : List Text

abbrev pub Catalog : Type 0
Catalog = List (Text × Subject)

pub data Mode : Type 0 where
  named_list open_pool prefix_level other_mode : Mode

pub record Pool : Type 0 where
  pub mode : Mode
  pub codes_named : List Text
  pub prefixes : List Text
  pub include_general_schedule : Bool
  pub level_rules : List (List (Option ℤ))

-- normalize_code of app/services/prerequisite_parser.py
unfoldable pub normalize_code : Text → Text
unfolding upper
normalize_code code = keep (λ c. not (c == 32)) (upper code)

abbrev pub allowed_elective_levels : List ℕ
allowed_elective_levels = 100 ∷ 200 ∷ 300 ∷ []

abbrev level_text : Regex
level_text =
    star space
    >> group 1 (
        any_of (
          codes "100"
          ∷ codes "200"
          ∷ codes "300"
          ∷ codes "400"
          ∷ codes "500"
          ∷ codes "600"
          ∷ codes "700"
          ∷ codes "800"
          ∷ codes "900"
          ∷ []))
    >> star space
    >> (opt (
        (opt (lit (codes "-")) >> star space >> ilit (codes "level"))
        or (opt (lit (codes "-")) >> star space >> ilit (codes "lv"))))
    >> star space

abbrev code_text : Regex
code_text = repeat 2 8 capital >> group 1 (repeat 3 4 digit) >> opt capital

abbrev pub text_or_empty : Option Text → Text
text_or_empty none = []
text_or_empty (some s) = s

abbrev captured : Scan → Text
captured s = text_or_empty (group_of 1 s.groups)

abbrev level_of_digits : Text → Option ℕ
level_of_digits [] = none
level_of_digits (c ∷ s) = if c == b'0' then none else some ((c - 48) * 100)

abbrev level_of_match : Option Scan → Option ℕ
level_of_match none = none
level_of_match (some s) = level_of_digits (captured s)

-- The first digit of a code's number.
unfoldable pub level_of_code : Text → Option ℕ
unfolding fullmatch group_of normalize_code
level_of_code code = level_of_match (fullmatch code_text (normalize_code code))

abbrev nat_of : Option ℤ → Option ℕ
nat_of (some (pos n)) = some n
nat_of _ = none

abbrev stated_level : Text → Text → Option Scan → Option ℕ
stated_level raw code (some s) = nat_of (int_of_text (captured s))
stated_level raw code none = if is_empty (strip raw) then level_of_code code else none

-- subject_level
unfoldable pub level_of : Subject → Option ℕ
unfolding fullmatch group_of level_of_code strip int_of_text
level_of subject = elim subject.subject_level [
  | none ↦ level_of_code (text_or_empty subject.code)
  | some raw ↦ stated_level raw (text_or_empty subject.code) (fullmatch level_text raw)
]

unfoldable pub has_level : List ℕ → Subject → Bool
has_level levels subject = elim (level_of subject) [ none ↦ false | some l ↦ elem l levels ]

abbrev filled : Text → Bool
filled s = not (is_empty s)

-- _matches_prefixes
unfoldable pub matches_prefixes : Text → List Text → Bool
unfolding normalize_code starts_with
matches_prefixes code prefixes =
    any (λ prefix. starts_with (normalize_code code) (normalize_code prefix)) (keep filled prefixes)

-- _is_general_schedule
unfoldable pub is_general_schedule : Subject → Bool
unfolding strip lower
is_general_schedule subject =
    any (λ tag. lower (strip tag) == codes "general schedule") subject.tags

-- candidates.add
abbrev pub add : Text → List Text → List Text
add code candidates = if elem code candidates then candidates else candidates ++ code ∷ []

abbrev pub has_key : Text → Text × Subject → Bool
has_key norm (key, subject) = key == norm

-- `normalize_code(key) == norm or normalize_code(str(entry.get("code") or "")) == norm`
abbrev pub is_entry_of : Text → Text × Subject → Bool
is_entry_of norm (key, subject) =
    normalize_code key == norm || normalize_code (text_or_empty subject.code) == norm

abbrev pub or_else : Option (Text × Subject) → Option (Text × Subject) → Option (Text × Subject)
or_else none other = other
or_else (some entry) other = some entry

-- catalog.get(norm), else the first entry of the code.
unfoldable pub entry_of : Text → Catalog → Option (Text × Subject)
entry_of norm catalog = or_else (find (has_key norm) catalog) (find (is_entry_of norm) catalog)

abbrev pub normalized : List Text → List Text
normalized forbidden = map normalize_code (keep filled forbidden)

abbrev pub add_found : Text → List Text → Option (Text × Subject) → List Text
add_found norm candidates none = candidates
add_found norm candidates (some (key, subject)) =
    if has_level allowed_elective_levels subject then add norm candidates else candidates

-- The loop over the codes of a named list.
unfoldable pub named_codes : Catalog → List Text → List Text → List Text → List Text
named_codes catalog forbidden [] candidates = candidates
named_codes catalog forbidden (code ∷ rest) candidates =
    let norm : Text = normalize_code code in
    named_codes catalog forbidden rest (
      if is_empty norm || elem norm forbidden
      then candidates
      else add_found norm candidates (entry_of norm catalog))

-- The configured levels that `int` reads.
unfoldable pub configured_levels : List (List (Option ℤ)) → List ℤ
configured_levels [] = []
configured_levels ([] ∷ rules) = configured_levels rules
configured_levels ((none ∷ levels) ∷ rules) = configured_levels (levels ∷ rules)
configured_levels ((some l ∷ levels) ∷ rules) = l ∷ configured_levels (levels ∷ rules)

abbrev pub allowed_levels : List ℤ → List ℕ
allowed_levels configured =
    if is_empty configured
    then allowed_elective_levels
    else keep (λ l. elem (pos l) configured) allowed_elective_levels

-- `subject.get("code") or key`
abbrev pub code_or_key : Text → Option Text → Text
code_or_key key none = key
code_or_key key (some []) = key
code_or_key key (some (c ∷ s)) = c ∷ s

abbrev pub takes : Pool → List ℕ → List Text → Text → Subject → Bool
takes pool levels forbidden code subject =
    not (is_empty code || elem code forbidden)
    && (has_level levels subject
        && ((is_empty pool.prefixes || matches_prefixes code pool.prefixes)
            || pool.include_general_schedule && is_general_schedule subject))

-- The loop over the catalogue.
unfoldable pub open_codes : Pool → List ℕ → List Text → Catalog → List Text → List Text
open_codes pool levels forbidden [] candidates = candidates
open_codes pool levels forbidden ((key, subject) ∷ catalog) candidates =
    let code : Text = normalize_code (code_or_key key subject.code) in
    open_codes pool levels forbidden catalog
      (if takes pool levels forbidden code subject then add code candidates else candidates)

abbrev pub open_candidates : Pool → List ℕ → Catalog → List Text → List Text
open_candidates pool levels catalog forbidden =
    if is_empty levels then [] else open_codes pool levels forbidden catalog []

-- resolve_pool_candidates
unfoldable pub resolve_pool_candidates : Pool → Catalog → List Text → List Text
resolve_pool_candidates pool catalog forbidden = elim pool.mode [
  | named_list ↦ named_codes catalog (normalized forbidden) pool.codes_named []
  | other_mode ↦ []
  | _ ↦
      open_candidates pool (allowed_levels (configured_levels pool.level_rules)) catalog
        (normalized forbidden)
]
