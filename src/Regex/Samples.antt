-- ===== src/Regex/Samples.antt =====
-- Tests of the pattern matcher.
use mathlib.Core.Option
use intelli_study_planner_br.Base.{to_lower, ◌≡◌, refl, true, some, [], ◌∷◌, codes, map}
use intelli_study_planner_br.Regex.{
  Regex, group, word_boundary, fullmatch, is_found, find_iter, matched, group_of, ◌>>◌, opt, plus,
  ilit, lit, digit, capital, repeat, dot, star,
}

abbrev code : Regex
code = word_boundary >> repeat 2 4 capital >> repeat 3 3 digit >> opt capital >> word_boundary

finds_codes :
    map matched (find_iter code (codes "CSIT110 and MATH255A, xCSIT99"))
    ≡ codes "CSIT110" ∷ codes "MATH255A" ∷ []
unfolding find_iter matched
finds_codes = refl

ignores_case : is_found (ilit (codes "ELECTIVE")) (codes "an elective, please") ≡ true
unfolding is_found to_lower
ignores_case = refl

captures :
    Option.map
      (λ s. group_of 1 s)
      (Option.map
        (λ t. t.groups)
        (fullmatch (lit (codes "a=") >> group 1 (plus digit) >> star dot) (codes "a=12b")))
    ≡ some (some (codes "12"))
unfolding fullmatch group_of
captures = refl
