-- ===== src/Json/Samples.antt =====
-- Tests of the values and of their parser.
use intelli_study_planner_br.Base.{◌≡◌, refl, true, some, none, [], ◌∷◌, codes, pos, negsuc}
use intelli_study_planner_br.Json.{
  Value, null, bool, int, float, str, arr, obj, nil, cons, end, field, str_of, int_of,
}
use intelli_study_planner_br.Json.Loads.{loads}

abbrev verdict : Value
verdict = obj (
    field (codes "valid") (bool true)
      (field (codes "n") (arr (cons (int (negsuc 11)) (cons null nil))) end))

reads_object : loads (codes " {\"valid\": true, \"n\" : [-12, null]} ") ≡ some verdict
unfolding loads
reads_object = refl

reads_escape : loads (codes "\"a\\u0041\\n\"") ≡ some (str (97 ∷ 65 ∷ 10 ∷ []))
unfolding loads
reads_escape = refl

reads_float : loads (codes "20.50e1") ≡ some (float (pos 205) true (codes "20.50e1"))
unfolding loads
reads_float = refl

refuses_rest : loads (codes "{} x") ≡ none
unfolding loads
refuses_rest = refl

repeats_keep_the_last :
    loads (codes "{\"a\":1,\"a\":2}") ≡ some (obj (field (codes "a") (int (pos 2)) end))
unfolding loads
repeats_keep_the_last = refl

shows : str_of verdict ≡ codes "{'valid': True, 'n': [-12, None]}"
unfolding str_of
shows = refl

reads_int : int_of (str (codes " +2_026 ")) ≡ some (pos 2026)
unfolding int_of
reads_int = refl
