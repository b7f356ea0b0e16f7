-- ===== src/Pools/Samples.antt =====
-- Tests and witnesses of the elective pools.
use intelli_study_planner_br.Base.{
  pos, ◌≡◌, refl, true, false, Option, none, some, [], ◌∷◌, Text, codes, all,
}
use intelli_study_planner_br.Pools.{
  Subject, Catalog, Pool, named_list, prefix_level, level_of, normalized, resolve_pool_candidates,
  named_codes, open_codes, configured_levels, normalize_code, entry_of, has_level, matches_prefixes,
  is_general_schedule,
}
use intelli_study_planner_br.Pools.Allowed.{is_candidate, resolve_pool_candidates-allowed}

abbrev subject : Text → Option Text → Subject
subject code level = record { code = some code; subject_level = level; tags = [] }

abbrev catalog : Catalog
catalog =
    (codes "CSIT110", subject (codes "CSIT110") none)
    ∷ (codes "CSIT214", subject (codes "CSIT214") (some (codes "200 level")))
    ∷ (codes "CSCI991", subject (codes "CSCI991") none)
    ∷ []

abbrev pool : Pool
pool = record {
  mode = prefix_level;
  codes_named = [];
  prefixes = codes "cs" ∷ [];
  include_general_schedule = false;
  level_rules = (some (pos 200) ∷ none ∷ some (pos 900) ∷ []) ∷ [];
}

narrows : resolve_pool_candidates pool catalog [] ≡ codes "CSIT214" ∷ []
unfolding resolve_pool_candidates open_codes configured_levels normalize_code has_level level_of
    matches_prefixes is_general_schedule
narrows = refl

named :
    resolve_pool_candidates
      (record pool {
        mode = named_list;
        codes_named = codes "csit 110" ∷ codes "CSCI991" ∷ codes "CSIT214" ∷ [];
      })
      catalog
      (codes "csit214" ∷ [])
    ≡ codes "CSIT110" ∷ []
unfolding resolve_pool_candidates named_codes normalize_code has_level level_of entry_of
named = refl

unknown_level : level_of (subject (codes "CSIT110") (some (codes "first year"))) ≡ none
unfolding level_of
unknown_level = refl

resolve_pool_candidates-allowed_example :
    all
      (is_candidate catalog (normalized (codes "csit110" ∷ [])))
      (resolve_pool_candidates pool catalog (codes "csit110" ∷ []))
    ≡ true
resolve_pool_candidates-allowed_example =
    resolve_pool_candidates-allowed pool catalog (codes "csit110" ∷ [])
