-- ===== src/Wam/Samples.antt =====
-- Tests and witnesses of the weighted average mark.
use intelli_study_planner_br.Base.{
  ℕ, ℤ, negsuc, ◌≤◌, ◌≡◌, refl, none, some, [], ◌∷◌, Text, codes, pos,
}
use intelli_study_planner_br.Enrolment.Rows.{
  read, unreadable, mark_mismatch, bad_weight, conflicting_rows, checked, numbered,
}
use intelli_study_planner_br.Wam.{
  MarkedRow, Sums, add_mark, result_of, WamResult, calculate_wam, wam_of_rows, skipped,
  checked_mark, describe_for_prompt,
}
use intelli_study_planner_br.Wam.Repeats.{wam_of_rows-twice}
use intelli_study_planner_br.Wam.Average.{calculate_wam-le}

abbrev pasted : Text
pasted =
    codes
      "Year Session 2024 Autumn Wollongong CSIT110 6 81 D Complete 2024 Autumn Wollongong CSIT111 6 TF Failed 2025 Spring Wollongong CSIT214 6 Enrolled"

abbrev result : WamResult
result = record { wam = some (pos 6500); total_credit_points = pos 12 }

averages : calculate_wam pasted ≡ read result
unfolding calculate_wam checked numbered skipped
averages = refl

abbrev row : ℕ → MarkedRow
row m = record {
  fields = record {
    year = pos 2024;
    session = codes "Autumn";
    campus = codes "Wollongong";
    code = codes "CSIT110";
    nom_cp = pos 6;
    grade = some (codes "D");
    status = codes "Complete";
  };
  mark = some m;
}

-- Without the check of the weights, 12 points at 100 and -6 points at 0 would average 200.
abbrev weighed : ℤ → ℕ → Sums → Sums
weighed cp m s =
    add_mark (record (row m) { fields = record (row m).fields { nom_cp = cp } }) s (some m)

escapes :
    result_of
      (weighed (negsuc 5) 0 (weighed (pos 12) 100 (record { total_cp = pos 0; weighted = pos 0 })))
    ≡ record { wam = some (pos 20000); total_credit_points = pos 6 }
escapes = refl

refuses_negative :
    checked_mark (record (row 75) { fields = record (row 75).fields { nom_cp = negsuc 5 } })
    ≡ unreadable bad_weight
unfolding checked_mark checked
refuses_negative = refl

calculate_wam-le_example : (n : ℕ) × (pos 6500 ≡ pos n) × (n ≤ 10000)
calculate_wam-le_example = calculate_wam-le pasted result (pos 6500) averages refl

refuses_mismatch : checked_mark (row 49) ≡ unreadable mark_mismatch
unfolding checked_mark skipped checked
refuses_mismatch = refl

refuses_conflict : wam_of_rows (row 75 ∷ row 76 ∷ []) ≡ unreadable conflicting_rows
unfolding wam_of_rows
refuses_conflict = refl

describes :
    describe_for_prompt (record { wam = none; total_credit_points = pos 0 })
    ≡ codes "WAM: not available yet (no subject in this record has a final mark)."
unfolding describe_for_prompt
describes = refl

wam_of_rows-twice_example : wam_of_rows (row 75 ∷ row 75 ∷ []) ≡ wam_of_rows (row 75 ∷ [])
wam_of_rows-twice_example = wam_of_rows-twice (row 75 ∷ [])
