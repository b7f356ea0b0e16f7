-- ===== src/Wam/Average.antt =====
-- The bounds of the average.
use native.Mathlib.Nat.{mul-le-mul_left, div-le_of_le-mul}
use intelli_study_planner_br.Base.{
  ℕ, zero, suc, ◌*◌, ◌/◌, ℤ, pos, negsuc, ◌+ℤ◌, times, ◌&&◌, ◌≤◌, ◌≡◌, refl, ap, ◌∙◌, subst, Bool,
  true, false, Option, none, some, List, [], ◌∷◌, arith, all, if◌then◌else◌, text_eq, leb, leb→le,
  Text, elem,
}
use intelli_study_planner_br.Base.Tables.{all-snoc}
use intelli_study_planner_br.Enrolment.Rows.{Reading, read, AnyRow, plain, marked, EnrolmentRecord}
use intelli_study_planner_br.Enrolment.Flat.{parse_enrolment}
use intelli_study_planner_br.Enrolment.Shapes.{
  record_shaped, is_shaped, parse_enrolment-shaped, Gives, checked-Gives,
}
use intelli_study_planner_br.Wam.{
  MarkedRow, same_result, mark_for, checked_mark, skipped, counted_statuses, seen_row, add_seen,
  unique_from, unique, Sums, weight_fits, add_mark, counted_mark, sum_rows, average, marked_rows,
  wam_of_rows, calculate_wam, WamResult,
}
use intelli_study_planner_br.Wam.Repeats.{bind-read, read_path, kept_path}

abbrev fits : Option ℕ → Bool
fits none = true
fits (some m) = leb m 100

abbrev row_fits : MarkedRow → Bool
row_fits row = fits row.mark

marked_rows-fit :
    (rows : List AnyRow) → all is_shaped rows ≡ true → all row_fits (marked_rows rows) ≡ true
marked_rows-fit [] h = refl
marked_rows-fit (plain row ∷ rows) h = grind (arith, marked_rows-fit rows)
marked_rows-fit (marked row none ∷ rows) h = grind (arith, marked_rows-fit rows)
marked_rows-fit (marked row (some m) ∷ rows) h = grind (arith, marked_rows-fit rows)

add_seen-fit :
    (row : MarkedRow) (seen seen' : List MarkedRow) (o : Option MarkedRow)
    → all row_fits seen ≡ true
    → row_fits row ≡ true
    → add_seen row seen o ≡ read seen'
    → all row_fits seen' ≡ true
add_seen-fit row seen seen' none h f e =
    subst (λ x. all row_fits x ≡ true) (read_path e) (all-snoc row_fits seen row h f)
add_seen-fit row seen seen' (some s) h f e =
    subst (λ x. all row_fits x ≡ true) (kept_path (same_result s row) e) h

unique_from-fit :
    (rows : List MarkedRow) (seen kept : List MarkedRow)
    → all row_fits seen ≡ true
    → all row_fits rows ≡ true
    → unique_from seen rows ≡ read kept
    → all row_fits kept ≡ true
unfolding unique_from
unique_from-fit [] seen kept h f e = subst (λ x. all row_fits x ≡ true) (read_path e) h
unique_from-fit (row ∷ rows) seen kept h f e =
    let (seen', first, rest) = bind-read (add_seen row seen (seen_row row seen)) _ kept e in
    unique_from-fit rows seen' kept
      (add_seen-fit row seen seen' (seen_row row seen) h (grind arith) first) (grind arith) rest

-- What is counted of a row: a mark up to 100, with a weight that was checked.
abbrev counts : MarkedRow → Option ℕ → Bool
counts row none = true
counts row (some m) = leb m 100 && weight_fits row.nom_cp

mark_for-fits :
    (row : MarkedRow)
    → row_fits row ≡ true
    → weight_fits row.nom_cp ≡ true
    → counts row (mark_for row) ≡ true
mark_for-fits row f w = grind arith

skipped-Gives :
    (row : MarkedRow) (ok : Bool) (m : Reading (Option ℕ))
    → Gives (counts row) m
    → Gives (counts row) (skipped ok m)
unfolding skipped
skipped-Gives row true m h a e = subst (λ x. counts row x ≡ true) (read_path e) refl
skipped-Gives row false m h a e = h a e

checked_mark-fits : (row : MarkedRow) → row_fits row ≡ true → Gives (counts row) (checked_mark row)
unfolding checked_mark
checked_mark-fits row f = checked-Gives _ _ _ (counts row) λ weighs. skipped-Gives row _ _ (
    checked-Gives _ _ _ (counts row) λ _. checked-Gives _ _ _ (counts row) λ _.
      checked-Gives _ _ _ (counts row)
        λ _ m e. subst (λ x. counts row x ≡ true) (read_path e) (mark_for-fits row f weighs))

counted-Gives :
    (row : MarkedRow) (ok : Bool) (m : Reading (Option ℕ))
    → Gives (counts row) m
    → Gives (counts row) (if ok then m else read none)
counted-Gives row true m h a e = h a e
counted-Gives row false m h a e = subst (λ x. counts row x ≡ true) (read_path e) refl

counted_mark-fits : (row : MarkedRow) → row_fits row ≡ true → Gives (counts row) (counted_mark row)
counted_mark-fits row f =
    counted-Gives row (elem row.status counted_statuses) (checked_mark row)
      (checked_mark-fits row f)

rows_shaped : (r : EnrolmentRecord) → record_shaped r ≡ true → all is_shaped r.rows ≡ true
rows_shaped r h = grind arith

-- The sums are not negative, and an average of them is at most 100.
abbrev Within : ℤ → ℤ → Type 0
Within (pos t) (pos w) = w ≤ 100 * t
Within _ _ = ⊥

IsBounded : Sums → Type 0
IsBounded s = Within s.total_cp s.weighted

sum-Within :
    (cp total weighted : ℤ) (m : ℕ)
    → (leb m 100 && weight_fits cp) ≡ true
    → Within total weighted
    → Within (total +ℤ cp) (weighted +ℤ times cp m)
sum-Within (pos n) (pos t) (pos w) m f h =
    omega (arith, h, mul-le-mul_left n (leb→le m 100 (grind arith)))
sum-Within (pos n) (pos t) (negsuc w) m f h = absurd h
sum-Within (pos n) (negsuc t) w m f h = absurd h
sum-Within (negsuc n) t w m f h = absurd (grind arith)

add_mark-bound :
    (row : MarkedRow) (s : Sums) (m : Option ℕ)
    → counts row m ≡ true
    → IsBounded s
    → IsBounded (add_mark row s m)
unfolding IsBounded
add_mark-bound row s none f h = h
add_mark-bound row s (some m) f h = sum-Within row.nom_cp s.total_cp s.weighted m f h

sum_rows-bound :
    (rows : List MarkedRow) (s s' : Sums)
    → all row_fits rows ≡ true
    → IsBounded s
    → sum_rows rows s ≡ read s'
    → IsBounded s'
unfolding sum_rows IsBounded
sum_rows-bound [] s s' f h e = subst IsBounded (read_path e) h
sum_rows-bound (row ∷ rows) s s' f h e =
    let (m, first, rest) = bind-read (counted_mark row) _ s' e in
    sum_rows-bound rows (add_mark row s m) s' (grind arith)
      (add_mark-bound row s m (counted_mark-fits row (grind arith) m first) h) rest

average-le :
    (total weighted a : ℤ)
    → Within total weighted
    → average weighted total ≡ some a
    → (n : ℕ) × (a ≡ pos n) × (n ≤ 10000)
average-le (pos zero) (pos w) a h e = absurd (grind arith)
average-le (pos (suc t)) (pos w) a h e =
    (w * 100 / suc t, grind arith, div-le_of_le-mul (suc t) {m = w * 100} {n = 10000} (omega arith))
average-le (pos t) (negsuc w) a h e = absurd h
average-le (negsuc t) w a h e = absurd h

abbrev no_sums : Sums
no_sums = record { total_cp = pos 0; weighted = pos 0 }

wam_of_rows-le :
    (rows : List MarkedRow) (r : WamResult) (w : ℤ)
    → all row_fits rows ≡ true
    → wam_of_rows rows ≡ read r
    → r.wam ≡ some w
    → (n : ℕ) × (w ≡ pos n) × (n ≤ 10000)
unfolding wam_of_rows unique IsBounded
wam_of_rows-le rows r w f e there =
    let (kept, first, rest) = bind-read (unique rows) _ r e in
    let (s, second, last) = bind-read (sum_rows kept no_sums) _ r rest in
    average-le s.total_cp s.weighted w
      (sum_rows-bound kept no_sums s (unique_from-fit rows [] kept refl f first) (omega arith)
        second)
      (ap (λ (x : WamResult). x.wam) (read_path last) ∙ there)

-- The weighted average mark of a pasted record, if there is one, is not negative and at most 100.00.
pub calculate_wam-le :
    (raw_sols : Text) (r : WamResult) (w : ℤ)
    → calculate_wam raw_sols ≡ read r
    → r.wam ≡ some w
    → (n : ℕ) × (w ≡ pos n) × (n ≤ 10000)
unfolding calculate_wam
calculate_wam-le raw_sols r w e there =
    let (parsed, first, rest) = bind-read (parse_enrolment raw_sols true) _ r e in
    wam_of_rows-le (marked_rows parsed.rows) r w
      (marked_rows-fit parsed.rows
        (rows_shaped parsed (parse_enrolment-shaped raw_sols true parsed first)))
      rest there
