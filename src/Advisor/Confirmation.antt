-- ===== src/Advisor/Confirmation.antt =====
-- What a confirmation of metadata stores (app/agents/state.py).
use intelli_study_planner_br.Base.{
  ◌≡◌, refl, Bool, true, not, ◌&&◌, Option, none, some, [], Text, codes, arith, if◌then◌else◌,
  Bool-cases, inl, inr, ◌⊎◌, is_empty,
}
use intelli_study_planner_br.Json.{Value, Fields, truthy, get, is_null, same, str_of}
use intelli_study_planner_br.Advisor.State.{AdvisorState, Meta, meta_or_empty}
use intelli_study_planner_br.Advisor.Messages.{student_conversation_text}
use intelli_study_planner_br.Advisor.Metadata.{
  metadata_handbook_key, explicitly_stated, accepted, is_blank, sanitize_confirmed_metadata,
}
use intelli_study_planner_br.Advisor.Updates.{
  missing_if, degree_code, year, campus, validate_metadata, same_key, confirm_meta,
  apply_confirm_metadata,
}

-- A value that was there before, or that the student wrote.
abbrev pub IsGrounded : Text → Value → Value → Type 0
IsGrounded text before v = (v ≡ before) ⊎ (explicitly_stated (str_of v) text ≡ true)

IsGrounded-accepted :
    (text : Text) (before v : Value) → IsGrounded text before (accepted before v text)
unfolding accepted
IsGrounded-accepted text before v = elim (Bool-cases (is_blank v)) [
  | inl blank ↦ rw blank (inl refl)
  | inr given ↦ rw given (elim (Bool-cases (not (is_null before) && same v before)) [
    | inl kept ↦ rw kept (inl refl)
    | inr other ↦ rw other (elim (Bool-cases (explicitly_stated (str_of v) text)) [
      | inl said ↦ rw said (inr said)
      | inr unsaid ↦ rw unsaid (inl refl)
    ])
  ])
]

-- Whatever the confirmation tool claims, each of the six fields that the sanitizer stores is either the
-- value that was stored before or a value whose text stands in the student's own messages. The majors
-- are not among these fields.
pub sanitize_confirmed_metadata-IsGrounded :
    (prior : Option Meta) (candidate : Fields) (s : AdvisorState)
    → (IsGrounded
        (student_conversation_text s)
        (meta_or_empty prior).degree_code
        (sanitize_confirmed_metadata prior candidate s).degree_code)
      × ((IsGrounded
            (student_conversation_text s)
            (meta_or_empty prior).year
            (sanitize_confirmed_metadata prior candidate s).year)
          × ((IsGrounded
                (student_conversation_text s)
                (meta_or_empty prior).campus
                (sanitize_confirmed_metadata prior candidate s).campus)
              × ((IsGrounded
                    (student_conversation_text s)
                    (meta_or_empty prior).session
                    (sanitize_confirmed_metadata prior candidate s).session)
                  × ((IsGrounded
                        (student_conversation_text s)
                        (meta_or_empty prior).elective_limit
                        (sanitize_confirmed_metadata prior candidate s).elective_limit)
                      × (IsGrounded
                          (student_conversation_text s)
                          (meta_or_empty prior).interests
                          (sanitize_confirmed_metadata prior candidate s).interests)))))
unfolding sanitize_confirmed_metadata
sanitize_confirmed_metadata-IsGrounded prior candidate s =
    let text : Text = student_conversation_text s in
    let before : Meta = meta_or_empty prior in
    (
      IsGrounded-accepted text before.degree_code (get candidate (codes "degree_code")),
      (
        IsGrounded-accepted text before.year (get candidate (codes "year")),
        (
          IsGrounded-accepted text before.campus (get candidate (codes "campus")),
          (
            IsGrounded-accepted text before.session (get candidate (codes "session")),
            (
              IsGrounded-accepted text before.elective_limit
                  (get candidate (codes "elective_limit")),
              IsGrounded-accepted text before.interests (get candidate (codes "interests")),
            ),
          ),
        ),
      ),
    )

-- The three required fields are there.
abbrev pub is_complete : Meta → Bool
is_complete m = truthy m.degree_code && (truthy m.year && truthy m.campus)

missing-none :
    (a b c : Bool)
    → is_empty (missing_if a degree_code (missing_if b year (missing_if c campus [])))
      ≡ (a && (b && c))
missing-none a b c = ground arith

validate_metadata_complete : (m : Meta) → is_empty (validate_metadata (some m)) ≡ is_complete m
unfolding validate_metadata
validate_metadata_complete m = missing-none (truthy m.degree_code) (truthy m.year) (truthy m.campus)

-- The handbook of another identity goes.
abbrev pub handbook_after : Option Meta → Meta → AdvisorState → Option Text
handbook_after prior m s =
    if same_key (metadata_handbook_key prior) (metadata_handbook_key (some m))
    then s.handbook
    else none

confirm_meta-handbook :
    (prior : Option Meta) (m : Meta) (s : AdvisorState)
    → (confirm_meta prior m s).handbook ≡ handbook_after prior m s
unfolding confirm_meta
confirm_meta-handbook prior m s =
    elim (Bool-cases (same_key (metadata_handbook_key prior) (metadata_handbook_key (some m)))) [
      | inl same ↦ rw same refl
      | inr other ↦ rw other refl
    ]

confirm_meta-fields :
    (prior : Option Meta) (m : Meta) (s : AdvisorState)
    → ((confirm_meta prior m s).meta ≡ some m)
      × (((confirm_meta prior m s).meta_confirmed ≡ true) × ((confirm_meta prior m s).plan ≡ none))
unfolding confirm_meta
confirm_meta-fields prior m s =
    elim (Bool-cases (same_key (metadata_handbook_key prior) (metadata_handbook_key (some m)))) [
      | inl same ↦ rw same (refl, (refl, refl))
      | inr other ↦ rw other (refl, (refl, refl))
    ]

-- A confirmation is taken exactly if degree code, year and campus are given: then the new metadata is
-- stored as confirmed, the plan is dropped, and the handbook stays only where its identity does.
-- Otherwise the metadata is marked as not confirmed, and metadata, plan and handbook stay as they were.
pub apply_confirm_metadata-exact :
    (prior : Option Meta) (m : Meta) (s : AdvisorState)
    → ((apply_confirm_metadata prior m s).meta_confirmed ≡ is_complete m)
      × (((apply_confirm_metadata prior m s).meta ≡ (if is_complete m then some m else s.meta))
          × (((apply_confirm_metadata prior m s).plan ≡ (if is_complete m then none else s.plan))
              × ((apply_confirm_metadata prior m s).handbook
                  ≡ (if is_complete m then handbook_after prior m s else s.handbook))))
unfolding apply_confirm_metadata
apply_confirm_metadata-exact prior m s = elim (Bool-cases (is_complete m)) [
  | inl complete ↦
      let (stored, (confirmed, dropped)) = confirm_meta-fields prior m s in
      rw (validate_metadata_complete m)
        (rw complete (confirmed, (stored, (dropped, confirm_meta-handbook prior m s))))
  | inr lacking ↦ rw (validate_metadata_complete m) (rw lacking (refl, (refl, (refl, refl))))
]
