-- ===== src/Wam/Repeats.antt =====
-- A record that was pasted twice.
use intelli_study_planner_br.Base.{
  ℕ, ◌≡◌, refl, sym, ap, ◌∙◌, subst, Bool, true, false, Option, none, some, List, [], ◌∷◌, ◌++◌,
  arith, all, if◌then◌else◌, ==_refl, nat_eq, int_eq, text_eq,
}
use intelli_study_planner_br.Enrolment.Rows.{Reading, conflicting_rows, read, unreadable, ◌>>=◌}
use intelli_study_planner_br.Wam.{
  MarkedRow, mark_beq, same_key, same_result, seen_row, add_seen, unique_from, unique, wam_of_rows,
}

-- A row of which the dictionary has the key, with the same result.
absorbed_by : Option MarkedRow → MarkedRow → Bool
absorbed_by none row = false
absorbed_by (some s) row = same_result s row

abbrev absorbed : List MarkedRow → MarkedRow → Bool
absorbed seen row = absorbed_by (seen_row row seen) row

mark_beq_refl : (m : Option ℕ) → mark_beq m m ≡ true
mark_beq_refl none = refl
mark_beq_refl (some n) = ==_refl n

same_result_refl : (row : MarkedRow) → same_result row row ≡ true
same_result_refl row = rw (mark_beq_refl row.mark, ==_refl row.nom_cp)

same_key_refl : (row : MarkedRow) → same_key row row ≡ true
same_key_refl row = rw (==_refl row.year, ==_refl row.session, ==_refl row.code)

absorbed-snoc :
    (seen : List MarkedRow) (row x : MarkedRow)
    → absorbed seen row ≡ true
    → absorbed (seen ++ x ∷ []) row ≡ true
unfolding seen_row absorbed_by
absorbed-snoc [] row x e = absurd (grind arith)
absorbed-snoc (s ∷ seen) row x e = grind (arith, absorbed-snoc seen row x)

absorbed_self :
    (seen : List MarkedRow) (row : MarkedRow)
    → seen_row row seen ≡ none
    → absorbed (seen ++ row ∷ []) row ≡ true
unfolding seen_row absorbed_by
absorbed_self [] row e = rw (same_key_refl row, same_result_refl row)
absorbed_self (s ∷ seen) row e = grind (arith, absorbed_self seen row)

pub read_path : {A : Type 0} {a b : A} → read a ≡ read b → a ≡ b
read_path e = grind arith

-- One round keeps what was absorbed, and absorbs its row.
pub kept_path :
    {A : Type 0} {a b : A} (ok : Bool)
    → (if ok then read a else unreadable conflicting_rows) ≡ read b
    → a ≡ b
kept_path true e = read_path e
kept_path false e = absurd (grind arith)

add_seen-keeps :
    (row r : MarkedRow) (seen seen' : List MarkedRow) (o : Option MarkedRow)
    → add_seen row seen o ≡ read seen'
    → absorbed seen r ≡ true
    → absorbed seen' r ≡ true
add_seen-keeps row r seen seen' none e a =
    subst (λ x. absorbed x r ≡ true) (read_path e) (absorbed-snoc seen r row a)
add_seen-keeps row r seen seen' (some s) e a =
    subst (λ x. absorbed x r ≡ true) (kept_path (same_result s row) e) a

add_seen-absorbs :
    (row : MarkedRow) (seen seen' : List MarkedRow) (o : Option MarkedRow)
    → seen_row row seen ≡ o
    → add_seen row seen o ≡ read seen'
    → absorbed seen' row ≡ true
unfolding absorbed_by
add_seen-absorbs row seen seen' none look e =
    subst (λ x. absorbed x row ≡ true) (read_path e) (absorbed_self seen row look)
add_seen-absorbs row seen seen' (some s) look e =
    subst (λ x. absorbed x row ≡ true) (kept_path (same_result s row) e)
      (found (same_result s row) refl e)
  where
    found :
        (ok : Bool)
        → same_result s row ≡ ok
        → (if ok then read seen else unreadable conflicting_rows) ≡ read seen'
        → absorbed seen row ≡ true
    found true same e' = ap (λ o. absorbed_by o row) look ∙ same
    found false same e' = absurd (grind arith)

-- What the rest of the rows is read from, where all are read.
pub bind-read :
    {A B : Type 0} (m : Reading A) (f : A → Reading B) (b : B)
    → (m >>= f) ≡ read b
    → (a : A) × (m ≡ read a) × (f a ≡ read b)
bind-read (read a) f b e = (a, refl, e)
bind-read (unreadable p) f b e = absurd (grind arith)

unique_from-keeps :
    (rows : List MarkedRow) (seen kept : List MarkedRow) (r : MarkedRow)
    → unique_from seen rows ≡ read kept
    → absorbed seen r ≡ true
    → absorbed kept r ≡ true
unfolding unique_from
unique_from-keeps [] seen kept r e a = subst (λ x. absorbed x r ≡ true) (read_path e) a
unique_from-keeps (row ∷ rows) seen kept r e a =
    let (seen', first, rest) = bind-read (add_seen row seen (seen_row row seen)) _ kept e in
    unique_from-keeps rows seen' kept r rest
      (add_seen-keeps row r seen seen' (seen_row row seen) first a)

unique_from-absorbs :
    (rows : List MarkedRow) (seen kept : List MarkedRow)
    → unique_from seen rows ≡ read kept
    → all (absorbed kept) rows ≡ true
unfolding unique_from
unique_from-absorbs [] seen kept e = refl
unique_from-absorbs (row ∷ rows) seen kept e =
    let (seen', first, rest) = bind-read (add_seen row seen (seen_row row seen)) _ kept e in
    rw (
      unique_from-keeps rows seen' kept row rest
          (add_seen-absorbs row seen seen' (seen_row row seen) refl first),
      unique_from-absorbs rows seen' kept rest,
    )

add_seen-absorbed :
    (row : MarkedRow) (kept : List MarkedRow) (o : Option MarkedRow)
    → absorbed_by o row ≡ true
    → add_seen row kept o ≡ read kept
unfolding absorbed_by
add_seen-absorbed row kept none a = absurd (grind arith)
add_seen-absorbed row kept (some s) a = rw a

unique_from-absorbed :
    (rows : List MarkedRow) (kept : List MarkedRow)
    → all (absorbed kept) rows ≡ true
    → unique_from kept rows ≡ read kept
unfolding unique_from
unique_from-absorbed [] kept a = refl
unique_from-absorbed (row ∷ rows) kept a =
    ap (λ m. m >>= λ seen'. unique_from seen' rows)
      (add_seen-absorbed row kept (seen_row row kept) (grind arith))
    ∙ unique_from-absorbed rows kept (grind arith)

bind_ext :
    {A B : Type 0} (m : Reading A) {f g : A → Reading B}
    → ((a : A) → f a ≡ g a)
    → (m >>= f) ≡ (m >>= g)
bind_ext (read a) h = h a
bind_ext (unreadable p) h = refl

bind_assoc :
    {A B C : Type 0} (m : Reading A) (f : A → Reading B) (g : B → Reading C)
    → ((m >>= f) >>= g) ≡ (m >>= λ a. f a >>= g)
bind_assoc (read a) f g = refl
bind_assoc (unreadable p) f g = refl

unique_from-append :
    (rows more : List MarkedRow) (seen : List MarkedRow)
    → unique_from seen (rows ++ more) ≡ (unique_from seen rows >>= λ kept. unique_from kept more)
unfolding unique_from
unique_from-append [] more seen = refl
unique_from-append (row ∷ rows) more seen =
    bind_ext (add_seen row seen (seen_row row seen)) (λ seen'. unique_from-append rows more seen')
    ∙ sym (
        bind_assoc (add_seen row seen (seen_row row seen)) (λ seen'. unique_from seen' rows)
          (λ kept. unique_from kept more))

unique-twice : (rows : List MarkedRow) → unique (rows ++ rows) ≡ unique rows
unfolding unique
unique-twice rows = unique_from-append rows rows [] ∙ again (unique_from [] rows) refl
  where
    again :
        (m : Reading (List MarkedRow))
        → unique_from [] rows ≡ m
        → (m >>= λ kept. unique_from kept rows) ≡ m
    again (read kept) e = unique_from-absorbed rows kept (unique_from-absorbs rows [] kept e)
    again (unreadable p) e = refl

-- A record whose rows were pasted twice gives the result, or the refusal, of the rows pasted once.
pub wam_of_rows-twice : (rows : List MarkedRow) → wam_of_rows (rows ++ rows) ≡ wam_of_rows rows
unfolding wam_of_rows
wam_of_rows-twice rows = rw (unique-twice rows)
