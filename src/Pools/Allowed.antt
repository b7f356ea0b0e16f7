-- ===== src/Pools/Allowed.antt =====
-- What is known of a candidate.
use intelli_study_planner_br.Base.{
  ℕ, ℤ, pos, ◌≡◌, refl, ◌∙◌, Bool, true, false, not, ◌&&◌, ◌||◌, Option, none, some, List, [], ◌∷◌,
  ◌++◌, Text, arith, keep, find, any, all, elem, is_empty, if◌then◌else◌, ◌==◌, ==_refl, text_eq,
  nat_eq, int_eq, Bool-cases, inl, inr,
}
use intelli_study_planner_br.Base.Tables.{all-snoc, find-some, find-holds}
use intelli_study_planner_br.Pools.{
  Subject, Catalog, Pool, Mode, named_list, open_pool, prefix_level, other_mode, normalize_code,
  allowed_elective_levels, level_of, code_or_key, has_level, add, is_entry_of, has_key, or_else,
  entry_of, normalized, add_found, named_codes, configured_levels, allowed_levels, takes,
  open_codes, open_candidates, resolve_pool_candidates,
}

-- A code that is not forbidden, and whose subject has an allowed level.
abbrev has_entry : Text → Text × Subject → Bool
has_entry code (key, subject) =
    (key == code || is_entry_of code (key, subject)) && has_level allowed_elective_levels subject

abbrev pub is_candidate : Catalog → List Text → Text → Bool
is_candidate catalog forbidden code = not (elem code forbidden) && any (has_entry code) catalog

all-add :
    (p : Text → Bool) (code : Text) (candidates : List Text)
    → all p candidates ≡ true
    → p code ≡ true
    → all p (add code candidates) ≡ true
all-add p code candidates h e = added (elem code candidates)
  where
    added : (there : Bool) → all p (if there then candidates else candidates ++ code ∷ []) ≡ true
    added true = h
    added false = all-snoc p candidates code h e

-- The entry that is found for a code is one of the catalogue's.
entry_of-any :
    (norm : Text) (catalog : Catalog) (key : Text) (subject : Subject)
    → entry_of norm catalog ≡ some (key, subject)
    → has_level allowed_elective_levels subject ≡ true
    → any (has_entry norm) catalog ≡ true
unfolding entry_of
entry_of-any norm catalog key subject e l = on (find (has_key norm) catalog) refl e
  where
    on :
        (o : Option (Text × Subject))
        → find (has_key norm) catalog ≡ o
        → or_else o (find (is_entry_of norm) catalog) ≡ some (key, subject)
        → any (has_entry norm) catalog ≡ true
    on none look e' =
        find-some (is_entry_of norm) (has_entry norm) catalog e'
          (grind (arith, find-holds (is_entry_of norm) catalog e'))
    on (some x) look e' =
        find-some (has_key norm) (has_entry norm) catalog (look ∙ e')
          (grind (arith, find-holds (has_key norm) catalog (look ∙ e')))

add_found-candidates :
    (catalog : Catalog) (forbidden : List Text) (norm : Text) (candidates : List Text)
    (o : Option (Text × Subject))
    → entry_of norm catalog ≡ o
    → elem norm forbidden ≡ false
    → all (is_candidate catalog forbidden) candidates ≡ true
    → all (is_candidate catalog forbidden) (add_found norm candidates o) ≡ true
add_found-candidates catalog forbidden norm candidates none look f h = h
add_found-candidates catalog forbidden norm candidates (some (key, subject)) look f h =
    elim (Bool-cases (has_level allowed_elective_levels subject)) [
      | inl l ↦ rw l (
          all-add (is_candidate catalog forbidden) norm candidates h
            (rw (f, entry_of-any norm catalog key subject look l)))
      | inr l ↦ rw l h
    ]

named_codes-candidates :
    (catalog : Catalog) (forbidden cs candidates : List Text)
    → all (is_candidate catalog forbidden) candidates ≡ true
    → all (is_candidate catalog forbidden) (named_codes catalog forbidden cs candidates) ≡ true
unfolding named_codes
named_codes-candidates catalog forbidden [] candidates h = h
named_codes-candidates catalog forbidden (code ∷ cs) candidates h =
    named_codes-candidates catalog forbidden cs _
      (round (is_empty norm || elem norm forbidden) refl)
  where
    norm : Text
    norm = normalize_code code

    round :
        (skips : Bool)
        → (is_empty norm || elem norm forbidden) ≡ skips
        → all
            (is_candidate catalog forbidden)
            (if skips then candidates else add_found norm candidates (entry_of norm catalog))
          ≡ true
    round true e = h
    round false e =
        add_found-candidates catalog forbidden norm candidates (entry_of norm catalog) refl
          (grind arith) h

elem-keep :
    (q : ℕ → Bool) (l : ℕ) (levels : List ℕ) → elem l (keep q levels) ≡ true → elem l levels ≡ true
elem-keep q l [] h = grind arith
elem-keep q l (m ∷ levels) h = grind (arith, elem-keep q l levels)

elem-narrowed :
    (configured : List ℤ) (l : ℕ)
    → elem l (allowed_levels configured) ≡ true
    → elem l allowed_elective_levels ≡ true
elem-narrowed [] l h = h
elem-narrowed (c ∷ configured) l h =
    elem-keep (λ m. elem (pos m) (c ∷ configured)) l allowed_elective_levels h

-- The configured levels narrow the allowed ones.
has_level-narrowed :
    (configured : List ℤ) (subject : Subject)
    → has_level (allowed_levels configured) subject ≡ true
    → has_level allowed_elective_levels subject ≡ true
unfolding has_level
has_level-narrowed configured subject h = on (level_of subject) h
  where
    on :
        (o : Option ℕ)
        → elim o [ none ↦ false | some l ↦ elem l (allowed_levels configured) ] ≡ true
        → elim o [ none ↦ false | some l ↦ elem l allowed_elective_levels ] ≡ true
    on none e = e
    on (some l) e = elem-narrowed configured l e

or_true : (b : Bool) → (b || true) ≡ true
or_true true = refl
or_true false = refl

own_entry :
    (key : Text) (subject : Subject) (code : Option Text)
    → subject.code ≡ code
    → is_entry_of (normalize_code (code_or_key key code)) (key, subject) ≡ true
own_entry key subject none e = rw (==_refl (normalize_code key))
own_entry key subject (some []) e = rw (==_refl (normalize_code key))
own_entry key subject (some (c ∷ s)) e =
    rw (e, ==_refl (normalize_code (c ∷ s)))
      (or_true (normalize_code key == normalize_code (c ∷ s)))

has_own_entry :
    (key : Text) (subject : Subject) (catalog : Catalog)
    → has_level allowed_elective_levels subject ≡ true
    → any (has_entry (normalize_code (code_or_key key subject.code))) ((key, subject) ∷ catalog)
      ≡ true
has_own_entry key subject catalog l = rw (
  own_entry key subject subject.code refl,
  l,
  or_true (key == normalize_code (code_or_key key subject.code)),
)

takes_parts :
    (pool : Pool) (levels : List ℕ) (forbidden : List Text) (code : Text) (subject : Subject)
    → takes pool levels forbidden code subject ≡ true
    → (elem code forbidden ≡ false) × (has_level levels subject ≡ true)
takes_parts pool levels forbidden code subject h = grind arith

open_codes-candidates :
    (pool : Pool) (configured : List ℤ) (whole : Catalog) (forbidden : List Text)
    (catalog : Catalog) (candidates : List Text)
    → ((p : Text × Subject → Bool) → any p catalog ≡ true → any p whole ≡ true)
    → all (is_candidate whole forbidden) candidates ≡ true
    → all
        (is_candidate whole forbidden)
        (open_codes pool (allowed_levels configured) forbidden catalog candidates)
      ≡ true
unfolding open_codes
open_codes-candidates pool configured whole forbidden [] candidates inside h = h
open_codes-candidates pool configured whole forbidden ((key, subject) ∷ catalog) candidates inside
      h =
    open_codes-candidates pool configured whole forbidden catalog _ (λ p e. inside p (grind arith))
      (round (takes pool (allowed_levels configured) forbidden code subject) refl)
  where
    code : Text
    code = normalize_code (code_or_key key subject.code)

    round :
        (taken : Bool)
        → takes pool (allowed_levels configured) forbidden code subject ≡ taken
        → all (is_candidate whole forbidden) (if taken then add code candidates else candidates)
          ≡ true
    round false e = h
    round true e =
        let (allowed, level) =
          takes_parts pool (allowed_levels configured) forbidden code subject e in
        all-add (is_candidate whole forbidden) code candidates h (
          rw (
            allowed,
            inside (has_entry code)
                (has_own_entry key subject catalog (has_level-narrowed configured subject level)),
          ))

open_candidates-candidates :
    (pool : Pool) (configured : List ℤ) (catalog : Catalog) (forbidden : List Text)
    (none_left : Bool)
    → all
        (is_candidate catalog forbidden)
        (if none_left then [] else open_codes pool (allowed_levels configured) forbidden catalog [])
      ≡ true
open_candidates-candidates pool configured catalog forbidden true = refl
open_candidates-candidates pool configured catalog forbidden false =
    open_codes-candidates pool configured catalog forbidden catalog [] (λ p e. e) refl

-- Whatever a pool says, a candidate that it resolves to is not forbidden (after normalizing the codes),
-- and is the code of an entry of the catalogue whose level is 100, 200 or 300.
pub resolve_pool_candidates-allowed :
    (pool : Pool) (catalog : Catalog) (forbidden : List Text)
    → all
        (is_candidate catalog (normalized forbidden))
        (resolve_pool_candidates pool catalog forbidden)
      ≡ true
unfolding resolve_pool_candidates
resolve_pool_candidates-allowed pool catalog forbidden = on pool.mode
  where
    levels : List ℤ
    levels = configured_levels pool.level_rules

    in_open :
        all
          (is_candidate catalog (normalized forbidden))
          (open_candidates pool (allowed_levels levels) catalog (normalized forbidden))
        ≡ true
    in_open =
        open_candidates-candidates pool levels catalog (normalized forbidden)
          (is_empty (allowed_levels levels))

    on :
        (mode : Mode)
        → all (is_candidate catalog (normalized forbidden)) (elim mode [
          | named_list ↦ named_codes catalog (normalized forbidden) pool.codes_named []
          | other_mode ↦ []
          | _ ↦ open_candidates pool (allowed_levels levels) catalog (normalized forbidden)
        ])
          ≡ true
    on named_list = named_codes-candidates catalog (normalized forbidden) pool.codes_named [] refl
    on open_pool = in_open
    on prefix_level = in_open
    on other_mode = refl
