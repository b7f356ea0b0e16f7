-- ===== src/Regex.antt =====
-- The part of Python's `re` that the program uses: backtracking, alternatives tried in order, greedy
-- and lazy repetition, captured groups, anchors, word boundaries and lookahead. Letters and digits
-- are those of ASCII.
mod Samples
use intelli_study_planner_br.Base.{
  ℕ, zero, suc, ◌+◌, ◌-◌, Bool, true, false, not, ◌&&◌, ◌||◌, Option, none, some, List, [], ◌∷◌,
  Text, ltb, leb, length, take, codes, is_space, is_upper, is_lower, is_digit, to_lower,
  if◌then◌else◌, ◌==◌, nat_eq, bool_eq, elem,
}

pub data Regex : Type 0 where
  empty : Regex
  char_where : (ℕ → Bool) → Regex
  seq : Regex → Regex → Regex
  alt : Regex → Regex → Regex
  star lazy : Regex → Regex
  group : ℕ → Regex → Regex
  text_start text_end line_start line_end word_boundary : Regex
  ahead not_ahead : Regex → Regex

-- The text left of the position, nearest character first, and right of it; what the groups hold.
pub record Scan : Type 0 where
  pub before : Text
  pub rest : Text
  pub groups : List (ℕ × Text)

abbrev pub start : Text → Scan
start s = record { before = []; rest = s; groups = [] }

abbrev is_word : ℕ → Bool
is_word c = is_upper c || is_lower c || is_digit c || c == b'_'

abbrev head_is_word : Text → Bool
head_is_word [] = false
head_is_word (c ∷ s) = is_word c

abbrev is_newline_next : Text → Bool
is_newline_next [] = true
is_newline_next (c ∷ s) = c == 10

-- `$` also stands before a final line break.
abbrev is_end : Text → Bool
is_end [] = true
is_end (c ∷ []) = c == 10
is_end (c ∷ d ∷ s) = false

abbrev is_start : Text → Bool
is_start [] = true
is_start (c ∷ s) = false

one_char : (ℕ → Bool) → Scan → Option Scan
one_char p s = on s.rest
  where
    on : Text → Option Scan
    on [] = none
    on (c ∷ r) = if p c then some (record s { before = c ∷ s.before; rest = r }) else none

abbrev Cont : Type 0
Cont = Scan → Option Scan

-- An attempt, and what to try when it fails.
abbrev first_some : Option Scan → (Unit {0} → Option Scan) → Option Scan
first_some (some r) other = some r
first_some none other = other tt

-- A round that takes no character ends the repetition.
star_loop : ℕ → (Scan → Cont → Option Scan) → Scan → Cont → Option Scan
star_loop zero m s k = k s
star_loop (suc n) m s k =
    first_some
      (m s (λ t. elim (ltb (length t.rest) (length s.rest)) [
        | true ↦ star_loop n m t k
        | false ↦ none
      ]))
      (λ _. k s)

lazy_loop : ℕ → (Scan → Cont → Option Scan) → Scan → Cont → Option Scan
lazy_loop zero m s k = k s
lazy_loop (suc n) m s k = first_some (k s) (λ _.
    m s
      (λ t. elim (ltb (length t.rest) (length s.rest)) [ true ↦ lazy_loop n m t k | false ↦ none ]))

abbrev require : Bool → Scan → Cont → Option Scan
require true s k = k s
require false s k = none

run : Regex → Scan → Cont → Option Scan
unfolding one_char star_loop lazy_loop
run empty s k = k s
run (char_where p) s k = elim (one_char p s) [ none ↦ none | some t ↦ k t ]
run (seq a b) s k = run a s (λ t. run b t k)
run (alt a b) s k = first_some (run a s k) (λ _. run b s k)
run (star a) s k = star_loop (length s.rest) (run a) s k
run (lazy a) s k = lazy_loop (length s.rest) (run a) s k
run (group n a) s k =
    run a s
      (λ t. k (record t { groups = (n, take (length s.rest - length t.rest) s.rest) ∷ t.groups }))
run text_start s k = require (is_start s.before) s k
run text_end s k = require (is_end s.rest) s k
run line_start s k = require (is_newline_next s.before) s k
run line_end s k = require (is_newline_next s.rest) s k
run word_boundary s k = require (not (head_is_word s.before == head_is_word s.rest)) s k
run (ahead a) s k = elim (run a s some) [
  | none ↦ none
  | some t ↦ k (record s { groups = t.groups })
]
run (not_ahead a) s k = elim (run a s some) [ none ↦ k s | some t ↦ none ]

-- The latest capture of a group.
unfoldable pub group_of : ℕ → List (ℕ × Text) → Option Text
group_of n [] = none
group_of n ((m, v) ∷ gs) = if n == m then some v else group_of n gs

-- re.match, re.fullmatch
unfoldable pub match : Regex → Text → Option Scan
unfolding run
match r s = run r (start s) some

unfoldable pub fullmatch : Regex → Text → Option Scan
unfolding run
fullmatch r s = run r (start s) (λ t. if is_start t.rest then some t else none)

-- re.search: where the match begins and where it ends.
search_at : ℕ → Regex → Scan → Option (Scan × Scan)
unfolding run one_char
search_at zero r s = none
search_at (suc n) r s = elim (run r s some) [
  | some t ↦ some (s, t)
  | none ↦ elim (one_char (λ c. true) s) [ none ↦ none | some t ↦ search_at n r t ]
]

unfoldable pub search : Regex → Text → Option (Scan × Scan)
unfolding search_at
search r s = search_at (suc (length s)) r (start s)

unfoldable pub is_found : Regex → Text → Bool
unfolding search
is_found r s = elim (search r s) [ none ↦ false | some m ↦ true ]

-- re.finditer: the next search begins at the end of a match, one further if the match is empty, and
-- with no group captured.
abbrev next_start : Scan → Scan → Option Scan
next_start s t = elim (ltb (length t.rest) (length s.rest)) [
  | true ↦ some (record t { groups = [] })
  | false ↦ one_char (λ c. true) (record t { groups = [] })
]

find_iter_at : ℕ → Regex → Option Scan → List (Scan × Scan)
unfolding search_at one_char
find_iter_at zero r o = []
find_iter_at (suc n) r none = []
find_iter_at (suc n) r (some s) = elim (search_at (suc (length s.rest)) r s) [
  | none ↦ []
  | some (b, e) ↦ (b, e) ∷ find_iter_at n r (next_start b e)
]

unfoldable pub find_iter : Regex → Text → List (Scan × Scan)
unfolding find_iter_at
find_iter r s = find_iter_at (suc (length s)) r (some (start s))

-- The text that a match took.
unfoldable pub matched : Scan × Scan → Text
matched (b, e) = take (length b.rest - length e.rest) b.rest

-- What patterns are written with.
infixr 69 ◌>>◌
infixr 68 ◌or◌
abbrev pub ◌>>◌ : Regex → Regex → Regex
a >> b = seq a b

abbrev pub ◌or◌ : Regex → Regex → Regex
a or b = alt a b

abbrev pub opt : Regex → Regex
opt a = alt a empty

abbrev pub plus : Regex → Regex
plus a = seq a (star a)

abbrev pub lit : Text → Regex
lit [] = empty
lit (c ∷ s) = seq (char_where (λ d. d == c)) (lit s)

-- A literal under re.IGNORECASE.
abbrev pub ilit : Text → Regex
ilit [] = empty
ilit (c ∷ s) = seq (char_where (λ d. to_lower d == to_lower c)) (ilit s)

abbrev pub one_of : Text → Regex
one_of s = char_where (λ d. elem d s)

-- `.`, `\s`, `\d`, `[A-Z]`, `[A-Za-z]`
abbrev pub dot : Regex
dot = char_where (λ c. not (c == 10))

abbrev pub space : Regex
space = char_where is_space

abbrev pub digit : Regex
digit = char_where is_digit

abbrev pub capital : Regex
capital = char_where is_upper

abbrev pub letter : Regex
letter = char_where (λ c. is_upper c || is_lower c)

-- `a{0,n}` and `a{m,n}`, greedy
abbrev pub upto : ℕ → Regex → Regex
upto zero a = empty
upto (suc n) a = alt (seq a (upto n a)) empty

-- `a{0,n}?`, lazy
abbrev pub lazy_upto : ℕ → Regex → Regex
lazy_upto zero a = empty
lazy_upto (suc n) a = alt empty (seq a (lazy_upto n a))

-- One of some texts, tried in order; under re.IGNORECASE.
abbrev pub any_of : List Text → Regex
any_of [] = char_where (λ c. false)
any_of (s ∷ []) = lit s
any_of (s ∷ t ∷ ss) = alt (lit s) (any_of (t ∷ ss))

abbrev pub any_ilit : List Text → Regex
any_ilit [] = char_where (λ c. false)
any_ilit (s ∷ []) = ilit s
any_ilit (s ∷ t ∷ ss) = alt (ilit s) (any_ilit (t ∷ ss))

abbrev pub repeat : ℕ → ℕ → Regex → Regex
repeat zero n a = upto n a
repeat (suc m) zero a = seq a (repeat m zero a)
repeat (suc m) (suc n) a = seq a (repeat m n a)
