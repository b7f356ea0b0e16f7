-- ===== src/Json/Loads.antt =====
-- json.loads. The fuel is the length of the text: each call is on a shorter rest, or on the same rest
-- one level in.
use mathlib.Core.List.{reverse}
use intelli_study_planner_br.Base.{
  ℕ, zero, suc, ◌+◌, ◌-◌, ◌*◌, ◌/◌, ◌^◌, Bool, true, false, not, ◌&&◌, ◌||◌, Option, none, some, [],
  ◌∷◌, ◌++◌, Text, codes, ℤ, pos, negate, length, is_empty, take, drop, is_digit, starts_with, ltb,
  leb, if◌then◌else◌, ◌==◌, nat_eq,
}
use intelli_study_planner_br.Base.Maybe.{◌>>=◌, ◌>>◌, guard}
use intelli_study_planner_br.Json.{
  Value, Items, Fields, null, bool, int, float, str, arr, obj, nil, cons, end, put,
}

is_blank : ℕ → Bool
is_blank c = c == 32 || c == 9 || c == 10 || c == 13

skip : Text → Text
unfolding is_blank
skip [] = []
skip (c ∷ s) = let rest = skip s in if is_blank c then rest else c ∷ s

hex_digit : ℕ → Option ℕ
hex_digit c =
    if is_digit c
    then some (c - 48)
    else if leb b'a' c && leb c b'f'
    then some (c - 87)
    else if leb b'A' c && leb c b'F'
    then some (c - 55)
    else none

hex4 : Text → Option (ℕ × Text)
unfolding hex_digit
hex4 (a ∷ b ∷ c ∷ d ∷ s) = do
  x ← hex_digit a
  y ← hex_digit b
  z ← hex_digit c
  w ← hex_digit d
  some (((x * 16 + y) * 16 + z) * 16 + w, s)
hex4 _ = none

simple_escape : ℕ → Option ℕ
simple_escape c =
    if c == 34 || c == 92 || c == 47
    then some c
    else if c == b'b'
    then some 8
    else if c == b'f'
    then some 12
    else if c == b'n'
    then some 10
    else if c == b'r'
    then some 13
    else if c == b't'
    then some 9
    else none

abbrev escaped : ℕ → Text → Option (ℕ × Text)
escaped c s = if c == b'u' then hex4 s else (do d ← simple_escape c; some (d, s))

-- A text after its opening quote; control characters are refused.
parse_text : ℕ → Text → Text → Option (Text × Text)
unfolding hex4 simple_escape
parse_text zero acc s = none
parse_text (suc n) acc [] = none
parse_text (suc n) acc (c ∷ s) = elim (c == 34) [
  | true ↦ some (reverse acc, s)
  | false ↦ elim (c == 92) [
    | true ↦ elim s [
      | [] ↦ none
      | d ∷ r ↦ elim (escaped d r) [ none ↦ none | some (x, rest) ↦ parse_text n (x ∷ acc) rest ]
    ]
    | false ↦ elim (ltb c 32) [ true ↦ none | false ↦ parse_text n (c ∷ acc) s ]
  ]
]

take_digits : Text → Text × Text
take_digits [] = ([], [])
take_digits (c ∷ s) =
    let (ds, rest) = take_digits s in if is_digit c then (c ∷ ds, rest) else ([], c ∷ s)

nat_of_digits : ℕ → Text → ℕ
nat_of_digits n [] = n
nat_of_digits n (c ∷ s) = nat_of_digits (n * 10 + (c - 48)) s

-- The digits before the fraction: `0`, or digits that do not begin with 0.
whole_part : Text → Option (Text × Text)
unfolding take_digits
whole_part s = on (take_digits s)
  where
    on : Text × Text → Option (Text × Text)
    on ([], rest) = none
    on (d ∷ ds, rest) = if d == b'0' then some (b'0' ∷ [], ds ++ rest) else some (d ∷ ds, rest)

fraction : Text → Text × Text
unfolding take_digits
fraction (c ∷ d ∷ s) = if c == b'.' && is_digit d then take_digits (d ∷ s) else ([], c ∷ d ∷ s)
fraction s = ([], s)

-- The exponent: whether it is negative, its digits, and the rest; no digits if there is none.
exponent : Text → Bool × Text × Text
unfolding take_digits
exponent [] = (false, [], [])
exponent (e ∷ s) = if e == b'e' || e == b'E' then sign s else (false, [], e ∷ s)
  where
    with_sign : Bool → Text × Text → Bool × Text × Text
    with_sign b ([], r) = (false, [], e ∷ s)
    with_sign b (d ∷ ds, r) = (b, d ∷ ds, r)

    sign : Text → Bool × Text × Text
    sign [] = (false, [], e ∷ s)
    sign (c ∷ r) =
        if c == b'-'
        then with_sign true (take_digits r)
        else if c == b'+'
        then with_sign false (take_digits r)
        else with_sign false (take_digits (c ∷ r))

abbrev signed : Bool → ℕ → ℤ
signed negative n = if negative then negate n else pos n

make_number : Bool → Text → Text → Bool × Text × Text → (Text → Text) → Value
unfolding nat_of_digits
make_number negative ds fs (down, es, rest) literal =
    if is_empty fs && is_empty es
    then int (signed negative (nat_of_digits 0 ds))
    else (let mantissa : ℕ = nat_of_digits 0 (ds ++ fs) in
        let power : ℕ = nat_of_digits 0 es in
        let scaled : ℕ =
          if down
          then mantissa / 10 ^ (length fs + power)
          else mantissa * 10 ^ power / 10 ^ length fs in
        float (signed negative scaled) (not (mantissa == 0)) (literal rest))

parse_number : Text → Option (Value × Text)
unfolding whole_part fraction exponent make_number
parse_number s =
    let minus : Bool = starts_with s (b'-' ∷ []) in
    do
      (ds, after) ← whole_part (if minus then drop 1 s else s)
      let parts = fraction after
      let tail = exponent parts.1
      some (make_number minus ds parts.0 tail (λ rest. take (length s - length rest) s), tail.2)

abbrev keyword : Text → Value → Text → Option (Value × Text)
keyword word v s = if starts_with s word then some (v, drop (length word) s) else none

abbrev or_else : Option (Value × Text) → Option (Value × Text) → Option (Value × Text)
or_else (some r) other = some r
or_else none other = other

scalar : Text → Option (Value × Text)
unfolding parse_number
scalar s = or_else (keyword (codes "null") null s) (
    or_else (keyword (codes "true") (bool true) s)
      (or_else (keyword (codes "false") (bool false) s) (parse_number s)))

-- The rest behind an expected character, with the blanks before it skipped.
expect : ℕ → Text → Option Text
unfolding skip
expect c s = on (skip s)
  where
    on : Text → Option Text
    on [] = none
    on (d ∷ r) = if c == d then some r else none

mutual
  unfolding skip parse_text scalar expect

  value : ℕ → Text → Option (Value × Text)
  value zero s = none
  value (suc n) s = elim (skip s) [
    | [] ↦ none
    | c ∷ r ↦ elim (c == 34) [
      | true ↦ (do (t, rest) ← parse_text (suc (length r)) [] r; some (str t, rest))
      | false ↦ elim (c == b'[') [
        | true ↦ elim (expect b']' r) [
          | some rest ↦ some (arr nil, rest)
          | none ↦ (do (vs, rest) ← items n r; some (arr vs, rest))
        ]
        | false ↦ elim (c == b'{') [
          | true ↦ elim (expect b'}' r) [
            | some rest ↦ some (obj end, rest)
            | none ↦ (do (fs, rest) ← fields n end r; some (obj fs, rest))
          ]
          | false ↦ scalar (c ∷ r)
        ]
      ]
    ]
  ]

  items : ℕ → Text → Option (Items × Text)
  items zero s = none
  items (suc n) s = do
    (v, after) ← value n s
    elim (expect b',' after) [
      | some rest ↦ (do (vs, end_of) ← items n rest; some (cons v vs, end_of))
      | none ↦ (do rest ← expect b']' after; some (cons v nil, rest))
    ]

  -- The members read so far, since a repeated key replaces the value of the first.
  fields : ℕ → Fields → Text → Option (Fields × Text)
  fields zero acc s = none
  fields (suc n) acc s = do
    quoted ← expect 34 s
    (k, after_key) ← parse_text (suc (length quoted)) [] quoted
    colon ← expect b':' after_key
    (v, after) ← value n colon
    elim (expect b',' after) [
      | some rest ↦ fields n (put acc k v) rest
      | none ↦ (do rest ← expect b'}' after; some (put acc k v, rest))
    ]

-- json.loads(s); `none` stands for the JSONDecodeError.
unfoldable pub loads : Text → Option Value
unfolding value skip put starts_with
loads s = do (v, rest) ← value (2 * length s + 2) s; guard (is_empty (skip rest)); some v
