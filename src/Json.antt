-- ===== src/Json.antt =====
-- The values of a dynamic dictionary: what `json.loads` returns, and the tests that Python makes on
-- them. A number with a fraction or an exponent keeps its truncation, whether it differs from 0, and
-- its literal. `NaN` and the infinities are not modelled.
pub mod Loads
mod Samples
use mathlib.Core.List.{flat_map}
use intelli_study_planner_br.Base.{
  ℕ, ◌+◌, ◌/◌, ◌%◌, Bool, true, false, not, ◌&&◌, ◌||◌, Option, none, some, List, [], ◌∷◌, ◌++◌,
  Text, codes, ℤ, pos, negsuc, is_empty, elem, ltb, length, text_of_int, int_of_text, if◌then◌else◌,
  ◌==◌, nat_eq, int_eq, text_eq,
}

mutual
  pub data Value : Type 0 where
    null : Value
    bool : Bool → Value
    int : ℤ → Value
    float : (truncated : ℤ) (nonzero : Bool) (literal : Text) → Value
    str : Text → Value
    arr : Items → Value
    obj : Fields → Value

  pub data Items : Type 0 where
    nil : Items
    cons : Value → Items → Items

  pub data Fields : Type 0 where
    end : Fields
    field : Text → Value → Fields → Fields

-- bool(v)
abbrev pub truthy : Value → Bool
truthy null = false
truthy (bool b) = b
truthy (int n) = not (n == pos 0)
truthy (float n nonzero literal) = nonzero
truthy (str s) = not (is_empty s)
truthy (arr nil) = false
truthy (arr (cons v vs)) = true
truthy (obj end) = false
truthy (obj (field k v fs)) = true

abbrev pub is_null : Value → Bool
is_null null = true
is_null _ = false

-- d.get(key); `null` stands for the missing key.
unfoldable pub get : Fields → Text → Value
get end key = null
get (field k v fs) key = if k == key then v else get fs key

unfoldable pub has : Fields → Text → Bool
has end key = false
has (field k v fs) key = if k == key then true else has fs key

-- d[key] = v
unfoldable pub put : Fields → Text → Value → Fields
put end key v = field key v end
put (field k w fs) key v = if k == key then field k v fs else field k w (put fs key v)

abbrev pub list_of : Items → List Value
list_of nil = []
list_of (cons v vs) = v ∷ list_of vs

abbrev pub items_of : List Value → Items
items_of [] = nil
items_of (v ∷ vs) = cons v (items_of vs)

abbrev pub keys_of : Fields → List Text
keys_of end = []
keys_of (field k v fs) = k ∷ keys_of fs

-- int(v); `none` stands for the TypeError or ValueError.
unfoldable pub int_of : Value → Option ℤ
unfolding int_of_text
int_of (bool b) = some (if b then pos 1 else pos 0)
int_of (int n) = some n
int_of (float n nonzero literal) = some n
int_of (str s) = int_of_text s
int_of _ = none

-- The characters of a text inside quotes: repr() of a text, whose other control characters are kept.
escape : ℕ → ℕ → Text
escape quote c =
    if c == quote || c == 92
    then 92 ∷ c ∷ []
    else if c == 10
    then 92 ∷ b'n' ∷ []
    else if c == 13
    then 92 ∷ b'r' ∷ []
    else if c == 9
    then 92 ∷ b't' ∷ []
    else c ∷ []

repr_text : Text → Text
unfolding escape
repr_text s =
    let quote : ℕ = if elem 39 s && not (elem 34 s) then 34 else 39 in
    quote ∷ flat_map (escape quote) s ++ quote ∷ []

mutual
  unfolding repr_text text_of_int

  repr : Value → Text
  repr null = codes "None"
  repr (bool b) = if b then codes "True" else codes "False"
  repr (int n) = text_of_int n
  repr (float n nonzero literal) = literal
  repr (str s) = repr_text s
  repr (arr vs) = b'[' ∷ repr_items vs
  repr (obj fs) = b'{' ∷ repr_fields fs

  repr_items : Items → Text
  repr_items nil = b']' ∷ []
  repr_items (cons v nil) = repr v ++ b']' ∷ []
  repr_items (cons v (cons w vs)) = repr v ++ codes ", " ++ repr_items (cons w vs)

  repr_fields : Fields → Text
  repr_fields end = b'}' ∷ []
  repr_fields (field k v end) = repr_text k ++ codes ": " ++ repr v ++ b'}' ∷ []
  repr_fields (field k v (field l w fs)) =
      repr_text k ++ codes ": " ++ repr v ++ codes ", " ++ repr_fields (field l w fs)

-- str(v)
unfoldable pub str_of : Value → Text
unfolding repr flat_map
str_of (str s) = s
str_of v = repr v

hex_char : ℕ → ℕ
hex_char n = if ltb n 10 then 48 + n else 87 + n

-- json.dumps with its default settings: a character outside ASCII is written as `\uXXXX`.
json_char : ℕ → Text
unfolding hex_char
json_char c =
    if c == 34 || c == 92
    then 92 ∷ c ∷ []
    else if c == 10
    then 92 ∷ b'n' ∷ []
    else if c == 13
    then 92 ∷ b'r' ∷ []
    else if c == 9
    then 92 ∷ b't' ∷ []
    else if c == 8
    then 92 ∷ b'b' ∷ []
    else if c == 12
    then 92 ∷ b'f' ∷ []
    else if ltb 31 c && ltb c 127
    then c ∷ []
    else 92
      ∷ b'u'
      ∷ hex_char (c / 4096 % 16)
      ∷ hex_char (c / 256 % 16)
      ∷ hex_char (c / 16 % 16)
      ∷ hex_char (c % 16)
      ∷ []

json_text : Text → Text
unfolding json_char flat_map
json_text s = 34 ∷ flat_map json_char s ++ 34 ∷ []

unfoldable mutual
  unfolding json_text text_of_int

  pub dumps : Value → Text
  dumps null = codes "null"
  dumps (bool b) = if b then codes "true" else codes "false"
  dumps (int n) = text_of_int n
  dumps (float n nonzero literal) = literal
  dumps (str s) = json_text s
  dumps (arr vs) = b'[' ∷ dumps_items vs
  dumps (obj fs) = b'{' ∷ dumps_fields fs

  dumps_items : Items → Text
  dumps_items nil = b']' ∷ []
  dumps_items (cons v nil) = dumps v ++ b']' ∷ []
  dumps_items (cons v (cons w vs)) = dumps v ++ codes ", " ++ dumps_items (cons w vs)

  dumps_fields : Fields → Text
  dumps_fields end = b'}' ∷ []
  dumps_fields (field k v end) = json_text k ++ codes ": " ++ dumps v ++ b'}' ∷ []
  dumps_fields (field k v (field l w fs)) =
      json_text k ++ codes ": " ++ dumps v ++ codes ", " ++ dumps_fields (field l w fs)

abbrev number : Value → Option ℤ
number (bool b) = some (if b then pos 1 else pos 0)
number (int n) = some n
number _ = none

same_size : List Text → List Text → Bool
same_size ks ls = length ks == length ls

-- a == b: numbers and truth values by value, dictionaries whatever their order.
unfoldable mutual
  unfolding get has same_size

  pub same : Value → Value → Bool
  same null w = is_null w
  same (bool b) w = elim (number w) [ none ↦ false | some n ↦ (if b then pos 1 else pos 0) == n ]
  same (int m) w = elim (number w) [ none ↦ false | some n ↦ m == n ]
  same (float m nonzero literal) (float n nonzero' literal') = m == n && literal == literal'
  same (str s) (str t) = s == t
  same (arr vs) (arr ws) = same_items vs ws
  same (obj fs) (obj gs) = same_size (keys_of fs) (keys_of gs) && same_fields fs gs
  same _ _ = false

  same_items : Items → Items → Bool
  same_items nil nil = true
  same_items (cons v vs) (cons w ws) = same v w && same_items vs ws
  same_items _ _ = false

  same_fields : Fields → Fields → Bool
  same_fields end gs = true
  same_fields (field k v fs) gs = has gs k && same v (get gs k) && same_fields fs gs
