-- ===== src/Value.antt =====
-- The values of a JSON document as Python holds them, with Python's `str`, truth test and the
-- dictionary reads that the package makes. A float is kept as the text that `repr` gives for it.
use Prim.Native.Nat.{◌/◌, ◌%◌}
use Prim.Native.Char.{Char, code}
use Prim.Native.String.{◌++◌ as ◌+++◌}
use epiphany_executor.Prelude.{
  ℕ, zero, suc, String, Bool, true, false, not, ◌&&◌, ◌||◌, List, [], ◌∷◌, Result, ok, err,
  attribute_error, type_error, ltb, if◌then◌else◌, ◌==◌, codes, eqb, contains,
}

mutual
  -- a list
  pub data Items : Type 0 where
    cons : (first : Value) → (others : Items) → Items
    nil : Items

  -- a dict in insertion order
  pub data Fields : Type 0 where
    field : (key : String) → (value : Value) → (others : Fields) → Fields
    end : Fields

  pub data Value : Type 0 where
    str : String → Value
    bool : Bool → Value
    nat : ℕ → Value
    -- the integer -(n + 1)
    negative : ℕ → Value
    float : String → Value
    obj : Fields → Value
    arr : Items → Value
    null : Value

abbrev pub to_list : Items → List Value
to_list nil = []
to_list (cons v vs) = v ∷ to_list vs

abbrev pub of_list : List Value → Items
of_list [] = nil
of_list (v ∷ vs) = cons v (of_list vs)

-- `d.get(k)` on the fields of a dict; a missing key and an explicit null are both `null`.
abbrev pub get : String → Fields → Value
get k end = null
get k (field j v fs) = if j == k then v else get k fs

-- `k in d`
abbrev pub has : String → Fields → Bool
has k end = false
has k (field j v fs) = j == k || has k fs

-- `bool(v)`
abbrev pub truthy : Value → Bool
truthy null = false
truthy (bool b) = b
truthy (nat n) = ltb 0 n
truthy (negative n) = true
truthy (float r) = not (r == "0.0" || r == "-0.0")
truthy (str s) = not (s == "")
truthy (arr nil) = false
truthy (arr (cons v vs)) = true
truthy (obj end) = false
truthy (obj (field k v fs)) = true

abbrev digit : ℕ → String
digit n =
    if eqb n 0
    then "0"
    else if eqb n 1
    then "1"
    else if eqb n 2
    then "2"
    else if eqb n 3
    then "3"
    else if eqb n 4
    then "4"
    else if eqb n 5
    then "5"
    else if eqb n 6
    then "6"
    else if eqb n 7
    then "7"
    else if eqb n 8
    then "8"
    else "9"

decimal_fuel : ℕ → ℕ → String
decimal_fuel zero n = ""
decimal_fuel (suc f) n =
    let front = decimal_fuel f (n / 10) in if ltb n 10 then digit n else front +++ digit (n % 10)

-- `str(n)`; a number has at most as many digits as its value plus one
pub decimal : ℕ → String
unfolding decimal_fuel
decimal n = decimal_fuel (suc n) n

-- `repr` of a text: double quotes if it has a single quote and no double one
abbrev quote_mark : String → String
quote_mark s =
    if contains (codes "'") (codes s) && not (contains (codes "\"") (codes s)) then "\"" else "'"

escape : String → Char → String
escape mark c =
    let n = code c in
    let self = String.◌∷◌ c String.[] in
    if self == mark
    then "\\" +++ self
    else if eqb n 92
    then "\\\\"
    else if eqb n 10
    then "\\n"
    else if eqb n 13
    then "\\r"
    else if eqb n 9
    then "\\t"
    else self

escape_all : String → String → String
unfolding escape
escape_all mark String.[] = ""
escape_all mark (String.◌∷◌ c s) = escape mark c +++ escape_all mark s

repr_text : String → String
unfolding escape_all
repr_text s = let mark = quote_mark s in mark +++ escape_all mark s +++ mark

abbrev comma : Items → String
comma nil = ""
comma (cons v vs) = ", "

abbrev comma_fields : Fields → String
comma_fields end = ""
comma_fields (field k v fs) = ", "

mutual
  unfolding repr_text decimal

  -- `repr(v)`
  pub repr : Value → String
  repr null = "None"
  repr (bool true) = "True"
  repr (bool false) = "False"
  repr (nat n) = decimal n
  repr (negative n) = "-" +++ decimal (suc n)
  repr (float r) = r
  repr (str s) = repr_text s
  repr (arr vs) = "[" +++ repr_items vs +++ "]"
  repr (obj fs) = "{" +++ repr_fields fs +++ "}"

  repr_items : Items → String
  repr_items nil = ""
  repr_items (cons v vs) = repr v +++ comma vs +++ repr_items vs

  repr_fields : Fields → String
  repr_fields end = ""
  repr_fields (field k v fs) =
      repr_text k +++ ": " +++ repr v +++ comma_fields fs +++ repr_fields fs

-- `str(v)`
unfoldable pub to_text : Value → String
unfolding repr
to_text (str s) = s
to_text v = repr v

-- `d.get(k, default)`: the default stands for a missing key only.
abbrev pub get_or : String → Value → Fields → Value
get_or k default end = default
get_or k default (field j v fs) = if j == k then v else get_or k default fs

-- `v or {}`, where a dict is read: another truthy value has no `get`
abbrev pub dict_or_empty : Value → Result Fields
dict_or_empty (obj fs) = ok fs
dict_or_empty v = if truthy v then err attribute_error else ok end

-- `list(d)` as values
abbrev pub key_values : Fields → List Value
key_values end = []
key_values (field k v fs) = str k ∷ key_values fs

abbrev pub characters : String → List Value
characters String.[] = []
characters (String.◌∷◌ c s) = str (String.◌∷◌ c String.[]) ∷ characters s

-- `for x in v`
abbrev pub iterate : Value → Result (List Value)
iterate (arr vs) = ok (to_list vs)
iterate (obj fs) = ok (key_values fs)
iterate (str s) = ok (characters s)
iterate v = err type_error

-- `for x in (v or [])`
abbrev pub iterate_or_empty : Value → Result (List Value)
iterate_or_empty v = if truthy v then iterate v else ok []
