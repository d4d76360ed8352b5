-- ===== src/Message.antt =====
-- Messages: JSON values as the code reads them, and the Python built-ins that it applies to them.
-- A number and a container carry the text that `str()` shows of them; `huge` is a whole number beyond
-- the range of `float`.
use Prim.Native.Char.{Char, code}
use Prim.Native.String.{char_at}
use system2executor.Prelude.{
  Result, ok, err, ◌-◌, Bool, true, false, not, ◌&&◌, ◌||◌, Option, none, some, String, leb, str_eq,
  if◌then◌else◌,
}
use system2executor.Prelude.Float.{Float, num, zero_float, is_zero}
use system2executor.Prelude.Int.{pos}
use system2executor.Clock.{Time}

mutual
  pub data Value : Type 0 where
    null : Value
    bool : Bool → Value
    number : Float → String → Value
    text : String → Value
    list : Items → String → Value
    object : Fields → String → Value
    huge : String → Value

  pub data Items : Type 0 where
    nil : Items
    cons : Value → Items → Items

  pub data Fields : Type 0 where
    end : Fields
    field : String → Value → Fields → Fields

-- `d[k]`, `d.get(k)`; `none` where the key is missing
unfoldable pub lookup : String → Fields → Option Value
lookup k end = none
lookup k (field j v rest) = if str_eq j k then some v else lookup k rest

-- `d.get(k)` with a missing key and a null alike
abbrev pub present : Option Value → Option Value
present (some null) = none
present o = o

abbrev pub get : String → Fields → Option Value
get k d = present (lookup k d)

-- Python's truth of a value
abbrev pub truthy : Value → Bool
truthy null = false
truthy (bool b) = b
truthy (number x _) = not (is_zero x)
truthy (huge _) = true
truthy (text s) = not (str_eq s "")
truthy (list nil _) = false
truthy (list (cons _ _) _) = true
truthy (object end _) = false
truthy (object (field _ _ _) _) = true

-- `d.get(k)` where only a true value counts
abbrev pub if_truthy : Option Value → Option Value
if_truthy none = none
if_truthy (some v) = if truthy v then some v else none

-- `str(v)`
unfoldable pub str_of : Value → String
str_of null = "None"
str_of (bool true) = "True"
str_of (bool false) = "False"
str_of (number _ shown) = shown
str_of (huge shown) = shown
str_of (text s) = s
str_of (list _ shown) = shown
str_of (object _ shown) = shown

-- `str(d.get(k, ""))`
abbrev pub str_at : String → Fields → String
str_at k d = elim (lookup k d) [ none ↦ "" | some v ↦ str_of v ]

-- One unit of a quantity, in ticks.
abbrev pub one_float : Float
one_float = num (pos 100000000)

-- What a call may raise.
pub data Exception : Type 0 where
  key_error type_error value_error attribute_error overflow_error : Exception
  other_error : String → Exception

-- Python's readers of a text: `float(s)`, where `none` is its ValueError, and
-- `datetime.fromisoformat(s.replace("Z", "+00:00"))`, where `none` is its ValueError, with what
-- `.astimezone(timezone.utc)` then returns or raises.
pub record Readers : Type 0 where
  pub float_of : String → Option Float
  pub iso_of : String → Option (Result Exception Time)

abbrev or_value_error : Option Float → Result Exception Float
or_value_error none = err value_error
or_value_error (some x) = ok x

-- `float(v)`
unfoldable pub float_of : Readers → Value → Result Exception Float
float_of rd null = err type_error
float_of rd (bool true) = ok one_float
float_of rd (bool false) = ok zero_float
float_of rd (number x _) = ok x
float_of rd (huge _) = err overflow_error
float_of rd (text s) = or_value_error (rd.float_of s)
float_of rd (list _ _) = err type_error
float_of rd (object _ _) = err type_error

-- `except (TypeError, ValueError)` around a call: `none` is what it catches.
abbrev pub caught : {A : Type 0} → Result Exception A → Result Exception (Option A)
caught (ok a) = ok (some a)
caught (err type_error) = ok none
caught (err value_error) = ok none
caught (err e) = err e

-- `s.upper()`, on the letters of ASCII
abbrev upper_char : Char → Char
upper_char c =
    if leb b'a' (code c) && leb (code c) b'z'
    then char_at "ABCDEFGHIJKLMNOPQRSTUVWXYZ" (code c - b'a')
    else c

unfoldable pub upper : String → String
upper String.[] = String.[]
upper (String.◌∷◌ c s) = String.◌∷◌ (upper_char c) (upper s)

-- `s.endswith(suffix)`
unfoldable pub ends_with : String → String → Bool
ends_with suffix String.[] = str_eq suffix ""
ends_with suffix (String.◌∷◌ c s) = str_eq suffix (String.◌∷◌ c s) || ends_with suffix s
