-- ===== src/Node/Json.antt =====
-- What `json.loads` returns, as far as src/coldwatch/node reads it, and the built-in operations that it
-- applies to such values: truth, `int`, `d["k"]`, `d.get("k")` and `bytes.fromhex`.
use coldwatch.Base.{
  ℕ, Bool, true, false, Option, none, some, List, [], ◌∷◌, not, ◌==◌, if◌then◌else◌,
}
use coldwatch.Base.Integers.{ℤ, pos, negsuc}
use coldwatch.Base.Keys.{bytes_key}
use coldwatch.Base.Dict.{Dict, get}
use coldwatch.Base.Results.{Result, ok, err}
use coldwatch.Match.Keys.Display.{from_hex}

-- A float, as `bool` and `int` see it: whether it is not zero and what it truncates to, or an infinity,
-- or not a number. `json.loads` gives the last two for `Infinity`, `1e999` and `NaN`.
pub data Float : Type 0 where
  finite : Bool → ℤ → Float
  infinite nan : Float

-- A text, and the name of a member, is the list of its characters' codes.
mutual
  pub data Json : Type 0 where
    null : Json
    boolean : Bool → Json
    integer : ℤ → Json
    float : Float → Json
    text : List ℕ → Json
    array : Elements → Json
    object : Members → Json

  pub data Elements : Type 0 where
    no_more : Elements
    element : Json → Elements → Elements

  pub data Members : Type 0 where
    no_member : Members
    member : List ℕ → Json → Members → Members

-- The exceptions of the built-in operations.
pub data PyError : Type 0 where
  key_error value_error type_error overflow_error attribute_error : PyError

unfoldable pub members : Members → Dict (List ℕ) Json
members no_member = []
members (member k v rest) = (k, v) ∷ members rest

unfoldable pub elements : Elements → List Json
elements no_more = []
elements (element v rest) = v ∷ elements rest

abbrev is_zero : ℤ → Bool
is_zero (pos n) = n == 0
is_zero (negsuc n) = false

-- `bool(value)`.
unfoldable pub truthy : Json → Bool
truthy null = false
truthy (boolean b) = b
truthy (integer n) = not (is_zero n)
truthy (float (finite nonzero n)) = nonzero
truthy (float infinite) = true
truthy (float nan) = true
truthy (text []) = false
truthy (text (c ∷ s)) = true
truthy (array no_more) = false
truthy (array (element v vs)) = true
truthy (object no_member) = false
truthy (object (member k v ms)) = true

-- `int(value)`; `read_int` is what `int` makes of a text, or none where it raises ValueError.
unfoldable pub to_int : (List ℕ → Option ℤ) → Json → Result PyError ℤ
to_int read_int null = err PyError.type_error
to_int read_int (boolean b) = ok (if b then pos 1 else pos 0)
to_int read_int (integer n) = ok n
to_int read_int (float (finite nonzero n)) = ok n
to_int read_int (float infinite) = err PyError.overflow_error
to_int read_int (float nan) = err PyError.value_error
to_int read_int (text s) = elim (read_int s) [ none ↦ err PyError.value_error | some n ↦ ok n ]
to_int read_int (array vs) = err PyError.type_error
to_int read_int (object ms) = err PyError.type_error

-- `value["k"]`: of what is not a dict, TypeError.
unfoldable pub subscript : List ℕ → Json → Result PyError Json
unfolding members
subscript k (object ms) = elim (get k (members ms)) [ none ↦ err PyError.key_error | some v ↦ ok v ]
subscript k null = err PyError.type_error
subscript k (boolean b) = err PyError.type_error
subscript k (integer n) = err PyError.type_error
subscript k (float x) = err PyError.type_error
subscript k (text s) = err PyError.type_error
subscript k (array vs) = err PyError.type_error

-- `value.get("k", default)` of a dict.
unfoldable pub get_member : List ℕ → Json → Members → Json
unfolding members
get_member k default ms = elim (get k (members ms)) [ none ↦ default | some v ↦ v ]

-- `bytes.fromhex(value)`.
unfoldable pub to_bytes : Json → Result PyError (List ℕ)
to_bytes (text s) = elim (from_hex s) [ none ↦ err PyError.value_error | some b ↦ ok b ]
to_bytes null = err PyError.type_error
to_bytes (boolean b) = err PyError.type_error
to_bytes (integer n) = err PyError.type_error
to_bytes (float x) = err PyError.type_error
to_bytes (array vs) = err PyError.type_error
to_bytes (object ms) = err PyError.type_error

unfoldable pub characters : List ℕ → List Json
characters [] = []
characters (c ∷ s) = text (c ∷ []) ∷ characters s

unfoldable pub names : Members → List Json
names no_member = []
names (member k v rest) = text k ∷ names rest

-- `list(value)`: of a text its characters, of a dict its names, and of a number, a truth value or None
-- TypeError.
unfoldable pub to_list : Json → Result PyError (List Json)
unfolding elements characters names
to_list (array vs) = ok (elements vs)
to_list (text s) = ok (characters s)
to_list (object ms) = ok (names ms)
to_list null = err PyError.type_error
to_list (boolean b) = err PyError.type_error
to_list (integer n) = err PyError.type_error
to_list (float x) = err PyError.type_error
