-- ===== src/Core/Json.antt =====
-- What `json.load` returns, and how the services read it: `dict.get`, `isinstance`, `int`, `bool`. Of a
-- finite float only what `int` and `bool` read is kept: its integer part, and whether it is zero. An
-- object has each key once, as a dict does.
use uav_dag_offload_platform.Common.{
  ◌≡◌, refl, String, Bool, true, false, not, ◌&&◌, arith, Option, none, some, if◌then◌else◌,
}
use uav_dag_offload_platform.Common.Equality.{◌==◌, string_eq}
use uav_dag_offload_platform.Common.Int.{ℤ, pos, is_zero_ℤ}
use uav_dag_offload_platform.Core.Errors.{Result, ok, raised, value_error, overflow_error}

pub data Float : Type 0 where
  finite : (integer_part : ℤ) (is_zero : Bool) → Float
  nan infinite : Float

mutual
  pub data Json : Type 0 where
    null : Json
    bool : Bool → Json
    int : ℤ → Json
    float : Float → Json
    string : String → Json
    array : Items → Json
    object : Fields → Json

  pub data Items : Type 0 where
    nil : Items
    cons : Json → Items → Items

  pub data Fields : Type 0 where
    end : Fields
    field : String → Json → Fields → Fields

-- payload.get(key)
unfoldable pub get : String → Fields → Option Json
get key end = none
get key (field k v fields) = if k == key then some v else get key fields

-- int(value) of a float
unfoldable pub int_of_float : Float → Result ℤ
int_of_float (finite integer_part is_zero) = ok integer_part
int_of_float nan = raised value_error
int_of_float infinite = raised overflow_error

unfoldable pub int_of_bool : Bool → ℤ
int_of_bool true = pos 1
int_of_bool false = pos 0

-- A value by its type; a bool is tested before the ints that it is one of.
unfoldable pub int_of : Option Json → Result ℤ
unfolding int_of_float int_of_bool
int_of (some (bool b)) = ok (int_of_bool b)
int_of (some (int n)) = ok n
int_of (some (float x)) = int_of_float x
int_of _ = ok (pos 0)

-- `_int_value`
unfoldable pub int_value : Fields → String → Result ℤ
unfolding int_of get
int_value payload key = int_of (get key payload)

-- bool(value)
unfoldable pub truth : Json → Bool
truth null = false
truth (bool b) = b
truth (int n) = not (is_zero_ℤ n)
truth (float (finite integer_part is_zero)) = not is_zero
truth (float nan) = true
truth (float infinite) = true
truth (string s) = if s == "" then false else true
truth (array nil) = false
truth (array (cons v vs)) = true
truth (object end) = false
truth (object (field k v fields)) = true

-- Not one of the floats that `int` refuses.
abbrev is_plain : Json → Bool
is_plain (float nan) = false
is_plain (float infinite) = false
is_plain _ = true

abbrev is_plain_at : Option Json → Bool
is_plain_at none = true
is_plain_at (some v) = is_plain v

unfoldable pub has_plain_values : Fields → Bool
has_plain_values end = true
has_plain_values (field k v fields) = is_plain v && has_plain_values fields

get-plain :
    (key : String) (payload : Fields)
    → has_plain_values payload ≡ true
    → is_plain_at (get key payload) ≡ true
unfolding get has_plain_values
get-plain key end plain = refl
get-plain key (field k v payload) plain = ground (arith, get-plain key payload)

int_of-returns : (o : Option Json) → is_plain_at o ≡ true → (n : ℤ) × (int_of o ≡ ok n)
unfolding int_of
int_of-returns none plain = (pos 0, refl)
int_of-returns (some null) plain = (pos 0, refl)
int_of-returns (some (bool b)) plain = (int_of_bool b, refl)
int_of-returns (some (int n)) plain = (n, refl)
int_of-returns (some (float (finite n z))) plain = (n, refl)
int_of-returns (some (float nan)) plain = absurd (ground (arith, plain))
int_of-returns (some (float infinite)) plain = absurd (ground (arith, plain))
int_of-returns (some (string s)) plain = (pos 0, refl)
int_of-returns (some (array vs)) plain = (pos 0, refl)
int_of-returns (some (object fields)) plain = (pos 0, refl)

pub int_value-returns :
    (payload : Fields) (key : String)
    → has_plain_values payload ≡ true
    → (n : ℤ) × (int_value payload key ≡ ok n)
unfolding int_value
int_value-returns payload key plain = int_of-returns (get key payload) (get-plain key payload plain)
