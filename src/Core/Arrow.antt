-- ===== src/Core/Arrow.antt =====
-- The data of the `arrow` and `geoarrow-schema` crates that the program matches on: schema types
-- with their extension tags, and arrays. An array or a builder is the list of its values, `none` for
-- a null; floats stand by their bit patterns. Types that the program never names are `other_type`.
use transferred.Prelude.{ℕ, Text, List, [], ◌∷◌, length, Option, Bool}
use transferred.Prelude.Int.{ℤ}
use transferred.Prelude.Bytes.{Bytes}
use transferred.Core.Error.{AnyError}

pub data TimeUnit : Type 0 where
  second millisecond microsecond nanosecond : TimeUnit

pub data IntervalUnit : Type 0 where
  year_month day_time month_day_nano : IntervalUnit

pub data Edges : Type 0 where
  andoyer karney spherical thomas vincenty : Edges

pub data CrsType : Type 0 where
  projjson wkt2_2019 authority_code srid_type : CrsType

-- A JSON value, by whether it is a string.
pub data JsonValue : Type 0 where
  string : Text → JsonValue
  other_json : JsonValue

-- A coordinate system, by the two answers that the program asks of it.
pub record Crs : Type 0 where
  pub crs_value : Option JsonValue
  pub crs_type : Option CrsType

pub record WkbType : Type 0 where
  pub crs : Crs
  pub edges : Option Edges

-- The extension tag in a field's metadata. `malformed` holds a tag of `geoarrow.wkb` whose metadata
-- cannot be read, with the error of reading it; `unnamed` any other extension, by name.
pub data Extension : Type 0 where
  uuid : Extension
  json : Extension
  wkb : WkbType → Extension
  malformed : AnyError → Extension
  pg_range : Extension
  opaque : Text → Text → Extension
  unnamed : Text → Extension

mutual
  pub data ArrowType : Type 0 where
    boolean int16 int32 int64 float32 float64 utf8 binary date32 : ArrowType
    fixed_size_binary : ℤ → ArrowType
    timestamp : TimeUnit → Option Text → ArrowType
    interval : IntervalUnit → ArrowType
    decimal128 : ℕ → ℤ → ArrowType
    struct : Fields → ArrowType
    other_type : ℕ → ArrowType

  pub data Fields : Type 0 where
    no_fields : Fields
    field_then : ArrowField → Fields → Fields

  -- name, data type, nullable, extension tag
  pub data ArrowField : Type 0 where
    field : Text → ArrowType → Bool → Option Extension → ArrowField

abbrev pub data_type : ArrowField → ArrowType
data_type (field name t nullable tag) = t

abbrev pub field_name : ArrowField → Text
field_name (field name t nullable tag) = name

abbrev pub extension : ArrowField → Option Extension
extension (field name t nullable tag) = tag

abbrev pub to_fields : List ArrowField → Fields
to_fields [] = no_fields
to_fields (f ∷ fs) = field_then f (to_fields fs)

abbrev pub to_list : Fields → List ArrowField
to_list no_fields = []
to_list (field_then f fs) = f ∷ to_list fs

pub record MonthDayNano : Type 0 where
  pub months : ℤ
  pub days : ℤ
  pub nanoseconds : ℤ

mutual
  pub data Array : Type 0 where
    bools : List (Option Bool) → Array
    int16s : List (Option ℤ) → Array
    int32s : List (Option ℤ) → Array
    int64s : List (Option ℤ) → Array
    float32s : List (Option ℕ) → Array
    float64s : List (Option ℕ) → Array
    strings : List (Option Text) → Array
    binaries : List (Option Bytes) → Array
    fixed_binaries : List (Option Bytes) → Array
    date32s : List (Option ℤ) → Array
    timestamps : List (Option ℤ) → Array
    intervals : List (Option MonthDayNano) → Array
    decimals : List (Option ℤ) → Array
    structs : List Bool → Arrays → Array
    other_array : ℕ → Array

  pub data Arrays : Type 0 where
    no_arrays : Arrays
    array_then : Array → Arrays → Arrays

pub record RecordBatch : Type 0 where
  pub schema : List ArrowField
  pub columns : List Array
  pub num_rows : ℕ

-- `Array::len`.
abbrev pub array_len : Array → ℕ
array_len (bools xs) = length xs
array_len (int16s xs) = length xs
array_len (int32s xs) = length xs
array_len (int64s xs) = length xs
array_len (float32s xs) = length xs
array_len (float64s xs) = length xs
array_len (strings xs) = length xs
array_len (binaries xs) = length xs
array_len (fixed_binaries xs) = length xs
array_len (date32s xs) = length xs
array_len (timestamps xs) = length xs
array_len (intervals xs) = length xs
array_len (decimals xs) = length xs
array_len (structs xs children) = length xs
array_len (other_array n) = n
