-- ===== src/Json.antt =====
-- What the program uses of encoding/json, on the documents themselves. A leaf stands for the value
-- that it is printed from and read back as: `float` for a float64, by its 64 bits, `int` for a
-- version, `timestamp` for a time.Time, `base64` for a []byte that holds a JSON document. A document
-- that another program writes, with an integer literal for a float64 field, is not modelled.
use holdex_backend_cqrs.Prelude.{
  ℕ, ◌-◌, ◌*◌, ◌/◌, ◌%◌, ◌^◌, String, Bool, ◌&&◌, not, Option, none, some, List, [], ◌∷◌, ltb, leb,
  ◌==◌,
}

mutual
  pub data Json : Type 0 where
    null : Json
    text : String → Json
    float : ℕ → Json
    int : ℕ → Json
    timestamp : ℕ → Json
    base64 : Json → Json
    object : Fields → Json
    array : Elements → Json

  pub data Fields : Type 0 where
    end : Fields
    field : String → Json → Fields → Fields

  pub data Elements : Type 0 where
    stop : Elements
    element : Json → Elements → Elements

-- A float64 is its IEEE 754 bit pattern: NaN and the infinities have the exponent 2047.
abbrev pub is_finite : ℕ → Bool
is_finite bits = not ((bits / 2 ^ 52) % 2048 == 2047)

-- `x < 0`: the sign bit is set, and `x` is neither -0 nor a NaN.
abbrev pub is_negative : ℕ → Bool
is_negative bits = ltb (2 ^ 63) bits && leb bits (2 ^ 64 - 2 ^ 52)

-- time.Time.MarshalJSON refuses a year past 9999.
abbrev pub is_json_time : ℕ → Bool
is_json_time t = ltb t (253402300800 * 10 ^ 9)

-- json.Unmarshal of one member: null leaves the destination alone, another kind is an error.
abbrev pub read_text : Json → String → Option String
read_text null old = some old
read_text (text s) old = some s
read_text _ old = none

abbrev pub read_float : Json → ℕ → Option ℕ
read_float null old = some old
read_float (float bits) old = some bits
read_float _ old = none

abbrev pub read_int : Json → ℕ → Option ℕ
read_int null old = some old
read_int (int n) old = some n
read_int _ old = none

abbrev pub read_time : Json → ℕ → Option ℕ
read_time null old = some old
read_time (timestamp t) old = some t
read_time _ old = none

abbrev pub read_bytes : Json → Json → Option Json
read_bytes null old = some null
read_bytes (base64 j) old = some j
read_bytes _ old = none

-- json.Unmarshal into a struct: each member in turn sets the field of its name.
module _ {ℓ} {S : Type ℓ} (set_member : String → Json → S → Option S) where
  abbrev pub read_fields : Fields → S → Option S
  read_fields end s = some s
  read_fields (field k j fs) s = elim (set_member k j s) [ none ↦ none | some t ↦ read_fields fs t ]

  abbrev pub read_struct : Json → S → Option S
  read_struct null s = some s
  read_struct (object fs) s = read_fields fs s
  read_struct _ s = none

-- json.Marshal and json.Unmarshal of a slice. A nil slice is null, and no other slice of the program
-- is empty.
module _ {ℓ} {S : Type ℓ} (write : S → Option Json) where
  abbrev pub write_elements : List S → Option Elements
  write_elements [] = some stop
  write_elements (s ∷ ss) = elim (write s) [
    | none ↦ none
    | some j ↦ elim (write_elements ss) [ none ↦ none | some js ↦ some (element j js) ]
  ]

  abbrev pub write_slice : List S → Option Json
  write_slice [] = some null
  write_slice (s ∷ ss) = elim (write_elements (s ∷ ss)) [ none ↦ none | some js ↦ some (array js) ]

module _ {ℓ} {S : Type ℓ} (read : Json → Option S) where
  abbrev pub read_elements : Elements → Option (List S)
  read_elements stop = some []
  read_elements (element j js) = elim (read j) [
    | none ↦ none
    | some s ↦ elim (read_elements js) [ none ↦ none | some ss ↦ some (s ∷ ss) ]
  ]

  abbrev pub read_slice : Json → Option (List S)
  read_slice null = some []
  read_slice (array js) = read_elements js
  read_slice _ = none
