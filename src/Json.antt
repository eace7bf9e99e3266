-- ===== src/Json.antt =====
-- `encoding/json` as the program uses it: the values that a text stands for, and `json.Unmarshal` of
-- a value into a struct whose fields have names. A `json.RawMessage` is the text of one value, and is
-- that value here. How a text is parsed is a parameter of the model (Externals).
pub mod Returning
pub mod Stored
use xatu_sidecar.Prelude.{
  ℕ, zero, suc, ◌+◌, ◌^◌, String, Bool, true, false, ◌&&◌, Option, none, some, List, [], ◌∷◌, ltb,
  leb, ◌==◌, if◌then◌else◌,
}
use xatu_sidecar.Prelude.Int.{ℤ, pos, negsuc}
use Prim.Native.Char.{code}
use xatu_sidecar.Outcome.{Outcome, ok, err, panic, unmarshal_type}

-- A number as it is written: an integer without or with a minus sign, or a number with a fraction or
-- an exponent, which no integer field takes.
pub data Number : Type 0 where
  natural : ℕ → Number
  negative : ℕ → Number
  fractional : Number

mutual
  pub data Json : Type 0 where
    null : Json
    boolean : Bool → Json
    number : Number → Json
    text : String → Json
    array : Items → Json
    object : Members → Json

  pub data Items : Type 0 where
    empty_array : Items
    item : Json → Items → Items

  -- The members of an object in their order, a repeated key included.
  pub data Members : Type 0 where
    empty_object : Members
    member : String → Json → Members → Members

infixr 20 ◌⨾◌
abbrev pub ◌⨾◌ : String × Json → Members → Members
(key, value) ⨾ rest = member key value rest

-- The letters that fold to one lower case letter: both cases, and two letters outside ASCII, the long
-- s and the Kelvin sign.
abbrev pub fold : ℕ → ℕ
fold c =
    if leb 65 c && leb c 90 then c + 32 else if c == 383 then 115 else if c == 8490 then 107 else c

-- A key against the name of a field, which is in lower case.
unfoldable pub names : String → String → Bool
names String.[] String.[] = true
names String.[] (String.◌∷◌ d key) = false
names (String.◌∷◌ c name) String.[] = false
names (String.◌∷◌ c name) (String.◌∷◌ d key) = code c == fold (code d) && names name key

-- What a value makes of a field that holds something; an error leaves the field as it was.
abbrev pub Conversion {ℓ} : Type ℓ → Type ℓ
Conversion A = A → Json → Outcome A

-- The field after the members that name it have been stored in it, one after the other.
unfoldable pub store_all {ℓ} : {A : Type ℓ} → Conversion A → String → A → Members → Outcome A
store_all convert name now empty_object = ok now
store_all convert name now (member key value rest) =
    let skipped = store_all convert name now rest in
    elim (names name key) [
      | false ↦ skipped
      | true ↦ elim (convert now value) [
        | ok a ↦ store_all convert name a rest
        | err e ↦ err e
        | panic ↦ panic
      ]
    ]

-- A null leaves a field as it was, but for a pointer, which it makes nil.
unfoldable pub to_text : Conversion String
to_text now null = ok now
to_text now (text s) = ok s
to_text now _ = err unmarshal_type

unfoldable pub to_text_pointer : Conversion (Option String)
to_text_pointer now null = ok none
to_text_pointer now (text s) = ok (some s)
to_text_pointer now _ = err unmarshal_type

unfoldable pub to_boolean : Conversion Bool
to_boolean now null = ok now
to_boolean now (boolean b) = ok b
to_boolean now _ = err unmarshal_type

-- An unsigned integer of so many bits.
unfoldable pub to_unsigned : ℕ → Conversion ℕ
to_unsigned bits now null = ok now
to_unsigned bits now (number (natural n)) = if ltb n (2 ^ bits) then ok n else err unmarshal_type
to_unsigned bits now _ = err unmarshal_type

-- `int64`
unfoldable pub to_int64 : Conversion ℤ
to_int64 now null = ok now
to_int64 now (number (natural n)) = if ltb n (2 ^ 63) then ok (pos n) else err unmarshal_type
to_int64 now (number (negative zero)) = ok (pos 0)
to_int64 now (number (negative (suc n))) =
    if ltb n (2 ^ 63) then ok (negsuc n) else err unmarshal_type
to_int64 now _ = err unmarshal_type

-- The fields of a struct, read one after the other off the members of an object; each starts as its
-- type's zero value.
abbrev pub Fields {ℓ} : Type ℓ → Type ℓ
Fields A = Members → Outcome A

unfoldable pub pure {ℓ} : {A : Type ℓ} → A → Fields A
pure a members = ok a

infixl 5 ◌>>=◌
unfoldable pub ◌>>=◌ {ℓ κ} : {A : Type ℓ} {B : Type κ} → Fields A → (A → Fields B) → Fields B
◌>>=◌ fields more members = elim (fields members) [
  | ok a ↦ more a members
  | err e ↦ err e
  | panic ↦ panic
]

unfoldable pub text_field : String → Fields String
text_field name = store_all to_text name ""

unfoldable pub text_pointer_field : String → Fields (Option String)
text_pointer_field name = store_all to_text_pointer name none

unfoldable pub boolean_field : String → Fields Bool
boolean_field name = store_all to_boolean name false

unfoldable pub uint64_field : String → Fields ℕ
uint64_field name = store_all (to_unsigned 64) name 0

unfoldable pub uint32_field : String → Fields ℕ
uint32_field name = store_all (to_unsigned 32) name 0

unfoldable pub int64_field : String → Fields ℤ
int64_field name = store_all to_int64 name (pos 0)

-- `json.Unmarshal` into a struct: a null leaves every field at its zero value, members that name no
-- field are passed over, and a member of the wrong type is an error.
unfoldable pub unmarshal {ℓ} : {A : Type ℓ} → Fields A → Json → Outcome A
unmarshal fields null = fields empty_object
unmarshal fields (object members) = fields members
unmarshal fields _ = err unmarshal_type

abbrev items : Items → List Json
items empty_array = []
items (item value rest) = value ∷ items rest

-- `json.Unmarshal` into a slice of raw messages.
unfoldable pub unmarshal_messages : Json → Outcome (List Json)
unmarshal_messages null = ok []
unmarshal_messages (array values) = ok (items values)
unmarshal_messages _ = err unmarshal_type
