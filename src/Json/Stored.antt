-- ===== src/Json/Stored.antt =====
-- What a field of a struct receives from an object: the values of the members that name it, one after
-- the other.
use xatu_sidecar.Prelude.{
  ℕ, suc, ◌^◌, ◌<◌, String, ◌≡◌, refl, ◌∙◌, Bool, true, false, Option, none, some, List, [], ◌∷◌,
  arith, if◌then◌else◌,
}
use xatu_sidecar.Prelude.Int.{ℤ, pos, negsuc}
use xatu_sidecar.Outcome.{Outcome, ok, err, panic}
use xatu_sidecar.Json.{
  natural, negative, Json, null, boolean, number, text, Members, empty_object, member, Conversion,
  names, store_all, to_text, to_text_pointer, to_boolean, to_unsigned, to_int64, Fields, pure,
  object, unmarshal, ◌>>=◌, text_field, text_pointer_field, boolean_field, uint64_field,
  uint32_field, int64_field,
}

-- The values of the members that name a field, in order.
unfoldable pub values : String → Members → List Json
values name empty_object = []
values name (member key value rest) =
    let more = values name rest in if names name key then value ∷ more else more

-- A field after so many values.
unfoldable pub convert_all {ℓ} : {A : Type ℓ} → Conversion A → A → List Json → Outcome A
convert_all convert now [] = ok now
convert_all convert now (value ∷ rest) = elim (convert now value) [
  | ok a ↦ convert_all convert a rest
  | err e ↦ err e
  | panic ↦ panic
]

-- Members that do not name a field have no part in it, wherever they stand.
pub store_all-values {ℓ} :
    {A : Type ℓ} (convert : Conversion A) (name : String) (now : A) (members : Members)
    → store_all convert name now members ≡ convert_all convert now (values name members)
unfolding store_all values convert_all
store_all-values {A} convert name now empty_object = refl
store_all-values {A} convert name now (member key value rest) =
    step (names name key) (λ a. store_all-values convert name a rest)
  where
    stored :
        (o : Outcome A)
        → ((a : A) → store_all convert name a rest ≡ convert_all convert a (values name rest))
        → ◌≡◌ {A = Outcome A}
            (elim o [ ok a ↦ store_all convert name a rest | err e ↦ err e | panic ↦ panic ])
            (elim o [
              | ok a ↦ convert_all convert a (values name rest)
              | err e ↦ err e
              | panic ↦ panic
            ])
    stored (ok a) again = again a
    stored (err e) again = refl
    stored panic again = refl

    step :
        (b : Bool)
        → ((a : A) → store_all convert name a rest ≡ convert_all convert a (values name rest))
        → ◌≡◌ {A = Outcome A}
            (elim b [
              | false ↦ store_all convert name now rest
              | true ↦ elim (convert now value) [
                | ok a ↦ store_all convert name a rest
                | err e ↦ err e
                | panic ↦ panic
              ]
            ])
            (convert_all convert now (if b then value ∷ values name rest else values name rest))
    step false again = again now
    step true again = stored (convert now value) again

-- The members give the fields a value.
pub record Reads {ℓ} {A : Type ℓ} (fields : Fields A) (members : Members) (a : A) : Type ℓ where
  pub reads : fields members ≡ ok a

-- One value that a field takes.
stored_once {ℓ} :
    {A : Type ℓ} (convert : Conversion A) (name : String) (now a : A) (value : Json)
    (members : Members)
    → values name members ≡ value ∷ []
    → convert now value ≡ ok a
    → store_all convert name now members ≡ ok a
unfolding convert_all
stored_once convert name now a value members p q =
    store_all-values convert name now members ∙ rw p (rw (convert_all, q) refl)

pub text_field-stored :
    (name : String) (members : Members) (s : String)
    → values name members ≡ text s ∷ []
    → Reads (text_field name) members s
unfolding text_field to_text
text_field-stored name members s p = record {
  reads = stored_once to_text name "" s (text s) members p refl;
}

-- A pointer as JSON: null, or what it points to.
unfoldable pub text_or_null : Option String → Json
text_or_null none = null
text_or_null (some s) = text s

pub text_pointer_field-stored :
    (name : String) (members : Members) (o : Option String)
    → values name members ≡ text_or_null o ∷ []
    → Reads (text_pointer_field name) members o
unfolding text_pointer_field to_text_pointer text_or_null
text_pointer_field-stored name members none p = record {
  reads = stored_once to_text_pointer name none none null members p refl;
}
text_pointer_field-stored name members (some s) p = record {
  reads = stored_once to_text_pointer name none (some s) (text s) members p refl;
}

pub boolean_field-stored :
    (name : String) (members : Members) (b : Bool)
    → values name members ≡ boolean b ∷ []
    → Reads (boolean_field name) members b
unfolding boolean_field to_boolean
boolean_field-stored name members b p = record {
  reads = stored_once to_boolean name false b (boolean b) members p refl;
}

to_unsigned_lem : (bits n : ℕ) → n < 2 ^ bits → to_unsigned bits 0 (number (natural n)) ≡ ok n
unfolding to_unsigned
to_unsigned_lem bits n h = ground arith

pub uint64_field-stored :
    (name : String) (members : Members) (n : ℕ)
    → values name members ≡ number (natural n) ∷ []
    → n < 2 ^ 64
    → Reads (uint64_field name) members n
unfolding uint64_field
uint64_field-stored name members n p h = record {
  reads =
      stored_once (to_unsigned 64) name 0 n (number (natural n)) members p (to_unsigned_lem 64 n h);
}

pub uint32_field-stored :
    (name : String) (members : Members) (n : ℕ)
    → values name members ≡ number (natural n) ∷ []
    → n < 2 ^ 32
    → Reads (uint32_field name) members n
unfolding uint32_field
uint32_field-stored name members n p h = record {
  reads =
      stored_once (to_unsigned 32) name 0 n (number (natural n)) members p (to_unsigned_lem 32 n h);
}

-- An integer as JSON.
unfoldable pub integer : ℤ → Json
integer (pos n) = number (natural n)
integer (negsuc n) = number (negative (suc n))

-- The range of an int64.
abbrev pub IsInt64 : ℤ → Type 0
IsInt64 (pos n) = n < 2 ^ 63
IsInt64 (negsuc n) = n < 2 ^ 63

to_int64_lem : (z : ℤ) → IsInt64 z → to_int64 (pos 0) (integer z) ≡ ok z
unfolding to_int64 integer
to_int64_lem (pos n) h = ground arith
to_int64_lem (negsuc n) h = ground arith

pub int64_field-stored :
    (name : String) (members : Members) (z : ℤ)
    → values name members ≡ integer z ∷ []
    → IsInt64 z
    → Reads (int64_field name) members z
unfolding int64_field
int64_field-stored name members z p h = record {
  reads = stored_once to_int64 name (pos 0) z (integer z) members p (to_int64_lem z h);
}

-- Fields that are read one after the other.
infixr 20 ◌⊳⟨◌⟩◌
pub ◌⊳⟨◌⟩◌ {ℓ κ} :
    {A : Type ℓ} {B : Type κ} {fields : Fields A} {members : Members} {a : A} {b : B}
    → Reads fields members a
    → (more : A → Fields B) → Reads (more a) members b
    → Reads (fields >>= more) members b
unfolding ◌>>=◌
p ⊳⟨ more ⟩ q = record { reads = rw (◌>>=◌, p.reads) q.reads }

pub pure-Reads {ℓ} : {A : Type ℓ} (a : A) (members : Members) → Reads (pure a) members a
unfolding pure
pure-Reads a members = record { reads = refl }

pub unmarshal-Reads {ℓ} :
    {A : Type ℓ} {fields : Fields A} {members : Members} {a : A}
    → Reads fields members a
    → unmarshal fields (object members) ≡ ok a
unfolding unmarshal
unmarshal-Reads r = r.reads
