-- ===== src/Json/Returning.antt =====
-- On panics in `json.Unmarshal`.
use xatu_sidecar.Prelude.{String, refl, ◌≢◌, Bool, true, false, none, arith}
use xatu_sidecar.Prelude.Int.{pos}
use xatu_sidecar.Outcome.{Outcome, ok, err, panic}
use xatu_sidecar.Json.{
  Json, Members, empty_object, member, object, null, Conversion, names, store_all, to_text,
  to_text_pointer, to_boolean, to_unsigned, to_int64, Fields, pure, ◌>>=◌, text_field,
  text_pointer_field, boolean_field, uint64_field, uint32_field, int64_field, unmarshal,
}

-- Whatever the members are, there is no panic.
pub record Returning {ℓ} {A : Type ℓ} (fields : Fields A) : Type ℓ where
  pub returns : (members : Members) → fields members ≢ panic

store_all-Returning {ℓ} :
    {A : Type ℓ} (convert : Conversion A) (name : String)
    → ((now : A) (value : Json) → convert now value ≢ panic)
    → (now : A) (members : Members) → store_all convert name now members ≢ panic
unfolding store_all
store_all-Returning {A} convert name h now empty_object = λ q. cc q
store_all-Returning {A} convert name h now (member key value rest) =
    step (names name key) (convert now value) (h now value)
      (λ a. store_all-Returning convert name h a rest)
  where
    step :
        (b : Bool) (o : Outcome A)
        → o ≢ panic
        → ((a : A) → store_all convert name a rest ≢ panic)
        → ◌≢◌ {A = Outcome A}
            (elim b [
              | false ↦ store_all convert name now rest
              | true ↦ elim o [
                | ok a ↦ store_all convert name a rest
                | err e ↦ err e
                | panic ↦ panic
              ]
            ])
            panic
    step false o h k = k now
    step true (ok a) h k = k a
    step true (err e) h k = λ q. cc q
    step true panic h k = absurd (h refl)

pub text_field-Returning : (name : String) → Returning (text_field name)
unfolding text_field to_text
text_field-Returning name = record {
  returns = store_all-Returning to_text name (λ now value. ground arith) "";
}

pub text_pointer_field-Returning : (name : String) → Returning (text_pointer_field name)
unfolding text_pointer_field to_text_pointer
text_pointer_field-Returning name = record {
  returns = store_all-Returning to_text_pointer name (λ now value. ground arith) none;
}

pub boolean_field-Returning : (name : String) → Returning (boolean_field name)
unfolding boolean_field to_boolean
boolean_field-Returning name = record {
  returns = store_all-Returning to_boolean name (λ now value. ground arith) false;
}

pub uint64_field-Returning : (name : String) → Returning (uint64_field name)
unfolding uint64_field to_unsigned
uint64_field-Returning name = record {
  returns = store_all-Returning (to_unsigned 64) name (λ now value. ground arith) 0;
}

pub uint32_field-Returning : (name : String) → Returning (uint32_field name)
unfolding uint32_field to_unsigned
uint32_field-Returning name = record {
  returns = store_all-Returning (to_unsigned 32) name (λ now value. ground arith) 0;
}

pub int64_field-Returning : (name : String) → Returning (int64_field name)
unfolding int64_field to_int64
int64_field-Returning name = record {
  returns = store_all-Returning to_int64 name (λ now value. ground arith) (pos 0);
}

pub pure-Returning {ℓ} : {A : Type ℓ} (a : A) → Returning (pure a)
unfolding pure
pure-Returning a = record { returns = λ members. λ q. cc q }

pub >>=-Returning {ℓ κ} :
    {A : Type ℓ} {B : Type κ} {fields : Fields A} {more : A → Fields B}
    → Returning fields
    → ((a : A) → Returning (more a))
    → Returning (fields >>= more)
unfolding ◌>>=◌
>>=-Returning {A} {B} {fields} {more} r k = record {
  returns = λ ms. step ms (fields ms) (r.returns ms);
}
  where
    step :
        (ms : Members) (o : Outcome A)
        → o ≢ panic
        → ◌≢◌ {A = Outcome B} (elim o [ ok a ↦ more a ms | err e ↦ err e | panic ↦ panic ]) panic
    step ms (ok a) h = (k a).returns ms
    step ms (err e) h = λ q. cc q
    step ms panic h = absurd (h refl)

pub unmarshal-Returning {ℓ} :
    {A : Type ℓ} {fields : Fields A} → Returning fields → (j : Json) → unmarshal fields j ≢ panic
unfolding unmarshal
unmarshal-Returning r null = r.returns empty_object
unmarshal-Returning r (object ms) = r.returns ms
unmarshal-Returning r (Json.boolean b) = λ q. cc q
unmarshal-Returning r (Json.number n) = λ q. cc q
unmarshal-Returning r (Json.text t) = λ q. cc q
unmarshal-Returning r (Json.array a) = λ q. cc q
