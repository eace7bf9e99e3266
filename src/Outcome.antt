-- ===== src/Outcome.antt =====
-- The results of the Go functions: a value, an `error`, or a panic; and methods that change the
-- state that they stand on. The named errors are those of pkg/processor/handler.go,
-- pkg/processor/config.go and pkg/event/gossipsub/partial.go.
use xatu_sidecar.Prelude.{String, Option, none, some}

pub data Error : Type 0 where
  config_required failed_create_wallclock unsupported_event_type : Error
  genesis_time_required seconds_per_slot_required slots_per_epoch_required : Error
  network_name_required network_id_required : Error
  invalid_partial_direction invalid_partial_capture_point invalid_completed_via : Error
  invalid_partial_stage invalid_partial_outcome : Error
  -- `fmt.Errorf("%w: %q", err, value)`
  invalid_value : Error → String → Error
  -- `fmt.Errorf("output %s: %w", name, err)`
  output_failed : String → Error → Error
  -- `fmt.Errorf("failed to get wallclock time: %w", err)`
  wallclock_time : Error → Error
  -- `*json.UnmarshalTypeError`, whose text is not kept
  unmarshal_type : Error
  -- an error of a library that the program calls
  external : String → Error

-- The source's `(value, error)` pair, and a panic that unwinds the stack.
pub data Outcome {ℓ} (A : Type ℓ) : Type ℓ where
  ok : A → Outcome A
  err : Error → Outcome A
  panic : Outcome A

-- `*p` for a pointer that may be nil.
abbrev pub deref {ℓ} : {A : Type ℓ} → Option A → Outcome A
deref none = panic
deref (some a) = ok a

-- What was written before an error or a panic stays written: the state comes back with each.
abbrev pub Method {ℓ} : Type ℓ → Type ℓ → Type ℓ
Method S A = S → Outcome A × S

module _ {ℓ} {S A : Type ℓ} where
  abbrev pub pure : A → Method S A
  pure a s = (ok a, s)

  abbrev pub lift : Outcome A → Method S A
  lift r s = (r, s)

module _ {ℓ} {S A B : Type ℓ} where
  abbrev pub continue : Outcome A × S → (A → Method S B) → Outcome B × S
  continue (ok a, s) f = f a s
  continue (err e, s) f = (err e, s)
  continue (panic, s) f = (panic, s)

  infixl 5 ◌>>=◌ ◌>>◌
  abbrev pub ◌>>=◌ : Method S A → (A → Method S B) → Method S B
  ◌>>=◌ m f s = continue (m s) f

  abbrev pub ◌>>◌ : Method S A → Method S B → Method S B
  m >> n = m >>= λ _. n

abbrev pub map_ok {ℓ κ} : {A : Type ℓ} {B : Type κ} → (A → B) → Outcome A → Outcome B
map_ok f (ok a) = ok (f a)
map_ok f (err e) = err e
map_ok f panic = panic
