-- ===== src/Processor/EventType.antt =====
use xatu_sidecar.Prelude.{
  String, ◌≡◌, refl, sym, ◌↔◌, Option, none, some, List, [], ◌∷◌, arith, str_eq, eq_iff,
  if◌then◌else◌,
}

-- The `EventType` constants of pkg/processor/handler.go. The source's type is a string, and the
-- switch of `HandleRawEvent` on it is `event_type?` with the cases by constructor.
pub data EventType : Type 0 where
  beacon_block attestation aggregate_and_proof blob_sidecar : EventType
  data_column_sidecar data_column_sidecar_gloas : EventType
  execution_payload_envelope execution_payload_bid : EventType
  payload_attestation_message proposer_preferences : EventType
  partial_data_column data_column_completed partial_data_column_outcome : EventType

abbrev pub event_type_text : EventType → String
event_type_text beacon_block = "BEACON_BLOCK"
event_type_text attestation = "ATTESTATION"
event_type_text aggregate_and_proof = "AGGREGATE_AND_PROOF"
event_type_text blob_sidecar = "BLOB_SIDECAR"
event_type_text data_column_sidecar = "DATA_COLUMN_SIDECAR"
event_type_text data_column_sidecar_gloas = "DATA_COLUMN_SIDECAR_GLOAS"
event_type_text execution_payload_envelope = "EXECUTION_PAYLOAD_ENVELOPE"
event_type_text execution_payload_bid = "EXECUTION_PAYLOAD_BID"
event_type_text payload_attestation_message = "PAYLOAD_ATTESTATION_MESSAGE"
event_type_text proposer_preferences = "PROPOSER_PREFERENCES"
event_type_text partial_data_column = "PARTIAL_DATA_COLUMN"
event_type_text data_column_completed = "DATA_COLUMN_COMPLETED"
event_type_text partial_data_column_outcome = "PARTIAL_DATA_COLUMN_OUTCOME"

-- In the order of the switch.
abbrev pub event_types : List EventType
event_types =
    beacon_block ∷ attestation ∷ aggregate_and_proof ∷ blob_sidecar ∷ data_column_sidecar
    ∷ data_column_sidecar_gloas ∷ execution_payload_envelope ∷ execution_payload_bid
    ∷ payload_attestation_message ∷ proposer_preferences ∷ partial_data_column
    ∷ data_column_completed ∷ partial_data_column_outcome ∷ []

find_type : List EventType → String → Option EventType
find_type [] text = none
find_type (t ∷ ts) text = if str_eq (event_type_text t) text then some t else find_type ts text

unfoldable pub event_type? : String → Option EventType
unfolding find_type
event_type? text = find_type event_types text

find_type-text :
    (ts : List EventType) (text : String) (t : EventType)
    → find_type ts text ≡ some t
    → event_type_text t ≡ text
unfolding find_type
find_type-text [] text t h = cc
find_type-text (x ∷ ts) text t h =
    ground (arith, eq_iff (event_type_text x) text, find_type-text ts text t)

event_type?-text : (t : EventType) → event_type? (event_type_text t) ≡ some t
unfolding event_type?
event_type?-text beacon_block = refl
event_type?-text _ = refl

-- A text selects a case of the switch exactly if it is that case's constant.
pub event_type?_iff :
    (text : String) (t : EventType) → (event_type? text ≡ some t) ↔ (text ≡ event_type_text t)
unfolding event_type?
event_type?_iff text t =
    (λ h. sym (find_type-text event_types text t h), λ e. rw e (event_type?-text t))
