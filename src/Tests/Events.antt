-- ===== src/Tests/Events.antt =====
-- The theorems on events at concrete values.
use xatu_sidecar.Prelude.{
  ℕ, ◌+◌, ◌<◌, String, ◌≡◌, refl, ◌≢◌, ◌↔◌, true, false, none, some, [], ◌∷◌, arith,
}
use xatu_sidecar.Event.Instant.{unix_milli}
use xatu_sidecar.Prelude.Int.{◌+ℤ◌, pos, negsuc}
use xatu_sidecar.Outcome.{ok, err, Error}
use xatu_sidecar.Wallclock.{Now}
use xatu_sidecar.Event.Gossip.{slot_v2, epoch_v2, gossip_data}
use xatu_sidecar.Proto.Payload.{EventData}
use xatu_sidecar.Event.Partial.{
  max_partial_slot_age, validate_enum, is_stale_slot, new_block_timing,
}
use xatu_sidecar.Proto.Additional.{AdditionalData, AttestationData, BlockTiming}
use xatu_sidecar.Event.Partial.Rules.{
  new_block_timing_known, OneOf, validate_enum_iff, is_stale_slot_iff,
}
use xatu_sidecar.Event.Attestation.Epochs.{decorate_checkpoint_epochs}
use xatu_sidecar.Event.Attestation.{
  checkpoint_epoch, attestation_message, RawAttestation, Attestation, decorate, new_attestation,
}
use xatu_sidecar.Event.Instant.{slot_start_diff}
use xatu_sidecar.Tests.World.{
  slot_window, epoch_window, chain_clock, now_at, epoch_start, world, sidecar_with,
}
use xatu_sidecar.Processor.Handler.{create_new_client_meta}
use xatu_sidecar.Proto.{EventName, DecoratedEvent}
use xatu_sidecar.Event.Freshness.{too_old, max_slot_age}
use xatu_sidecar.Event.Freshness.Age.{too_old_iff}
use xatu_sidecar.Event.Instant.Bounds.{slot_start_diff-elapsed}
use xatu_sidecar.Event.DataColumnCompleted.{completion_key}
use xatu_sidecar.Event.DataColumnCompleted.Key.{completion_key_iff}
use xatu_sidecar.Processor.Drift.{clock_drift_millis, clock_drift_millis-abs}
use xatu_sidecar.Processor.EventType.{EventType, event_type?, event_type?_iff}

too_old_iff_example :
    (too_old chain_clock 83 1_200_000_000_000 ≡ ok true) ↔ (83 + max_slot_age < 100)
too_old_iff_example = too_old_iff chain_clock 83 1_200_000_000_000 (now_at 1_200_000_000_000) refl

slot_start_diff-elapsed_example :
    slot_start_diff (pos 1_201_500_000_000) (pos 1_200_000_000_000) ≡ 1_500
slot_start_diff-elapsed_example =
    slot_start_diff-elapsed (pos 1_201_500_000_000) (pos 1_200_000_000_000)

validate_enum_iff_example :
    ((validate_enum "RECV" ("SEND" ∷ "RECV" ∷ []) Error.invalid_partial_direction ≡ ok tt)
      ↔ OneOf "RECV" ("SEND" ∷ "RECV" ∷ []))
    × ((¬ OneOf "RECV" ("SEND" ∷ "RECV" ∷ []))
        → validate_enum "RECV" ("SEND" ∷ "RECV" ∷ []) Error.invalid_partial_direction
          ≡ err (Error.invalid_value Error.invalid_partial_direction "RECV"))
validate_enum_iff_example =
    validate_enum_iff "RECV" ("SEND" ∷ "RECV" ∷ []) Error.invalid_partial_direction

abbrev old_slot : ℕ
old_slot = 83

is_stale_slot_iff_example :
    (is_stale_slot chain_clock 0 1_200_000_000_000 ≡ ok false)
    × ((current : Now)
        → chain_clock.now 1_200_000_000_000 ≡ ok current
        → old_slot ≢ 0
        → (is_stale_slot chain_clock old_slot 1_200_000_000_000 ≡ ok true)
          ↔ (old_slot + max_partial_slot_age < current.slot.number))
is_stale_slot_iff_example = is_stale_slot_iff chain_clock old_slot 1_200_000_000_000

abbrev column : ℕ
column = 11

abbrev root : String
root = "0xaa"

completion_key_iff_example :
    (completion_key root column ≡ completion_key root 12) ↔ (root ≡ root) × (column ≡ 12)
completion_key_iff_example = completion_key_iff root root column 12 (omega arith) (omega arith)

clock_drift_millis-abs_example : clock_drift_millis (negsuc 3_999_999) ≡ 4
clock_drift_millis-abs_example = clock_drift_millis-abs (negsuc 3_999_999)

abbrev text : String
text = "ATTESTATION"

event_type?_iff_example : (event_type? text ≡ some EventType.attestation) ↔ (text ≡ "ATTESTATION")
event_type?_iff_example = event_type?_iff text EventType.attestation

abbrev vote : RawAttestation
vote = record {
  timestamp_ms = pos 1_201_500;
  slot = 100;
  epoch = 3;
  subnet_id = 0;
  should_process = true;
  attester_index = 1;
  committee_index = 2;
  message_size = 200;
  source_epoch = 64;
  target_epoch = 65;
  peer_id = "peer";
  message_id = "message";
  attestation_data_root = "0xaa";
  topic = "beacon_attestation";
  source_root = "0xbb";
  target_root = "0xcc";
  aggregation_bits = "0x01";
  signature = "0x";
}

abbrev vote_event : Attestation
vote_event =
    new_attestation vote (pos 0) chain_clock
      (create_new_client_meta world (sidecar_with []) (pos 0)) "uuid"

abbrev vote_data : AttestationData
vote_data = record {
  gossip = record {
    wallclock_slot = slot_v2 100 (slot_window 100);
    wallclock_epoch = epoch_v2 (epoch_window 3);
    slot = slot_v2 100 (slot_window 100);
    epoch = epoch_v2 (epoch_window 3);
    propagation = 1_500;
    peer_id = "peer";
    topic = "beacon_attestation";
    message_id = "message";
    message_size = 200;
  };
  target_epoch = checkpoint_epoch chain_clock 65;
  source_epoch = checkpoint_epoch chain_clock 64;
  committee_index = 2;
  attester_index = 1;
}

abbrev vote_decorated : DecoratedEvent
vote_decorated = record {
  event = record {
    name = EventName.libp2p_trace_gossipsub_beacon_attestation;
    date_time = pos 1_201_500_000_000;
    id = "uuid";
  };
  client = record (create_new_client_meta world (sidecar_with []) (pos 0)) {
    additional_data = some (AdditionalData.beacon_attestation vote_data);
  };
  payload = EventData.beacon_attestation (attestation_message vote);
}

decorate_checkpoint_epochs_example :
    (vote_data.target_epoch.start_date_time ≡ epoch_start 2)
    × (vote_data.source_epoch.start_date_time ≡ epoch_start 2)
unfolding decorate gossip_data slot_start_diff ◌+ℤ◌ unix_milli
decorate_checkpoint_epochs_example =
    decorate_checkpoint_epochs vote_event vote vote_decorated vote_data 32 epoch_start
      (record { number = λ n. refl; start = λ n. refl }) refl refl refl refl

abbrev unknown : ℕ
unknown = 0

abbrev no_timing : BlockTiming
no_timing = record {
  wallclock_slot = slot_v2 100 (slot_window 100);
  wallclock_epoch = epoch_v2 (epoch_window 3);
  slot = none;
  epoch = none;
  propagation = none;
}

new_block_timing_known_example :
    ((no_timing.slot ≡ none) ↔ (unknown ≡ 0))
    × ((no_timing.epoch ≡ none) ↔ (unknown ≡ 0))
    × ((no_timing.propagation ≡ none) ↔ (unknown ≡ 0))
unfolding new_block_timing
new_block_timing_known_example =
    new_block_timing_known chain_clock (pos 1_201_500_000_000) unknown no_timing refl
