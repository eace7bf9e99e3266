-- ===== src/Tests/World.antt =====
-- Concrete libraries: a chain of 12 second slots and 32 slot epochs, caches that are association
-- lists, sinks that are numbered, and a parser that reads two equal messages.
use xatu_sidecar.Json.{
  Json, natural, number, array, item, empty_array, object, member, empty_object,
}
use xatu_sidecar.Prelude.{
  ℕ, ◌*◌, ◌/◌, String, none, some, List, [], ◌∷◌, str_eq, ◌==◌, if◌then◌else◌,
}
use xatu_sidecar.Prelude.Int.{ℤ, pos, pos_part}
use xatu_sidecar.Outcome.{Outcome, ok, err, Error}
use xatu_sidecar.Wallclock.{Window, Now, Wallclock}
use xatu_sidecar.Event.Source.{Moment}
use xatu_sidecar.Event.BeaconBlock.{RawBeaconBlock}
use xatu_sidecar.Processor.Config.{Config, OutputConfig, Outputs}
use xatu_sidecar.Processor.Externals.{Hasher, Externals}
use xatu_sidecar.Processor.Handler.{Handler}
use xatu_sidecar.Processor.Summary.{new_summary}
use xatu_sidecar.Cache.Duplicate.{new_duplicate_cache}
use xatu_sidecar.Cache.BlockSlot.{new_block_slot_cache}
use xatu_sidecar.Tests.Store.{store_cache}

abbrev pub slot_window : ℕ → Window
slot_window n = record { number = n; start = pos (12_000_000_000 * n) }

abbrev pub epoch_start : ℕ → ℤ
epoch_start n = pos (384_000_000_000 * n)

abbrev pub epoch_window : ℕ → Window
epoch_window n = record { number = n; start = epoch_start n }

abbrev pub now_at : ℕ → Now
now_at t = record {
  slot = slot_window (t / 12_000_000_000);
  epoch = epoch_window (t / 384_000_000_000);
}

abbrev pub chain_clock : Wallclock
chain_clock = record {
  now = λ t. ok (now_at t);
  from_time = λ t. ok (now_at (pos_part t));
  slot_from_number = slot_window;
  epoch_from_slot = λ n. epoch_window (n / 32);
}

abbrev pub block_100 : RawBeaconBlock
block_100 = record {
  timestamp_ms = pos 1_201_500;
  slot = 100;
  epoch = 3;
  proposer_index = 7;
  message_size = 512;
  peer_id = "peer";
  message_id = "message";
  topic = "beacon_block";
  block_root = "0xaa";
}

-- A message of a type with the fields of the block.
abbrev pub typed : String → Json
typed event_type = object (
    member "event_type" (Json.text event_type) (
      member "timestamp_ms" (number (natural 1_201_500)) (
        member "slot" (number (natural 100)) (
          member "epoch" (number (natural 3)) (
            member "proposer_index" (number (natural 7)) (
              member "message_size" (number (natural 512)) (
                member "peer_id" (Json.text "peer") (
                  member "message_id" (Json.text "message") (
                    member "topic" (Json.text "beacon_block")
                      (member "block_root" (Json.text "0xaa") empty_object))))))))))

abbrev unhashed : {A : Type 0} → A → Outcome ℕ
unhashed a = err (Error.external "unhashed")

abbrev hasher : Hasher
hasher = record {
  beacon_block = λ raw. ok raw.slot;
  attestation = unhashed;
  aggregate_and_proof = unhashed;
  blob_sidecar = unhashed;
  data_column_sidecar = unhashed;
  data_column_sidecar_gloas = unhashed;
  execution_payload_envelope = unhashed;
  execution_payload_bid = unhashed;
  payload_attestation_message = unhashed;
  proposer_preferences = unhashed;
  partial_data_column = unhashed;
  partial_data_column_outcome = unhashed;
}

abbrev pub http_output : OutputConfig
http_output = record {
  name = "http";
  sink_type = "http";
  config = "";
  filter_config = "";
  shipping_method = none;
}

abbrev pub incomplete_config : Config
incomplete_config = record {
  outputs = http_output ∷ [];
  ethereum = record {
    network = record { name = "mainnet"; id = 1 };
    genesis_time = 0;
    seconds_per_slot = 12;
    slots_per_epoch = 32;
    implementation = "client";
  };
  client = record { name = "client"; version = "1" };
  name = "sidecar";
  ntp_server = "";
}

abbrev pub outputs : Outputs ℕ
outputs = record {
  validate_output =
      λ o. if str_eq o.name "" then err (Error.external "name is required") else ok tt;
  shipping_method_async = "async";
  new_sink = λ o method. ok (if str_eq method "async" then 1 else 2);
}

-- Sink 9 does not stop.
abbrev pub world : Externals
world = record {
  duplicates = store_cache ℤ;
  slots = store_cache ℕ;
  hash = hasher;
  Sink = ℕ;
  outputs = outputs;
  send = λ sent s event. if s == 2 then err (Error.external "full") else ok tt;
  start_sink = λ s. ok tt;
  stop_sink = λ s. if s == 9 then err (Error.external "stuck") else ok tt;
  new_wallclock = λ genesis duration slots. some chain_clock;
  ntp_query = λ t server. ok (record { validity = ok tt; clock_offset = pos 3_000_000 });
  new_scheduler = ok tt;
  new_job = ok tt;
  shutdown_scheduler = ok tt;
  parse_config = λ text. ok (
      some (record {
        log_level = none;
        processor = if str_eq text "log_level: info" then none else some incomplete_config;
      }));
  parse_json = λ text.
      if str_eq text "?"
      then err (Error.external "syntax")
      else ok (array (item (typed text) (item (typed text) empty_array)));
  event_name_text = λ name. "topic";
  build = record { version = "v1"; commit = "unknown"; date = "" };
  goos = "linux";
}

abbrev pub sidecar_with : List ℕ → Handler world
sidecar_with sinks = record {
  sinks = sinks;
  config = incomplete_config;
  duplicate_cache = new_duplicate_cache world.duplicates;
  block_slots = new_block_slot_cache world.slots;
  wallclock = chain_clock;
  summary = new_summary;
  clock_drift = pos 0;
  id = "id";
  sent = [];
}

-- A moment in a slot, with the three readings of the clock at its start.
abbrev pub in_slot : ℕ → String → Moment
in_slot n uuid = record {
  resolve_at = 12_000_000_000 * n;
  dedup_at = 12_000_000_000 * n;
  slot_at = 12_000_000_000 * n;
  uuid = uuid;
}
