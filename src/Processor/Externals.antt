-- ===== src/Processor/Externals.antt =====
-- What pkg/processor calls and this repository does not hold: the caches and the clock, the JSON
-- parser and the structure hash at the types of the events, the outputs and their sinks, the NTP
-- client, and what the build and the platform set.
use xatu_sidecar.Prelude.{ℕ, String, Option, List}
use xatu_sidecar.Prelude.Int.{ℤ}
use xatu_sidecar.Outcome.{Outcome}
use xatu_sidecar.Json.{Json}
use xatu_sidecar.Ttl.{TtlCache}
use xatu_sidecar.Wallclock.{Wallclock}
use xatu_sidecar.Version.{Build}
use xatu_sidecar.Proto.{EventName, DecoratedEvent}
use xatu_sidecar.Processor.Config.{Outputs, Config}
use xatu_sidecar.Event.BeaconBlock.{RawBeaconBlock}
use xatu_sidecar.Event.Attestation.{RawAttestation}
use xatu_sidecar.Event.AggregateAndProof.{RawAggregateAndProof}
use xatu_sidecar.Event.BlobSidecar.{RawBlobSidecar}
use xatu_sidecar.Event.DataColumnSidecar.{RawDataColumnSidecar}
use xatu_sidecar.Event.DataColumnSidecarGloas.{RawDataColumnSidecarGloas}
use xatu_sidecar.Event.ExecutionPayloadEnvelope.{RawExecutionPayloadEnvelope}
use xatu_sidecar.Event.ExecutionPayloadBid.{RawExecutionPayloadBid}
use xatu_sidecar.Event.PayloadAttestationMessage.{RawPayloadAttestationMessage}
use xatu_sidecar.Event.ProposerPreferences.{RawProposerPreferences}
use xatu_sidecar.Event.PartialDataColumn.{RawPartialDataColumn}
use xatu_sidecar.Event.PartialDataColumnOutcome.{RawPartialDataColumnOutcome}

-- `hashstructure.Hash(event, FormatV2, nil)` at each raw event that is hashed.
pub record Hasher : Type 0 where
  pub beacon_block : RawBeaconBlock → Outcome ℕ
  pub attestation : RawAttestation → Outcome ℕ
  pub aggregate_and_proof : RawAggregateAndProof → Outcome ℕ
  pub blob_sidecar : RawBlobSidecar → Outcome ℕ
  pub data_column_sidecar : RawDataColumnSidecar → Outcome ℕ
  pub data_column_sidecar_gloas : RawDataColumnSidecarGloas → Outcome ℕ
  pub execution_payload_envelope : RawExecutionPayloadEnvelope → Outcome ℕ
  pub execution_payload_bid : RawExecutionPayloadBid → Outcome ℕ
  pub payload_attestation_message : RawPayloadAttestationMessage → Outcome ℕ
  pub proposer_preferences : RawProposerPreferences → Outcome ℕ
  pub partial_data_column : RawPartialDataColumn → Outcome ℕ
  pub partial_data_column_outcome : RawPartialDataColumnOutcome → Outcome ℕ

-- What is read of an NTP response: `Validate()`, and the clock's offset in nanoseconds.
pub record NtpResponse : Type 0 where
  pub validity : Outcome (Unit {0})
  pub clock_offset : ℤ

-- `Config` of main.go: the log level and the processor's configuration are pointers.
pub record SidecarConfig : Type 0 where
  pub log_level : Option String
  pub processor : Option Config

pub record Externals : Type 1 where
  pub duplicates : TtlCache ℤ
  pub slots : TtlCache ℕ
  pub hash : Hasher
  pub Sink : Type 0
  pub outputs : Outputs Sink
  -- `sink.HandleNewDecoratedEvent`, which may depend on all that was sent before, newest first
  pub send : List (Sink × DecoratedEvent) → Sink → DecoratedEvent → Outcome (Unit {0})
  -- `sink.Start` and `sink.Stop`
  pub start_sink : Sink → Outcome (Unit {0})
  pub stop_sink : Sink → Outcome (Unit {0})
  -- `ethwallclock.NewEthereumBeaconChain` of the genesis time and the duration of a slot, in
  -- nanoseconds, and the slots per epoch
  pub new_wallclock : ℤ → ℤ → ℕ → Option Wallclock
  -- `ntp.Query` of a server, at a reading of the clock
  pub ntp_query : ℕ → String → Outcome NtpResponse
  -- the scheduler: its creation, its one job, and its shutdown
  pub new_scheduler : Outcome (Unit {0})
  pub new_job : Outcome (Unit {0})
  pub shutdown_scheduler : Outcome (Unit {0})
  -- `yaml.Unmarshal` into a pointer, which stays nil for an empty document
  pub parse_config : String → Outcome (Option SidecarConfig)
  -- what `json.Unmarshal` reads of a text before it looks at the types
  pub parse_json : String → Outcome Json
  -- `event.GetName().String()`
  pub event_name_text : EventName → String
  pub build : Build
  pub goos : String
