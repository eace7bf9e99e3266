-- ===== src/Proto.antt =====
-- The messages of github.com/ethpandaops/xatu/pkg/proto that the sidecar builds, as records of the
-- fields that it sets. A wrapper that is always set is its value, one that may be nil is an `Option`,
-- and a `timestamppb` is its instant in nanoseconds.
pub mod Payload
pub mod Additional
use xatu_sidecar.Prelude.{ℕ, String, Option}
use xatu_sidecar.Prelude.Int.{ℤ}
use Payload.{EventData}
use Additional.{AdditionalData}

-- `xatu.Event_Name`
pub data EventName : Type 0 where
  libp2p_trace_gossipsub_beacon_block : EventName
  libp2p_trace_gossipsub_beacon_attestation : EventName
  libp2p_trace_gossipsub_aggregate_and_proof : EventName
  libp2p_trace_gossipsub_blob_sidecar : EventName
  libp2p_trace_gossipsub_data_column_sidecar : EventName
  libp2p_trace_gossipsub_execution_payload_envelope : EventName
  libp2p_trace_gossipsub_execution_payload_bid : EventName
  libp2p_trace_gossipsub_payload_attestation_message : EventName
  libp2p_trace_gossipsub_proposer_preferences : EventName
  libp2p_trace_gossipsub_partial_data_column : EventName
  libp2p_trace_data_column_completed : EventName
  libp2p_trace_gossipsub_partial_data_column_outcome : EventName

-- `xatu.Event`
pub record XatuEvent : Type 0 where
  pub name : EventName
  pub date_time : ℤ
  pub id : String

-- `xatu.ClientMeta`, whose labels are always the empty map
pub record ClientMeta : Type 0 where
  pub name : String
  pub version : String
  pub id : String
  pub implementation : String
  pub module_name : String
  pub os : String
  pub clock_drift : ℕ
  pub network_name : String
  pub network_id : ℕ
  pub consensus_implementation : String
  pub consensus_version : String
  pub additional_data : Option AdditionalData

-- `xatu.DecoratedEvent`, its `Meta` being the client's
pub record DecoratedEvent : Type 0 where
  pub event : XatuEvent
  pub client : ClientMeta
  pub payload : EventData
