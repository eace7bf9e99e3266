-- ===== src/Event/Decoding/Returning.antt =====
-- On panics in the decoding of a message into a raw event of pkg/event/gossipsub.
use xatu_sidecar.Json.{Json}
use xatu_sidecar.Json.Returning.{
  pure-Returning, >>=-Returning, unmarshal-Returning, boolean_field-Returning,
  int64_field-Returning, text_field-Returning, text_pointer_field-Returning, uint32_field-Returning,
  uint64_field-Returning,
}
use xatu_sidecar.Event.Returning.{Returns}
use xatu_sidecar.Event.Decoding.Blocks.{
  decode_beacon_block, decode_attestation, decode_aggregate_and_proof, decode_blob_sidecar,
  decode_data_column_sidecar,
}
use xatu_sidecar.Event.Decoding.Payloads.{
  decode_data_column_sidecar_gloas, decode_execution_payload_envelope, decode_execution_payload_bid,
  decode_payload_attestation_message, decode_proposer_preferences,
}
use xatu_sidecar.Event.Decoding.Partials.{
  decode_partial_data_column, decode_data_column_completed, decode_partial_data_column_outcome,
}

pub decode_beacon_block-Returns : (message : Json) → Returns (decode_beacon_block message)
unfolding decode_beacon_block
decode_beacon_block-Returns = unmarshal-Returning (
    >>=-Returning (int64_field-Returning "timestamp_ms") λ _.
      >>=-Returning (uint64_field-Returning "slot") λ _.
        >>=-Returning (uint64_field-Returning "epoch") λ _.
          >>=-Returning (uint64_field-Returning "proposer_index") λ _.
            >>=-Returning (uint32_field-Returning "message_size") λ _.
              >>=-Returning (text_field-Returning "peer_id") λ _.
                >>=-Returning (text_field-Returning "message_id") λ _.
                  >>=-Returning (text_field-Returning "topic")
                    λ _. >>=-Returning (text_field-Returning "block_root") λ _. pure-Returning _)

pub decode_attestation-Returns : (message : Json) → Returns (decode_attestation message)
unfolding decode_attestation
decode_attestation-Returns = unmarshal-Returning (
    >>=-Returning (uint64_field-Returning "slot") λ _.
      >>=-Returning (uint64_field-Returning "epoch") λ _.
        >>=-Returning (uint64_field-Returning "subnet_id") λ _.
          >>=-Returning (int64_field-Returning "timestamp_ms") λ _.
            >>=-Returning (uint64_field-Returning "source_epoch") λ _.
              >>=-Returning (uint64_field-Returning "target_epoch") λ _.
                >>=-Returning (uint64_field-Returning "committee_index") λ _.
                  >>=-Returning (uint64_field-Returning "attester_index") λ _.
                    >>=-Returning (uint32_field-Returning "message_size") λ _.
                      >>=-Returning (boolean_field-Returning "should_process") λ _.
                        >>=-Returning (text_field-Returning "peer_id") λ _.
                          >>=-Returning (text_field-Returning "message_id") λ _.
                            >>=-Returning (text_field-Returning "attestation_data_root") λ _.
                              >>=-Returning (text_field-Returning "topic") λ _.
                                >>=-Returning (text_field-Returning "source_root") λ _.
                                  >>=-Returning (text_field-Returning "target_root") λ _.
                                    >>=-Returning (text_field-Returning "aggregation_bits") λ _.
                                      >>=-Returning (text_field-Returning "signature")
                                        λ _. pure-Returning _)

pub decode_aggregate_and_proof-Returns :
    (message : Json) → Returns (decode_aggregate_and_proof message)
unfolding decode_aggregate_and_proof
decode_aggregate_and_proof-Returns = unmarshal-Returning (
    >>=-Returning (uint64_field-Returning "slot") λ _.
      >>=-Returning (uint64_field-Returning "epoch") λ _.
        >>=-Returning (uint64_field-Returning "aggregator_index") λ _.
          >>=-Returning (int64_field-Returning "timestamp_ms") λ _.
            >>=-Returning (uint64_field-Returning "source_epoch") λ _.
              >>=-Returning (uint64_field-Returning "target_epoch") λ _.
                >>=-Returning (uint64_field-Returning "committee_index") λ _.
                  >>=-Returning (uint32_field-Returning "message_size") λ _.
                    >>=-Returning (text_field-Returning "peer_id") λ _.
                      >>=-Returning (text_field-Returning "message_id") λ _.
                        >>=-Returning (text_field-Returning "attestation_data_root") λ _.
                          >>=-Returning (text_field-Returning "topic") λ _.
                            >>=-Returning (text_field-Returning "source_root") λ _.
                              >>=-Returning (text_field-Returning "target_root") λ _.
                                >>=-Returning (text_field-Returning "aggregation_bits") λ _.
                                  >>=-Returning (text_field-Returning "signature")
                                    λ _. pure-Returning _)

pub decode_blob_sidecar-Returns : (message : Json) → Returns (decode_blob_sidecar message)
unfolding decode_blob_sidecar
decode_blob_sidecar-Returns = unmarshal-Returning (
    >>=-Returning (int64_field-Returning "timestamp_ms") λ _.
      >>=-Returning (uint64_field-Returning "slot") λ _.
        >>=-Returning (uint64_field-Returning "epoch") λ _.
          >>=-Returning (uint64_field-Returning "proposer_index") λ _.
            >>=-Returning (uint64_field-Returning "blob_index") λ _.
              >>=-Returning (uint32_field-Returning "message_size") λ _.
                >>=-Returning (text_field-Returning "peer_id") λ _.
                  >>=-Returning (text_field-Returning "message_id") λ _.
                    >>=-Returning (text_field-Returning "topic") λ _.
                      >>=-Returning (text_field-Returning "block_root") λ _.
                        >>=-Returning (text_field-Returning "parent_root") λ _.
                          >>=-Returning (text_field-Returning "state_root") λ _.
                            >>=-Returning (text_pointer_field-Returning "client")
                              λ _. pure-Returning _)

pub decode_data_column_sidecar-Returns :
    (message : Json) → Returns (decode_data_column_sidecar message)
unfolding decode_data_column_sidecar
decode_data_column_sidecar-Returns = unmarshal-Returning (
    >>=-Returning (int64_field-Returning "timestamp_ms") λ _.
      >>=-Returning (uint64_field-Returning "slot") λ _.
        >>=-Returning (uint64_field-Returning "epoch") λ _.
          >>=-Returning (uint64_field-Returning "proposer_index") λ _.
            >>=-Returning (uint64_field-Returning "column_index") λ _.
              >>=-Returning (uint32_field-Returning "kzg_commitments_count") λ _.
                >>=-Returning (uint32_field-Returning "message_size") λ _.
                  >>=-Returning (text_field-Returning "peer_id") λ _.
                    >>=-Returning (text_field-Returning "message_id") λ _.
                      >>=-Returning (text_field-Returning "topic") λ _.
                        >>=-Returning (text_field-Returning "block_root") λ _.
                          >>=-Returning (text_field-Returning "parent_root") λ _.
                            >>=-Returning (text_field-Returning "state_root") λ _.
                              >>=-Returning (text_pointer_field-Returning "client")
                                λ _. pure-Returning _)

pub decode_data_column_sidecar_gloas-Returns :
    (message : Json) → Returns (decode_data_column_sidecar_gloas message)
unfolding decode_data_column_sidecar_gloas
decode_data_column_sidecar_gloas-Returns = unmarshal-Returning (
    >>=-Returning (int64_field-Returning "timestamp_ms") λ _.
      >>=-Returning (uint64_field-Returning "slot") λ _.
        >>=-Returning (uint64_field-Returning "epoch") λ _.
          >>=-Returning (uint64_field-Returning "column_index") λ _.
            >>=-Returning (uint32_field-Returning "message_size") λ _.
              >>=-Returning (text_field-Returning "peer_id") λ _.
                >>=-Returning (text_field-Returning "message_id") λ _.
                  >>=-Returning (text_field-Returning "topic") λ _.
                    >>=-Returning (text_field-Returning "block_root") λ _.
                      >>=-Returning (text_pointer_field-Returning "client") λ _. pure-Returning _)

pub decode_execution_payload_envelope-Returns :
    (message : Json) → Returns (decode_execution_payload_envelope message)
unfolding decode_execution_payload_envelope
decode_execution_payload_envelope-Returns = unmarshal-Returning (
    >>=-Returning (int64_field-Returning "timestamp_ms") λ _.
      >>=-Returning (uint64_field-Returning "slot") λ _.
        >>=-Returning (uint64_field-Returning "epoch") λ _.
          >>=-Returning (uint64_field-Returning "builder_index") λ _.
            >>=-Returning (uint32_field-Returning "message_size") λ _.
              >>=-Returning (text_field-Returning "peer_id") λ _.
                >>=-Returning (text_field-Returning "message_id") λ _.
                  >>=-Returning (text_field-Returning "topic") λ _.
                    >>=-Returning (text_field-Returning "beacon_block_root") λ _.
                      >>=-Returning (text_field-Returning "block_hash") λ _.
                        >>=-Returning (text_field-Returning "state_root") λ _. pure-Returning _)

pub decode_execution_payload_bid-Returns :
    (message : Json) → Returns (decode_execution_payload_bid message)
unfolding decode_execution_payload_bid
decode_execution_payload_bid-Returns = unmarshal-Returning (
    >>=-Returning (int64_field-Returning "timestamp_ms") λ _.
      >>=-Returning (uint64_field-Returning "slot") λ _.
        >>=-Returning (uint64_field-Returning "epoch") λ _.
          >>=-Returning (uint64_field-Returning "builder_index") λ _.
            >>=-Returning (uint64_field-Returning "value") λ _.
              >>=-Returning (uint64_field-Returning "execution_payment") λ _.
                >>=-Returning (uint64_field-Returning "gas_limit") λ _.
                  >>=-Returning (uint32_field-Returning "blob_kzg_commitment_count") λ _.
                    >>=-Returning (uint32_field-Returning "message_size") λ _.
                      >>=-Returning (text_field-Returning "peer_id") λ _.
                        >>=-Returning (text_field-Returning "message_id") λ _.
                          >>=-Returning (text_field-Returning "topic") λ _.
                            >>=-Returning (text_field-Returning "block_hash") λ _.
                              >>=-Returning (text_field-Returning "parent_block_hash") λ _.
                                >>=-Returning (text_field-Returning "fee_recipient")
                                  λ _. pure-Returning _)

pub decode_payload_attestation_message-Returns :
    (message : Json) → Returns (decode_payload_attestation_message message)
unfolding decode_payload_attestation_message
decode_payload_attestation_message-Returns = unmarshal-Returning (
    >>=-Returning (int64_field-Returning "timestamp_ms") λ _.
      >>=-Returning (uint64_field-Returning "slot") λ _.
        >>=-Returning (uint64_field-Returning "epoch") λ _.
          >>=-Returning (uint64_field-Returning "validator_index") λ _.
            >>=-Returning (uint32_field-Returning "message_size") λ _.
              >>=-Returning (boolean_field-Returning "payload_present") λ _.
                >>=-Returning (boolean_field-Returning "blob_data_available") λ _.
                  >>=-Returning (text_field-Returning "peer_id") λ _.
                    >>=-Returning (text_field-Returning "message_id") λ _.
                      >>=-Returning (text_field-Returning "topic") λ _.
                        >>=-Returning (text_field-Returning "beacon_block_root")
                          λ _. pure-Returning _)

pub decode_proposer_preferences-Returns :
    (message : Json) → Returns (decode_proposer_preferences message)
unfolding decode_proposer_preferences
decode_proposer_preferences-Returns = unmarshal-Returning (
    >>=-Returning (int64_field-Returning "timestamp_ms") λ _.
      >>=-Returning (uint64_field-Returning "slot") λ _.
        >>=-Returning (uint64_field-Returning "epoch") λ _.
          >>=-Returning (uint64_field-Returning "validator_index") λ _.
            >>=-Returning (uint64_field-Returning "target_gas_limit") λ _.
              >>=-Returning (uint32_field-Returning "message_size") λ _.
                >>=-Returning (text_field-Returning "peer_id") λ _.
                  >>=-Returning (text_field-Returning "message_id") λ _.
                    >>=-Returning (text_field-Returning "topic") λ _.
                      >>=-Returning (text_field-Returning "fee_recipient") λ _. pure-Returning _)

pub decode_partial_data_column-Returns :
    (message : Json) → Returns (decode_partial_data_column message)
unfolding decode_partial_data_column
decode_partial_data_column-Returns = unmarshal-Returning (
    >>=-Returning (int64_field-Returning "timestamp_ms") λ _.
      >>=-Returning (text_field-Returning "direction") λ _.
        >>=-Returning (text_field-Returning "capture_point") λ _.
          >>=-Returning (text_field-Returning "peer_id") λ _.
            >>=-Returning (text_field-Returning "topic") λ _.
              >>=-Returning (text_field-Returning "group_id") λ _.
                >>=-Returning (uint32_field-Returning "group_version") λ _.
                  >>=-Returning (text_field-Returning "block_root") λ _.
                    >>=-Returning (uint64_field-Returning "slot") λ _.
                      >>=-Returning (uint64_field-Returning "column_index") λ _.
                        >>=-Returning (boolean_field-Returning "has_message") λ _.
                          >>=-Returning (uint32_field-Returning "message_size") λ _.
                            >>=-Returning (uint32_field-Returning "cells_count") λ _.
                              >>=-Returning (text_field-Returning "cells_bitmap") λ _.
                                >>=-Returning (uint32_field-Returning "bitmap_length") λ _.
                                  >>=-Returning (boolean_field-Returning "has_header") λ _.
                                    >>=-Returning (uint32_field-Returning "kzg_commitments_count")
                                      λ _.
                                        >>=-Returning (uint64_field-Returning "proposer_index") λ _.
                                          >>=-Returning (boolean_field-Returning "has_metadata")
                                            λ _.
                                              >>=-Returning (uint32_field-Returning "metadata_size")
                                                λ _.
                                                  >>=-Returning
                                                    (uint32_field-Returning
                                                      "metadata_available_count")
                                                    λ _.
                                                      >>=-Returning
                                                        (uint32_field-Returning
                                                          "metadata_requests_count")
                                                        λ _.
                                                          >>=-Returning
                                                            (text_field-Returning
                                                            "metadata_available")
                                                            λ _.
                                                            >>=-Returning
                                                            (text_field-Returning
                                                            "metadata_requests")
                                                            λ _. pure-Returning _)

pub decode_data_column_completed-Returns :
    (message : Json) → Returns (decode_data_column_completed message)
unfolding decode_data_column_completed
decode_data_column_completed-Returns = unmarshal-Returning (
    >>=-Returning (int64_field-Returning "timestamp_ms") λ _.
      >>=-Returning (text_field-Returning "peer_id") λ _.
        >>=-Returning (text_field-Returning "topic") λ _.
          >>=-Returning (text_field-Returning "block_root") λ _.
            >>=-Returning (uint64_field-Returning "slot") λ _.
              >>=-Returning (uint64_field-Returning "column_index") λ _.
                >>=-Returning (text_field-Returning "completed_via") λ _.
                  >>=-Returning (uint32_field-Returning "cells_total") λ _.
                    >>=-Returning (uint32_field-Returning "cells_from_gossip") λ _.
                      >>=-Returning (uint32_field-Returning "cells_from_el") λ _.
                        >>=-Returning (uint32_field-Returning "contributing_peers") λ _.
                          >>=-Returning (uint32_field-Returning "kzg_commitments_count")
                            λ _. pure-Returning _)

pub decode_partial_data_column_outcome-Returns :
    (message : Json) → Returns (decode_partial_data_column_outcome message)
unfolding decode_partial_data_column_outcome
decode_partial_data_column_outcome-Returns = unmarshal-Returning (
    >>=-Returning (int64_field-Returning "timestamp_ms") λ _.
      >>=-Returning (text_field-Returning "peer_id") λ _.
        >>=-Returning (text_field-Returning "topic") λ _.
          >>=-Returning (text_field-Returning "group_id") λ _.
            >>=-Returning (text_field-Returning "block_root") λ _.
              >>=-Returning (uint64_field-Returning "slot") λ _.
                >>=-Returning (uint64_field-Returning "column_index") λ _.
                  >>=-Returning (text_field-Returning "stage") λ _.
                    >>=-Returning (text_field-Returning "outcome") λ _.
                      >>=-Returning (text_field-Returning "reason") λ _.
                        >>=-Returning (uint32_field-Returning "cells_count") λ _.
                          >>=-Returning (uint32_field-Returning "new_cells_count")
                            λ _. pure-Returning _)
