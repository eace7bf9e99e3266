-- ===== src/Event/Gossip.antt =====
-- `getAdditionalData` as the files of pkg/event/gossipsub share it, and the windows in a message.
use xatu_sidecar.Prelude.{ℕ, String, some}
use xatu_sidecar.Prelude.Int.{ℤ}
use xatu_sidecar.Outcome.{Outcome, ok, err, panic, wallclock_time}
use xatu_sidecar.Wallclock.{Wallclock, Window}
use xatu_sidecar.Proto.Additional.{SlotV2, EpochV2, GossipData}
use xatu_sidecar.Event.Instant.{slot_start_diff}

abbrev pub slot_v2 : ℕ → Window → SlotV2
slot_v2 number w = record { number = number; start_date_time = w.start }

abbrev pub epoch_v2 : Window → EpochV2
epoch_v2 w = record { number = some w.number; start_date_time = w.start }

-- The message's own slot is placed by its number, and what the wallclock says of the timestamp, on
-- the uncorrected clock of the client, stands beside it.
unfoldable pub gossip_data :
    Wallclock
    → ℤ
    → (slot : ℕ) (number : ℕ) (peer_id topic message_id : String) (message_size : ℕ)
    → Outcome GossipData
gossip_data w timestamp slot number peer_id topic message_id message_size =
    elim (w.from_time timestamp) [
      | ok current ↦ ok (record {
        wallclock_slot = slot_v2 current.slot.number current.slot;
        wallclock_epoch = epoch_v2 current.epoch;
        slot = slot_v2 number (w.slot_from_number slot);
        epoch = epoch_v2 (w.epoch_from_slot slot);
        propagation = slot_start_diff timestamp (w.slot_from_number slot).start;
        peer_id = peer_id;
        topic = topic;
        message_id = message_id;
        message_size = message_size;
      })
      | err e ↦ err (wallclock_time e)
      | panic ↦ panic
    ]
