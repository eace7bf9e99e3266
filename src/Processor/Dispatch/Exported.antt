-- ===== src/Processor/Dispatch/Exported.antt =====
-- When an event that is handled by pkg/processor/handler.go is exported.
pub mod Consensus
pub mod Message
use xatu_sidecar.Json.{Json}
use xatu_sidecar.Event.Decoding.{decode_beacon_block}
use xatu_sidecar.Prelude.{ℕ, ◌≡◌, refl, ◌∙◌, Bool, false, none, some}
use xatu_sidecar.Prelude.Int.{ℤ}
use xatu_sidecar.Outcome.{Outcome, ok, Method}
use xatu_sidecar.Decimal.{decimal}
use xatu_sidecar.Ttl.{TtlCache, TtlLaws}
use xatu_sidecar.Cache.BlockSlot.{resolve}
use xatu_sidecar.Cache.Field
use xatu_sidecar.Cache.Field.{CacheField}
use xatu_sidecar.Proto.{DecoratedEvent}
use xatu_sidecar.Event.Source.{Source, Moment}
use xatu_sidecar.Event.Freshness.{too_old, ignore_duplicate, should_ignore_hashed}
use xatu_sidecar.Event.BeaconBlock
use xatu_sidecar.Event.BeaconBlock.{RawBeaconBlock, new_beacon_block}
use xatu_sidecar.Processor.Externals.{Externals}
use xatu_sidecar.Processor.Handler.{Handler, create_new_client_meta, count, topic_of, export_event}
use xatu_sidecar.Processor.Handler.Delivery.{CalmSinks, delivered, handle_new_decorated_event_all}
use xatu_sidecar.Processor.Dispatch.{handle_beacon_block}

module _ (D : TtlCache ℤ) (laws : TtlLaws D) where
  -- A raw event whose key is new gets the answer of the last test.
  pub should_ignore_hashed-new :
      {Raw : Type 0} (hash : Raw → Outcome ℕ) (rest : Raw → Outcome Bool) (t k : ℕ) (e : Source Raw)
      (raw : Raw) (c : D.Cache)
      → e.raw ≡ some raw
      → hash raw ≡ ok k
      → D.item c t (decimal k) ≡ none
      → (should_ignore_hashed D hash rest t e c).0 ≡ rest raw
  unfolding should_ignore_hashed ignore_duplicate
  should_ignore_hashed-new hash rest t k e raw c p q r =
      let miss = (laws.get_or_set_miss t (decimal k) e.now c r).1 in rw (p, q, miss) refl

module _ (X : Externals) where
  -- What is left when an event has been exported.
  abbrev pub Sent : DecoratedEvent → Handler X → Outcome (Unit {0}) × Handler X → Type 0
  Sent event h res =
      (res.0 ≡ ok tt)
      × (res.1.summary ≡ (count X (topic_of X event) h).summary)
      × (res.1.sent ≡ delivered h.sinks event h.sent)

  pub export_event-Sent :
      CalmSinks X
      → (field : CacheField X.duplicates) (m : Method X.duplicates.Cache Bool)
        (decorated : Outcome DecoratedEvent) (event : DecoratedEvent) (h : Handler X)
      → (m (field.get h.duplicate_cache)).0 ≡ ok false
      → decorated ≡ ok event
      → Sent event h (export_event X field m decorated h)
  unfolding export_event
  export_event-Sent calm field m decorated event h p q =
      let h' : Handler X = record h {
        duplicate_cache = field.put (m (field.get h.duplicate_cache)).1 h.duplicate_cache;
      } in
      rw (p, q, handle_new_decorated_event_all X calm event h') (refl, refl, refl)
