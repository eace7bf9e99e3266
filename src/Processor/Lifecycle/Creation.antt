-- ===== src/Processor/Lifecycle/Creation.antt =====
-- What `NewHandler` and `syncClockDrift` of pkg/processor/handler.go leave behind.
use xatu_sidecar.Prelude.{ℕ, String, ◌≡◌, refl, subst, ◌≢◌, ◌⊎◌, inl, inr, some, arith}
use xatu_sidecar.Prelude.Int.{ℤ}
use xatu_sidecar.Outcome.{Outcome, ok, err, panic, continue}
use xatu_sidecar.Cache.BlockSlot.{new_block_slot_cache}
use xatu_sidecar.Cache.Duplicate.{new_duplicate_cache}
use xatu_sidecar.Processor.Config.{Config, validate, create_sinks}
use xatu_sidecar.Processor.Config.Sinks.{Made, create_sinks-Made}
use xatu_sidecar.Processor.Summary.{new_summary}
use xatu_sidecar.Processor.Externals.{Externals, NtpResponse}
use xatu_sidecar.Processor.Handler.{Handler}
use xatu_sidecar.Processor.Lifecycle.{new_handler, sync_clock_drift}

module _ (X : Externals) where
  -- A handler that has handled nothing.
  pub record IsFresh (uuid : String) (c : Config) (h : Handler X) : Type 0 where
    pub id : h.id ≡ uuid
    pub made : Made X.outputs c.outputs h.sinks h.config.outputs
    pub config : h.config ≡ record c { outputs = h.config.outputs }
    pub summary : h.summary ≡ new_summary
    pub duplicate_cache : h.duplicate_cache ≡ new_duplicate_cache X.duplicates
    pub block_slots : h.block_slots ≡ new_block_slot_cache X.slots
    pub clock_drift : h.clock_drift ≡ ℤ.pos 0

  -- The steps of a creation that succeeds.
  record Steps (uuid : String) (c : Config) (h : Handler X) : Type 0 where
    valid : validate X.outputs c ≡ ok tt
    sinks : (create_sinks X.outputs c).0 ≡ ok h.sinks
    config : (create_sinks X.outputs c).1 ≡ h.config
    id : h.id ≡ uuid
    summary : h.summary ≡ new_summary
    duplicate_cache : h.duplicate_cache ≡ new_duplicate_cache X.duplicates
    block_slots : h.block_slots ≡ new_block_slot_cache X.slots
    clock_drift : h.clock_drift ≡ ℤ.pos 0

  new_handler-Steps :
      (uuid : String) (c : Config) (h : Handler X)
      → new_handler X uuid (some c) ≡ ok h
      → Steps uuid c h
  unfolding new_handler
  new_handler-Steps uuid c h p = record {
    valid = ground arith;
    sinks = ground arith;
    config = ground arith;
    id = ground arith;
    summary = ground arith;
    duplicate_cache = ground arith;
    block_slots = ground arith;
    clock_drift = ground arith;
  }

  -- A handler is created only of a configuration that is valid. It has the given id, a sink for
  -- each output, made of it in order with its shipping method or else the asynchronous one, the
  -- configuration with those defaults, empty caches and counters, and no clock drift.
  pub new_handler-IsFresh :
      (uuid : String) (c : Config) (h : Handler X)
      → new_handler X uuid (some c) ≡ ok h
      → (validate X.outputs c ≡ ok tt) × IsFresh uuid c h
  new_handler-IsFresh uuid c h p =
      let s = new_handler-Steps uuid c h p in
      let (made, defaults) = create_sinks-Made X.outputs c h.sinks s.sinks in
      (
        s.valid,
        record {
          id = s.id;
          made = subst (λ d. Made X.outputs c.outputs h.sinks d.outputs) s.config made;
          config = subst (λ (d : Config). d ≡ record c { outputs = d.outputs }) s.config defaults;
          summary = s.summary;
          duplicate_cache = s.duplicate_cache;
          block_slots = s.block_slots;
          clock_drift = s.clock_drift;
        },
      )

  -- What a clock synchronisation makes of a handler.
  abbrev pub Synced : ℕ → Handler X → Outcome (Unit {0}) × Handler X → Type 0
  Synced t h res =
      ((res.0 ≢ ok tt) × (res.1 ≡ h))
      ⊎ ((r : NtpResponse) × (X.ntp_query t h.config.ntp_server ≡ ok r)
          × (r.validity ≡ ok tt)
          × (res.0 ≡ ok tt)
          × (res.1 ≡ record h { clock_drift = r.clock_offset }))

  -- A clock synchronisation that succeeds sets the clock drift to the offset of an NTP response that
  -- is valid, and changes nothing else of the handler; if the query or the response's validation
  -- fails, it reports no success, and the handler is left as it was.
  pub sync_clock_drift-Synced : (t : ℕ) (h : Handler X) → Synced t h (sync_clock_drift X t h)
  unfolding sync_clock_drift
  sync_clock_drift-Synced t h = go (X.ntp_query t h.config.ntp_server) refl
    where
      valid : (r : NtpResponse) (v : Outcome (Unit {0})) → Outcome (Unit {0}) × Handler X
      valid r v = continue (v, h) (λ _ s. (ok tt, record s { clock_drift = r.clock_offset }))

      of_validity :
          (r : NtpResponse) (v : Outcome (Unit {0}))
          → X.ntp_query t h.config.ntp_server ≡ ok r
          → r.validity ≡ v
          → Synced t h (valid r v)
      of_validity r (ok u) p q = inr (r, p, q, refl, refl)
      of_validity r (err e) p q = inl ((λ x. cc x), refl)
      of_validity r panic p q = inl ((λ x. cc x), refl)

      query : Outcome NtpResponse → Outcome (Unit {0}) × Handler X
      query o =
          continue (o, h)
            (λ r s.
              continue (r.validity, s)
                (λ _ s'. (ok tt, record s' { clock_drift = r.clock_offset })))

      go : (o : Outcome NtpResponse) → X.ntp_query t h.config.ntp_server ≡ o → Synced t h (query o)
      go (ok r) p = of_validity r r.validity p refl
      go (err e) p = inl ((λ x. cc x), refl)
      go panic p = inl ((λ x. cc x), refl)
