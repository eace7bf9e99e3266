-- ===== src/Processor/Dispatch/Learning/History.antt =====
-- What the block slots of pkg/processor/handler.go hold after any sequence of raw events.
use xatu_sidecar.Prelude.{
  ℕ, String, ◌≡◌, refl, ap, ◌∙◌, Option, none, some, List, [], ◌∷◌, str_eq, ltb, if◌then◌else◌,
}
use xatu_sidecar.Json.{Json}
use xatu_sidecar.Outcome.{Outcome, ok, err, unsupported_event_type}
use xatu_sidecar.Ttl.{TtlLaws}
use xatu_sidecar.Cache.BlockSlot.{resolve, new_block_slot_cache}
use xatu_sidecar.Cache.BlockSlot.Learned.{Call, last_slot, Ordered, replay, resolve-last_slot}
use xatu_sidecar.Event.Source.{Moment}
use xatu_sidecar.Processor.Externals.{Externals}
use xatu_sidecar.Processor.EventType.{EventType, event_type?}
use xatu_sidecar.Processor.Handler.{Handler, resolve_slot}
use xatu_sidecar.Processor.Dispatch.{handle, handle_raw_event}
use xatu_sidecar.Processor.Dispatch.Learning.Steps.{slot_call, resolved, handle-slots}

-- One raw event: when it comes, its type's text and its message.
pub record Arrival : Type 0 where
  pub moment : Moment
  pub event_type : String
  pub message : Json

abbrev recorded : Option Call → List Call → List Call
recorded none calls = calls
recorded (some call) calls = call ∷ calls

abbrev call_of : Option EventType → Moment → Json → Option Call
call_of none m message = none
call_of (some t) m message = slot_call t m message

-- The calls of `Resolve` that raw events make, both newest first.
unfoldable pub calls_of : List Arrival → List Call
calls_of [] = []
calls_of (a ∷ older) =
    recorded (call_of (event_type? a.event_type) a.moment a.message) (calls_of older)

module _ (X : Externals) where
  -- The handler after raw events, newest first, however each of them ended.
  unfoldable pub handled : List Arrival → Handler X → Handler X
  handled [] h = h
  handled (a ∷ older) h = (handle_raw_event X a.moment a.message a.event_type (handled older h)).1

  handle_raw_event-slots :
      (m : Moment) (message : Json) (text : String) (h : Handler X)
      → (handle_raw_event X m message text h).1.block_slots
        ≡ resolved X (call_of (event_type? text) m message) h.block_slots
  unfolding handle_raw_event
  handle_raw_event-slots m message text h = go (event_type? text)
    where
      run : Option EventType → Outcome (Unit {0}) × Handler X
      run o = elim o [ some t ↦ handle X t m message h | none ↦ (err unsupported_event_type, h) ]

      go :
          (o : Option EventType)
          → (run o).1.block_slots ≡ resolved X (call_of o m message) h.block_slots
      go none = refl
      go (some t) = handle-slots X t m message h

  replay-recorded :
      (o : Option Call) (calls : List Call)
      → resolved X o (replay X.slots calls) ≡ replay X.slots (recorded o calls)
  unfolding replay
  replay-recorded none calls = refl
  replay-recorded (some call) calls = refl

  handled-replay :
      (history : List Arrival) (h : Handler X)
      → h.block_slots ≡ new_block_slot_cache X.slots
      → (handled history h).block_slots ≡ replay X.slots (calls_of history)
  unfolding handled calls_of replay
  handled-replay [] h e = e
  handled-replay (a ∷ older) h e =
      let o = call_of (event_type? a.event_type) a.moment a.message in
      handle_raw_event-slots a.moment a.message a.event_type (handled older h)
      ∙ ap (resolved X o) (handled-replay older h e)
      ∙ replay-recorded o (calls_of older)

  -- A handler that starts with no block slots and has handled any raw events, of any types and
  -- however each ended, resolves a root without a slot to the last non-zero slot that a decoded event
  -- of the six types with a root and a slot carried for it, if that was at most seven minutes ago,
  -- and to zero if there is none. A slot that is given is returned, also with an empty root. The
  -- clock readings are in order.
  pub handled-last_slot :
      TtlLaws X.slots
      → (history : List Arrival) (h : Handler X) → h.block_slots ≡ new_block_slot_cache X.slots
      → (m : Moment) (root : String) (slot : ℕ) → Ordered (calls_of history) m.resolve_at
      → (resolve_slot X m root slot (handled history h)).0
        ≡ ok (
            if str_eq root ""
            then slot
            else if ltb 0 slot
            then slot
            else last_slot (calls_of history) m.resolve_at root)
  handled-last_slot laws history h e m root slot ordered =
      ap (λ c. ok (resolve X.slots m.resolve_at root slot c).0) (handled-replay history h e)
      ∙ ap (λ (s : ℕ). ok s)
          (resolve-last_slot X.slots laws (calls_of history) m.resolve_at slot root ordered)
