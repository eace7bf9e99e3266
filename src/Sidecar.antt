-- ===== src/Sidecar.antt =====
-- main.go: the functions that the host program calls, over the package's two global variables. A nil
-- pointer argument is `none`; a result is an int32, and a panic that is not recovered from ends the
-- process.
pub mod Codes
pub mod Batch
pub mod Reached
pub mod Exported
pub mod Delivered
pub mod Panics
use xatu_sidecar.Json.{Json, text_field, unmarshal, unmarshal_messages}
use xatu_sidecar.Prelude.{
  ℕ, suc, String, ◌||◌, Option, none, some, List, [], ◌∷◌, str_eq, if◌then◌else◌,
}
use xatu_sidecar.Prelude.Int.{ℤ, pos, negsuc}
use xatu_sidecar.Outcome.{Outcome, ok, err, panic, Method}
use xatu_sidecar.Event.Source.{Moment}
use xatu_sidecar.Processor.Config.{Config}
use xatu_sidecar.Processor.Externals.{Externals, SidecarConfig}
use xatu_sidecar.Processor.Handler.{Handler}
use xatu_sidecar.Processor.Dispatch.{handle_raw_event}
use xatu_sidecar.Processor.Lifecycle.{new_handler, start, stop}

pub data LogLevel : Type 0 where
  trace debug info warn error : LogLevel

-- `log` is nil before the first call of `Init`, and is kept here as its level.
pub record Globals (X : Externals) : Type 0 where
  pub log : Option LogLevel
  pub handler : Option (Handler X)

abbrev pub level_of : String → LogLevel
level_of text =
    if str_eq text "trace"
    then trace
    else if str_eq text "debug"
    then debug
    else if str_eq text "info"
    then info
    else if str_eq text "warn" || str_eq text "warning"
    then warn
    else if str_eq text "error"
    then error
    else info

abbrev pub success : ℤ
success = pos 0

abbrev pub failure : ℤ
failure = negsuc 0

abbrev pub bad_events : ℤ
bad_events = negsuc 1

-- The default NTP server.
abbrev pub with_ntp_server : Config → Config
with_ntp_server c =
    if str_eq c.ntp_server "" then record c { ntp_server = "time.google.com" } else c

-- The `event_type` of a message.
unfoldable pub decode_event_type : Json → Outcome String
decode_event_type = unmarshal (text_field "event_type")

module _ (X : Externals) where
  unmarshal_parsed : Outcome Json → Outcome (List Json)
  unmarshal_parsed (ok j) = unmarshal_messages j
  unmarshal_parsed (err e) = err e
  unmarshal_parsed panic = panic

  -- `json.Unmarshal` of the text of a batch into a list of raw messages.
  unfoldable pub split_batch : String → Outcome (List Json)
  unfolding unmarshal_parsed
  split_batch batch = unmarshal_parsed (X.parse_json batch)

  abbrev pub start_result : Outcome (Unit {0}) → Outcome ℤ
  start_result (ok _) = ok success
  start_result (err _) = ok failure
  start_result panic = panic

  -- A handler that fails to start stays in place; one that cannot be made leaves none.
  abbrev pub install : Outcome (Handler X) → Method (Globals X) ℤ
  install (ok h) g = (start_result (start X h []).0, record g { handler = some h })
  install (err e) g = (ok failure, record g { handler = none })
  install panic g = (panic, g)

  abbrev pub configure : String → SidecarConfig → Method (Globals X) ℤ
  configure uuid c g =
      let level : LogLevel = elim c.log_level [ none ↦ info | some text ↦ level_of text ] in
      let g' : Globals X = record g { log = some level } in
      elim c.processor [
        | none ↦ (panic, g')
        | some p ↦ install (new_handler X uuid (some (with_ntp_server p))) g'
      ]

  abbrev pub read_config : String → Outcome (Option SidecarConfig) → Method (Globals X) ℤ
  read_config uuid (ok (some c)) g = configure uuid c g
  read_config uuid (ok none) g = (panic, g)
  read_config uuid (err e) g = (ok failure, g)
  read_config uuid panic g = (panic, g)

  -- `Init`
  unfoldable pub init : String → Option String → Method (Globals X) ℤ
  init uuid config_json g =
      let g' : Globals X = record g { log = some info } in
      elim config_json [
        | none ↦ (ok failure, g')
        | some text ↦ read_config uuid (X.parse_config text) g'
      ]

  -- One event of a batch: a message without a type and an event that fails are logged and passed
  -- over.
  abbrev pub skip : Outcome (Unit {0}) × Handler X → Outcome (Unit {0}) × Handler X
  skip (ok u, h) = (ok u, h)
  skip (err e, h) = (ok tt, h)
  skip (panic, h) = (panic, h)

  unfoldable pub process_event : Moment → Json → Method (Handler X) (Unit {0})
  process_event m message h = elim (decode_event_type message) [
    | ok t ↦ skip (handle_raw_event X m message t h)
    | err _ ↦ (ok tt, h)
    | panic ↦ (panic, h)
  ]

  -- The loop over the batch, its n-th event at the n-th moment.
  unfoldable pub process_events : (ℕ → Moment) → ℕ → List Json → Method (Handler X) (Unit {0})
  process_events moments n [] h = (ok tt, h)
  process_events moments n (message ∷ rest) h =
      let (r, h') = process_event (moments n) message h in
      let more = process_events moments (suc n) rest h' in
      elim r [ ok _ ↦ more | err e ↦ (err e, h') | panic ↦ (panic, h') ]

  abbrev pub batch_result : Outcome (Unit {0}) × Handler X → Method (Globals X) ℤ
  batch_result (ok _, h) g = (ok success, record g { handler = some h })
  batch_result (err e, h) g = (ok success, record g { handler = some h })
  batch_result (panic, h) g = (panic, record g { handler = some h })

  abbrev pub parse_batch : (ℕ → Moment) → Outcome (List Json) → Handler X → Method (Globals X) ℤ
  parse_batch moments (ok messages) h g = batch_result (process_events moments 0 messages h) g
  parse_batch moments (err e) h g = (ok bad_events, g)
  parse_batch moments panic h g = (panic, g)

  -- `log.Error` with a nil logger panics.
  abbrev pub logged : ℤ → Method (Globals X) ℤ
  logged code g = elim g.log [ none ↦ (panic, g) | some _ ↦ (ok code, g) ]

  abbrev pub send_with : (ℕ → Moment) → Option String → Handler X → Method (Globals X) ℤ
  send_with moments none h g = logged bad_events g
  send_with moments (some text) h g =
      if str_eq text "" then logged bad_events g else parse_batch moments (split_batch text) h g

  abbrev pub send_from : (ℕ → Moment) → Option String → Option (Handler X) → Method (Globals X) ℤ
  send_from moments events none g = logged failure g
  send_from moments events (some h) g = send_with moments events h g

  abbrev pub send_body : (ℕ → Moment) → Option String → Method (Globals X) ℤ
  send_body moments events g = send_from moments events g.handler g

  -- The deferred function logs a panic and lets the call return its zero value, unless the logger
  -- is nil.
  abbrev pub recover : Outcome ℤ × Globals X → Outcome ℤ × Globals X
  recover (panic, g) = logged success g
  recover (ok code, g) = (ok code, g)
  recover (err e, g) = (err e, g)

  -- `SendEventBatch`
  unfoldable pub send_event_batch : (ℕ → Moment) → Option String → Method (Globals X) ℤ
  unfolding process_events process_event
  send_event_batch moments events g = recover (send_body moments events g)

  abbrev pub stop_result : Outcome (Unit {0}) → Outcome (Unit {0})
  stop_result (ok _) = ok tt
  stop_result (err _) = ok tt
  stop_result panic = panic

  -- `Shutdown`: the handler stays in place.
  unfoldable pub shutdown : Method (Globals X) (Unit {0})
  shutdown g = elim g.log [
    | none ↦ (panic, g)
    | some _ ↦ elim g.handler [ none ↦ (ok tt, g) | some h ↦ (stop_result (stop X h []).0, g) ]
  ]
