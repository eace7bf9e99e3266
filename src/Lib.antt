-- ===== src/Lib.antt =====
-- A model of xatu-sidecar, the library by which Ethereum consensus clients send what they see on the
-- gossip network to Xatu, and theorems on it.
--
-- The program's parts. A host program calls `Init`, `SendEventBatch` and `Shutdown` of main.go. A
-- batch is a JSON list of messages; `HandleRawEvent` of pkg/processor/handler.go selects a case by
-- each message's `event_type`, decodes it, builds an event of pkg/event/gossipsub, asks the event
-- whether it is a duplicate or too old, decorates it with the beacon chain's times and hands it to
-- the sinks of the configuration. pkg/cache holds the keys seen and the slots of block roots;
-- pkg/processor/summary.go counts.
--
-- Which file models what.
--   Prelude, Outcome    numbers, texts, lists; a Go result, error or panic, and methods as functions
--                       from a state to a result and a state (what was written before an error stays)
--   Ttl, Wallclock      the interfaces of ttlcache and ethwallclock, which the repository does not
--                       hold, with the laws that their documentation gives
--   Json                `json.Unmarshal` from a JSON value into numbers, texts and structs with json
--                       tags, as encoding/json does it: names match up to case, null leaves a field
--                       alone, an integer out of range is an error
--   Decimal             `fmt.Sprint` of a uint64
--   Proto               the protobuf messages that are filled in; the event names that occur
--   Cache               pkg/cache: `resolve` is `BlockSlotCache.Resolve`; Duplicate is duplicate.go
--   Event               pkg/event/gossipsub: one file for each file there, with `new_x`, `decorate`,
--                       `get_additional_data` and `should_ignore`; what the thirteen have in common
--                       is in Source, Freshness, Gossip, Instant and Partial (partial.go); Decoding
--                       has `decode_x`, the json tags of each raw event, and RoundTrip the messages
--                       of README.md that are decoded to a given raw event
--   Version             pkg/version/version.go
--   Processor           pkg/processor: Config is config.go, Summary is summary.go (Printing is on an
--                       undisturbed `Print`, Loop is the goroutine of `Start`, Race the goroutines
--                       that count at once), and handler.go is EventType (the constants), Handler
--                       (the state and the export), Dispatch (a function for each case of the
--                       switch), Drift and Lifecycle. Below Dispatch, Fresh and Exported are on when
--                       an event goes out, Twice on duplicates, Learning on block slots and Panics
--                       on calls that return
--   Sidecar             main.go: `init`, `send_event_batch` and `shutdown` on the package variables;
--                       below it Batch, Exported and Delivered are on the loop over a batch, Codes
--                       and Panics on results and panics, and Reached on sequences of calls
--   Tests               concrete libraries and runs
--
-- State and time. A handler is a record; the record also lists the calls of the sinks, newest first,
-- which the source leaves to the sinks. Each call that reads a clock or makes a UUID takes the
-- reading from a `Moment`, one for each event. Times are integers of nanoseconds; where the source
-- subtracts times, the duration saturates as `Time.Sub` does, and conversions wrap at 64 bits.
--
-- Bounds. The program's loops are over lists and need no fuel. The decimal text of a number is
-- written with fuel for 20 digits, and a uint64 has no more.
--
-- Not modelled. The JSON parser of texts, the YAML decoder, the structure hash, the sinks, the
-- scheduler and the NTP client are parameters of the record Externals. Logging is left out but for
-- the nil logger, which panics. The caches' eviction goroutines remove only what no lookup returns.
-- Calls are sequential but for the summary: Summary/Race interleaves the goroutines that count, and
-- Summary/Loop the accesses of the printing loop with what others count, where the range over the
-- map, and the assignment of a new one, are one step each. The clock synchronisation is a function
-- of its own, and no other interleaving inside a call is modelled.
pub mod Prelude
pub mod Outcome
pub mod Decimal
pub mod Json
pub mod Ttl
pub mod Cache
pub mod Wallclock
pub mod Proto
pub mod Event
pub mod Version
pub mod Processor
pub mod Sidecar
pub mod Tests
