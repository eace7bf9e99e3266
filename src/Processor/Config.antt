-- ===== src/Processor/Config.antt =====
-- pkg/processor/config.go: the configuration, its validation and the sinks that it asks for.
pub mod Validity
pub mod Sinks
use xatu_sidecar.Prelude.{ℕ, String, Option, none, some, List, [], ◌∷◌, str_eq, ◌==◌, if◌then◌else◌}
use xatu_sidecar.Outcome.{
  Error, Outcome, ok, err, panic, Method, output_failed, map_ok, genesis_time_required,
  seconds_per_slot_required, slots_per_epoch_required, network_name_required, network_id_required,
}

-- `output.Config` of xatu: a missing shipping method is a nil pointer, and what else it holds is
-- handed on as it is.
pub record OutputConfig : Type 0 where
  pub name : String
  pub sink_type : String
  pub config : String
  pub filter_config : String
  pub shipping_method : Option String

pub record Network : Type 0 where
  pub name : String
  pub id : ℕ

pub record Ethereum : Type 0 where
  pub network : Network
  pub genesis_time : ℕ
  pub seconds_per_slot : ℕ
  pub slots_per_epoch : ℕ
  pub implementation : String

-- The metadata of the client that uses the sidecar; the source's name is `Client`.
pub record Client : Type 0 where
  pub name : String
  pub version : String

pub record Config : Type 0 where
  pub outputs : List OutputConfig
  pub ethereum : Ethereum
  pub client : Client
  pub name : String
  pub ntp_server : String

unfoldable pub validate_network : Network → Outcome (Unit {0})
validate_network n =
    if str_eq n.name ""
    then err network_name_required
    else if n.id == 0
    then err network_id_required
    else ok tt

unfoldable pub validate_ethereum : Ethereum → Outcome (Unit {0})
unfolding validate_network
validate_ethereum e =
    if e.genesis_time == 0
    then err genesis_time_required
    else if e.seconds_per_slot == 0
    then err seconds_per_slot_required
    else if e.slots_per_epoch == 0
    then err slots_per_epoch_required
    else validate_network e.network

-- `output.Config.Validate` and `output.NewSink` of xatu, and its name for asynchronous shipping.
pub record Outputs (Sink : Type 0) : Type 0 where
  pub validate_output : OutputConfig → Outcome (Unit {0})
  pub shipping_method_async : String
  pub new_sink : OutputConfig → String → Outcome Sink

module _ {Sink : Type 0} (x : Outputs Sink) where
  unfoldable pub validate_outputs : List OutputConfig → Outcome (Unit {0})
  validate_outputs [] = ok tt
  validate_outputs (o ∷ os) =
      let rest = validate_outputs os in
      elim (x.validate_output o) [
        | ok _ ↦ rest
        | err e ↦ err (output_failed o.name e)
        | panic ↦ panic
      ]

  -- `Config.Validate`, which looks at the outputs only.
  unfoldable pub validate : Config → Outcome (Unit {0})
  unfolding validate_outputs
  validate c = validate_outputs c.outputs

  -- The default is written into the configuration.
  abbrev pub with_shipping : OutputConfig → OutputConfig
  with_shipping o = elim o.shipping_method [
    | none ↦ record o { shipping_method = some x.shipping_method_async }
    | some _ ↦ o
  ]

  abbrev pub shipping : OutputConfig → String
  shipping o = elim o.shipping_method [ none ↦ x.shipping_method_async | some s ↦ s ]

  -- The loop over the outputs: the sinks in their order, or the first error, and the outputs with
  -- the defaults that were written before it.
  unfoldable pub build_sinks : List OutputConfig → Outcome (List Sink) × List OutputConfig
  build_sinks [] = (ok [], [])
  build_sinks (o ∷ os) =
      let (rest, os') = build_sinks os in
      elim (x.new_sink (with_shipping o) (shipping o)) [
        | ok s ↦ (map_ok (λ sinks. s ∷ sinks) rest, with_shipping o ∷ os')
        | err e ↦ (err e, with_shipping o ∷ os)
        | panic ↦ (panic, with_shipping o ∷ os)
      ]

  unfoldable pub create_sinks : Method Config (List Sink)
  unfolding build_sinks
  create_sinks c = let (r, os) = build_sinks c.outputs in (r, record c { outputs = os })
