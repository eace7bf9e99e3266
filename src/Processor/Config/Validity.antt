-- ===== src/Processor/Config/Validity.antt =====
-- What the validation of pkg/processor/config.go accepts.
use xatu_sidecar.Prelude.{String, ◌≡◌, refl, ◌≢◌, ◌↔◌, ◌⊎◌, List, [], ◌∷◌, arith, eq_iff, All}
use xatu_sidecar.Outcome.{Error, ok, err, output_failed}
use xatu_sidecar.Processor.Config.{
  OutputConfig, Ethereum, Config, Outputs, validate_ethereum, validate_outputs, validate,
}

-- Every value that the sidecar needs of the chain is there.
pub record IsComplete (e : Ethereum) : Type 0 where
  pub genesis_time : e.genesis_time ≢ 0
  pub seconds_per_slot : e.seconds_per_slot ≢ 0
  pub slots_per_epoch : e.slots_per_epoch ≢ 0
  pub network_name : e.network.name ≢ ""
  pub network_id : e.network.id ≢ 0

-- The Ethereum settings are valid exactly if the genesis time, the seconds per slot, the slots per
-- epoch, the network's name and the network's id are all set.
pub validate_ethereum_iff : (e : Ethereum) → (validate_ethereum e ≡ ok tt) ↔ IsComplete e
unfolding validate_ethereum
validate_ethereum_iff e = (
  λ h. record {
    genesis_time = ground arith;
    seconds_per_slot = ground arith;
    slots_per_epoch = ground arith;
    network_name = ground (arith, eq_iff e.network.name "");
    network_id = ground arith;
  },
  λ c. ground (
    arith,
    eq_iff e.network.name "",
    c.genesis_time,
    c.seconds_per_slot,
    c.slots_per_epoch,
    c.network_name,
    c.network_id,
  ),
)

module _ {Sink : Type 0} (x : Outputs Sink) where
  -- The first output that is refused, in the order of the configuration, with the error of its
  -- validation; the outputs before it are all accepted.
  abbrev pub Refuses : List OutputConfig → String → Error → Type 0
  Refuses [] name e = ⊥
  Refuses (o ∷ os) name e =
      ((x.validate_output o ≡ err e) × (o.name ≡ name))
      ⊎ ((x.validate_output o ≡ ok tt) × Refuses os name e)

  -- A configuration is accepted exactly if each output is; and the first refused output makes the
  -- error, wrapped with its name.
  pub validate_iff :
      (c : Config)
      → ((validate x c ≡ ok tt) ↔ All (λ o. x.validate_output o ≡ ok tt) c.outputs)
        × ((name : String) (e : Error)
            → Refuses c.outputs name e
            → validate x c ≡ err (output_failed name e))
  unfolding validate
  validate_iff c = (accepts c.outputs, refuses c.outputs)
    where
      accepts :
          (os : List OutputConfig)
          → (validate_outputs x os ≡ ok tt) ↔ All (λ o. x.validate_output o ≡ ok tt) os
      accepts [] = (λ _. tt, λ _. refl)
      accepts (o ∷ os) = ground (arith, accepts os)

      refuses :
          (os : List OutputConfig) (name : String) (e : Error)
          → Refuses os name e
          → validate_outputs x os ≡ err (output_failed name e)
      refuses [] name e h = elim h [ ]
      refuses (o ∷ os) name e h = ground (arith, refuses os name e)
