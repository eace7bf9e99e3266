-- ===== src/Processor/Config/Sinks.antt =====
-- The sinks that pkg/processor/config.go makes of the outputs.
use xatu_sidecar.Prelude.{
  String, ◌≡◌, refl, sym, ap, subst, ◌∙◌, ◌↔◌, ◌⊎◌, inl, inr, none, some, List, [], ◌∷◌, arith,
  Option-cases,
}
use xatu_sidecar.Outcome.{Outcome, ok, err, panic, map_ok}
use xatu_sidecar.Processor.Config.{
  OutputConfig, Config, Outputs, with_shipping, shipping, build_sinks, create_sinks,
}

module _ {Sink : Type 0} (x : Outputs Sink) where
  -- An output ships by the method that it names, or asynchronously if it names none.
  abbrev pub ShipsBy : OutputConfig → String → Type 0
  ShipsBy o method =
      (o.shipping_method ≡ some method)
      ⊎ ((o.shipping_method ≡ none) × (method ≡ x.shipping_method_async))

  -- An output that names a method.
  abbrev pub naming : OutputConfig → String → OutputConfig
  naming o method = record {
    name = o.name;
    sink_type = o.sink_type;
    config = o.config;
    filter_config = o.filter_config;
    shipping_method = some method;
  }

  -- The sink that is made of an output in its place, and the output as it is then written.
  abbrev pub Made : List OutputConfig → List Sink → List OutputConfig → Type 0
  Made [] [] [] = Unit {0}
  Made (o ∷ os) (s ∷ ss) (o' ∷ os') =
      ((method : String) × ShipsBy o method
        × (x.new_sink (naming o method) method ≡ ok s)
        × (o' ≡ naming o method))
      × Made os ss os'
  Made _ _ _ = ⊥

  shipping-ShipsBy : (o : OutputConfig) → ShipsBy o (shipping x o)
  shipping-ShipsBy o = elim (Option-cases o.shipping_method) [
    | inl e ↦ inr (e, ground (arith, e))
    | inr (m, e) ↦ inl (ground (arith, e))
  ]

  with_shipping-naming : (o : OutputConfig) → with_shipping x o ≡ naming o (shipping x o)
  with_shipping-naming o = ground arith

  ShipsBy-shipping : (o : OutputConfig) (m : String) → ShipsBy o m → m ≡ shipping x o
  ShipsBy-shipping o m h = ground arith

  build_sinks-Made :
      (os : List OutputConfig) (sinks : List Sink)
      → (build_sinks x os).0 ≡ ok sinks
      → Made os sinks (build_sinks x os).1
  unfolding build_sinks
  build_sinks-Made [] [] h = tt
  build_sinks-Made [] (s ∷ ss) h = cc
  build_sinks-Made (o ∷ os) sinks h =
      go (build_sinks-Made os) (x.new_sink (with_shipping x o) (shipping x o)) refl sinks h
    where
      run : Outcome Sink → Outcome (List Sink) × List OutputConfig
      run r = elim r [
        | ok s ↦
            (map_ok (λ ss. s ∷ ss) (build_sinks x os).0, with_shipping x o ∷ (build_sinks x os).1)
        | err e ↦ (err e, with_shipping x o ∷ os)
        | panic ↦ (panic, with_shipping x o ∷ os)
      ]

      go :
          ((ss : List Sink) → (build_sinks x os).0 ≡ ok ss → Made os ss (build_sinks x os).1)
          → (r : Outcome Sink) → x.new_sink (with_shipping x o) (shipping x o) ≡ r
          → (ss : List Sink) → (run r).0 ≡ ok ss
          → Made (o ∷ os) ss (run r).1
      go again (err e) p ss q = absurd (cc q)
      go again panic p ss q = absurd (cc q)
      go again (ok s) p [] q = absurd (ground arith)
      go again (ok s) p (t ∷ ss) q = (
        (
          shipping x o,
          shipping-ShipsBy o,
          ground (arith, with_shipping-naming o),
          with_shipping-naming o,
        ),
        again ss (ground arith),
      )

  Made-build_sinks :
      (os : List OutputConfig) (sinks : List Sink) (os' : List OutputConfig)
      → Made os sinks os'
      → build_sinks x os ≡ (ok sinks, os')
  unfolding build_sinks
  Made-build_sinks [] [] [] h = refl
  Made-build_sinks [] [] (o' ∷ os') h = elim h [ ]
  Made-build_sinks [] (s ∷ ss) os' h = elim h [ ]
  Made-build_sinks (o ∷ os) [] os' h = elim h [ ]
  Made-build_sinks (o ∷ os) (s ∷ ss) [] h = elim h [ ]
  Made-build_sinks (o ∷ os) (s ∷ ss) (o' ∷ os') ((m, by, made, written), more) =
      let method = ShipsBy-shipping o m by in
      let named : with_shipping x o ≡ naming o m =
        with_shipping-naming o ∙ ap (naming o) (sym method) in
      let new : x.new_sink (with_shipping x o) (shipping x o) ≡ ok s = cc (named, method, made) in
      rw (new, build_sinks) (cc (Made-build_sinks os ss os' more, named, written))

  -- Sinks are created exactly if one can be made of each output, in the order of the configuration,
  -- by the shipping method that the output names or else by the asynchronous one; each output that
  -- names none then names the asynchronous method, and the configuration is otherwise as it was.
  pub create_sinks_iff :
      (c : Config) (sinks : List Sink) (os' : List OutputConfig)
      → (create_sinks x c ≡ (ok sinks, record c { outputs = os' })) ↔ Made c.outputs sinks os'
  unfolding create_sinks
  create_sinks_iff c sinks os' = (
    λ e.
        let written : (build_sinks x c.outputs).1 ≡ os' = ap (λ r. r.1.outputs) e in
        subst (Made c.outputs sinks) written (build_sinks-Made c.outputs sinks (ap (λ r. r.0) e)),
    λ made.
        ap (λ (r : Outcome (List Sink) × List OutputConfig). (r.0, record c { outputs = r.1 }))
          (Made-build_sinks c.outputs sinks os' made),
  )

  -- The same for a creation of which only the success is known.
  pub create_sinks-Made :
      (c : Config) (sinks : List Sink)
      → (create_sinks x c).0 ≡ ok sinks
      → Made c.outputs sinks (create_sinks x c).1.outputs
        × ((create_sinks x c).1 ≡ record c { outputs = (create_sinks x c).1.outputs })
  unfolding create_sinks
  create_sinks-Made c sinks h = (build_sinks-Made c.outputs sinks h, refl)
