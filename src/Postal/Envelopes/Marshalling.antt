-- ===== src/Postal/Envelopes/Marshalling.antt =====
-- Which envelopes the codecs of the default store encode (x/postal/postal.go).
use sardis.Common.{
  ℕ, zero, suc, Bool, true, false, Option, none, some, ◌≡◌, ◌≢◌, refl, subst, sym, ap, ◌∙◌,
  Option-cases, Bool-cases, inl, inr, ◌⊎◌, String, string_comparable, ◌==◌, arith, eq_iff,
}
use sardis.Common.Maps.{load, store}
use sardis.Common.Text.{contains}
use sardis.Postal.Envelopes.{
  Codec, Registry, Envelope, Run, by_text, ended, unregistered_format, nil_registry, unfinished,
  add_codec, default_codec_store, wrap_message, encode_envelope, marshal_with, marshal,
  marshal_text, marshal_binary, marshal_bson, refuse_bson,
}

driver_bson : contains "driver-bson" "bson" ≡ true
unfolding contains
driver_bson = refl

module _ (Job Message : Type 0) where
  marshal-zero :
      (repr : Bool) (e : Envelope Job Message) → marshal Job Message zero repr e ≡ unfinished
  unfolding marshal
  marshal-zero repr e = refl

  -- What `marshal` does with the codec that it finds.
  chosen : ℕ → Bool → Envelope Job Message → Option (Codec Job Message) → Run Job Message Message
  chosen n repr e none = ended e (inr unregistered_format)
  chosen n repr e (some codec) =
      marshal_with Job Message (marshal Job Message n false)
        (refuse_bson Job Message (marshal Job Message n true)) repr codec e

  marshal-chosen :
      (n : ℕ) (repr : Bool) (e : Envelope Job Message) (r : Registry Job Message)
      → e.registry ≡ some r
      → marshal Job Message (suc n) repr e ≡ chosen n repr e (load e.shown.schema.format r.codecs)
  unfolding marshal chosen
  marshal-chosen n repr e r known =
      ap
        (λ x. elim x [
          | none ↦ nil_registry
          | some r' ↦ chosen n repr e (load e.shown.schema.format r'.codecs)
        ])
        known

  -- Where the codec of the envelope is for texts and encodes an envelope by calling its `MarshalText`
  -- again, and the job itself can be encoded, a call of `MarshalText` never returns: it is unfinished
  -- however much fuel it is given.
  pub marshal_text-unfinished :
      (fuel : ℕ) (e : Envelope Job Message) (r : Registry Job Message) (codec : Codec Job Message)
      (wrap : Message → Option Message) (message : Message)
      → e.registry ≡ some r
      → load e.shown.schema.format r.codecs ≡ some codec
      → codec.representation ≡ false
      → codec.encoding ≡ by_text wrap
      → codec.encode_job e.cache ≡ some message
      → marshal_text Job Message fuel e ≡ unfinished
  unfolding marshal_text marshal marshal_with encode_envelope wrap_message
  marshal_text-unfinished zero e r codec wrap message known found text calls made =
      marshal-zero false e
  marshal_text-unfinished (suc n) e r codec wrap message known found text calls made =
      let filled : Envelope Job Message = record {
        shown = record e.shown { payload = some message };
        cache = e.cache;
        registry = some r;
        lazy = e.lazy;
      } in
      let again =
        marshal_text-unfinished n filled r codec wrap message refl found text calls made in
      simp (marshal, known, found, text, made, calls, encode_envelope, again)

  wrap_message-Silent :
      (f : Message → Option Message) (run : Run Job Message Message)
      → ((e : Envelope Job Message) (m : Message) → run ≢ ended e (inl m))
      → (e : Envelope Job Message) (m : Message) → wrap_message Job Message f run ≢ ended e (inl m)
  unfolding wrap_message
  wrap_message-Silent f (ended e' (inl m')) silent e m h = absurd (silent e' m' refl)
  wrap_message-Silent f (ended e' (inr err)) silent e m h = ground (arith, h)
  wrap_message-Silent f nil_registry silent e m h = ground (arith, h)
  wrap_message-Silent f unfinished silent e m h = ground (arith, h)

  module _ (json driver birch yaml : Codec Job Message) (f g : Message → Option Message)
      (json_calls : json.encoding ≡ by_text f) (yaml_calls : yaml.encoding ≡ by_text g) where
    -- A codec of the default store is for texts, and calls `MarshalText`; or it is for BSON.
    default-cases :
        (format : String) (codec : Codec Job Message)
        → load format (default_codec_store Job Message json driver birch yaml) ≡ some codec
        → ((codec.representation ≡ false)
            × ((h : Message → Option Message) × (codec.encoding ≡ by_text h)))
          ⊎ ((codec.representation ≡ true) × (contains format "bson" ≡ true))
    unfolding default_codec_store add_codec load store
    default-cases format codec found = elim (Bool-cases ("stdlib-json" == format)) [
      | inl is_json ↦
          inl (ground (arith, found, is_json), (f, ground (arith, found, is_json, json_calls)))
      | inr not_json ↦ elim (Bool-cases ("driver-bson" == format)) [
        | inl is_bson ↦ inr (
          ground (arith, found, not_json, is_bson),
          subst (λ s. contains s "bson" ≡ true) ((eq_iff "driver-bson" format).0 is_bson)
              driver_bson,
        )
        | inr not_bson ↦ elim (Bool-cases ("yaml" == format)) [
          | inl is_yaml ↦ inl (
            ground (arith, found, not_json, not_bson, is_yaml),
            (g, ground (arith, found, not_json, not_bson, is_yaml, yaml_calls)),
          )
          | inr not_yaml ↦ absurd (ground (arith, found, not_json, not_bson, not_yaml))
        ]
      ]
    ]

    module _ (r : Registry Job Message)
        (default : r.codecs ≡ default_codec_store Job Message json driver birch yaml) where
      abbrev Silent : Run Job Message Message → Type 0
      Silent run = (e : Envelope Job Message) (m : Message) → run ≢ ended e (inl m)

      found_default :
          (format : String) (codec : Codec Job Message)
          → load format r.codecs ≡ some codec
          → load format (default_codec_store Job Message json driver birch yaml) ≡ some codec
      found_default format codec found = subst (λ s. load format s ≡ some codec) default found

      text_with-Silent :
          (n : ℕ) (e : Envelope Job Message)
          → ((e' : Envelope Job Message)
              → e'.registry ≡ some r
              → Silent (marshal Job Message n false e'))
          → e.registry ≡ some r
          → Silent (chosen n false e (load e.shown.schema.format r.codecs))
      unfolding chosen marshal_with encode_envelope
      text_with-Silent n e silent known =
          elim (Option-cases (load e.shown.schema.format r.codecs)) [
            | inl missing ↦ λ e' m h. ground (arith, h, missing)
            | inr (codec, found) ↦
                elim (default-cases e.shown.schema.format codec
                  (found_default e.shown.schema.format codec found)) [
                    | inr (binary, _) ↦ λ e' m h. ground (arith, h, found, binary)
                    | inl (text, (wrap, calls)) ↦ elim (Option-cases (codec.encode_job e.cache)) [
                      | inl fails ↦ λ e' m h. ground (arith, h, found, text, fails)
                      | inr (message, made) ↦
                          let filled = record e {
                            shown = record e.shown { payload = some message };
                          } in
                          let same : chosen n false e (load e.shown.schema.format r.codecs)
                              ≡ wrap_message Job Message wrap (marshal Job Message n false filled) =
                            simp (found, text, made, calls) in
                          λ e' m h.
                            wrap_message-Silent wrap (marshal Job Message n false filled)
                              (silent filled known) e' m (sym same ∙ h)
                    ]
                  ]
          ]

      text-Silent :
          (n : ℕ) (e : Envelope Job Message)
          → e.registry ≡ some r
          → Silent (marshal Job Message n false e)
      text-Silent zero e known e' m h = ground (arith, h, marshal-zero false e)
      text-Silent (suc n) e known e' m h =
          text_with-Silent n e (text-Silent n) known e' m
            (sym (marshal-chosen n false e r known) ∙ h)

      bson-Silent :
          (n : ℕ) (e : Envelope Job Message)
          → e.registry ≡ some r
          → contains e.shown.schema.format "bson" ≡ false
          → Silent (marshal Job Message n true e)
      unfolding chosen marshal_with
      bson-Silent zero e known other e' m h = ground (arith, h, marshal-zero true e)
      bson-Silent (suc n) e known other e' m h =
          let stops = sym (marshal-chosen n true e r known) ∙ h in
          elim (Option-cases (load e.shown.schema.format r.codecs)) [
            | inl missing ↦ ground (arith, stops, missing)
            | inr (codec, found) ↦
                elim (default-cases e.shown.schema.format codec
                  (found_default e.shown.schema.format codec found)) [
                    | inl (text, _) ↦ ground (arith, stops, found, text)
                    | inr (_, bson) ↦ ground (arith, other, bson)
                  ]
          ]

      -- `MarshalText` and `MarshalBSON` of an envelope that has the codecs of the default store never
      -- give any bytes, however long they run, if encoding JSON and YAML calls `MarshalText` of a
      -- value that has it.
      pub default_store-Silent :
          (fuel : ℕ) (e : Envelope Job Message)
          → e.registry ≡ some r
          → (bytes : Message) (after : Envelope Job Message)
          → (marshal_text Job Message fuel e ≢ ended after (inl bytes))
            × (marshal_bson Job Message fuel e ≢ ended after (inl bytes))
      unfolding marshal_text marshal_bson refuse_bson marshal_binary
      default_store-Silent fuel e known bytes after = (
        text-Silent fuel e known after bytes,
        λ h. elim (Bool-cases (contains e.shown.schema.format "bson")) [
          | inl bson ↦ ground (arith, h, bson)
          | inr other ↦ bson-Silent fuel e known other after bytes (ground (arith, h, other))
        ],
      )
