-- ===== src/Postal/Envelopes.antt =====
-- x/postal/postal.go and x/postal/codecs.go: envelopes of jobs, the codecs that turn them into
-- messages, and the registry that has both. What a codec and a factory do is a parameter. A codec
-- that is given an envelope may call the envelope's own methods again, so that encoding and decoding
-- run on fuel.
pub mod Marshalling
use sardis.Common.{
  ℕ, zero, suc, Bool, true, false, not, ◌&&◌, Option, none, some, ◌⊎◌, inl, inr, List, [], ◌∷◌,
  String, string_comparable, ◌==◌, if◌then◌else◌,
}
use sardis.Common.Int.{ℤ, int_comparable}
use sardis.Common.Maps.{load, store, empty_map}
use sardis.Common.Text.{contains}
use sardis.Extern.Erc.{Erc}
use sardis.Postal.Meta.{Schema, Error, schema_validate, LockInfo, returns, panics, update, created}

abbrev schema_beq : Schema → Schema → Bool
schema_beq a b = a.version == b.version && a.type == b.type && a.format == b.format

pub data PostalError : Type 0 where
  invalid_schema : Error → PostalError
  unregistered_format unregistered_schema wrong_representation : PostalError
  wrong_configuration encoding_fails decoding_fails missing_definition : PostalError

abbrev no_lock : LockInfo
no_lock = record { status = ""; logical_clock = 0; last_modified = 0; owner = "" }

abbrev same : Bool → Bool → Bool
same true b = b
same false b = not b

-- The parameters: the jobs, and the messages, which are bytes.
module _ (Job Message : Type 0) where
  -- The fields of an envelope that a codec sees; the payload may be nil.
  pub record Shown : Type 0 where
    pub schema : Schema
    pub payload : Option Message
    pub lock : LockInfo

  -- What `Encode` does with an envelope: it encodes the fields that are shown, or it calls
  -- `MarshalText` or `MarshalBSON` of the envelope and wraps the result. None is an error.
  pub data Encoding : Type 0 where
    by_fields : (Shown → Option Message) → Encoding
    by_text by_bson : (Message → Option Message) → Encoding

  -- What `Decode` does with an envelope: it fills in the shown fields, or it calls `UnmarshalText` or
  -- `UnmarshalBSON` of the envelope with what it takes from the message.
  pub data Decoding : Type 0 where
    to_fields : (Message → Shown → Option Shown) → Decoding
    to_text to_bson : (Message → Option Message) → Decoding

  -- `SerializationCodec`; the representation is true for binary.
  pub record Codec : Type 0 where
    pub format : String
    pub encode_job : Option Job → Option Message
    pub encoding : Encoding
    pub decode_job : Option Message → Job → Option Job
    pub decoding : Decoding
    pub representation : Bool

  pub record Registry : Type 0 where
    pub codecs : List (String × Codec)
    pub factories : Schema → Option Job

  -- `CodecStore.Add`
  unfoldable pub add_codec : Codec → List (String × Codec) → List (String × Codec)
  unfolding store
  add_codec codec r = store codec.format codec r

  -- `DefaultCodecStore`, from its four codecs in the order in which it adds them; the two for BSON
  -- have the same format.
  unfoldable pub default_codec_store : (json driver birch yaml : Codec) → List (String × Codec)
  unfolding add_codec
  default_codec_store json driver birch yaml =
      add_codec (record yaml { format = "yaml"; representation = false })
        (add_codec (record birch { format = "driver-bson"; representation = true })
          (add_codec (record driver { format = "driver-bson"; representation = true })
            (add_codec (record json { format = "stdlib-json"; representation = false }) empty_map)))

  -- `Register`; a factory is told by the job that it makes.
  register : Schema → Job → Registry → Registry
  register schema job r = record r {
    factories = λ s. if schema_beq schema s then some job else r.factories s;
  }

  -- `adt.Once` of an error: no function is set; a function is set, which encodes the job with the codec;
  -- or it was called, with its error.
  pub data Lazy : Type 0 where
    unset : Lazy
    encodes : Codec → Option Job → Lazy
    called : Bool → Lazy

  pub record Envelope : Type 0 where
    pub shown : Shown
    pub cache : Option Job
    pub registry : Option Registry
    pub lazy : Lazy

  -- A call ends with the envelope after it and a value or an error; or it panics, as it has no
  -- registry; or it is still running when the fuel is used up.
  pub data Run (A : Type 0) : Type 0 where
    ended : Envelope → A ⊎ PostalError → Run A
    nil_registry unfinished : Run A

  -- The envelope that `MakeEnvelope` returns, once its lock is made.
  abbrev new_envelope : Registry → Codec → Schema → Job → LockInfo → Envelope
  new_envelope r codec s msg lock = record {
    shown = record { schema = s; payload = none; lock = lock };
    cache = some msg;
    registry = some r;
    lazy = encodes codec (some msg);
  }

  -- `MakeEnvelope`, with the readings of the clock.
  unfoldable pub make_envelope :
      Erc Error → (checked now : ℕ) → Registry → Schema → Job → Option (Envelope ⊎ PostalError)
  unfolding load
  make_envelope erc checked now r s msg = elim (schema_validate erc s) [
    | some e ↦ some (inr (invalid_schema e))
    | none ↦ elim (load s.format r.codecs) [
      | none ↦ some (inr unregistered_format)
      | some codec ↦ elim (update checked now created no_lock) [
        | returns lock ↦ some (inl (new_envelope r codec s msg lock))
        | panics e ↦ none
      ]
    ]
  ]

  -- `MarshalBSON` refuses the formats for BSON, and else calls `MarshalBinary`.
  refuse_bson : {A : Type 0} → (Envelope → Run A) → Envelope → Run A
  unfolding contains
  refuse_bson binary e =
      if contains e.shown.schema.format "bson" then ended e (inr wrong_configuration) else binary e

  wrap_message : (Message → Option Message) → Run Message → Run Message
  wrap_message f (ended e (inl m)) = elim (f m) [
    | none ↦ ended e (inr encoding_fails)
    | some out ↦ ended e (inl out)
  ]
  wrap_message f (ended e (inr err)) = ended e (inr err)
  wrap_message f nil_registry = nil_registry
  wrap_message f unfinished = unfinished

  -- `codec.Encode(e)`, with the envelope's `MarshalText` and `MarshalBSON`.
  encode_envelope : (text bson : Envelope → Run Message) → Encoding → Envelope → Run Message
  unfolding wrap_message
  encode_envelope text bson (by_fields f) e = elim (f e.shown) [
    | none ↦ ended e (inr encoding_fails)
    | some out ↦ ended e (inl out)
  ]
  encode_envelope text bson (by_text f) e = wrap_message f (text e)
  encode_envelope text bson (by_bson f) e = wrap_message f (bson e)

  -- `marshal`, once the codec is found.
  marshal_with : (text bson : Envelope → Run Message) → Bool → Codec → Envelope → Run Message
  unfolding encode_envelope
  marshal_with text bson repr codec e =
      if not (same codec.representation repr)
      then ended e (inr wrong_representation)
      else (elim (codec.encode_job e.cache) [
        | none ↦ ended e (inr encoding_fails)
        | some message ↦
            encode_envelope text bson codec.encoding
              (record e { shown = record e.shown { payload = some message } })
      ])

  -- `marshal`; without a registry it panics.
  unfoldable pub marshal : (fuel : ℕ) → Bool → Envelope → Run Message
  unfolding load marshal_with refuse_bson
  marshal zero repr e = unfinished
  marshal (suc n) repr e = elim e.registry [
    | none ↦ nil_registry
    | some r ↦ elim (load e.shown.schema.format r.codecs) [
      | none ↦ ended e (inr unregistered_format)
      | some codec ↦ marshal_with (marshal n false) (refuse_bson (marshal n true)) repr codec e
    ]
  ]

  -- `codec.Decode(in, e)`, with the envelope's `UnmarshalText` and `UnmarshalBSON`.
  decode_envelope :
      (text bson : Message → Envelope → Run (Unit {0}))
      → Decoding
      → Message
      → Envelope
      → Run (Unit {0})
  decode_envelope text bson (to_fields f) input e = elim (f input e.shown) [
    | none ↦ ended e (inr decoding_fails)
    | some shown ↦ ended (record e { shown = shown }) (inl tt)
  ]
  decode_envelope text bson (to_text f) input e = elim (f input) [
    | none ↦ ended e (inr decoding_fails)
    | some inner ↦ text inner e
  ]
  decode_envelope text bson (to_bson f) input e = elim (f input) [
    | none ↦ ended e (inr decoding_fails)
    | some inner ↦ bson inner e
  ]

  -- The end of `unmarshal`, once the envelope is decoded.
  finish_unmarshal : Codec → Job → Run (Unit {0}) → Run (Unit {0})
  finish_unmarshal codec out (ended e (inl _)) = elim (codec.decode_job e.shown.payload out) [
    | none ↦ ended e (inr decoding_fails)
    | some job ↦ ended (record e { cache = some job }) (inl tt)
  ]
  finish_unmarshal codec out (ended e (inr err)) = ended e (inr err)
  finish_unmarshal codec out nil_registry = nil_registry
  finish_unmarshal codec out unfinished = unfinished

  -- `e.lazy.Do` with a function that does nothing: it takes the place of one that was not called.
  fire : Lazy → Lazy
  fire (called failed) = called failed
  fire _ = called false

  -- `unmarshal`, after `e.lazy.Do`; without a registry it panics.
  unmarshal_with :
      (text bson : Message → Envelope → Run (Unit {0})) → Bool → Message → Envelope → Run (Unit {0})
  unfolding load decode_envelope finish_unmarshal
  unmarshal_with text bson repr input e = elim e.registry [
    | none ↦ nil_registry
    | some r ↦ elim (load e.shown.schema.format r.codecs) [
      | none ↦ ended e (inr unregistered_format)
      | some codec ↦
          if not (same codec.representation repr)
          then ended e (inr wrong_representation)
          else (elim (r.factories e.shown.schema) [
            | none ↦ ended e (inr unregistered_format)
            | some out ↦
                finish_unmarshal codec out (decode_envelope text bson codec.decoding input e)
          ])
    ]
  ]

  unfoldable pub unmarshal : (fuel : ℕ) → Bool → Message → Envelope → Run (Unit {0})
  unfolding unmarshal_with fire refuse_bson
  unmarshal zero repr input e = unfinished
  unmarshal (suc n) repr input e =
      unmarshal_with (unmarshal n false) (λ inner. refuse_bson (unmarshal n true inner)) repr input
        (record e { lazy = fire e.lazy })

  -- `MarshalText`, `MarshalBinary` and `MarshalBSON`, and their inverses.
  pub marshal_text : (fuel : ℕ) → Envelope → Run Message
  marshal_text n = marshal n false

  marshal_binary : (fuel : ℕ) → Envelope → Run Message
  marshal_binary n = marshal n true

  unfoldable pub marshal_bson : (fuel : ℕ) → Envelope → Run Message
  unfolding refuse_bson marshal_binary
  marshal_bson n = refuse_bson (marshal_binary n)

  unmarshal_text : (fuel : ℕ) → Message → Envelope → Run (Unit {0})
  unmarshal_text n = unmarshal n false

  unmarshal_binary : (fuel : ℕ) → Message → Envelope → Run (Unit {0})
  unmarshal_binary n = unmarshal n true

  unmarshal_bson : (fuel : ℕ) → Message → Envelope → Run (Unit {0})
  unfolding refuse_bson unmarshal_binary
  unmarshal_bson n input = refuse_bson (unmarshal_binary n input)

  -- `e.lazy.Resolve()`: the envelope, and whether there is an error.
  resolve_lazy : Lazy → Envelope → Envelope × Bool
  resolve_lazy unset e = (record e { lazy = called false }, false)
  resolve_lazy (called failed) e = (e, failed)
  resolve_lazy (encodes codec msg) e = elim (codec.encode_job msg) [
    | none ↦ (record e { lazy = called true }, true)
    | some message ↦
        (record e { shown = record e.shown { payload = some message }; lazy = called false }, false)
  ]

  -- `Resolve`, from the payload.
  resolve_payload : Registry → Envelope → Envelope × (Job ⊎ PostalError)
  unfolding load
  resolve_payload r e = elim e.shown.payload [
    | none ↦ (e, inr missing_definition)
    | some payload ↦ elim (r.factories e.shown.schema) [
      | none ↦ (e, inr unregistered_schema)
      | some out ↦ elim (load e.shown.schema.format r.codecs) [
        | none ↦ (e, inr unregistered_format)
        | some codec ↦ elim (codec.decode_job (some payload) out) [
          | none ↦ (e, inr decoding_fails)
          | some job ↦ (record e { cache = some job }, inl job)
        ]
      ]
    ]
  ]

  resolve_cache : Registry → Envelope × Bool → Envelope × (Job ⊎ PostalError)
  unfolding resolve_payload
  resolve_cache r (e, true) = (e, inr encoding_fails)
  resolve_cache r (e, false) = elim e.cache [ some job ↦ (e, inl job) | none ↦ resolve_payload r e ]

  -- `Resolve`
  unfoldable pub resolve : Registry → Envelope → Envelope × (Job ⊎ PostalError)
  unfolding resolve_lazy resolve_cache
  resolve r before =
      let e = record before { registry = some r } in resolve_cache r (resolve_lazy e.lazy e)
