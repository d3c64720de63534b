-- ===== src/Examples/Envelopes.antt =====
-- Envelopes of jobs that are numbers, with the codecs of the default store and with one that encodes
-- the fields of an envelope.
use sardis.Common.{
  ℕ, false, Option, none, some, ◌≡◌, ◌≢◌, refl, List, [], ◌∷◌, inl, inr, String, string_comparable,
}
use sardis.Common.Int.{pos}
use sardis.Common.Maps.{load, store}
use sardis.Common.Text.{contains}
use sardis.Extern.Erc.{Erc, chain, join_all}
use sardis.Postal.Meta.{
  Schema, Error, joined, schema_validate, LockInfo, update, validate_transition, validate,
}
use sardis.Postal.Envelopes.{
  Shown, Encoding, by_fields, by_text, by_bson, Decoding, to_fields, to_text, to_bson, Codec,
  Registry, Envelope, ended, unfinished, wrong_configuration, add_codec, default_codec_store,
  encodes, called, make_envelope, marshal, marshal_text, marshal_bson, unmarshal, resolve,
}
use sardis.Postal.Envelopes.Marshalling.{marshal_text-unfinished, default_store-Silent}

-- A message is the payload alone.
abbrev codec : Encoding ℕ ℕ → Decoding ℕ ℕ → Codec ℕ ℕ
codec encoding decoding = record {
  format = "";
  encode_job = λ job. job;
  encoding = encoding;
  decode_job = λ message blank. message;
  decoding = decoding;
  representation = false;
}

abbrev text_codec : Codec ℕ ℕ
text_codec = codec (by_text some) (to_text some)

abbrev bson_codec : Codec ℕ ℕ
bson_codec = codec (by_bson some) (to_bson some)

abbrev fields_codec : Codec ℕ ℕ
fields_codec =
    codec (by_fields (λ x. x.payload)) (to_fields (λ m x. some (record x { payload = some m })))

abbrev default_store : List (String × Codec ℕ ℕ)
default_store = default_codec_store ℕ ℕ text_codec bson_codec bson_codec text_codec

abbrev registry : List (String × Codec ℕ ℕ) → Registry ℕ ℕ
registry codecs = record { codecs = codecs; factories = λ s. some 0 }

abbrev schema : String → Schema
schema format = record { version = pos 1; type = "number"; format = format }

abbrev lock : LockInfo
lock = record { status = "created"; logical_clock = 1; last_modified = 9_000_000; owner = "" }

abbrev errors : Erc Error
errors = chain joined (λ a b. Unit {0}) (λ e. tt) (λ a b e h. tt) (λ a b e h. tt)

abbrev shown : String → Option ℕ → Shown ℕ ℕ
shown format payload = record { schema = schema format; payload = payload; lock = lock }

abbrev json_codec : Codec ℕ ℕ
json_codec = record text_codec { format = "stdlib-json" }

abbrev envelope : Envelope ℕ ℕ
envelope = record {
  shown = shown "stdlib-json" none;
  cache = some 7;
  registry = some (registry default_store);
  lazy = encodes json_codec (some 7);
}

make_test :
    make_envelope ℕ ℕ errors 9_000_001 9_000_002 (registry default_store) (schema "stdlib-json") 7
    ≡ some (inl envelope)
unfolding make_envelope schema_validate load update validate_transition validate join_all
    default_codec_store add_codec store
make_test = refl

marshal_text-unfinished_example : marshal_text ℕ ℕ 9 envelope ≡ unfinished
unfolding load default_codec_store add_codec store
marshal_text-unfinished_example =
    marshal_text-unfinished ℕ ℕ 9 envelope (registry default_store)
      (record text_codec { format = "stdlib-json"; representation = false }) some 7 refl refl refl
      refl refl

default_store-Silent_example :
    (marshal_text ℕ ℕ 9 envelope ≢ ended envelope (inl 7))
    × (marshal_bson ℕ ℕ 9 envelope ≢ ended envelope (inl 7))
default_store-Silent_example =
    default_store-Silent ℕ ℕ text_codec bson_codec bson_codec text_codec some some refl refl
      (registry default_store) refl 9 envelope refl 7 envelope

-- An envelope for BSON is refused by its own `MarshalBSON`.
bson_test :
    marshal_bson ℕ ℕ 9 (record envelope { shown = shown "driver-bson" none })
    ≡ ended (record envelope { shown = shown "driver-bson" none }) (inr wrong_configuration)
unfolding marshal_bson contains
bson_test = refl

abbrev other_store : Registry ℕ ℕ
other_store = registry (("fields", fields_codec) ∷ [])

abbrev fresh : Envelope ℕ ℕ
fresh = record {
  shown = shown "fields" none;
  cache = some 7;
  registry = some other_store;
  lazy = encodes fields_codec (some 7);
}

-- A codec that encodes the fields brings the job through.
marshal_test :
    marshal ℕ ℕ 1 false fresh ≡ ended (record fresh { shown = shown "fields" (some 7) }) (inl 7)
unfolding marshal load
marshal_test = refl

abbrev received : Envelope ℕ ℕ
received = record fresh { shown = shown "fields" (some 7); lazy = called false }

unmarshal_test : unmarshal ℕ ℕ 1 false 7 (record fresh { cache = none }) ≡ ended received (inl tt)
unfolding unmarshal load
unmarshal_test = refl

resolve_test : (resolve ℕ ℕ other_store received).1 ≡ inl 7
unfolding resolve
resolve_test = refl

-- The default store has no codec for the format of birch.
birch_test : load "birch-bson" default_store ≡ none
unfolding default_codec_store add_codec load store
birch_test = refl
