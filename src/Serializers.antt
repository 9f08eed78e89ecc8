-- ===== src/Serializers.antt =====
-- src/miniq/serializers.py: the interface `Serializer`, and `JSONSerializer` over Python's json
-- module and UTF-8 codec, which are parameters.
pub mod Errors
pub mod ReadBack
mod Tests
use miniq.Base.{ℕ, String, List, Bool, true, false, if◌then◌else◌}
use miniq.Values.{Value}
use miniq.Exceptions.{
  Exception, Result, ok, err, ◌>>=◌, serialization_error, type_error, value_error,
  json_decode_error, unicode_decode_error,
}

abbrev pub Bytes : Type 0
Bytes = List ℕ

pub record Serializer : Type 0 where
  pub serialize : Value → Result Bytes
  pub deserialize : Bytes → Result Value

-- `json.dumps`, `json.loads`, `str.encode` and `bytes.decode`.
pub record Json : Type 0 where
  pub dumps : Value → Result String
  pub loads : String → Result Value
  pub encode : String → Result Bytes
  pub decode : Bytes → Result String

-- `except (TypeError, ValueError)`. The two errors of decoding are subclasses of ValueError.
abbrev pub is_type_or_value_error : Exception → Bool
is_type_or_value_error type_error = true
is_type_or_value_error value_error = true
is_type_or_value_error json_decode_error = true
is_type_or_value_error unicode_decode_error = true
is_type_or_value_error _ = false

-- `except (json.JSONDecodeError, UnicodeDecodeError)`
abbrev pub is_decode_error : Exception → Bool
is_decode_error json_decode_error = true
is_decode_error unicode_decode_error = true
is_decode_error _ = false

-- `try: r` / `except <those>: raise SerializationError`
abbrev pub or_serialization_error : {A : Type 0} → (Exception → Bool) → Result A → Result A
or_serialization_error caught (ok a) = ok a
or_serialization_error caught (err e) = if caught e then err serialization_error else err e

module _ (json : Json) where
  open json use {dumps, loads, encode, decode}

  unfoldable pub serialize : Value → Result Bytes
  serialize value = or_serialization_error is_type_or_value_error (dumps value >>= encode)

  unfoldable pub deserialize : Bytes → Result Value
  deserialize blob = or_serialization_error is_decode_error (decode blob >>= loads)

-- `JSONSerializer`
unfoldable pub json_serializer : Json → Serializer
unfolding serialize deserialize
json_serializer json = record { serialize = serialize json; deserialize = deserialize json }
