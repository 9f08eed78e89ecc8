-- ===== src/Serializers/Errors.antt =====
-- The errors that JSONSerializer lets out.
use miniq.Base.{◌≡◌, Bool, false, inl, inr, ◌⊎◌, Bool-cases}
use miniq.Values.{Value}
use miniq.Exceptions.{Exception, Result, ok, err, ◌>>=◌, serialization_error}
use miniq.Serializers.{
  Bytes, Json, is_type_or_value_error, is_decode_error, serialize, deserialize,
  or_serialization_error,
}

-- The handler lets through what it does not catch, and nothing that it catches.
handled_cases :
    {A : Type 0} (caught : Exception → Bool) (r : Result A) {e : Exception}
    → or_serialization_error caught r ≡ err e
    → (e ≡ serialization_error) ⊎ (caught e ≡ false)
handled_cases caught (ok a) h = cc
handled_cases {A} caught (err e') {e} h = elim (Bool-cases (caught e')) [
  | inl yes' ↦ inl (let h' = rw yes' at h in cc)
  | inr no' ↦ inr (let h' = rw no' at h in rw (err-injective h') at no')
]
  where
    err-injective : {e d : Exception} → ◌≡◌ {A = Result A} (err e) (err d) → e ≡ d
    err-injective p = cc

module _ (json : Json) where
  open json use {dumps, loads, encode, decode}

  -- An error that leaves `serialize` is SerializationError, or neither a TypeError nor a
  -- ValueError.
  pub serialize_raises :
      (v : Value) {e : Exception}
      → serialize json v ≡ err e
      → (e ≡ serialization_error) ⊎ (is_type_or_value_error e ≡ false)
  unfolding serialize
  serialize_raises v h = handled_cases is_type_or_value_error (dumps v >>= encode) h

  -- An error that leaves `deserialize` is SerializationError, or neither a JSONDecodeError nor a
  -- UnicodeDecodeError.
  pub deserialize_raises :
      (blob : Bytes) {e : Exception}
      → deserialize json blob ≡ err e
      → (e ≡ serialization_error) ⊎ (is_decode_error e ≡ false)
  unfolding deserialize
  deserialize_raises blob h = handled_cases is_decode_error (decode blob >>= loads) h
