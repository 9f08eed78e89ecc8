-- ===== src/Serializers/Tests.antt =====
-- The JSON serializer over a json module that knows the text of one value.
use miniq.Base.{◌≡◌, refl, String, [], ◌∷◌}
use miniq.Values.{Value, null, object}
use miniq.Exceptions.{Result, ok, err, type_error, json_decode_error, serialization_error}
use miniq.Serializers.{Bytes, Json, serialize, deserialize}

abbrev dumps : Value → Result String
dumps null = ok "null"
dumps _ = err type_error

abbrev encode : String → Result Bytes
encode String.[] = ok []
encode _ = ok (110 ∷ [])

abbrev loads : String → Result Value
loads String.[] = err json_decode_error
loads _ = ok null

abbrev decode : Bytes → Result String
decode [] = ok String.[]
decode _ = ok "null"

abbrev json : Json
json = record { dumps = dumps; loads = loads; encode = encode; decode = decode }

refuses : serialize json (object 3) ≡ err serialization_error
unfolding serialize
refuses = refl

garbles : deserialize json [] ≡ err serialization_error
unfolding deserialize
garbles = refl
