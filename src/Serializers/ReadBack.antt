-- ===== src/Serializers/ReadBack.antt =====
-- What JSONSerializer reads back of a value, from what Python documents of its json module.
use miniq.Base.{◌≡◌, ◌≢◌, refl, ap, inl, inr, String, List, [], ◌∷◌, map, Bool, Bool-cases}
use miniq.Values.{
  Value, Items, Fields, float, array, tuple, dict, object, nil, cons, end, field, items,
}
use miniq.Exceptions.{Exception, Result, ok, err, ◌>>=◌}
use miniq.Serializers.{
  Bytes, Json, or_serialization_error, serialize, deserialize, is_type_or_value_error,
}

-- The value with lists in place of its tuples: JSON has arrays alone.
abbrev mutual
  pub listed : Value → Value
  listed (array vs) = array (listed_items vs)
  listed (tuple vs) = array (listed_items vs)
  listed (dict r) = dict (listed_fields r)
  listed v = v

  listed_items : Items → Items
  listed_items nil = nil
  listed_items (cons v vs) = cons (listed v) (listed_items vs)

  listed_fields : Fields → Fields
  listed_fields end = end
  listed_fields (field k v r) = field k (listed v) (listed_fields r)

abbrev HasNo : String → Fields → Type 0
HasNo k end = Unit
HasNo k (field k' v r) = (k ≢ k') × HasNo k r

-- Values of which json documents the text: no floats, whose text it leaves to them, no object of
-- another type, and dicts with each key once.
abbrev mutual
  pub IsJsonSafe : Value → Type 0
  IsJsonSafe (float bits) = ⊥
  IsJsonSafe (object n) = ⊥
  IsJsonSafe (array vs) = AreJsonSafe vs
  IsJsonSafe (tuple vs) = AreJsonSafe vs
  IsJsonSafe (dict r) = AreSafeFields r
  IsJsonSafe v = Unit

  AreJsonSafe : Items → Type 0
  AreJsonSafe nil = Unit
  AreJsonSafe (cons v vs) = IsJsonSafe v × AreJsonSafe vs

  AreSafeFields : Fields → Type 0
  AreSafeFields end = Unit
  AreSafeFields (field k v r) = HasNo k r × IsJsonSafe v × AreSafeFields r

-- What is relied on: `loads` reads the text of a value back, its tuples as lists, and UTF-8 decodes
-- what it has encoded.
pub record JsonLaws (json : Json) : Type 0 where
  pub loads_dumps :
      (v : Value) (text : String)
      → IsJsonSafe v
      → json.dumps v ≡ ok text
      → json.loads text ≡ ok (listed v)
  pub decode_encode :
      (text : String) (blob : Bytes) → json.encode text ≡ ok blob → json.decode blob ≡ ok text

handled_ok :
    {A : Type 0} (caught : Exception → Bool) (r : Result A) {a : A}
    → or_serialization_error caught r ≡ ok a
    → r ≡ ok a
handled_ok caught (ok a') e = e
handled_ok caught (err x) e = elim (Bool-cases (caught x)) [
  | inl yes' ↦ absurd (let e' = rw yes' at e in cc)
  | inr no' ↦ absurd (let e' = rw no' at e in cc)
]

module _ (json : Json) where
  open json use {dumps, loads, encode, decode}

  -- The text that `serialize` encodes.
  serialized :
      (v : Value) (blob : Bytes)
      → serialize json v ≡ ok blob
      → (text : String) × (dumps v ≡ ok text) × (encode text ≡ ok blob)
  unfolding serialize
  serialized v blob e =
      by_text (dumps v) refl (handled_ok is_type_or_value_error (dumps v >>= encode) e)
    where
      by_text :
          (r : Result String)
          → dumps v ≡ r
          → r >>= encode ≡ ok blob
          → (text : String) × (dumps v ≡ ok text) × (encode text ≡ ok blob)
      by_text (ok text) dumped encoded = (text, dumped, encoded)
      by_text (err x) dumped encoded = absurd (cc)

  pub deserialize-serialize :
      (v : Value) (blob : Bytes)
      → JsonLaws json
      → IsJsonSafe v
      → serialize json v ≡ ok blob
      → deserialize json blob ≡ ok (listed v)
  unfolding deserialize
  deserialize-serialize v blob laws safe e =
      let (text, dumped, encoded) = serialized v blob e in
      rw (laws.decode_encode text blob encoded, ◌>>=◌, laws.loads_dumps v text safe dumped) refl

pub listed_array : (vs : List Value) → listed (array (items vs)) ≡ array (items (map listed vs))
listed_array vs = ap array (go vs)
  where
    go : (vs : List Value) → listed_items (items vs) ≡ items (map listed vs)
    go [] = refl
    go (v ∷ vs) = ap (cons (listed v)) (go vs)
