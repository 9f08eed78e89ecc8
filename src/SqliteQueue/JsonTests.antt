-- ===== src/SqliteQueue/JsonTests.antt =====
-- A tuple among the arguments of a task, over a json module that knows two values.
use miniq.Base.{◌≡◌, refl, sym, String, [], ◌∷◌, pos, none, if◌then◌else◌, inl, inr, Bool-cases}
use text.Mathlib.Text.{◌==◌}
use text.Mathlib.TextEquality.{eq_iff}
use miniq.Values.{Value, array, tuple, dict, nil, cons, end, null}
use miniq.Exceptions.{Result, ok, err, type_error}
use miniq.Task.{Task, pending}
use miniq.Serializers.{Bytes, Json}
use miniq.Serializers.ReadBack.{listed, IsJsonSafe, JsonLaws}

abbrev dumps : Value → Result String
dumps (array (cons (tuple nil) nil)) = ok "[]"
dumps (dict end) = ok ""
dumps _ = err type_error

abbrev loads : String → Result Value
loads String.[] = ok (dict end)
loads _ = ok (array (cons (array nil) nil))

abbrev encode : String → Result Bytes
encode text =
    if text == "[]" then ok (91 ∷ 93 ∷ []) else if text == "" then ok [] else err type_error

abbrev decode : Bytes → Result String
decode [] = ok ""
decode _ = ok "[]"

abbrev json : Json
json = record { dumps = dumps; loads = loads; encode = encode; decode = decode }

laws : JsonLaws json
laws = record { loads_dumps = loads_dumps; decode_encode = decode_encode }
  where
    loads_dumps :
        (v : Value) (text : String) → IsJsonSafe v → dumps v ≡ ok text → loads text ≡ ok (listed v)
    loads_dumps (array (cons (tuple nil) nil)) text safe e =
        let t : "[]" ≡ text = cc in rw (sym t) refl
    loads_dumps (dict end) text safe e = let t : "" ≡ text = cc in rw (sym t) refl
    loads_dumps v text safe e = absurd (cc)

    decode_encode : (text : String) (blob : Bytes) → encode text ≡ ok blob → decode blob ≡ ok text
    decode_encode text blob e = elim (Bool-cases (text == "[]")) [
      | inl is_list ↦
          let e' : 91 ∷ 93 ∷ [] ≡ blob = let e' = rw is_list at e in cc in
          rw ((eq_iff text "[]").0 is_list, sym e') refl
      | inr other ↦ elim (Bool-cases (text == "")) [
        | inl is_dict ↦
            let e' : [] ≡ blob = let e' = rw (other, is_dict) at e in cc in
            rw ((eq_iff text "").0 is_dict, sym e') refl
        | inr neither ↦ absurd (let e' = rw (other, neither) at e in cc)
      ]
    ]

-- A task with the arguments `((),)`.
abbrev task : Task
task = record {
  func_path = "tasks.add";
  args = tuple nil ∷ [];
  kwargs = dict end;
  id = 4;
  status = pending;
  retries = pos 0;
  max_retries = pos 3;
  priority = pos 0;
  created_at = pos 9;
  started_at = none;
  finished_at = none;
  available_at = none;
  result = null;
  error = none;
}
