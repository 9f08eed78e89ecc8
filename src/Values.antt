-- ===== src/Values.antt =====
-- The Python values that task arguments and results are made of, and `tuple(v)` on them.
use miniq.Base.{ℕ, ℤ, Bool, Option, none, some, String, List, [], ◌∷◌}

-- The JSON types, tuples, and opaque objects of any other type. A float is given by its bits.
mutual
  pub data Value : Type 0 where
    null : Value
    bool : Bool → Value
    int : ℤ → Value
    float : ℕ → Value
    str : String → Value
    array : Items → Value
    tuple : Items → Value
    dict : Fields → Value
    object : ℕ → Value

  pub data Items : Type 0 where
    nil : Items
    cons : Value → Items → Items

  pub data Fields : Type 0 where
    end : Fields
    field : String → Value → Fields → Fields

abbrev pub items : List Value → Items
items [] = nil
items (v ∷ vs) = cons v (items vs)

abbrev pub values : Items → List Value
values nil = []
values (cons v vs) = v ∷ values vs

abbrev keys : Fields → List Value
keys end = []
keys (field k v r) = str k ∷ keys r

-- The one-character strings of a string.
abbrev chars : String → List Value
chars String.[] = []
chars (String.◌∷◌ c s) = str (String.◌∷◌ c String.[]) ∷ chars s

-- `tuple(v)`: `none` is the TypeError of a value that cannot be iterated over.
abbrev pub tuple_of : Value → Option (List Value)
tuple_of (array vs) = some (values vs)
tuple_of (tuple vs) = some (values vs)
tuple_of (dict r) = some (keys r)
tuple_of (str s) = some (chars s)
tuple_of _ = none
