-- ===== src/Base/Dicts.antt =====
-- A Python dict whose keys are numbers, in insertion order.
use Prim.Native.Nat.{ℕ}
use mathlib.Core.Path.{◌≡◌, refl}
use mathlib.Core.Logic.{◌≢◌}
use mathlib.Core.Option.{Option, none, some}
use mathlib.Core.List.{List, [], ◌∷◌, ◌++◌}
use native.Mathlib.Omega.{arith}
use miniq.Base.Tests.{◌==◌, if◌then◌else◌}

abbrev pub Dict {κ} : Type κ → Type κ
Dict V = List (ℕ × V)

module _ {κ} {V : Type κ} where
  -- `entries.pop(key, None)`, as far as it changes the dict
  abbrev pub erase : ℕ → Dict V → Dict V
  erase key [] = []
  erase key (entry ∷ entries) = if key == entry.0 then entries else entry ∷ erase key entries

  -- `entries.get(key)`
  abbrev pub lookup : ℕ → Dict V → Option V
  lookup key [] = none
  lookup key (entry ∷ entries) = if key == entry.0 then some entry.1 else lookup key entries

  -- `entries[key] = value`
  abbrev pub insert : ℕ → V → Dict V → Dict V
  insert key value [] = (key, value) ∷ []
  insert key value (entry ∷ entries) =
      if key == entry.0 then (key, value) ∷ entries else entry ∷ insert key value entries

  -- What a key finds after an insertion.
  pub lookup-insert :
      (other key : ℕ) (value : V) (entries : Dict V)
      → lookup other (insert key value entries)
        ≡ (if other == key then some value else lookup other entries)
  lookup-insert other key value [] = refl
  lookup-insert other key value (entry ∷ entries) =
      ground (arith, lookup-insert other key value entries)

  -- A new key goes to the end.
  pub insert_new :
      (key : ℕ) (value : V) (entries : Dict V)
      → lookup key entries ≡ none
      → insert key value entries ≡ entries ++ (key, value) ∷ []
  insert_new key value [] h = refl
  insert_new key value (entry ∷ entries) h = ground (arith, insert_new key value entries)

  pub lookup-erase_other :
      (other key : ℕ) (entries : Dict V)
      → other ≢ key
      → lookup other (erase key entries) ≡ lookup other entries
  lookup-erase_other other key [] h = refl
  lookup-erase_other other key (entry ∷ entries) h =
      ground (arith, lookup-erase_other other key entries h)

module _ {V : Type 0} where
  -- No key is held twice.
  abbrev pub IsDict : Dict V → Type 0
  IsDict [] = Unit
  IsDict (e ∷ d) = (lookup e.0 d ≡ none) × IsDict d

  pub lookup-middle :
      (k : ℕ) (v : V) (d d' : Dict V) → lookup k d ≡ none → lookup k (d ++ (k, v) ∷ d') ≡ some v
  lookup-middle k v [] d' h = ground arith
  lookup-middle k v (e ∷ d) d' h = ground (arith, lookup-middle k v d d')

  pub erase-middle :
      (k : ℕ) (v : V) (d d' : Dict V) → lookup k d ≡ none → erase k (d ++ (k, v) ∷ d') ≡ d ++ d'
  erase-middle k v [] d' h = ground arith
  erase-middle k v (e ∷ d) d' h = ground (arith, erase-middle k v d d')

  -- In a dict the key of an entry does not stand before it.
  pub lookup-none_before :
      (d : Dict V) (k : ℕ) (v : V) (d' : Dict V) → IsDict (d ++ (k, v) ∷ d') → lookup k d ≡ none
  lookup-none_before [] k v d' h = refl
  lookup-none_before (e ∷ d) k v d' h =
      ground (arith, lookup-none_before d k v d' h.1, lookup-append_head k e.0 v d d' h.0)
    where
      lookup-append_head :
          (k j : ℕ) (v : V) (d d' : Dict V) → lookup j (d ++ (k, v) ∷ d') ≡ none → k ≢ j
      lookup-append_head k j v [] d' h = ground arith
      lookup-append_head k j v (e ∷ d) d' h = ground (arith, lookup-append_head k j v d d')

  pub IsDict-erase : (k : ℕ) (d : Dict V) → IsDict d → IsDict (erase k d)
  IsDict-erase k [] h = tt
  IsDict-erase k (e ∷ d) h = ground (arith, IsDict-erase k d h.1, lookup-erase_other e.0 k d)
