-- ===== src/Registry.antt =====
-- src/miniq/registry.py: the dict from function paths to functions.
pub mod Laws
mod Tests
use miniq.Base.{String, Bool, Option, none, some, List, [], ◌∷◌, if◌then◌else◌}
use text.Mathlib.Text.{◌==◌}
use miniq.Exceptions.{Result, ok, err, task_not_registered}

-- The dict `_registry`, in insertion order.
abbrev pub Registry {ℓ} : Type ℓ → Type ℓ
Registry F = List (String × F)

module _ {ℓ} {F : Type ℓ} where
  -- `_registry[func_path] = func`
  unfoldable pub register : String → F → Registry F → Registry F
  register func_path func [] = (func_path, func) ∷ []
  register func_path func (e ∷ registry) =
      if func_path == e.0
      then (func_path, func) ∷ registry
      else e ∷ register func_path func registry

  unfoldable pub lookup : String → Registry F → Result F
  lookup func_path [] = err (task_not_registered func_path)
  lookup func_path (e ∷ registry) = if func_path == e.0 then ok e.1 else lookup func_path registry

  unfoldable pub clear : Registry F → Registry F
  clear registry = []
