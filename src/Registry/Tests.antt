-- ===== src/Registry/Tests.antt =====
-- A registry of numbers.
use miniq.Base.{ℕ, ◌≡◌, refl, [], ◌∷◌}
use miniq.Registry.{Registry, register}

abbrev registry : Registry ℕ
registry = ("tasks.add", 1) ∷ ("tasks.mul", 2) ∷ []

overwrites : register "tasks.mul" 3 registry ≡ ("tasks.add", 1) ∷ ("tasks.mul", 3) ∷ []
unfolding register
overwrites = refl
