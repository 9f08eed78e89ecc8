-- ===== src/Registry/Laws.antt =====
-- What `register` and `lookup` do together.
use miniq.Base.{
  ◌≡◌, ◌≢◌, refl, sym, inl, inr, String, true, false, [], ◌∷◌, Bool-cases, ◌∙◌, if◌then◌else◌,
}
use text.Mathlib.Text.{◌==◌}
use text.Mathlib.TextEquality.{eq_iff}
use miniq.Exceptions.{ok}
use miniq.Registry.{Registry, register, lookup}

eq_self : (s : String) → (s == s) ≡ true
eq_self s = (eq_iff s s).1 refl

eq_other : (s t : String) → s ≢ t → (s == t) ≡ false
eq_other s t ne = elim (Bool-cases (s == t)) [
  | inl same ↦ absurd (ne ((eq_iff s t).0 same))
  | inr other ↦ other
]

module _ {ℓ} {F : Type ℓ} where
  pub lookup-register_self :
      (path : String) (f : F) (registry : Registry F)
      → lookup path (register path f registry) ≡ ok f
  unfolding lookup register
  lookup-register_self path f [] = rw (eq_self path) refl
  lookup-register_self path f (e ∷ registry) = elim (Bool-cases (path == e.0)) [
    | inl here ↦ rw (register, here, lookup, eq_self path) refl
    | inr there ↦ rw (register, there, lookup, there) (lookup-register_self path f registry)
  ]

  lookup-register_other :
      (path other : String) (f : F) (registry : Registry F)
      → other ≢ path
      → lookup other (register path f registry) ≡ lookup other registry
  unfolding lookup register
  lookup-register_other path other f [] ne = rw (eq_other other path ne) refl
  lookup-register_other path other f (e ∷ registry) ne = elim (Bool-cases (path == e.0)) [
    | inl here ↦
        let same = (eq_iff path e.0).0 here in
        let ne' = eq_other other e.0 (λ q. ne (q ∙ sym same)) in
        rw (register, here, lookup, eq_other other path ne, ne') refl
    | inr there ↦ elim (Bool-cases (other == e.0)) [
      | inl hit ↦ rw (register, there, lookup, hit) refl
      | inr miss ↦
          rw (register, there, lookup, miss) (lookup-register_other path other f registry ne)
    ]
  ]

  -- After a registration its path finds the function, an earlier one being overwritten, and any
  -- other path finds what it found before.
  pub lookup-register :
      (path other : String) (f : F) (registry : Registry F)
      → lookup other (register path f registry)
        ≡ (if other == path then ok f else lookup other registry)
  lookup-register path other f registry = elim (Bool-cases (other == path)) [
    | inl e ↦ rw (e, (eq_iff other path).0 e) (lookup-register_self path f registry)
    | inr e ↦ rw e (lookup-register_other path other f registry (λ same. differ other path e same))
  ]
    where
      differ : (s t : String) → (s == t) ≡ false → s ≢ t
      differ s t e same = let e' : (s == t) ≡ true = (eq_iff s t).1 same in cc
