-- ===== src/Memory/Choice.antt =====
-- Which pending task the scan of `dequeue` picks.
use mathlib.Core.List.{append_assoc, append-nil}
use miniq.Base.{
  ℕ, ◌≡◌, refl, ◌⊎◌, inl, inr, true, false, Option, none, some, List, [], ◌∷◌, ◌++◌, All,
  All-append, All-map, length, length_snoc, arith, ◌<ℤ◌, Bool-cases,
}
use miniq.Task.{Task, Time}
use miniq.Heap.{Ref, Heap}
use miniq.Memory.{Best, is_available, is_better, consider, scan}

-- A higher priority, or the same one and an earlier creation.
abbrev pub Outranks : Task → Task → Type 0
Outranks t u =
    (u.priority <ℤ t.priority) ⊎ (t.priority ≡ u.priority) × (t.created_at <ℤ u.created_at)

pub Outranks-trans : (t u v : Task) → Outranks t u → Outranks u v → Outranks t v
Outranks-trans t u v h k = ground arith

pub Outranks-neg_trans : (t u v : Task) → Outranks t u → ¬ Outranks v u → Outranks t v
Outranks-neg_trans t u v h k = ground arith

pub Outranks-asymm : (t u : Task) → Outranks t u → ¬ Outranks u t
Outranks-asymm t u h k = ground arith

-- The scan's test, where `b` holds the priority and the creation time of `u`.
module _ (t u : Task) (b : Best) (p : b.priority ≡ u.priority)
    (c : b.created_at ≡ u.created_at) where
  is_better-Outranks : is_better t (some b) ≡ true → Outranks t u
  unfolding is_better
  is_better-Outranks h = ground arith

  not_better-Outranks : is_better t (some b) ≡ false → ¬ Outranks t u
  unfolding is_better
  not_better-Outranks h k = ground arith

module _ (now : Time) (h : Heap) where
  abbrev pub IsAvailable : Ref → Type 0
  IsAvailable r = is_available now (h.cell r) ≡ true

  abbrev pub NoneAvailable : List Ref → Type 0
  NoneAvailable = All (λ r. ¬ IsAvailable r)

  -- `ref`, at the index in `best`, is available; it outranks the available tasks before it, and
  -- none of those after it outranks it.
  pub record IsChoice (l : List Ref) (best : Best) : Type 0 where
    pub before : List Ref
    pub ref : Ref
    pub after : List Ref
    pub split : l ≡ before ++ ref ∷ after
    pub index : best.index ≡ length before
    pub priority : best.priority ≡ (h.cell ref).priority
    pub created_at : best.created_at ≡ (h.cell ref).created_at
    pub available : IsAvailable ref
    pub first : All (λ r. IsAvailable r → Outranks (h.cell ref) (h.cell r)) before
    pub unbeaten : All (λ r. IsAvailable r → ¬ Outranks (h.cell r) (h.cell ref)) after

  -- What the scan has found in the references that it has seen.
  abbrev pub Chosen : List Ref → Option Best → Type 0
  Chosen l none = NoneAvailable l
  Chosen l (some best) = IsChoice l best

  abbrev candidate : ℕ → Ref → Best
  candidate i r = record {
    index = i;
    priority = (h.cell r).priority;
    created_at = (h.cell r).created_at;
  }

  Chosen-none :
      (seen : List Ref) (r : Ref)
      → NoneAvailable seen
      → Chosen (seen ++ r ∷ []) (consider now (length seen) (h.cell r) none)
  unfolding consider
  Chosen-none seen r e = elim (Bool-cases (is_available now (h.cell r))) [
    | inl free ↦ rw free (record {
      before = seen;
      ref = r;
      after = [];
      split = refl;
      index = refl;
      priority = refl;
      created_at = refl;
      available = free;
      first = All-map _ _ seen (λ q busy free'. absurd (busy free')) e;
      unbeaten = tt;
    })
    | inr busy ↦ rw busy (All-append _ seen (r ∷ []) e (λ free. cc, tt))
  ]

  -- The scan goes on past `r`, and keeps its choice.
  IsChoice-keep :
      (seen : List Ref) (r : Ref) {best : Best}
      → IsChoice seen best
      → (IsAvailable r → is_better (h.cell r) (some best) ≡ false)
      → IsChoice (seen ++ r ∷ []) best
  IsChoice-keep seen r c no_better = record {
    before = c.before;
    ref = c.ref;
    after = c.after ++ r ∷ [];
    split = rw (c.split, append_assoc);
    index = c.index;
    priority = c.priority;
    created_at = c.created_at;
    available = c.available;
    first = c.first;
    unbeaten = All-append _ c.after (r ∷ []) c.unbeaten (
      λ free.
          not_better-Outranks (h.cell r) (h.cell c.ref) _ c.priority c.created_at (no_better free),
      tt,
    );
  }

  -- The scan takes `r`, which is better.
  IsChoice-take :
      (seen : List Ref) (r : Ref) {best : Best}
      → IsChoice seen best
      → IsAvailable r
      → is_better (h.cell r) (some best) ≡ true
      → IsChoice (seen ++ r ∷ []) (candidate (length seen) r)
  IsChoice-take seen r c free better =
      let above : Outranks (h.cell r) (h.cell c.ref) =
        is_better-Outranks (h.cell r) (h.cell c.ref) _ c.priority c.created_at better in
      record {
        before = seen;
        ref = r;
        after = [];
        split = refl;
        index = refl;
        priority = refl;
        created_at = refl;
        available = free;
        first = rw c.split (
            All-append _ c.before (c.ref ∷ c.after)
              (All-map _ _ c.before
                (λ q below free'.
                  Outranks-trans (h.cell r) (h.cell c.ref) (h.cell q) above (below free'))
                c.first)
              (
                λ _. above,
                All-map _ _ c.after
                    (λ q low free'.
                      Outranks-neg_trans (h.cell r) (h.cell c.ref) (h.cell q) above (low free'))
                    c.unbeaten,
              ));
        unbeaten = tt;
      }

  Chosen-consider :
      (seen : List Ref) (r : Ref) (best : Option Best)
      → Chosen seen best
      → Chosen (seen ++ r ∷ []) (consider now (length seen) (h.cell r) best)
  unfolding consider
  Chosen-consider seen r none e = Chosen-none seen r e
  Chosen-consider seen r (some best) c = elim (Bool-cases (is_available now (h.cell r))) [
    | inr busy ↦ rw busy (IsChoice-keep seen r c (λ free. cc))
    | inl free ↦ elim (Bool-cases (is_better (h.cell r) (some best))) [
      | inl better ↦ rw (free, better) (IsChoice-take seen r c free better)
      | inr worse ↦ rw (free, worse) (IsChoice-keep seen r c (λ _. worse))
    ]
  ]

  scan_from-Chosen :
      (rs seen : List Ref) (best : Option Best)
      → Chosen seen best
      → Chosen (seen ++ rs) (scan now h (length seen) rs best)
  unfolding scan
  scan_from-Chosen [] seen best c = rw append-nil c
  scan_from-Chosen (r ∷ rs) seen best c =
      let next = scan_from-Chosen rs (seen ++ r ∷ []) _ (Chosen-consider seen r best c) in
      rw (length_snoc, append_assoc) at next

  -- The scan finds nothing exactly when no pending task is available. Otherwise it finds an
  -- available task that none outranks, and that outranks all available tasks before it.
  pub scan-Chosen : (l : List Ref) → Chosen l (scan now h 0 l none)
  scan-Chosen l = scan_from-Chosen l [] none tt
