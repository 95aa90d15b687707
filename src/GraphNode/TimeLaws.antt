-- ===== src/GraphNode/TimeLaws.antt =====
-- The loop that the searches for a point in time share ends at two neighbours: src/backend/include/graph/GraphNode.hpp.
use casita.Prelude.{
  ℕ, zero, suc, ◌+◌, ◌-◌, ◌≤◌, ◌<◌, ◌≡◌, inl, inr, Bool, true, false, some, List, arith, length,
  get_elem?, get_elem?-lt, Pairwise, Bool-cases,
}
use native.Mathlib.Decide.{ℕ_discrete}
use casita.Node.Defs.{Node}
use casita.GraphNode.Search.{Found, middle}
use casita.GraphNode.SearchLaws.{middle_bounds}
use casita.GraphNode.TimeSearch.{narrow}

-- The vector is sorted by time.
abbrev pub IsTimed : List Node → Type 0
IsTimed = Pairwise (λ x y. x.time ≤ y.time)

middle_inside : (lo hi : ℕ) → lo + 1 < hi → (lo < middle lo hi) × (middle lo hi < hi)
unfolding middle
middle_inside lo hi p = (omega arith, omega arith)

module _ (nodes : List Node) (go_left : Node → Bool) (pair : ℕ → ℕ → Found)
    (alone : ℕ → Found) where
  -- A round that moves a bound keeps the invariant.
  pub record Halves (Inv : ℕ → ℕ → Type 0) : Type 0 where
    pub left :
        (lo hi i : ℕ) (x : Node)
        → Inv lo hi
        → get_elem? nodes i ≡ some x
        → go_left x ≡ true
        → Inv lo i
    pub right :
        (lo hi i : ℕ) (x : Node)
        → Inv lo hi
        → get_elem? nodes i ≡ some x
        → go_left x ≡ false
        → Inv i hi

  narrow_pair :
      (fuel lo : ℕ) → narrow nodes go_left pair alone (suc fuel) lo (lo + 1) ≡ pair lo (lo + 1)
  unfolding narrow
  narrow_pair fuel lo = ground arith

  narrow_left :
      (fuel lo hi : ℕ) (x : Node)
      → get_elem? nodes (middle lo hi) ≡ some x
      → go_left x ≡ true
      → lo + 1 < hi
      → narrow nodes go_left pair alone (suc fuel) lo hi
        ≡ narrow nodes go_left pair alone fuel lo (middle lo hi)
  unfolding narrow
  narrow_left fuel lo hi x e g p = rw (e, narrow, g) (ground (arith, middle_inside lo hi p))

  narrow_right :
      (fuel lo hi : ℕ) (x : Node)
      → get_elem? nodes (middle lo hi) ≡ some x
      → go_left x ≡ false
      → lo + 1 < hi
      → narrow nodes go_left pair alone (suc fuel) lo hi
        ≡ narrow nodes go_left pair alone fuel (middle lo hi) hi
  unfolding narrow
  narrow_right fuel lo hi x e g p = rw (e, narrow, g) (ground (arith, middle_inside lo hi p))

  -- The loop ends at two neighbours.
  abbrev pub Ends : (ℕ → ℕ → Type 0) → Found → Type 0
  Ends Inv r = (lo : ℕ) × (lo + 1 < length nodes) × Inv lo (lo + 1) × (r ≡ pair lo (lo + 1))

  pub narrow-Ends :
      (Inv : ℕ → ℕ → Type 0)
      → Halves Inv
      → (fuel lo hi : ℕ) → Inv lo hi
      → lo < hi
      → hi < length nodes
      → hi - lo ≤ fuel
      → Ends Inv (narrow nodes go_left pair alone fuel lo hi)
  narrow-Ends Inv keep zero lo hi v p q r = absurd (omega arith)
  narrow-Ends Inv keep (suc fuel) lo hi v p q r =
      let (x, e) =
        get_elem?-lt nodes (middle lo hi) (omega (arith, middle_bounds lo hi (omega arith))) in
      elim (ℕ_discrete (lo + 1) hi) [
        | yes y ↦ (lo, omega arith, rw y v, rw (← y) (narrow_pair fuel lo))
        | no n ↦
            let (above, below) = middle_inside lo hi (omega arith) in
            elim (Bool-cases (go_left x)) [
              | inl g ↦ rw (narrow_left fuel lo hi x e g (omega arith)) (
                  narrow-Ends Inv keep fuel lo (middle lo hi)
                    (keep.left lo hi (middle lo hi) x v e g) above (omega arith) (omega arith))
              | inr g ↦ rw (narrow_right fuel lo hi x e g (omega arith)) (
                  narrow-Ends Inv keep fuel (middle lo hi) hi
                    (keep.right lo hi (middle lo hi) x v e g) below q (omega arith))
            ]
      ]
