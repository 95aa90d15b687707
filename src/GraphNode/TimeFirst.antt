-- ===== src/GraphNode/TimeFirst.antt =====
-- `findFirstNodeAfter` of src/backend/include/graph/GraphNode.hpp returns the first node that is
-- not before the given time.
use casita.Prelude.{
  ℕ, zero, suc, ◌+◌, ◌-◌, ◌≤◌, ◌<◌, ◌≡◌, refl, sym, ap, inl, inr, Bool, not, Option, none, some,
  List, [], ◌∷◌, ltb, leb, arith, length, get_elem?, get_elem?-lt, lt-length_of_get_elem?,
  Pairwise-get_elem?, find_first, get_last?, Bool-cases,
}
use native.Mathlib.Decide.{ℕ_discrete, dec_lt}
use casita.Node.Defs.{Node}
use casita.GraphNode.Search.{Found, at, node}
use casita.GraphNode.TimeSearch.{check, narrow, settle, find_first_node_after}
use casita.GraphNode.TimeLaws.{IsTimed, Halves, narrow-Ends}

module _ (time : ℕ) (nodes : List Node) (sorted : IsTimed nodes) where
  in_time :
      (i j : ℕ) (x y : Node)
      → get_elem? nodes i ≡ some x
      → get_elem? nodes j ≡ some y
      → i < j
      → x.time ≤ y.time
  in_time i j x y e f p = Pairwise-get_elem? (λ a b. a.time ≤ b.time) nodes i j x y sorted p e f

  -- All earlier nodes are before the time, and the node itself is not unless it is the last.
  record IsFirst (i : ℕ) : Type 0 where
    earlier : (j : ℕ) (y : Node) → j < i → get_elem? nodes j ≡ some y → y.time < time
    itself : (x : Node) → i + 1 < length nodes → get_elem? nodes i ≡ some x → time ≤ x.time

  record FirstInv (lo hi : ℕ) : Type 0 where
    below : (j : ℕ) (y : Node) → j < lo → get_elem? nodes j ≡ some y → y.time < time
    above : (x : Node) → hi + 1 < length nodes → get_elem? nodes hi ≡ some x → time ≤ x.time

  abbrev to_left : Node → Bool
  to_left n = not (ltb n.time time)

  FirstInv-Halves :
      (pair : ℕ → ℕ → Found) (alone : ℕ → Found) → Halves nodes to_left pair alone FirstInv
  FirstInv-Halves pair alone = record {
    left = λ lo hi i x v e g. record { below = v.below; above = λ z p f. ground arith };
    right = λ lo hi i x v e g. record {
      below = λ j y p f. ground (arith, in_time j i y x f e p);
      above = v.above;
    };
  }

  -- The loop ends at such a position, which `settle` accepts.
  abbrev first_pair : ℕ → ℕ → Found
  first_pair lo hi = check nodes (λ n. leb time n.time) lo (at lo) (at hi)

  first_pair-IsFirst :
      (lo : ℕ)
      → FirstInv lo (lo + 1)
      → lo + 1 < length nodes
      → (i : ℕ) × (x : Node) × (get_elem? nodes i ≡ some x)
        × (first_pair lo (lo + 1) ≡ at i)
        × IsFirst i
  unfolding check
  first_pair-IsFirst lo v p =
      let (y, f) = get_elem?-lt nodes (lo + 1) p in
      let (x, e) = get_elem?-lt nodes lo (omega arith) in
      elim (Bool-cases (leb time x.time)) [
        | inl t ↦ (
          lo,
          x,
          e,
          rw (e, check, t),
          record { earlier = v.below; itself = λ z q g. ground arith },
        )
        | inr t ↦ (
          lo + 1,
          y,
          f,
          rw (e, check, t),
          record {
            earlier = λ j z q g. elim (ℕ_discrete j lo) [
              | yes s ↦ ground arith
              | no d ↦ v.below j z (omega arith) g
            ];
            itself = v.above;
          },
        )
      ]

  settle-IsFirst :
      (i : ℕ) (x : Node)
      → get_elem? nodes i ≡ some x
      → settle nodes (λ n. ltb n.time time) time (at i) ≡ node (some x)
  unfolding settle
  settle-IsFirst zero x e = ground arith
  settle-IsFirst (suc i) x e = ground arith

find_first-late :
    (time : ℕ) (nodes : List Node) (i : ℕ) (x : Node)
    → get_elem? nodes i ≡ some x
    → time ≤ x.time
    → ((j : ℕ) (y : Node) → j < i → get_elem? nodes j ≡ some y → y.time < time)
    → find_first (λ n. leb time n.time) nodes ≡ some x
find_first-late time [] i x e p h = cc
find_first-late time (z ∷ nodes) zero x e p h = ground arith
find_first-late time (z ∷ nodes) (suc i) x e p h = ground (
  arith,
  h 0 z (omega arith) refl,
  find_first-late time nodes i x e p (λ j y q f. h (suc j) y (omega arith) f),
)

find_first-late_none :
    (time : ℕ) (nodes : List Node)
    → ((j : ℕ) (y : Node) → get_elem? nodes j ≡ some y → y.time < time)
    → find_first (λ n. leb time n.time) nodes ≡ none
find_first-late_none time [] h = refl
find_first-late_none time (x ∷ nodes) h =
    ground (arith, h 0 x refl, find_first-late_none time nodes (λ j y e. h (suc j) y e))

get_last?-get_elem? :
    (nodes : List Node) (i : ℕ) (x : Node)
    → get_elem? nodes i ≡ some x
    → length nodes ≡ i + 1
    → get_last? nodes ≡ some x
get_last?-get_elem? [] i x e p = cc
get_last?-get_elem? (z ∷ []) zero x e p = ground arith
get_last?-get_elem? (z ∷ y ∷ nodes) zero x e p = absurd (omega arith)
get_last?-get_elem? (z ∷ nodes) (suc i) x e p =
    ground (arith, get_last?-get_elem? nodes i x e (omega arith))

-- The first node that is not before the time, or else the last node.
abbrev pub first_or_last : ℕ → List Node → Option Node
first_or_last time nodes = elim (find_first (λ n. leb time n.time) nodes) [
  | some x ↦ some x
  | none ↦ get_last? nodes
]

IsFirst-first_or_last :
    (time : ℕ) (nodes : List Node) (sorted : IsTimed nodes) (i : ℕ) (x : Node)
    → get_elem? nodes i ≡ some x
    → IsFirst time nodes sorted i
    → first_or_last time nodes ≡ some x
IsFirst-first_or_last time nodes sorted i x e h = elim (Bool-cases (leb time x.time)) [
  | inl t ↦ ground (arith, find_first-late time nodes i x e (ground arith) h.earlier)
  | inr t ↦
      let inside = lt-length_of_get_elem? nodes i x e in
      let last : length nodes ≡ i + 1 = ground (arith, h.itself x) in
      ground (
        arith,
        get_last?-get_elem? nodes i x e last,
        find_first-late_none time nodes (λ j y f. elim (dec_lt j i) [
          | yes p ↦ h.earlier j y p f
          | no p ↦
              let q = lt-length_of_get_elem? nodes j y f in
              let same : j ≡ i = omega arith in ground arith
        ]),
      )
]

FirstInv-start :
    (time : ℕ) (nodes : List Node) (sorted : IsTimed nodes)
    → FirstInv time nodes sorted 0 (length nodes - 1)
FirstInv-start time nodes sorted = record {
  below = λ j y p f. absurd (omega arith);
  above = λ x p f. absurd (omega arith);
}

settle-first :
    (time : ℕ) (nodes : List Node) (alone : ℕ → Found) (sorted : IsTimed nodes)
    → 1 < length nodes
    → settle nodes
        (λ n. ltb n.time time)
        time
        (narrow nodes
          (to_left time nodes sorted)
          (first_pair time nodes sorted)
          alone
          (length nodes)
          0
          (length nodes - 1))
      ≡ node (first_or_last time nodes)
settle-first time nodes alone sorted p =
    let pair = first_pair time nodes sorted in
    let (lo, q, v, e) =
      narrow-Ends nodes (to_left time nodes sorted) pair alone (FirstInv time nodes sorted)
        (FirstInv-Halves time nodes sorted pair alone) (length nodes) 0 (length nodes - 1)
        (FirstInv-start time nodes sorted) (omega arith) (omega arith) (omega arith) in
    let (i, x, f, m, l) = first_pair-IsFirst time nodes sorted lo v q in
    rw (e, m, settle-IsFirst time nodes sorted i x f)
      (ap node (sym (IsFirst-first_or_last time nodes sorted i x f l)))

-- On a vector sorted by time `findFirstNodeAfter` returns the first node that is not before the
-- time, and the last node of the vector where there is none (NULL if the vector is empty).
pub find_first_node_after-first_or_last :
    (time : ℕ) (nodes : List Node)
    → IsTimed nodes
    → find_first_node_after time nodes ≡ node (first_or_last time nodes)
unfolding find_first_node_after
find_first_node_after-first_or_last time [] h = refl
find_first_node_after-first_or_last time (x ∷ []) h = ground arith
find_first_node_after-first_or_last time (x ∷ y ∷ rest) h =
    settle-first time (x ∷ y ∷ rest) _ h (omega arith)
