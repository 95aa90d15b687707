-- ===== src/GraphNode/TimeLast.antt =====
-- `findLastNodeBefore` of src/backend/include/graph/GraphNode.hpp returns the last node that is not
-- after the given time.
use casita.Prelude.{
  ℕ, zero, suc, ◌+◌, ◌-◌, ◌≤◌, ◌<◌, ◌≡◌, refl, sym, ap, inl, inr, Option, none, some, List, [], ◌∷◌,
  ltb, leb, arith, length, get_elem?, get_elem?-lt, lt-length_of_get_elem?, Pairwise-get_elem?,
  keep_if, get_last?, Bool-cases,
}
use native.Mathlib.Decide.{ℕ_discrete, dec_lt}
use casita.Node.Defs.{Node}
use casita.GraphNode.Search.{Found, at, node}
use casita.GraphNode.TimeSearch.{check, narrow, settle, find_last_node_before}
use casita.GraphNode.TimeLaws.{IsTimed, Halves, narrow-Ends}

module _ (time : ℕ) (nodes : List Node) (sorted : IsTimed nodes) where
  in_time :
      (i j : ℕ) (x y : Node)
      → get_elem? nodes i ≡ some x
      → get_elem? nodes j ≡ some y
      → i < j
      → x.time ≤ y.time
  in_time i j x y e f p = Pairwise-get_elem? (λ a b. a.time ≤ b.time) nodes i j x y sorted p e f

  -- All later nodes are after the time, and the node itself is not unless it is the first.
  record IsLast (i : ℕ) : Type 0 where
    later : (j : ℕ) (y : Node) → i < j → get_elem? nodes j ≡ some y → time < y.time
    itself : (x : Node) → 0 < i → get_elem? nodes i ≡ some x → x.time ≤ time

  record LastInv (lo hi : ℕ) : Type 0 where
    above : (j : ℕ) (y : Node) → hi < j → get_elem? nodes j ≡ some y → time < y.time
    below : (x : Node) → 0 < lo → get_elem? nodes lo ≡ some x → x.time ≤ time

  LastInv-Halves :
      (pair : ℕ → ℕ → Found) (alone : ℕ → Found)
      → Halves nodes (λ n. ltb time n.time) pair alone LastInv
  LastInv-Halves pair alone = record {
    left = λ lo hi i x v e g. record {
      above = λ j y p f. ground (arith, in_time i j x y e f p);
      below = v.below;
    };
    right = λ lo hi i x v e g. record { above = v.above; below = λ z p f. ground arith };
  }

  -- The loop of `findLastNodeBefore` ends at such a position, which `settle` accepts.
  abbrev last_pair : ℕ → ℕ → Found
  last_pair lo hi = check nodes (λ n. leb n.time time) hi (at hi) (at lo)

  last_pair-IsLast :
      (lo : ℕ)
      → LastInv lo (lo + 1)
      → lo + 1 < length nodes
      → (i : ℕ) × (x : Node) × (get_elem? nodes i ≡ some x)
        × (last_pair lo (lo + 1) ≡ at i)
        × IsLast i
  unfolding check
  last_pair-IsLast lo v p =
      let (y, f) = get_elem?-lt nodes (lo + 1) p in
      let (x, e) = get_elem?-lt nodes lo (omega arith) in
      elim (Bool-cases (leb y.time time)) [
        | inl t ↦ (
          lo + 1,
          y,
          f,
          rw (f, check, t),
          record { later = v.above; itself = λ z q g. ground arith },
        )
        | inr t ↦ (
          lo,
          x,
          e,
          rw (f, check, t),
          record {
            later = λ j z q g. elim (ℕ_discrete j (lo + 1)) [
              | yes s ↦ ground arith
              | no d ↦ v.above j z (omega arith) g
            ];
            itself = v.below;
          },
        )
      ]

  settle-IsLast :
      (i : ℕ) (x : Node)
      → get_elem? nodes i ≡ some x
      → IsLast i
      → settle nodes (λ n. ltb time n.time) time (at i) ≡ node (some x)
  unfolding settle
  settle-IsLast zero x e h = ground arith
  settle-IsLast (suc i) x e h = ground (arith, h.itself x)

-- The nodes that are not after the time.
abbrev pub until : ℕ → List Node → List Node
until time = keep_if (λ x. leb x.time time)

until_none :
    (time : ℕ) (nodes : List Node)
    → ((j : ℕ) (y : Node) → get_elem? nodes j ≡ some y → time < y.time)
    → until time nodes ≡ []
until_none time [] h = refl
until_none time (x ∷ nodes) h =
    ground (arith, h 0 x refl, until_none time nodes (λ j y e. h (suc j) y e))

get_last?-until :
    (time : ℕ) (nodes : List Node) (i : ℕ) (x : Node)
    → get_elem? nodes i ≡ some x
    → x.time ≤ time
    → ((j : ℕ) (y : Node) → i < j → get_elem? nodes j ≡ some y → time < y.time)
    → get_last? (until time nodes) ≡ some x
get_last?-until time [] i x e p h = cc
get_last?-until time (z ∷ nodes) zero x e p h =
    ground (arith, until_none time nodes (λ j y f. h (suc j) y (omega arith) f))
get_last?-until time (z ∷ nodes) (suc i) x e p h =
    ground (arith, get_last?-until time nodes i x e p (λ j y q f. h (suc j) y (omega arith) f))

-- The last node that is not after the time, or else the first node.
abbrev pub last_or_front : ℕ → List Node → Option Node
last_or_front time nodes = elim (get_last? (until time nodes)) [
  | some x ↦ some x
  | none ↦ get_elem? nodes 0
]

IsLast-last_or_front :
    (time : ℕ) (nodes : List Node) (sorted : IsTimed nodes) (i : ℕ) (x : Node)
    → get_elem? nodes i ≡ some x
    → IsLast time nodes sorted i
    → last_or_front time nodes ≡ some x
IsLast-last_or_front time nodes sorted i x e h = elim (Bool-cases (leb x.time time)) [
  | inl t ↦ ground (arith, get_last?-until time nodes i x e (ground arith) h.later)
  | inr t ↦ ground (
    arith,
    h.itself x,
    until_none time nodes (λ j y f. elim (dec_lt i j) [
      | yes p ↦ h.later j y p f
      | no p ↦ ground (arith, h.itself x)
    ]),
  )
]

LastInv-start :
    (time : ℕ) (nodes : List Node) (sorted : IsTimed nodes)
    → LastInv time nodes sorted 0 (length nodes - 1)
LastInv-start time nodes sorted = record {
  above = λ j y p f. absurd (omega (arith, lt-length_of_get_elem? nodes j y f));
  below = λ x p f. absurd (omega arith);
}

settle-last :
    (time : ℕ) (nodes : List Node) (alone : ℕ → Found) (sorted : IsTimed nodes)
    → 1 < length nodes
    → settle nodes
        (λ n. ltb time n.time)
        time
        (narrow nodes
          (λ n. ltb time n.time)
          (last_pair time nodes sorted)
          alone
          (length nodes)
          0
          (length nodes - 1))
      ≡ node (last_or_front time nodes)
settle-last time nodes alone sorted p =
    let pair = last_pair time nodes sorted in
    let (lo, q, v, e) =
      narrow-Ends nodes (λ n. ltb time n.time) pair alone (LastInv time nodes sorted)
        (LastInv-Halves time nodes sorted pair alone) (length nodes) 0 (length nodes - 1)
        (LastInv-start time nodes sorted) (omega arith) (omega arith) (omega arith) in
    let (i, x, f, m, l) = last_pair-IsLast time nodes sorted lo v q in
    rw (e, m, settle-IsLast time nodes sorted i x f l)
      (ap node (sym (IsLast-last_or_front time nodes sorted i x f l)))

-- On a vector sorted by time `findLastNodeBefore` returns the last node that is not after the time,
-- and the first node of the vector where there is none (NULL if the vector is empty).
pub find_last_node_before-last_or_front :
    (time : ℕ) (nodes : List Node)
    → IsTimed nodes
    → find_last_node_before time nodes ≡ node (last_or_front time nodes)
unfolding find_last_node_before
find_last_node_before-last_or_front time [] h = refl
find_last_node_before-last_or_front time (x ∷ []) h = ground arith
find_last_node_before-last_or_front time (x ∷ y ∷ rest) h =
    settle-last time (x ∷ y ∷ rest) _ h (omega arith)
