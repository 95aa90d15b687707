-- ===== src/GraphNode/FindNode.antt =====
-- What `findNode` returns, by pointer and by identifier: src/backend/include/graph/GraphNode.hpp.
use casita.Prelude.{
  ℕ, zero, suc, ◌-◌, ◌≤◌, ◌<◌, ◌≡◌, ◌≢◌, refl, ap, sym, subst, ◌⊎◌, inl, inr, Bool-cases, Bool,
  true, false, Option, none, some, List, [], ◌∷◌, ltb, arith, length, get_elem?,
  lt-length_of_get_elem?, Pairwise, Pairwise-get_elem?, find_first, find_first-none,
  find_first-some, Option-cases,
}
use casita.Node.Defs.{Node, u64}
use casita.Node.Order.{compare_less}
use casita.Node.OrderLaws.{compare_less_asymm}
use casita.GraphNode.Search.{
  Found, at, rend, fault, out_of_fuel, search_loop, same_node, find_node, node, has_id,
  find_node_by_id, on_break, reads_outside, Returned, failed, or_front,
}
use casita.GraphNode.SearchLaws.{Rounds, search_rule}

-- The nodes of one stream: each is before those behind it, and no two share an identifier.
abbrev pub Precedes : Node → Node → Type 0
Precedes x y = (x.stream_id ≡ y.stream_id) × (compare_less x y ≡ true) × (x.id ≢ y.id)

abbrev pub IsSorted : List Node → Type 0
IsSorted = Pairwise Precedes

module _ (hit before : Node → Bool) (nodes : List Node) (k : ℕ) where
  -- The tests point at position `k`.
  pub record PointsAt : Type 0 where
    pub unique : (i : ℕ) (x : Node) → get_elem? nodes i ≡ some x → hit x ≡ true → i ≡ k
    pub target : (x : Node) → get_elem? nodes k ≡ some x → hit x ≡ true
    pub lower : (i : ℕ) (x : Node) → get_elem? nodes i ≡ some x → i < k → before x ≡ false
    pub upper : (i : ℕ) (x : Node) → get_elem? nodes i ≡ some x → k < i → before x ≡ true

  module _ (h : PointsAt) where
    abbrev Around : ℕ → ℕ → Type 0
    Around lo hi = (lo ≤ k) × (k ≤ hi)

    before_below :
        (i : ℕ) (x : Node)
        → get_elem? nodes i ≡ some x
        → hit x ≡ false
        → before x ≡ true
        → k ≤ i - 1
    before_below i x e m b = ground (arith, h.lower i x e, h.target x)

    after_above :
        (i : ℕ) (x : Node) → get_elem? nodes i ≡ some x → hit x ≡ false → before x ≡ false → i < k
    after_above i x e m b = ground (arith, h.upper i x e, h.target x)

    PointsAt-Rounds : Rounds hit before nodes Around (λ r. r ≡ at k)
    PointsAt-Rounds = record {
      found = λ lo hi i x v e m. ap at (h.unique i x e m);
      ends = λ lo x v e m.
          let same : lo ≡ k = omega (arith, v) in absurd (ground (arith, h.target x, same));
      over = λ lo hi x v e m b. absurd (omega (arith, after_above hi x e m b));
      left = λ lo hi i x v p e m b. (v.0, before_below i x e m b);
      right = λ lo hi i x v e m b. (omega (arith, after_above i x e m b), v.1);
    }

    search_loop-PointsAt :
        length nodes < u64
        → 0 < length nodes
        → k < length nodes
        → search_loop hit before nodes (length nodes) 0 (length nodes - 1) ≡ at k
    search_loop-PointsAt small some_nodes inside =
        search_rule hit before nodes Around (λ r. r ≡ at k) PointsAt-Rounds small (length nodes) 0
          (length nodes - 1) (omega arith, omega arith) (omega arith) (omega arith) (omega arith)

-- A position is one of a match.
abbrev pub Sound : (Node → Bool) → List Node → Found → Type 0
Sound hit nodes (at i) = (x : Node) × (get_elem? nodes i ≡ some x) × (hit x ≡ true)
Sound hit nodes rend = Unit
Sound hit nodes fault = Unit
Sound hit nodes out_of_fuel = ⊥

on_break-Sound :
    (hit : Node → Bool) (nodes : List Node) (index : ℕ) → Sound hit nodes (on_break nodes index)
unfolding on_break
on_break-Sound hit nodes index = elim (Bool-cases (reads_outside nodes index)) [
  | inl t ↦ rw (on_break, t) tt
  | inr t ↦ rw (on_break, t) tt
]

-- No match, or a diagnostic read outside of a vector of more than three nodes.
abbrev pub Missed : List Node → Found → Type 0
Missed nodes r = (r ≡ rend) ⊎ ((r ≡ fault) × (3 < length nodes))

on_break-Missed :
    (nodes : List Node) (index : ℕ)
    → index < length nodes
    → length nodes < u64
    → Missed nodes (on_break nodes index)
unfolding on_break reads_outside
on_break-Missed nodes index h k = elim (Bool-cases (reads_outside nodes index)) [
  | inl t ↦ inr (rw (on_break, t) refl, ground (arith, t))
  | inr t ↦ inl (rw (on_break, t) refl)
]

module _ (hit before : Node → Bool) (nodes : List Node) (small : length nodes < u64)
    (some_nodes : 0 < length nodes) where
  search_loop-Sound :
      Sound hit nodes (search_loop hit before nodes (length nodes) 0 (length nodes - 1))
  search_loop-Sound =
      search_rule hit before nodes (λ lo hi. Unit {0}) (Sound hit nodes)
        (record {
          found = λ lo hi i x v e m. (x, e, m);
          ends = λ lo x v e m. on_break-Sound hit nodes lo;
          over = λ lo hi x v e m b. tt;
          left = λ lo hi i x v p e m b. tt;
          right = λ lo hi i x v e m b. tt;
        })
        small (length nodes) 0 (length nodes - 1) tt (omega arith) (omega arith) (omega arith)

  search_loop_miss :
      ((i : ℕ) (x : Node) → get_elem? nodes i ≡ some x → hit x ≡ false)
      → Missed nodes (search_loop hit before nodes (length nodes) 0 (length nodes - 1))
  search_loop_miss none_hit =
      search_rule hit before nodes (λ lo hi. Unit {0}) (Missed nodes)
        (record {
          found = λ lo hi i x v e m. absurd (ground (arith, none_hit i x e));
          ends = λ lo x v e m. on_break-Missed nodes lo (lt-length_of_get_elem? nodes lo x e) small;
          over = λ lo hi x v e m b. inl refl;
          left = λ lo hi i x v p e m b. tt;
          right = λ lo hi i x v e m b. tt;
        })
        small (length nodes) 0 (length nodes - 1) tt (omega arith) (omega arith) (omega arith)

IsSorted-PointsAt :
    (n : Node) (nodes : List Node) (k : ℕ)
    → IsSorted nodes
    → get_elem? nodes k ≡ some n
    → PointsAt (same_node n) (compare_less n) nodes k
unfolding same_node
IsSorted-PointsAt n nodes k h e = record {
  unique = λ i x f m. ground (
    arith,
    λ (p : i < k). Pairwise-get_elem? Precedes nodes i k x n h p f e,
    λ (p : k < i). Pairwise-get_elem? Precedes nodes k i n x h p e f,
  );
  target = λ x f. ground arith;
  lower = λ i x f p.
      let (s, b, d) = Pairwise-get_elem? Precedes nodes i k x n h p f e in
      compare_less_asymm x n s b;
  upper = λ i x f p. (Pairwise-get_elem? Precedes nodes k i n x h p e f).1;
}

-- In the sorted vector of one stream, of fewer than 2^64 nodes, `findNode` finds each node at its
-- position.
pub find_node_hit :
    (n : Node) (nodes : List Node) (k : ℕ)
    → IsSorted nodes
    → length nodes < u64
    → get_elem? nodes k ≡ some n
    → find_node n nodes ≡ at k
unfolding find_node
find_node_hit n [] k h p e = absurd (cc)
find_node_hit n (x ∷ []) zero h p e = refl
find_node_hit n (x ∷ []) (suc k) h p e = absurd (cc)
find_node_hit n (x ∷ y ∷ rest) k h p e =
    search_loop-PointsAt (same_node n) (compare_less n) (x ∷ y ∷ rest) k
      (IsSorted-PointsAt n (x ∷ y ∷ rest) k h e) p (omega arith)
      (lt-length_of_get_elem? (x ∷ y ∷ rest) k n e)

pub find_node-Sound :
    (n : Node) (nodes : List Node)
    → 1 < length nodes
    → length nodes < u64
    → Sound (same_node n) nodes (find_node n nodes)
unfolding find_node
find_node-Sound n [] p q = absurd (omega arith)
find_node-Sound n (x ∷ []) p q = absurd (omega arith)
find_node-Sound n (x ∷ y ∷ rest) p q =
    search_loop-Sound (same_node n) (compare_less n) (x ∷ y ∷ rest) q (omega arith)

-- The identifiers of the vector rise.
abbrev pub IsRising : List Node → Type 0
IsRising = Pairwise (λ x y. x.id < y.id)

IsRising-PointsAt :
    (node_id : ℕ) (n : Node) (nodes : List Node) (k : ℕ)
    → IsRising nodes
    → get_elem? nodes k ≡ some n
    → n.id ≡ node_id
    → PointsAt (has_id node_id) (λ z. ltb node_id z.id) nodes k
unfolding has_id
IsRising-PointsAt node_id n nodes k h e same = record {
  unique = λ i x f m. ground (
    arith,
    λ (p : i < k). Pairwise-get_elem? (λ x y. x.id < y.id) nodes i k x n h p f e,
    λ (p : k < i). Pairwise-get_elem? (λ x y. x.id < y.id) nodes k i n x h p e f,
  );
  target = λ x f. ground arith;
  lower = λ i x f p. ground (arith, Pairwise-get_elem? (λ x y. x.id < y.id) nodes i k x n h p f e);
  upper = λ i x f p. ground (arith, Pairwise-get_elem? (λ x y. x.id < y.id) nodes k i n x h p e f);
}

-- What the search by identifier gives: the node that a linear search finds. Where that finds none it
-- is the first node of the vector, NULL if there is none, or the search reads outside of the vector.
abbrev pub Searched : List Node → Option Node → Returned → Type 0
Searched nodes (some x) r = r ≡ node (some x)
Searched nodes none r = (r ≡ node (get_elem? nodes 0)) ⊎ ((r ≡ failed) × (3 < length nodes))

or_front-Missed :
    (nodes : List Node) (r : Found) → Missed nodes r → Searched nodes none (or_front nodes r)
unfolding or_front
or_front-Missed nodes r (inl e) = inl (rw e refl)
or_front-Missed nodes r (inr (e, h)) = inr (rw e refl, h)

-- On a vector of fewer than 2^64 nodes with rising identifiers the binary search by identifier
-- returns the node that a linear search finds. Where no node has the identifier it returns the first
-- node of the vector, NULL if it is empty, or its diagnostics read outside of the vector, which
-- happens only with more than three nodes.
pub find_node_by_id-Searched :
    (node_id : ℕ) (nodes : List Node)
    → IsRising nodes
    → length nodes < u64
    → Searched nodes (find_first (has_id node_id) nodes) (find_node_by_id node_id nodes)
unfolding find_node_by_id
find_node_by_id-Searched node_id [] h p = inl refl
find_node_by_id-Searched node_id (x ∷ []) h p = elim (Bool-cases (has_id node_id x)) [
  | inl t ↦ rw t refl
  | inr t ↦ rw t (inl refl)
]
find_node_by_id-Searched node_id (x ∷ y ∷ rest) h p =
    let nodes = x ∷ y ∷ rest in
    elim (Option-cases (find_first (has_id node_id) nodes)) [
      | inl e ↦
          subst (λ o. Searched nodes o (find_node_by_id node_id nodes)) (sym e)
            (or_front-Missed nodes _ (
              search_loop_miss (has_id node_id) (λ z. ltb node_id z.id) nodes p (omega arith)
                (find_first-none (has_id node_id) nodes e)))
      | inr (n, e) ↦
          let (k, f, m) = find_first-some (has_id node_id) nodes n e in
          subst (λ o. Searched nodes o (find_node_by_id node_id nodes)) (sym e)
            (ground (
              arith,
              search_loop-PointsAt (has_id node_id) (λ z. ltb node_id z.id) nodes k
                  (IsRising-PointsAt node_id n nodes k h f (unfold has_id in ground arith)) p
                  (omega arith) (lt-length_of_get_elem? nodes k n f),
            ))
    ]
