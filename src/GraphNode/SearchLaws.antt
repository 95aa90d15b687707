-- ===== src/GraphNode/SearchLaws.antt =====
-- The loop of the binary searches ends on any vector, and its index stays inside: src/backend/include/graph/GraphNode.hpp.
use casita.Prelude.{
  ℕ, zero, suc, ◌+◌, ◌-◌, ◌≤◌, ◌<◌, ◌≡◌, sym, ap, ◌∙◌, subst, inl, inr, Bool, true, false, some,
  List, ltb, if◌then◌else◌, arith, length, get_elem?, get_elem?-lt, Bool-cases,
}
use native.Mathlib.Decide.{dec_lt}
use casita.Node.Defs.{Node, u64}
use casita.GraphNode.Search.{Found, at, rend, dec, middle, on_break, search_loop}

pub middle_bounds :
    (lo hi : ℕ)
    → lo ≤ hi
    → (lo ≤ middle lo hi) × (middle lo hi ≤ hi) × (lo < hi → lo < middle lo hi)
unfolding middle
middle_bounds lo hi h = (omega arith, omega arith, λ p. omega arith)

dec_lem : (i : ℕ) → 0 < i → i < u64 → dec i ≡ i - 1
unfolding dec
dec_lem i p q = omega arith

module _ (hit before : Node → Bool) (nodes : List Node) where
  abbrev loop : ℕ → ℕ → ℕ → Found
  loop = search_loop hit before nodes

  -- One round at a cell that holds `x`.
  loop_at_hit :
      (fuel lo hi : ℕ) (x : Node)
      → get_elem? nodes (middle lo hi) ≡ some x
      → hit x ≡ true
      → loop (suc fuel) lo hi ≡ at (middle lo hi)
  unfolding search_loop
  loop_at_hit fuel lo hi x e h = rw (e, search_loop, h)

  loop_at_end :
      (fuel lo : ℕ) (x : Node)
      → get_elem? nodes (middle lo lo) ≡ some x
      → hit x ≡ false
      → loop (suc fuel) lo lo ≡ on_break nodes (middle lo lo)
  unfolding search_loop
  loop_at_end fuel lo x e h = rw (e, search_loop, h) (ground arith)

  loop_left :
      (fuel lo hi : ℕ) (x : Node)
      → get_elem? nodes (middle lo hi) ≡ some x
      → hit x ≡ false
      → before x ≡ true
      → lo < hi
      → hi < u64
      → loop (suc fuel) lo hi ≡ loop fuel lo (middle lo hi - 1)
  unfolding search_loop
  loop_left fuel lo hi x e h b p q =
      let (above, below, inside) = middle_bounds lo hi (omega arith) in
      rw (e, search_loop, h, b, dec_lem (middle lo hi) (omega (arith, inside p)) (omega arith))
        (ground (arith, inside p))

  loop_right :
      (fuel lo hi : ℕ) (x : Node)
      → get_elem? nodes (middle lo hi) ≡ some x
      → hit x ≡ false
      → before x ≡ false
      → lo < hi
      → loop (suc fuel) lo hi
        ≡ (if ltb hi (middle lo hi + 1) then rend else loop fuel (middle lo hi + 1) hi)
  unfolding search_loop
  loop_right fuel lo hi x e h b p = rw (e, search_loop, h, b) (ground arith)

  -- The rule of the loop: what a round keeps of the range, and what the ways out give.
  pub record Rounds {κ} (Inv : ℕ → ℕ → Type 0) (Q : Found → Type κ) : Type κ where
    pub found :
        (lo hi i : ℕ) (x : Node) → Inv lo hi → get_elem? nodes i ≡ some x → hit x ≡ true → Q (at i)
    pub ends :
        (lo : ℕ) (x : Node)
        → Inv lo lo
        → get_elem? nodes lo ≡ some x
        → hit x ≡ false
        → Q (on_break nodes lo)
    pub over :
        (lo hi : ℕ) (x : Node)
        → Inv lo hi
        → get_elem? nodes hi ≡ some x
        → hit x ≡ false
        → before x ≡ false
        → Q rend
    pub left :
        (lo hi i : ℕ) (x : Node)
        → Inv lo hi
        → lo < i
        → get_elem? nodes i ≡ some x
        → hit x ≡ false
        → before x ≡ true
        → Inv lo (i - 1)
    pub right :
        (lo hi i : ℕ) (x : Node)
        → Inv lo hi
        → get_elem? nodes i ≡ some x
        → hit x ≡ false
        → before x ≡ false
        → Inv (i + 1) hi

  middle_same : (lo : ℕ) → middle lo lo ≡ lo
  unfolding middle
  middle_same lo = omega arith

  module _ {κ} (Inv : ℕ → ℕ → Type 0) (Q : Found → Type κ) (rule : Rounds Inv Q)
      (small : length nodes < u64) where
    Holds : ℕ → ℕ → ℕ → Type κ
    Holds fuel lo hi =
        Inv lo hi → lo ≤ hi → hi < length nodes → hi - lo < fuel → Q (loop fuel lo hi)

    search_rule_end :
        (fuel lo hi : ℕ) (x : Node)
        → Inv lo hi
        → hi ≡ lo
        → get_elem? nodes (middle lo hi) ≡ some x
        → hit x ≡ false
        → Q (loop (suc fuel) lo hi)
    search_rule_end fuel lo hi x v same e h =
        let e' : get_elem? nodes (middle lo lo) ≡ some x = rw same at e in
        let v' : Inv lo lo = rw same at v in
        let at_lo : get_elem? nodes lo ≡ some x = rw (middle_same lo) at e' in
        rw same (
          subst Q (sym (loop_at_end fuel lo x e' h ∙ ap (on_break nodes) (middle_same lo)))
            (rule.ends lo x v' at_lo h))

    search_rule_right :
        (fuel lo hi : ℕ) (x : Node)
        → Holds fuel (middle lo hi + 1) hi
        → Inv lo hi
        → hi < length nodes
        → hi - lo < suc fuel
        → get_elem? nodes (middle lo hi) ≡ some x
        → hit x ≡ false
        → before x ≡ false
        → lo < hi
        → Q (loop (suc fuel) lo hi)
    unfolding Holds
    search_rule_right fuel lo hi x ih v q r e h b y =
        let (above, below, inside) = middle_bounds lo hi (omega arith) in
        rw (loop_right fuel lo hi x e h b y) (elim (Bool-cases (ltb hi (middle lo hi + 1))) [
          | inl t ↦
              rw t (rule.over lo hi x v (rw (let m : hi ≡ middle lo hi = ground arith in m) e) h b)
          | inr t ↦ rw t (
              ih (rule.right lo hi (middle lo hi) x v e h b) (ground arith) q
                (omega (arith, inside y)))
        ])

    pub search_rule :
        (fuel lo hi : ℕ)
        → Inv lo hi
        → lo ≤ hi
        → hi < length nodes
        → hi - lo < fuel
        → Q (loop fuel lo hi)
    unfolding Holds
    search_rule zero lo hi v p q r = absurd (omega arith)
    search_rule (suc fuel) lo hi v p q r =
        let (above, below, inside) = middle_bounds lo hi p in
        let (x, e) = get_elem?-lt nodes (middle lo hi) (omega arith) in
        elim (Bool-cases (hit x)) [
          | inl h ↦ rw (loop_at_hit fuel lo hi x e h) (rule.found lo hi (middle lo hi) x v e h)
          | inr h ↦ elim (dec_lt lo hi) [
            | no n ↦ search_rule_end fuel lo hi x v (omega arith) e h
            | yes y ↦ elim (Bool-cases (before x)) [
              | inl b ↦ rw (loop_left fuel lo hi x e h b y (omega arith)) (
                  search_rule fuel lo (middle lo hi - 1)
                    (rule.left lo hi (middle lo hi) x v (inside y) e h b) (omega (arith, inside y))
                    (omega arith) (omega (arith, inside y)))
              | inr b ↦
                  search_rule_right fuel lo hi x (search_rule fuel (middle lo hi + 1) hi) v q r e h
                    b y
            ]
          ]
        ]
