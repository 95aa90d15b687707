-- ===== src/Engine/Latest.antt =====
-- The direct predecessor of a node: `addNewGraphNodeInternal` of src/backend/GraphEngine.cpp.
use casita.Prelude.{
  ℕ, ◌^◌, ◌≡◌, refl, sym, ◌∙◌, subst, ◌⊎◌, ◌<◌, All, inl, inr, Option, none, some, List, [], ◌∷◌,
  arith, Bool-cases,
}
use casita.Node.Defs.{Node}
use casita.Stream.Defs.{paradigm_indices}
use casita.Node.Order.{compare_less}
use casita.Engine.QueryLaws.{NotEarlier, NotEarlier-trans, refl-NotEarlier}
use casita.Engine.Nodes.{
  NodeMap, later, earlier, fold_paradigms, direct_predecessor_of, direct_successor_of,
}

-- The direct predecessor is one of the predecessors, and none of them is at a later time.
pub record IsLatest (preds : NodeMap) (pred : Node) : Type 0 where
  pub paradigm : ℕ
  pub bound : paradigm < 4
  pub listed : preds (2 ^ paradigm) ≡ some pred
  pub latest : All (λ i. NotEarlier (some pred) (preds (2 ^ i))) paradigm_indices

later-time : (a b : Option Node) → NotEarlier (later a b) a × NotEarlier (later a b) b
unfolding later compare_less
later-time none none = (tt, tt)
later-time (some x) none = (omega arith, tt)
later-time none (some y) = (tt, omega arith)
later-time (some x) (some y) = elim (Bool-cases (compare_less x y)) [
  | inl t ↦ rw t (ground (arith, t), omega arith)
  | inr t ↦ rw t (omega arith, ground (arith, t))
]

later-either : (a b : Option Node) → (later a b ≡ a) ⊎ (later a b ≡ b)
unfolding later
later-either a none = inl refl
later-either none (some y) = inr refl
later-either (some x) (some y) = elim (Bool-cases (compare_less x y)) [
  | inl t ↦ inr (rw (t, later) refl)
  | inr t ↦ inl (rw (t, later) refl)
]

fold_paradigms-latest :
    (preds : NodeMap) (found : Option Node) (is : List ℕ)
    → All (λ i. i < 4) is
    → NotEarlier (fold_paradigms later preds found is) found
      × All (λ i. NotEarlier (fold_paradigms later preds found is) (preds (2 ^ i))) is
      × ((fold_paradigms later preds found is ≡ found)
          ⊎ ((i : ℕ) × (i < 4) × (fold_paradigms later preds found is ≡ preds (2 ^ i))))
unfolding fold_paradigms
fold_paradigms-latest preds found [] b = (refl-NotEarlier found, tt, inl refl)
fold_paradigms-latest preds found (i ∷ is) b =
    let c = preds (2 ^ i) in
    let r = fold_paradigms later preds (later found c) is in
    let (kept, all, source) = fold_paradigms-latest preds (later found c) is b.1 in
    let (x, y) = later-time found c in
    (
      NotEarlier-trans r (later found c) found kept x,
      (NotEarlier-trans r (later found c) c kept y, all),
      elim source [
        | inr s ↦ inr s
        | inl q ↦ elim (later-either found c) [ inl e ↦ inl (q ∙ e) | inr e ↦ inr (i, b.0, q ∙ e) ]
      ],
    )

pub direct_predecessor_of-IsLatest :
    (preds : NodeMap) (pred : Node) → direct_predecessor_of preds ≡ some pred → IsLatest preds pred
unfolding direct_predecessor_of
direct_predecessor_of-IsLatest preds pred e =
    let (kept, all, source) =
      fold_paradigms-latest preds none paradigm_indices
        (omega arith, (omega arith, (omega arith, (omega arith, tt)))) in
    let latest = subst (λ o. All (λ i. NotEarlier o (preds (2 ^ i))) paradigm_indices) e all in
    elim source [
      | inl q ↦ absurd (let bad : some pred ≡ none = sym e ∙ q in cc)
      | inr (i, b, q) ↦ record { paradigm = i; bound = b; listed = sym q ∙ e; latest = latest }
    ]

NotEarlier-none : (o : Option Node) → NotEarlier none o → o ≡ none
NotEarlier-none none h = refl
NotEarlier-none (some n) h = absurd h

All-none :
    (preds : NodeMap) (is : List ℕ)
    → All (λ i. NotEarlier none (preds (2 ^ i))) is
    → All (λ i. preds (2 ^ i) ≡ none) is
All-none preds [] h = tt
All-none preds (i ∷ is) h = (NotEarlier-none (preds (2 ^ i)) h.0, All-none preds is h.1)

pub direct_predecessor_of-none :
    (preds : NodeMap)
    → direct_predecessor_of preds ≡ none
    → All (λ i. preds (2 ^ i) ≡ none) paradigm_indices
unfolding direct_predecessor_of
direct_predecessor_of-none preds e =
    let (kept, all, source) =
      fold_paradigms-latest preds none paradigm_indices
        (omega arith, (omega arith, (omega arith, (omega arith, tt)))) in
    All-none preds paradigm_indices
      (subst (λ o. All (λ i. NotEarlier o (preds (2 ^ i))) paradigm_indices) e all)

fold_paradigms-none :
    (nexts : NodeMap) (is : List ℕ)
    → ((k : ℕ) → nexts k ≡ none)
    → fold_paradigms earlier nexts none is ≡ none
unfolding fold_paradigms earlier
fold_paradigms-none nexts [] w = refl
fold_paradigms-none nexts (i ∷ is) w =
    rw (w (2 ^ i), fold_paradigms, earlier) (fold_paradigms-none nexts is w)

pub direct_successor_of-none :
    (nexts : NodeMap) → ((k : ℕ) → nexts k ≡ none) → direct_successor_of nexts ≡ none
unfolding direct_successor_of
direct_successor_of-none nexts w = fold_paradigms-none nexts paradigm_indices w
