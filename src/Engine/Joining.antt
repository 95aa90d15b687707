-- ===== src/Engine/Joining.antt =====
-- The edges from the predecessors of a node: `addNewGraphNodeInternal` of
-- src/backend/GraphEngine.cpp.
use casita.Prelude.{
  ℕ, ◌^◌, ◌≡◌, refl, sym, ◌∙◌, ap, subst, ◌⊎◌, inl, inr, Bool, true, false, ◌&&◌, Option, none,
  some, List, [], ◌∷◌, ◌++◌, ◌==◌, if◌then◌else◌, arith, Bool-cases, Option-cases, bit_and,
  find_first,
}
use casita.Node.Defs.{Node}
use casita.Edge.Defs.{Edge, new_edge}
use casita.Graph.Defs.{Graph, add_edge, ends_at}
use casita.Graph.Edges.{outs, outs-add_edge}
use casita.Engine.Defs.{ok, link, get_edge, engine_edge, is_wait}
use casita.Engine.Nodes.{
  NodeMap, Linking, same_node_as, link_successor, link_paradigm, link_paradigms, link_direct_pred,
}

find_first-concat :
    (q : Edge → Bool) (es : List Edge) (e : Edge)
    → find_first q (es ++ e ∷ [])
      ≡ elim (find_first q es) [ none ↦ if q e then some e else none | some d ↦ some d ]
find_first-concat q [] e = refl
find_first-concat q (d ∷ es) e = elim (Bool-cases (q d)) [
  | inl t ↦ rw t refl
  | inr t ↦ rw t (find_first-concat q es e)
]

get_edge-add_edge :
    (a b : Node) (e : Edge) (g : Graph)
    → get_edge a b (add_edge e g) ≡ elim (get_edge a b g) [
      | none ↦ if e.start_node.id == a.id && ends_at b.id e then some e else none
      | some d ↦ some d
    ]
unfolding get_edge
get_edge-add_edge a b e g =
    let step : get_edge a b (add_edge e g)
        ≡ find_first (ends_at b.id)
            (if e.start_node.id == a.id then outs g a.id ++ e ∷ [] else outs g a.id) =
      ap (find_first (ends_at b.id)) (outs-add_edge e g a.id) in
    let found = find_first-concat (ends_at b.id) (outs g a.id) e in
    step ∙ (elim (Option-cases (find_first (ends_at b.id) (outs g a.id))) [
      | inr (d, h) ↦ rw h (elim (Bool-cases (e.start_node.id == a.id)) [
        | inl t ↦ rw t (found ∙ rw h refl)
        | inr t ↦ rw t h
      ])
      | inl h ↦ rw h (elim (Bool-cases (e.start_node.id == a.id)) [
        | inl t ↦ rw t (found ∙ rw h refl)
        | inr t ↦ rw t h
      ])
    ])

-- A new edge takes away none.
link-keeps :
    (a b x y : Node) (w : Bool) (t : Option ℕ) (g : Graph) (d : Edge)
    → get_edge a b g ≡ some d
    → get_edge a b (link x y w t g) ≡ some d
unfolding link
link-keeps a b x y w t g d h = get_edge-add_edge a b (engine_edge x y w t) g ∙ rw h refl

link-joins :
    (a b : Node) (w : Bool) (t : Option ℕ) (g : Graph)
    → get_edge a b g ≡ none
    → get_edge a b (link a b w t g) ≡ some (engine_edge a b w t)
unfolding link engine_edge new_edge ends_at
link-joins a b w t g h = get_edge-add_edge a b (engine_edge a b w t) g ∙ rw h (ground arith)

link-others :
    (a b x : Node) (w : Bool) (t : Option ℕ) (g : Graph)
    → (a.id == x.id) ≡ false
    → get_edge a b g ≡ none
    → get_edge a b (link x b w t g) ≡ none
unfolding link engine_edge new_edge ends_at
link-others a b x w t g q h =
    get_edge-add_edge a b (engine_edge x b w t) g ∙ rw h (ground (arith, q))

-- The predecessors of one identifier are one node.
abbrev pub IsIdentified : NodeMap → Type 0
IsIdentified preds =
    (i j : ℕ) (a b : Node) → preds i ≡ some a → preds j ≡ some b → a.id ≡ b.id → a ≡ b

module _ (n : Node) (preds : NodeMap) (pred : Node) where
  -- The edge of an engine from the predecessor, which blocks if the two are a wait state. Its
  -- paradigm is that of the predecessor, or one that the node has and whose predecessor that is.
  abbrev pub Joins : Edge → Type 0
  Joins e =
      (type : ℕ) × (e ≡ engine_edge pred n (is_wait pred n) (some type))
      × ((type ≡ pred.paradigm)
          ⊎ ((i : ℕ) × (type ≡ 2 ^ i)
              × (preds (2 ^ i) ≡ some pred)
              × ((bit_and (2 ^ i) n.paradigm == n.paradigm) ≡ true)))

  abbrev pub Joined : Graph → Type 0
  Joined g = (e : Edge) × (get_edge pred n g ≡ some e) × Joins e

  -- The mark of the direct predecessor is right.
  abbrev Marked : Linking → Type 0
  Marked l =
      ((l.pred_linked ≡ true) × Joined l.graph)
      ⊎ ((l.pred_linked ≡ false) × (get_edge pred n l.graph ≡ none))

  -- The state after the edge from the predecessor of a paradigm.
  abbrev with_pred : Node → ℕ → Linking → Linking
  with_pred m i l = record l {
    graph = link m n (is_wait m n) (some (2 ^ i)) l.graph;
    pred_linked = if same_node_as (some pred) m then true else l.pred_linked;
  }

  same-Marked :
      (i : ℕ) (l : Linking)
      → preds (2 ^ i) ≡ some pred
      → (bit_and (2 ^ i) n.paradigm == n.paradigm) ≡ true
      → Marked l
      → Marked (with_pred pred i l)
  unfolding same_node_as
  same-Marked i l e t (inl (p, (d, f, j))) =
      inl
        (ground arith, (d, link-keeps pred n pred n (is_wait pred n) (some (2 ^ i)) l.graph d f, j))
  same-Marked i l e t (inr (p, f)) = inl (
    ground arith,
    (
      engine_edge pred n (is_wait pred n) (some (2 ^ i)),
      link-joins pred n (is_wait pred n) (some (2 ^ i)) l.graph f,
      (2 ^ i, refl, inr (i, refl, e, t)),
    ),
  )

  other-Marked :
      (m : Node) (i : ℕ) (l : Linking)
      → (pred.id == m.id) ≡ false
      → Marked l
      → Marked (with_pred m i l)
  unfolding same_node_as
  other-Marked m i l q (inl (p, (d, f, j))) =
      inl
        (ground (arith, p), (d, link-keeps pred n m n (is_wait m n) (some (2 ^ i)) l.graph d f, j))
  other-Marked m i l q (inr (p, f)) =
      inr (ground (arith, p, q), link-others pred n m (is_wait m n) (some (2 ^ i)) l.graph q f)

  link_paradigm-Marked :
      (k : ℕ) (nexts : NodeMap) (i : ℕ) (l : Linking)
      → IsIdentified preds
      → preds k ≡ some pred
      → ((k : ℕ) → nexts k ≡ none)
      → Marked l
      → (l' : Linking) × (link_paradigm n preds nexts (some pred) none i l ≡ ok l') × Marked l'
  unfolding link_paradigm link_successor
  link_paradigm-Marked k nexts i l u f w h =
      elim (Bool-cases (bit_and (2 ^ i) n.paradigm == n.paradigm)) [
        | inr t ↦ (l, rw t refl, h)
        | inl t ↦ elim (Option-cases (preds (2 ^ i))) [
          | inl e ↦ (l, rw (t, e, link_paradigm) refl, h)
          | inr (m, e) ↦ (
            with_pred m i l,
            rw (t, e, link_paradigm, w (2 ^ i), link_successor) refl,
            elim (Bool-cases (pred.id == m.id)) [
              | inl q ↦
                  let same : pred ≡ m = u k (2 ^ i) pred m f e (ground (arith, q)) in
                  subst (λ x. Marked (with_pred x i l)) same
                    (same-Marked i l (e ∙ ap some (sym same)) t h)
              | inr q ↦ other-Marked m i l q h
            ],
          )
        ]
      ]

  pub link_paradigms-Marked :
      (k : ℕ) (nexts : NodeMap) (is : List ℕ) (l : Linking)
      → IsIdentified preds
      → preds k ≡ some pred
      → ((k : ℕ) → nexts k ≡ none)
      → Marked l
      → (l' : Linking) × (link_paradigms n preds nexts (some pred) none is l ≡ ok l') × Marked l'
  unfolding link_paradigms
  link_paradigms-Marked k nexts [] l u f w h = (l, refl, h)
  link_paradigms-Marked k nexts (i ∷ is) l u f w h =
      let (l1, e, a) = link_paradigm-Marked k nexts i l u f w h in
      let (l2, r, m) = link_paradigms-Marked k nexts is l1 u f w a in
      (l2, rw (e, link_paradigms) r, m)

  pub link_direct_pred-Joined : (l : Linking) → Marked l → Joined (link_direct_pred n pred l)
  unfolding link_direct_pred
  link_direct_pred-Joined l (inl (t, j)) = rw t j
  link_direct_pred-Joined l (inr (t, h)) = rw t (
    engine_edge pred n (is_wait pred n) (some pred.paradigm),
    link-joins pred n (is_wait pred n) (some pred.paradigm) l.graph h,
    (pred.paradigm, refl, inl refl),
  )
