-- ===== src/Stream/InsertLaws.antt =====
-- What `EventStream::insertGraphNode` of src/backend/EventStream.cpp leaves in the stream.
use casita.Prelude.{
  ℕ, zero, suc, ◌<◌, ◌≡◌, refl, ap, ◌∙◌, All, false, inl, inr, Bool, true, Option, none, some, List,
  [], ◌∷◌, ◌++◌, if◌then◌else◌, arith, keep_if, keep_if-append, find_first, get_last?, Bool-cases,
  Option-cases,
}
use casita.Node.Defs.{Node}
use casita.Node.Order.{compare_less}
use casita.Stream.Defs.{EventStream, GraphData, paradigm_indices}
use casita.Stream.Add.{put}
use casita.Stream.Consistent.{has_bit, of_paradigm, IsConsistent}
use casita.Stream.Insert.{
  between, in_front, find_place, insert_data, Inserted, inserted, invalid_iterator, add_neighbours,
  later_node, insert_graph_node,
}

get_last?-append :
    (xs ys : List Node)
    → get_last? (xs ++ ys) ≡ elim (get_last? ys) [ none ↦ get_last? xs | some y ↦ some y ]
get_last?-append [] ys = elim (Option-cases (get_last? ys)) [
  | inl e ↦ rw e refl
  | inr (y, e) ↦ rw e refl
]
get_last?-append (x ∷ xs) ys = ground (arith, get_last?-append xs ys)

-- No node of the paradigm, or a last one.
keep_if-none :
    (p : Node → Bool) (xs : List Node) → find_first p xs ≡ none → get_last? (keep_if p xs) ≡ none
keep_if-none p [] h = refl
keep_if-none p (x ∷ xs) h = elim (Bool-cases (p x)) [
  | inl t ↦ absurd (ground (arith, h, t))
  | inr t ↦ ground (arith, h, t, keep_if-none p xs)
]

keep_if-some :
    (p : Node → Bool) (xs : List Node) (y : Node)
    → find_first p xs ≡ some y
    → (z : Node) × (get_last? (keep_if p xs) ≡ some z)
keep_if-some p [] y h = absurd (cc)
keep_if-some p (x ∷ xs) y h = elim (Bool-cases (p x)) [
  | inl t ↦ elim (Option-cases (get_last? (keep_if p xs))) [
    | inl e ↦ (x, ground (arith, t, e))
    | inr (z, e) ↦ (z, ground (arith, t, e))
  ]
  | inr t ↦ let (z, e) = keep_if-some p xs y (ground (arith, h, t)) in (z, ground (arith, t, e))
]

-- The entry of a paradigm after the call.
insert_data-last :
    (n : Node) (front back : List Node) (i : ℕ) (data' : GraphData)
    → data'.last_node ≡ get_last? (of_paradigm i (front ++ back))
    → (insert_data n i (find_first (has_bit i) back) data').last_node
      ≡ get_last? (of_paradigm i (front ++ n ∷ back))
unfolding insert_data
insert_data-last n front back i data' h =
    let a = keep_if-append (has_bit i) front back in
    let b = keep_if-append (has_bit i) front (n ∷ back) in
    let c = get_last?-append (of_paradigm i front) (of_paradigm i back) in
    let d = get_last?-append (of_paradigm i front) (of_paradigm i (n ∷ back)) in
    elim (Option-cases (find_first (has_bit i) back)) [
      | inl e ↦ ground (arith, e, a, b, c, d, h, keep_if-none (has_bit i) back e)
      | inr (y, e) ↦
          let (z, f) = keep_if-some (has_bit i) back y e in ground (arith, e, f, a, b, c, d, h)
    ]

-- The first node of the entry: the one from before, or else the new node if it has the paradigm.
abbrev pub first_or : Node → ℕ → Option Node → Option Node
first_or n i none = if has_bit i n then some n else none
first_or n i (some x) = some x

insert_data-first :
    (n : Node) (i : ℕ) (next_node : Option Node) (data' : GraphData)
    → (insert_data n i next_node data').first_node ≡ first_or n i data'.first_node
unfolding insert_data
insert_data-first n i next_node data' = elim (Option-cases data'.first_node) [
  | inl e ↦ ground (arith, e)
  | inr (x, e) ↦ ground (arith, e)
]

-- The stream after the call: the node stands between its neighbours, the table names the last node
-- of the paradigm, and as its first node the one from before the call.
abbrev pub Placed : Node → EventStream → List Node → List Node → ℕ → Inserted → Type 0
Placed n s front back i (inserted s' pred next) =
    (s'.nodes ≡ front ++ n ∷ back)
    × (s.nodes ≡ front ++ back)
    × ((s'.graph_data i).last_node ≡ get_last? (of_paradigm i s'.nodes))
    × ((s'.graph_data i).first_node ≡ first_or n i (find_first (has_bit i) s.nodes))
Placed n s front back i invalid_iterator = ⊥

abbrev entry : Node → EventStream → List Node → ℕ → GraphData
entry n s back i = insert_data n i (find_first (has_bit i) back) (s.graph_data i)

entry_lem :
    (n : Node) (s : EventStream) (front back : List Node) (i : ℕ)
    → IsConsistent s
    → i < 4
    → s.nodes ≡ front ++ back
    → ((entry n s back i).last_node ≡ get_last? (of_paradigm i (front ++ n ∷ back)))
      × ((entry n s back i).first_node ≡ first_or n i (find_first (has_bit i) s.nodes))
entry_lem n s front back i c h e = (
  insert_data-last n front back i (s.graph_data i) (rw (c.lasts i h, e) refl),
  rw (insert_data-first n i (find_first (has_bit i) back) (s.graph_data i), c.firsts i h) refl,
)

abbrev placed :
    Node → EventStream → (ℕ → Option Node) → (ℕ → Option Node) → List Node → List Node → Inserted
placed n s pred next front back =
    add_neighbours n front back paradigm_indices
      (record s {
        nodes_added = true;
        last_node = some (later_node n s.last_node);
        nodes = front ++ n ∷ back;
      })
      pred next

Placed-entry :
    (n : Node) (s : EventStream) (pred next : ℕ → Option Node) (front back : List Node) (i : ℕ)
    → i < 4
    → s.nodes ≡ front ++ back
    → ((entry n s back i).last_node ≡ get_last? (of_paradigm i (front ++ n ∷ back)))
      × ((entry n s back i).first_node ≡ first_or n i (find_first (has_bit i) s.nodes))
    → Placed n s front back i (placed n s pred next front back)
unfolding add_neighbours put
Placed-entry n s pred next front back zero h e d = (refl, e, d.0, d.1)
Placed-entry n s pred next front back (suc zero) h e d = (refl, e, d.0, d.1)
Placed-entry n s pred next front back (suc (suc zero)) h e d = (refl, e, d.0, d.1)
Placed-entry n s pred next front back (suc (suc (suc zero))) h e d = (refl, e, d.0, d.1)
Placed-entry n s pred next front back (suc (suc (suc (suc i)))) h e d = absurd (omega arith)

-- The first node behind the front one of the vector that the new node is before, is the first of the
-- nodes that follow it.
pub record IsPlace (n : Node) (nodes front back : List Node) : Type 0 where
  pub head : Node
  pub others : List Node
  pub next : Node
  pub rest : List Node
  pub starts : front ≡ head ∷ others
  pub follows : back ≡ next ∷ rest
  pub joined : nodes ≡ front ++ back
  pub not_before : All (λ x. compare_less n x ≡ false) others
  pub before : compare_less n next ≡ true

find_place-between :
    (n head : Node) (others : List Node) (next : Node) (rest : List Node)
    → All (λ x. compare_less n x ≡ false) others
    → compare_less n next ≡ true
    → find_place n (head ∷ (others ++ next ∷ rest)) ≡ between (head ∷ others) (next ∷ rest)
unfolding find_place in_front
find_place-between n head [] next rest a b = rw b refl
find_place-between n head (x ∷ others) next rest a b =
    rw (a.0, find_place-between n x others next rest a.1 b) refl

IsPlace-find_place :
    (n : Node) (nodes front back : List Node)
    → IsPlace n nodes front back
    → find_place n nodes ≡ between front back
IsPlace-find_place n nodes front back p =
    let whole : nodes ≡ p.head ∷ (p.others ++ p.next ∷ p.rest) =
      p.joined ∙ rw (p.starts, p.follows) refl in
    ap (find_place n) whole
    ∙ find_place-between n p.head p.others p.next p.rest p.not_before p.before
    ∙ rw (p.starts, p.follows) refl

-- On a stream in its invariant with a node behind its first one that the new node is before,
-- `insertGraphNode` puts the new node in front of the first such node, and the table again names the
-- last node of each paradigm. The first node of a paradigm stays the one it was, also where the new
-- node is in front of it, unless there was none.
pub insert_graph_node-Placed :
    (n : Node) (s : EventStream) (pred next : ℕ → Option Node) (front back : List Node) (i : ℕ)
    → IsConsistent s
    → i < 4
    → IsPlace n s.nodes front back
    → Placed n s front back i (insert_graph_node n s pred next)
unfolding insert_graph_node
insert_graph_node-Placed n s pred next front back i c h p =
    let e = IsPlace-find_place n s.nodes front back p in
    let a : insert_graph_node n s pred next ≡ placed n s pred next front back =
      rw (insert_graph_node, e) refl in
    rw a
      (Placed-entry n s pred next front back i h p.joined (entry_lem n s front back i c h p.joined))
