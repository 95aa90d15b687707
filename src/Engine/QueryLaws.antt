-- ===== src/Engine/QueryLaws.antt =====
-- The searches of src/backend/GraphEngine.cpp find extremes.
use casita.Prelude.{
  ℕ, zero, suc, ◌≤◌, ◌≡◌, refl, sym, ◌∙◌, subst, ◌⊎◌, inl, inr, Bool, true, false, Option, none,
  some, List, [], ◌∷◌, ◌==◌, ltb, arith, All, Pairwise, Bool-cases, Option-cases, get_elem?,
  find_first, All-get_elem?, some-injective,
}
use casita.Node.Paradigm
use casita.Node.Defs.{Node}
use casita.Node.Order.{compare_less}
use casita.Edge.Defs.{Edge}
use casita.Graph.Defs.{Graph, or_empty}
use casita.Stream.Defs.{EventStream, get_last_node_of}
use casita.Engine.Defs.{ok}
use casita.Engine.Queries.{
  shorter, shortest_from, get_shortest_in_edge, is_timed, first_of_stream, before_in_time,
  first_timed_from, get_first_timed_graph_node, later_node_of, last_graph_node_from,
  get_last_graph_node,
}

-- The edge is one of the list, and none of them is shorter.
pub record IsShortest (edges : List Edge) (e : Edge) : Type 0 where
  pub place : ℕ
  pub listed : get_elem? edges place ≡ some e
  pub least : All (λ d. e.duration ≤ d.duration) edges

get_elem?-skip :
    (a b : Edge) (rest : List Edge) (e : Edge) (i : ℕ)
    → get_elem? (a ∷ rest) i ≡ some e
    → (j : ℕ) × (get_elem? (a ∷ b ∷ rest) j ≡ some e)
get_elem?-skip a b rest e zero h = (0, h)
get_elem?-skip a b rest e (suc i) h = (suc (suc i), h)

shortest_from-IsShortest :
    (best : Edge) (edges : List Edge)
    → (e : Edge) × (shortest_from (some best) edges ≡ some e) × IsShortest (best ∷ edges) e
unfolding shortest_from
shortest_from-IsShortest best [] =
    (best, refl, record { place = 0; listed = refl; least = (omega arith, tt) })
shortest_from-IsShortest best (d ∷ edges) = elim (Bool-cases (ltb d.duration best.duration)) [
  | inl t ↦
      let (e, q, s) = shortest_from-IsShortest d edges in
      let step : shorter (some best) d ≡ some d = rw (shorter, t) refl in
      (
        e,
        subst (λ o. shortest_from o edges ≡ some e) (sym step) q,
        record {
          place = suc s.place;
          listed = s.listed;
          least = (ground (arith, s.least.0), s.least);
        },
      )
  | inr t ↦
      let (e, q, s) = shortest_from-IsShortest best edges in
      let step : shorter (some best) d ≡ some best = rw (shorter, t) refl in
      let (j, l) = get_elem?-skip best d edges e s.place s.listed in
      (
        e,
        subst (λ o. shortest_from o edges ≡ some e) (sym step) q,
        record {
          place = j;
          listed = l;
          least = (s.least.0, (ground (arith, s.least.0), s.least.1));
        },
      )
]

shortest_from-cases :
    (edges : List Edge)
    → ((shortest_from none edges ≡ none) × (edges ≡ []))
      ⊎ ((e : Edge) × (shortest_from none edges ≡ some e) × IsShortest edges e)
unfolding shortest_from shorter
shortest_from-cases [] = inl (refl, refl)
shortest_from-cases (e ∷ edges) = inr (shortest_from-IsShortest e edges)

-- `getShortestInEdge` returns an in-edge of the node of least duration, and none only for a node
-- without in-edges.
pub get_shortest_in_edge-IsShortest :
    (n : Node) (g : Graph)
    → ((get_shortest_in_edge n g ≡ none) × (or_empty (g.in_edges n.id) ≡ []))
      ⊎ ((e : Edge) × (get_shortest_in_edge n g ≡ some e)
          × IsShortest (or_empty (g.in_edges n.id)) e)
unfolding get_shortest_in_edge
get_shortest_in_edge-IsShortest n g = elim (Option-cases (g.in_edges n.id)) [
  | inl e ↦ rw (e, get_shortest_in_edge) (inl (refl, refl))
  | inr (edges, e) ↦ rw (e, get_shortest_in_edge) (shortest_from-cases edges)
]

-- The second node is missing, or the first is there and not earlier.
abbrev pub NotEarlier : Option Node → Option Node → Type 0
NotEarlier r none = Unit
NotEarlier none (some f) = ⊥
NotEarlier (some r) (some f) = f.time ≤ r.time

pub NotEarlier-trans : (a b c : Option Node) → NotEarlier a b → NotEarlier b c → NotEarlier a c
NotEarlier-trans a b none h k = tt
NotEarlier-trans a none (some z) h k = absurd k
NotEarlier-trans none (some y) (some z) h k = h
NotEarlier-trans (some x) (some y) (some z) h k = omega (arith, h, k)

pub refl-NotEarlier : (a : Option Node) → NotEarlier a a
refl-NotEarlier none = tt
refl-NotEarlier (some n) = omega arith

later_node_of-time :
    (a b : Option Node) → NotEarlier (later_node_of a b) a × NotEarlier (later_node_of a b) b
unfolding later_node_of compare_less
later_node_of-time none none = (tt, tt)
later_node_of-time (some n) none = (omega arith, tt)
later_node_of-time none (some m) = (tt, omega arith)
later_node_of-time (some n) (some m) = elim (Bool-cases (compare_less n m)) [
  | inl t ↦ rw t (ground (arith, t), omega arith)
  | inr t ↦ rw t (omega arith, ground (arith, t))
]

later_node_of-either : (a b : Option Node) → (later_node_of a b ≡ a) ⊎ (later_node_of a b ≡ b)
unfolding later_node_of
later_node_of-either a none = inl refl
later_node_of-either none (some m) = inr refl
later_node_of-either (some n) (some m) = elim (Bool-cases (compare_less n m)) [
  | inl t ↦ inr (rw (t, later_node_of) refl)
  | inr t ↦ inl (rw (t, later_node_of) refl)
]

-- The last node of one of the streams.
abbrev pub LastOf : ℕ → List EventStream → Option Node → Type 0
LastOf p streams r =
    (i : ℕ) × (s : EventStream) × (get_elem? streams i ≡ some s) × (get_last_node_of s p ≡ r)

last_graph_node_from-latest :
    (p : ℕ) (found : Option Node) (streams : List EventStream)
    → NotEarlier (last_graph_node_from p found streams) found
      × All (λ s. NotEarlier (last_graph_node_from p found streams) (get_last_node_of s p)) streams
      × ((last_graph_node_from p found streams ≡ found)
          ⊎ LastOf p streams (last_graph_node_from p found streams))
unfolding last_graph_node_from
last_graph_node_from-latest p found [] = (refl-NotEarlier found, tt, inl refl)
last_graph_node_from-latest p found (s ∷ streams) =
    let c = get_last_node_of s p in
    let r = last_graph_node_from p (later_node_of found c) streams in
    let (kept, all, source) = last_graph_node_from-latest p (later_node_of found c) streams in
    let (a, b) = later_node_of-time found c in
    (
      NotEarlier-trans r (later_node_of found c) found kept a,
      (NotEarlier-trans r (later_node_of found c) c kept b, all),
      elim source [
        | inr (i, t, l, q) ↦ inr (suc i, t, l, q)
        | inl q ↦ elim (later_node_of-either found c) [
          | inl e ↦ inl (q ∙ e)
          | inr e ↦ inr (0, s, refl, sym (q ∙ e))
        ]
      ],
    )

-- `getLastGraphNode` returns the last node of one of the streams, or none. No stream has a last node
-- of the paradigms at a later time, and none has one at all if the result is none.
pub get_last_graph_node-latest :
    (p : ℕ) (streams : List EventStream)
    → All (λ s. NotEarlier (get_last_graph_node p streams) (get_last_node_of s p)) streams
      × ((get_last_graph_node p streams ≡ none) ⊎ LastOf p streams (get_last_graph_node p streams))
unfolding get_last_graph_node
get_last_graph_node-latest p streams =
    let (kept, all, source) = last_graph_node_from-latest p none streams in (all, source)

-- The nodes of each stream are in the order of their times.
abbrev pub InTime : EventStream → Type 0
InTime s = Pairwise (λ x y. x.time ≤ y.time) s.nodes

-- The second node is missing, or the first is there and not later.
abbrev pub NotLater : Option Node → Option Node → Type 0
NotLater r none = Unit
NotLater none (some f) = ⊥
NotLater (some r) (some f) = r.time ≤ f.time

NotLater-trans : (a b c : Option Node) → NotLater a b → NotLater b c → NotLater a c
NotLater-trans a b none h k = tt
NotLater-trans a none (some z) h k = absurd k
NotLater-trans none (some y) (some z) h k = h
NotLater-trans (some x) (some y) (some z) h k = omega (arith, h, k)

-- The first node that passes the test is not later than the others that do.
find_first-earliest :
    (q : Node → Bool) (ns : List Node) (j : ℕ) (n : Node)
    → Pairwise (λ x y. x.time ≤ y.time) ns
    → get_elem? ns j ≡ some n
    → q n ≡ true
    → NotLater (find_first q ns) (some n)
find_first-earliest q [] j n h l t = absurd (cc)
find_first-earliest q (m ∷ ns) zero n h l t =
    let same : m ≡ n = some-injective l in
    let u : q m ≡ true = subst (λ x. q x ≡ true) (sym same) t in
    rw u (subst (λ x. m.time ≤ x.time) same (omega arith))
find_first-earliest q (m ∷ ns) (suc j) n h l t = elim (Bool-cases (q m)) [
  | inl u ↦ rw u (All-get_elem? _ ns j n h.0 l)
  | inr u ↦ rw u (find_first-earliest q ns j n h.1 l t)
]

before_in_time-min :
    (a b : Option Node) → NotLater (before_in_time a b) a × NotLater (before_in_time a b) b
unfolding before_in_time
before_in_time-min none none = (tt, tt)
before_in_time-min (some n) none = (omega arith, tt)
before_in_time-min none (some m) = (tt, omega arith)
before_in_time-min (some n) (some m) = elim (Bool-cases (ltb m.time n.time)) [
  | inl t ↦ rw t (ground arith, omega arith)
  | inr t ↦ rw t (omega arith, ground arith)
]

before_in_time-either : (a b : Option Node) → (before_in_time a b ≡ a) ⊎ (before_in_time a b ≡ b)
unfolding before_in_time
before_in_time-either a none = inl refl
before_in_time-either none (some m) = inr refl
before_in_time-either (some n) (some m) = elim (Bool-cases (ltb m.time n.time)) [
  | inl t ↦ inr (rw (t, before_in_time) refl)
  | inr t ↦ inl (rw (t, before_in_time) refl)
]

-- The first node of a stream with the paradigm, after time 0.
abbrev pub first_timed : ℕ → EventStream → Option Node
first_timed p s = find_first (is_timed p) s.nodes

-- The first such node of one of the streams.
abbrev pub TimedOf : ℕ → List EventStream → Option Node → Type 0
TimedOf p streams r =
    (i : ℕ) × (s : EventStream) × (get_elem? streams i ≡ some s) × (first_timed p s ≡ r)

first_timed_from-earliest :
    (p : ℕ) (found : Option Node) (streams : List EventStream)
    → (p == Paradigm.mpi) ≡ false
    → (r : Option Node) × (first_timed_from p found streams ≡ ok r)
      × NotLater r found
      × All (λ s. NotLater r (first_timed p s)) streams
      × ((r ≡ found) ⊎ TimedOf p streams r)
unfolding first_timed_from first_of_stream
first_timed_from-earliest p none [] h = (none, refl, tt, tt, inl refl)
first_timed_from-earliest p (some n) [] h = (some n, refl, omega arith, tt, inl refl)
first_timed_from-earliest p found (s ∷ streams) h =
    let c = first_timed p s in
    let (r, e, k, all, source) = first_timed_from-earliest p (before_in_time found c) streams h in
    let (a, b) = before_in_time-min found c in
    (
      r,
      rw h e,
      NotLater-trans r (before_in_time found c) found k a,
      (NotLater-trans r (before_in_time found c) c k b, all),
      elim source [
        | inr (i, t, l, q) ↦ inr (suc i, t, l, q)
        | inl q ↦ elim (before_in_time-either found c) [
          | inl u ↦ inl (q ∙ u)
          | inr u ↦ inr (0, s, refl, sym (q ∙ u))
        ]
      ],
    )

-- `getFirstTimedGraphNode` of a paradigm other than MPI ends, if the nodes of each stream are in the
-- order of their times. It returns none or the first node of a stream that has the paradigm, is not
-- atomic and is after time 0; no such node of any stream is earlier, and there is none if it returns
-- none.
pub get_first_timed_graph_node-earliest :
    (p : ℕ) (streams : List EventStream)
    → (p == Paradigm.mpi) ≡ false
    → All InTime streams
    → (r : Option Node) × (get_first_timed_graph_node p streams ≡ ok r)
      × ((r ≡ none) ⊎ TimedOf p streams r)
      × ((i j : ℕ) (s : EventStream) (n : Node)
          → get_elem? streams i ≡ some s
          → get_elem? s.nodes j ≡ some n
          → is_timed p n ≡ true
          → NotLater r (some n))
unfolding get_first_timed_graph_node
get_first_timed_graph_node-earliest p streams h sorted =
    let (r, e, k, all, source) = first_timed_from-earliest p none streams h in
    (
      r,
      e,
      source,
      λ i j s n l m t.
          NotLater-trans r (first_timed p s) (some n) (All-get_elem? _ streams i s all l) (
            find_first-earliest (is_timed p) s.nodes j n (All-get_elem? InTime streams i s sorted l)
              m t),
    )
