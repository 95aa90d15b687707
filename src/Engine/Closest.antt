-- ===== src/Engine/Closest.antt =====
-- The node that `GraphEngine::streamWalkBackward` of src/backend/GraphEngine.cpp steps to.
use casita.Prelude.{
  ℕ, zero, suc, ◌≤◌, ◌≡◌, ◌≢◌, refl, sym, ◌∙◌, subst, ◌⊎◌, inl, inr, true, false, Option, none,
  some, List, [], ◌∷◌, ltb, if◌then◌else◌, arith, All, Bool-cases, get_elem?, All-get_elem?,
  some-injective,
}
use casita.Node.Defs.{Node}
use casita.Edge.Defs.{Edge, is_intra_stream_edge}
use casita.Graph.Defs.{or_empty, Graph}
use casita.Engine.Queries.{closer, closest_from}

-- The start of the edge is on the same stream, not behind the node.
abbrev NotBehind : Node → List Edge → Type 0
NotBehind m = All (λ e. is_intra_stream_edge e ≡ true → e.start_node.time ≤ m.time)

-- The node is the start of one of the edges, on the same stream, and the latest such.
pub record IsClosest (edges : List Edge) (m : Node) : Type 0 where
  pub edge : Edge
  pub place : ℕ
  pub listed : get_elem? edges place ≡ some edge
  pub starts : edge.start_node ≡ m
  pub intra : is_intra_stream_edge edge ≡ true
  pub latest : NotBehind m edges

closer_cases :
    (found : Option Node) (e : Edge)
    → (closer found e ≡ found)
      ⊎ ((closer found e ≡ some e.start_node) × (is_intra_stream_edge e ≡ true))
unfolding closer
closer_cases none e = elim (Bool-cases (is_intra_stream_edge e)) [
  | inl t ↦ inr (rw (t, closer) refl, t)
  | inr t ↦ inl (rw (t, closer) refl)
]
closer_cases (some p) e = elim (Bool-cases (is_intra_stream_edge e)) [
  | inl t ↦ elim (Bool-cases (ltb p.time e.start_node.time)) [
    | inl l ↦ inr (rw (t, l, closer) refl, t)
    | inr l ↦ inl (rw (t, l, closer) refl)
  ]
  | inr t ↦ inl (rw (t, closer) refl)
]

abbrev time_of : Option Node → ℕ
time_of none = 0
time_of (some n) = n.time

closer-later :
    (found : Option Node) (e : Edge)
    → (time_of found ≤ time_of (closer found e))
      × (is_intra_stream_edge e ≡ true → e.start_node.time ≤ time_of (closer found e))
unfolding closer
closer-later none e = (omega arith, λ t. rw t (omega arith))
closer-later (some p) e = (ground arith, λ t. ground arith)

-- What the loop ends with is at least as late as what it held, and as each edge that it read.
closest_from-latest :
    (found : Option Node) (edges : List Edge)
    → (time_of found ≤ time_of (closest_from found edges))
      × All
          (λ e.
            is_intra_stream_edge e ≡ true → e.start_node.time ≤ time_of (closest_from found edges))
          edges
unfolding closest_from
closest_from-latest found [] = (omega arith, tt)
closest_from-latest found (e ∷ edges) =
    let (rest, all) = closest_from-latest (closer found e) edges in
    let (kept, read) = closer-later found e in
    (omega (arith, rest, kept), (λ t. omega (arith, rest, read t), all))

closest_from-listed :
    (found : Option Node) (edges : List Edge)
    → (closest_from found edges ≡ found)
      ⊎ ((i : ℕ) × (e : Edge) × (get_elem? edges i ≡ some e)
          × (closest_from found edges ≡ some e.start_node)
          × (is_intra_stream_edge e ≡ true))
unfolding closest_from
closest_from-listed found [] = inl refl
closest_from-listed found (e ∷ edges) = elim (closest_from-listed (closer found e) edges) [
  | inr (i, d, l, q, t) ↦ inr (suc i, d, l, q, t)
  | inl q ↦ elim (closer_cases found e) [
    | inl c ↦ inl (q ∙ c)
    | inr (c, t) ↦ inr (0, e, refl, q ∙ c, t)
  ]
]

pub closest_from-IsClosest :
    (edges : List Edge) (m : Node) → closest_from none edges ≡ some m → IsClosest edges m
closest_from-IsClosest edges m h = elim (closest_from-listed none edges) [
  | inl q ↦ absurd (cc)
  | inr (i, e, l, q, t) ↦ record {
    edge = e;
    place = i;
    listed = l;
    starts = some-injective (sym q ∙ h);
    intra = t;
    latest =
        subst (λ o. All (λ d. is_intra_stream_edge d ≡ true → d.start_node.time ≤ time_of o) edges)
          h (closest_from-latest none edges).1;
  }
]

closest_from-some : (p : Node) (edges : List Edge) → closest_from (some p) edges ≢ none
unfolding closest_from
closest_from-some p [] h = cc
closest_from-some p (e ∷ edges) h = elim (closer_cases (some p) e) [
  | inl c ↦ closest_from-some p edges (rw (← c) h)
  | inr (c, t) ↦ closest_from-some e.start_node edges (rw (← c) h)
]

closer-none_intra :
    (e : Edge) → closer none e ≡ (if is_intra_stream_edge e then some e.start_node else none)
unfolding closer
closer-none_intra e = refl

closest_from-cons :
    (d : Edge) (edges : List Edge)
    → closest_from none (d ∷ edges) ≡ none
    → (is_intra_stream_edge d ≡ false) × (closest_from none edges ≡ none)
unfolding closest_from
closest_from-cons d edges h = elim (Bool-cases (is_intra_stream_edge d)) [
  | inl t ↦
      let c : closer none d ≡ some d.start_node = closer-none_intra d ∙ rw t refl in
      absurd (closest_from-some d.start_node edges (subst (λ o. closest_from o edges ≡ none) c h))
  | inr t ↦
      let c : closer none d ≡ none = closer-none_intra d ∙ rw t refl in
      (t, subst (λ o. closest_from o edges ≡ none) c h)
]

closest_from-none :
    (edges : List Edge) (i : ℕ) (e : Edge)
    → closest_from none edges ≡ none
    → get_elem? edges i ≡ some e
    → is_intra_stream_edge e ≡ false
closest_from-none [] i e h l = absurd (cc)
closest_from-none (d ∷ edges) zero e h l =
    let same : d ≡ e = some-injective l in
    subst (λ x. is_intra_stream_edge x ≡ false) same (closest_from-cons d edges h).0
closest_from-none (d ∷ edges) (suc i) e h l =
    closest_from-none edges i e (closest_from-cons d edges h).1 l

-- No in-edge on the same stream starts earlier than the node, or the latest that does is not earlier.
abbrev pub Stuck : Graph → Node → Type 0
Stuck g n = (m : Node) → IsClosest (or_empty (g.in_edges n.id)) m → n.time ≤ m.time

pub Stuck-none :
    (edges : List Edge) (m : Node) → closest_from none edges ≡ none → IsClosest edges m → ⊥
Stuck-none edges m h c =
    let t = closest_from-none edges c.place c.edge h c.listed in let i = c.intra in cc

-- Two closest nodes are of one time.
pub closest_latest :
    (edges : List Edge) (m k : Node) → IsClosest edges m → IsClosest edges k → m.time ≤ k.time
closest_latest edges m k a b =
    let l = All-get_elem? _ edges a.place a.edge b.latest a.listed a.intra in
    subst (λ x. x.time ≤ k.time) a.starts l
