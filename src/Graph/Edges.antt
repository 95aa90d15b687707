-- ===== src/Graph/Edges.antt =====
-- The two maps of edges describe one multigraph: src/backend/Graph.cpp.
use mathlib.Core.List.{append-nil}
use casita.Prelude.{
  ℕ, ◌≡◌, refl, sym, subst, inl, inr, Bool, List, [], ◌∷◌, ◌++◌, ◌&&◌, ◌==◌, if◌then◌else◌, arith,
  All, All-append, keep_if, keep_if-append, Bool-cases,
}
use casita.Edge.Defs.{Edge}
use casita.Graph.Defs.{
  Graph, or_empty, empty, add_edge, remove_edge, erase_first, ends_at, starts_at,
}

abbrev pub outs : Graph → ℕ → List Edge
outs g u = or_empty (g.out_edges u)

abbrev pub ins : Graph → ℕ → List Edge
ins g v = or_empty (g.in_edges v)

-- The edges from `u` to `v`, oldest first, as the out-edges of `u` list them.
abbrev pub between : Graph → ℕ → ℕ → List Edge
between g u v = keep_if (ends_at v) (outs g u)

-- The same edges, as the in-edges of `v` list them.
abbrev pub into : Graph → ℕ → ℕ → List Edge
into g u v = keep_if (starts_at u) (ins g v)

-- Both maps hold the same edges between any two nodes, in one order, each under its end points.
pub record IsMatched (g : Graph) : Type 0 where
  pub matched : (u v : ℕ) → keep_if (ends_at v) (outs g u) ≡ keep_if (starts_at u) (ins g v)
  pub own_out : (u : ℕ) → All (λ e. e.start_node.id ≡ u) (outs g u)
  pub own_in : (v : ℕ) → All (λ e. e.end_node.id ≡ v) (ins g v)

pub outs-add_edge :
    (e : Edge) (g : Graph) (u : ℕ)
    → outs (add_edge e g) u ≡ (if e.start_node.id == u then outs g u ++ e ∷ [] else outs g u)
unfolding add_edge
outs-add_edge e g u = ground arith

pub ins-add_edge :
    (e : Edge) (g : Graph) (v : ℕ)
    → ins (add_edge e g) v ≡ (if e.end_node.id == v then ins g v ++ e ∷ [] else ins g v)
unfolding add_edge
ins-add_edge e g v = ground arith

keep-out :
    (e : Edge) (g : Graph) (u v : ℕ)
    → keep_if (ends_at v) (outs (add_edge e g) u) ≡ (
        if e.start_node.id == u && e.end_node.id == v
        then between g u v ++ e ∷ []
        else between g u v)
unfolding ends_at
keep-out e g u v = ground (
  arith,
  outs-add_edge e g u,
  keep_if-append (ends_at v) (outs g u) (e ∷ []),
  append-nil (keep_if (ends_at v) (outs g u)),
)

keep-in :
    (e : Edge) (g : Graph) (u v : ℕ)
    → keep_if (starts_at u) (ins (add_edge e g) v) ≡ (
        if e.start_node.id == u && e.end_node.id == v
        then keep_if (starts_at u) (ins g v) ++ e ∷ []
        else keep_if (starts_at u) (ins g v))
unfolding starts_at
keep-in e g u v = ground (
  arith,
  ins-add_edge e g v,
  keep_if-append (starts_at u) (ins g v) (e ∷ []),
  append-nil (keep_if (starts_at u) (ins g v)),
)

-- Adding an edge keeps the two maps matched.
pub add_edge-IsMatched : (e : Edge) (g : Graph) → IsMatched g → IsMatched (add_edge e g)
add_edge-IsMatched e g h = record {
  matched = λ u v. ground (arith, keep-out e g u v, keep-in e g u v, h.matched u v);
  own_out = λ u.
      subst (All (λ x. x.start_node.id ≡ u)) (sym (outs-add_edge e g u))
        (elim (Bool-cases (e.start_node.id == u)) [
          | inl t ↦ rw t (
              All-append (λ x. x.start_node.id ≡ u) (outs g u) (e ∷ []) (h.own_out u)
                (ground arith, tt))
          | inr t ↦ rw t (h.own_out u)
        ]);
  own_in = λ v.
      subst (All (λ x. x.end_node.id ≡ v)) (sym (ins-add_edge e g v))
        (elim (Bool-cases (e.end_node.id == v)) [
          | inl t ↦ rw t (
              All-append (λ x. x.end_node.id ≡ v) (ins g v) (e ∷ []) (h.own_in v)
                (ground arith, tt))
          | inr t ↦ rw t (h.own_in v)
        ]);
}

-- Without its oldest item.
abbrev pub drop_first {ℓ} : {A : Type ℓ} → List A → List A
drop_first [] = []
drop_first (x ∷ xs) = xs

pub All-erase_first :
    (P : Edge → Type 0) (q : Edge → Bool) (xs : List Edge) → All P xs → All P (erase_first q xs)
unfolding erase_first
All-erase_first P q [] h = tt
All-erase_first P q (x ∷ xs) h = elim (Bool-cases (q x)) [
  | inl t ↦ rw t h.1
  | inr t ↦ rw t (h.0, All-erase_first P q xs h.1)
]

-- `erase_first` under a test of the other end point.
keep-erase_ends :
    (v w : ℕ) (xs : List Edge)
    → keep_if (ends_at v) (erase_first (ends_at w) xs)
      ≡ (if w == v then drop_first (keep_if (ends_at v) xs) else keep_if (ends_at v) xs)
unfolding ends_at erase_first
keep-erase_ends v w [] = ground arith
keep-erase_ends v w (x ∷ xs) = ground (arith, keep-erase_ends v w xs)

keep-erase_starts :
    (u w : ℕ) (xs : List Edge)
    → keep_if (starts_at u) (erase_first (starts_at w) xs)
      ≡ (if w == u then drop_first (keep_if (starts_at u) xs) else keep_if (starts_at u) xs)
unfolding starts_at erase_first
keep-erase_starts u w [] = ground arith
keep-erase_starts u w (x ∷ xs) = ground (arith, keep-erase_starts u w xs)

pub outs-remove_edge :
    (e : Edge) (g : Graph) (u : ℕ)
    → outs (remove_edge e g) u
      ≡ (if e.start_node.id == u then erase_first (ends_at e.end_node.id) (outs g u) else outs g u)
unfolding remove_edge
outs-remove_edge e g u = ground arith

pub ins-remove_edge :
    (e : Edge) (g : Graph) (v : ℕ)
    → ins (remove_edge e g) v
      ≡ (if e.end_node.id == v then erase_first (starts_at e.start_node.id) (ins g v) else ins g v)
unfolding remove_edge
ins-remove_edge e g v = ground arith

-- Removing an edge takes away the oldest edge with its end points, and no other, both from the
-- out-edges of its start and from the in-edges of its end.
pub between-remove_edge :
    (e : Edge) (g : Graph) (u v : ℕ)
    → (between (remove_edge e g) u v ≡ (
        if e.start_node.id == u && e.end_node.id == v
        then drop_first (between g u v)
        else between g u v))
      × (into (remove_edge e g) u v ≡ (
          if e.start_node.id == u && e.end_node.id == v
          then drop_first (into g u v)
          else into g u v))
between-remove_edge e g u v = (
  ground (arith, outs-remove_edge e g u, keep-erase_ends v e.end_node.id (outs g u)),
  ground (arith, ins-remove_edge e g v, keep-erase_starts u e.start_node.id (ins g v)),
)

-- Removing an edge keeps the two maps matched.
pub remove_edge-IsMatched : (e : Edge) (g : Graph) → IsMatched g → IsMatched (remove_edge e g)
remove_edge-IsMatched e g h = record {
  matched = λ u v. ground (
    arith,
    outs-remove_edge e g u,
    ins-remove_edge e g v,
    keep-erase_ends v e.end_node.id (outs g u),
    keep-erase_starts u e.start_node.id (ins g v),
    h.matched u v,
  );
  own_out = λ u.
      subst (All (λ x. x.start_node.id ≡ u)) (sym (outs-remove_edge e g u))
        (elim (Bool-cases (e.start_node.id == u)) [
          | inl t ↦ rw t (All-erase_first _ (ends_at e.end_node.id) (outs g u) (h.own_out u))
          | inr t ↦ rw t (h.own_out u)
        ]);
  own_in = λ v.
      subst (All (λ x. x.end_node.id ≡ v)) (sym (ins-remove_edge e g v))
        (elim (Bool-cases (e.end_node.id == v)) [
          | inl t ↦ rw t (All-erase_first _ (starts_at e.start_node.id) (ins g v) (h.own_in v))
          | inr t ↦ rw t (h.own_in v)
        ]);
}

pub empty-IsMatched : IsMatched empty
unfolding empty
empty-IsMatched = record { matched = λ u v. refl; own_out = λ u. tt; own_in = λ v. tt }

-- Removing an edge that was just added gives back the edges between any two nodes, if its end
-- points had no edge from the one to the other before.
pub remove_edge-add_edge :
    (e : Edge) (g : Graph) (u v : ℕ)
    → between g e.start_node.id e.end_node.id ≡ []
    → between (remove_edge e (add_edge e g)) u v ≡ between g u v
remove_edge-add_edge e g u v h =
    rw ((between-remove_edge e (add_edge e g) u v).0, keep-out e g u v)
      (elim (Bool-cases (e.start_node.id == u && e.end_node.id == v)) [
        | inl t ↦
            let a : e.start_node.id ≡ u = ground arith in
            let b : e.end_node.id ≡ v = ground arith in
            let none_left : between g u v ≡ [] = rw (← a, ← b) h in rw (t, none_left)
        | inr t ↦ rw t
      ])
