-- ===== src/Stream/Consistent.antt =====
-- The invariant of an event stream, which `EventStream::addGraphNode` of src/backend/EventStream.cpp
-- keeps.
use mathlib.Core.List.{append-nil}
use casita.Prelude.{
  ℕ, ◌^◌, ◌<◌, ◌≡◌, ◌≢◌, refl, sym, ◌∙◌, subst, inl, inr, Bool, true, false, none, some, List, [],
  ◌∷◌, ◌++◌, if◌then◌else◌, arith, All, keep_if, keep_if-append, get_last?, get_last?-concat,
  find_first, Bool-cases, Option-cases, All-append,
}
use casita.Node.Defs.{Node, has_paradigm}
use casita.Node.Order.{compare_less}
use casita.Node.OrderLaws.{compare_less_trans, compare_less_total}
use casita.GraphNode.FindNode.{Precedes, IsSorted}
use casita.Stream.Defs.{EventStream, GraphTable}
use casita.Stream.Add.{is_before, set_data}
use casita.Stream.AddLaws.{filled, is_refused}

-- The nodes of paradigm `i`.
abbrev pub has_bit : ℕ → Node → Bool
has_bit i n = has_paradigm n (2 ^ i)

abbrev pub of_paradigm : ℕ → List Node → List Node
of_paradigm i = keep_if (has_bit i)

-- The table names the first and the last node of each paradigm, the nodes of each paradigm are
-- sorted, `lastNode` is the last node, and all nodes are of this stream.
pub record IsConsistent (s : EventStream) : Type 0 where
  pub firsts : (i : ℕ) → i < 4 → (s.graph_data i).first_node ≡ find_first (has_bit i) s.nodes
  pub lasts : (i : ℕ) → i < 4 → (s.graph_data i).last_node ≡ get_last? (of_paradigm i s.nodes)
  pub sorted : (i : ℕ) → i < 4 → IsSorted (of_paradigm i s.nodes)
  pub last : s.last_node ≡ get_last? s.nodes
  pub own : All (λ m. m.stream_id ≡ s.id) s.nodes

Precedes-trans : (x y z : Node) → Precedes x y → Precedes y z → x.id ≢ z.id → Precedes x z
Precedes-trans x y z p q d = (p.0 ∙ q.0, compare_less_trans x y z p.0 q.0 p.1 q.1, d)

-- The last node of a sorted list is behind all others.
behind_last :
    (xs : List Node) (o n : Node)
    → IsSorted xs
    → get_last? xs ≡ some o
    → Precedes o n
    → All (λ m. m.id ≢ n.id) xs
    → All (λ m. Precedes m n) xs
behind_last [] o n s l p d = tt
behind_last (x ∷ []) o n s l p d =
    let e : x ≡ o = ground arith in (subst (λ z. Precedes z n) (sym e) p, tt)
behind_last (x ∷ y ∷ xs) o n s l p d =
    let rest = behind_last (y ∷ xs) o n s.1 (ground arith) p d.1 in
    (Precedes-trans x y n s.0.0 rest.0 d.0, rest)

IsSorted-concat :
    (xs : List Node) (n : Node) → IsSorted xs → All (λ m. Precedes m n) xs → IsSorted (xs ++ n ∷ [])
IsSorted-concat [] n s h = (tt, tt)
IsSorted-concat (x ∷ xs) n s h =
    (All-append (Precedes x) xs (n ∷ []) s.0 (h.0, tt), IsSorted-concat xs n s.1 h.1)

All-keep_if :
    (P : Node → Type 0) (p : Node → Bool) (xs : List Node) → All P xs → All P (keep_if p xs)
All-keep_if P p [] h = tt
All-keep_if P p (x ∷ xs) h = elim (Bool-cases (p x)) [
  | inl t ↦ rw t (h.0, All-keep_if P p xs h.1)
  | inr t ↦ rw t (All-keep_if P p xs h.1)
]

get_last?-none : (xs : List Node) → get_last? xs ≡ none → xs ≡ []
get_last?-none [] e = refl
get_last?-none (x ∷ xs) e = ground arith

All-last : (P : Node → Type 0) (xs : List Node) (o : Node) → All P xs → get_last? xs ≡ some o → P o
All-last P [] o h e = absurd (cc)
All-last P (x ∷ xs) o h e = elim (Option-cases (get_last? xs)) [
  | inl f ↦ let g : x ≡ o = ground arith in subst P g h.0
  | inr (y, f) ↦ All-last P xs o h.1 (ground arith)
]

find_first-append :
    (p : Node → Bool) (xs : List Node) (n : Node)
    → find_first p (xs ++ n ∷ [])
      ≡ elim (find_first p xs) [ none ↦ if p n then some n else none | some m ↦ some m ]
find_first-append p [] n = ground arith
find_first-append p (x ∷ xs) n = ground (arith, find_first-append p xs n)

of_paradigm-concat :
    (i : ℕ) (xs : List Node) (n : Node)
    → of_paradigm i (xs ++ n ∷ [])
      ≡ (if has_bit i n then of_paradigm i xs ++ n ∷ [] else of_paradigm i xs)
of_paradigm-concat i xs n =
    ground (arith, keep_if-append (has_bit i) xs (n ∷ []), append-nil (of_paradigm i xs))

-- The stream with the node taken in: its table has the entries that the loop left.
abbrev pub appended : Node → EventStream → GraphTable → List Node → EventStream
appended n s table unlinked = record s {
  nodes_added = true;
  nodes = s.nodes ++ n ∷ [];
  last_node = some n;
  graph_data = table;
  unlinked_mpi_nodes = unlinked;
}

module _ (n : Node) (s : EventStream) (c : IsConsistent s) (own : n.stream_id ≡ s.id)
    (fresh : All (λ m. m.id ≢ n.id) s.nodes) where
  -- An accepted node is behind all nodes of each of its paradigms.
  accepted_behind :
      (i : ℕ)
      → i < 4
      → has_bit i n ≡ true
      → is_refused n s i ≡ false
      → All (λ m. Precedes m n) (of_paradigm i s.nodes)
  unfolding is_before
  accepted_behind i h b r = elim (Option-cases (get_last? (of_paradigm i s.nodes))) [
    | inl e ↦ rw (get_last?-none (of_paradigm i s.nodes) e) tt
    | inr (o, e) ↦
        let mine =
          All-last (λ m. m.stream_id ≡ s.id) (of_paradigm i s.nodes) o
            (All-keep_if (λ m. m.stream_id ≡ s.id) (has_bit i) s.nodes c.own) e in
        let other =
          All-last (λ m. m.id ≢ n.id) (of_paradigm i s.nodes) o
            (All-keep_if (λ m. m.id ≢ n.id) (has_bit i) s.nodes fresh) e in
        let not_before : compare_less n o ≡ false = ground (arith, c.lasts i h) in
        let after : compare_less o n ≡ true =
          ground (arith, compare_less_total o n (mine ∙ sym own) other) in
        behind_last (of_paradigm i s.nodes) o n (c.sorted i h) e (mine ∙ sym own, after, other)
          (All-keep_if (λ m. m.id ≢ n.id) (has_bit i) s.nodes fresh)
  ]

  pub appended-IsConsistent :
      (table : GraphTable) (unlinked : List Node)
      → ((j : ℕ) → j < 4 → table j ≡ filled n s j)
      → ((i : ℕ) → i < 4 → is_refused n s i ≡ false)
      → IsConsistent (appended n s table unlinked)
  unfolding set_data
  appended-IsConsistent table unlinked t r = record {
    firsts = λ i h. ground (arith, t i h, c.firsts i h, find_first-append (has_bit i) s.nodes n);
    lasts = λ i h. ground (
      arith,
      t i h,
      c.lasts i h,
      of_paradigm-concat i s.nodes n,
      get_last?-concat (of_paradigm i s.nodes) n,
    );
    sorted = λ i h.
        subst IsSorted (sym (of_paradigm-concat i s.nodes n)) (elim (Bool-cases (has_bit i n)) [
          | inl b ↦ rw b (
              IsSorted-concat (of_paradigm i s.nodes) n (c.sorted i h)
                (accepted_behind i h b (r i h)))
          | inr b ↦ rw b (c.sorted i h)
        ]);
    last = sym (get_last?-concat s.nodes n);
    own = All-append (λ m. m.stream_id ≡ s.id) s.nodes (n ∷ []) c.own (own, tt);
  }
