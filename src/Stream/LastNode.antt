-- ===== src/Stream/LastNode.antt =====
-- `EventStream::getLastNode( paradigm )` of src/backend/EventStream.cpp.
use casita.Prelude.{
  ℕ, ◌^◌, ◌≡◌, refl, ◌∙◌, ◌⊎◌, inl, inr, Bool, true, false, Option, none, some, List, [], ◌∷◌,
  if◌then◌else◌, arith, All, Bool-cases,
}
use casita.Node.Flags.{has_flag}
use casita.Node.Defs.{Node}
use casita.Node.Order.{compare_less}
use casita.Node.OrderLaws.{compare_less_irrefl, compare_less_asymm}
use casita.Stream.AddLaws.{mem}
use casita.Stream.Defs.{EventStream, get_last_node_of, last_from, later_of, paradigm_indices}

-- The last node of a paradigm that was asked for.
abbrev pub candidate : EventStream → ℕ → ℕ → Option Node
candidate s paradigm i = if has_flag paradigm (2 ^ i) then (s.graph_data i).last_node else none

-- The second node is missing, or both are there and the first is not before it.
abbrev pub covers : Option Node → Option Node → Bool
covers a none = true
covers none (some m) = false
covers (some n) (some m) = if compare_less n m then false else true

-- A node is of the stream with the identifier.
abbrev pub IsOwn : ℕ → Option Node → Type 0
IsOwn id none = Unit
IsOwn id (some m) = m.stream_id ≡ id

covers_trans :
    (id : ℕ) (a b c : Option Node)
    → IsOwn id a
    → IsOwn id b
    → IsOwn id c
    → covers a b ≡ true
    → covers b c ≡ true
    → covers a c ≡ true
unfolding compare_less
covers_trans id a b none p q r h k = refl
covers_trans id a none (some z) p q r h k = absurd (cc)
covers_trans id none (some y) (some z) p q r h k = absurd (cc)
covers_trans id (some x) (some y) (some z) p q r h k = ground arith

abbrev pick : Option Node → Option Node → Option Node
pick none c = c
pick (some n) c = some (later_of n c)

pick-IsOwn : (id : ℕ) (f c : Option Node) → IsOwn id f → IsOwn id c → IsOwn id (pick f c)
unfolding later_of
pick-IsOwn id none c p q = q
pick-IsOwn id (some n) none p q = p
pick-IsOwn id (some n) (some m) p q = elim (Bool-cases (compare_less n m)) [
  | inl t ↦ rw (t, later_of) q
  | inr t ↦ rw (t, later_of) p
]

pick-covers :
    (id : ℕ) (f c : Option Node)
    → IsOwn id f
    → IsOwn id c
    → (covers (pick f c) f ≡ true) × (covers (pick f c) c ≡ true)
unfolding later_of
pick-covers id none none p q = (refl, refl)
pick-covers id none (some m) p q = (refl, ground (arith, compare_less_irrefl m))
pick-covers id (some n) none p q = (ground (arith, compare_less_irrefl n), refl)
pick-covers id (some n) (some m) p q = (
  ground (arith, compare_less_irrefl n, compare_less_asymm n m),
  ground (arith, compare_less_irrefl m),
)

pick-either : (f c : Option Node) → (pick f c ≡ f) ⊎ (pick f c ≡ c)
unfolding later_of
pick-either none c = inr refl
pick-either (some n) none = inl refl
pick-either (some n) (some m) = elim (Bool-cases (compare_less n m)) [
  | inl t ↦ inr (rw (t, later_of) refl)
  | inr t ↦ inl (rw (t, later_of) refl)
]

candidate-IsOwn :
    (s : EventStream) (p i : ℕ)
    → IsOwn s.id (s.graph_data i).last_node
    → IsOwn s.id (candidate s p i)
candidate-IsOwn s p i h = elim (Bool-cases (has_flag p (2 ^ i))) [
  | inl t ↦ rw t h
  | inr t ↦ rw t tt
]

-- The result is the node found before or a candidate, and no node of them is behind it.
record IsBest (s : EventStream) (p : ℕ) (found : Option Node) (is : List ℕ) (r : Option Node)
    : Type 0 where
  covers_found : covers r found ≡ true
  covers_all : All (λ i. covers r (candidate s p i) ≡ true) is
  source : (r ≡ found) ⊎ ((i : ℕ) × (mem i is ≡ true) × (r ≡ candidate s p i))
  own : IsOwn s.id r

covers_refl : (f : Option Node) → covers f f ≡ true
covers_refl none = refl
covers_refl (some n) = ground (arith, compare_less_irrefl n)

last_from-pick :
    (s : EventStream) (p : ℕ) (found : Option Node) (i : ℕ) (is : List ℕ)
    → last_from s p found (i ∷ is) ≡ last_from s p (pick found (candidate s p i)) is
unfolding last_from
last_from-pick s p none i is = refl
last_from-pick s p (some n) i is = refl

-- What holds of the rest of the loop, which starts with the picked node, holds of the loop.
IsBest-cons :
    (s : EventStream) (p : ℕ) (found : Option Node) (i : ℕ) (is : List ℕ) (r : Option Node)
    → ((j : ℕ) → IsOwn s.id (s.graph_data j).last_node)
    → IsOwn s.id found
    → IsBest s p (pick found (candidate s p i)) is r
    → IsBest s p found (i ∷ is) r
IsBest-cons s p found i is r h o b =
    let c = candidate s p i in
    let oc : IsOwn s.id c = candidate-IsOwn s p i (h i) in
    let op : IsOwn s.id (pick found c) = pick-IsOwn s.id found c o oc in
    let (k, l) = pick-covers s.id found c o oc in
    record {
      covers_found = covers_trans s.id r (pick found c) found b.own op o b.covers_found k;
      covers_all =
          (covers_trans s.id r (pick found c) c b.own op oc b.covers_found l, b.covers_all);
      source = elim b.source [
        | inl e ↦ elim (pick-either found c) [
          | inl q ↦ inl (e ∙ q)
          | inr q ↦ inr (i, ground arith, e ∙ q)
        ]
        | inr (j, m, e) ↦ inr (j, ground arith, e)
      ];
      own = b.own;
    }

last_from-IsBest :
    (s : EventStream) (p : ℕ) (found : Option Node) (is : List ℕ)
    → ((i : ℕ) → IsOwn s.id (s.graph_data i).last_node)
    → IsOwn s.id found
    → IsBest s p found is (last_from s p found is)
unfolding last_from
last_from-IsBest s p found [] h o = record {
  covers_found = covers_refl found;
  covers_all = tt;
  source = inl refl;
  own = o;
}
last_from-IsBest s p found (i ∷ is) h o =
    let o' = pick-IsOwn s.id found (candidate s p i) o (candidate-IsOwn s p i (h i)) in
    rw (last_from-pick s p found i is) (
      IsBest-cons s p found i is (last_from s p (pick found (candidate s p i)) is) h o
        (last_from-IsBest s p (pick found (candidate s p i)) is h o'))

-- Where the last nodes of the paradigms are nodes of the stream, `getLastNode` of a set of paradigms
-- returns the last node of one of them, or none, and no paradigm of the set has a last node behind
-- it.
pub get_last_node_of-covers :
    (s : EventStream) (p : ℕ)
    → ((i : ℕ) → IsOwn s.id (s.graph_data i).last_node)
    → All (λ i. covers (get_last_node_of s p) (candidate s p i) ≡ true) paradigm_indices
      × ((get_last_node_of s p ≡ none)
          ⊎ ((i : ℕ) × (mem i paradigm_indices ≡ true) × (get_last_node_of s p ≡ candidate s p i)))
unfolding get_last_node_of
get_last_node_of-covers s p h =
    let b = last_from-IsBest s p none paradigm_indices h tt in (b.covers_all, b.source)
