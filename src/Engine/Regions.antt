-- ===== src/Engine/Regions.antt =====
-- The stacks of open regions, over the nodes of one stream: `addNewGraphNodeInternal` of
-- src/backend/GraphEngine.cpp.
use mathlib.Core.Path.{fun_ext}
use casita.Prelude.{
  ℕ, ◌≡◌, ◌≢◌, ◌<◌, ◌≤◌, ◌⊎◌, ltb, refl, sym, ◌∙◌, inl, inr, true, false, Option, some, List, [],
  ◌∷◌, ◌++◌, ◌==◌, if◌then◌else◌, arith, All, Pairwise, Bool-cases,
}
use casita.Node.Flags.{enter, leave}
use casita.Node.Defs.{Node, is_enter, is_leave}
use casita.GraphNode.Partner.{same_record_type}
use casita.Stream.Add.{put}
use casita.Stream.AddGraphNode.{has_member}
use casita.Engine.Defs.{
  Engine, Pair, Result, ok, raised, undefined, ◌>>=◌, top, pair_of, set_partners, close_region,
  open_region, update_stack,
}

-- The pair of two nodes, the first one first.
abbrev pub in_order : Node → Node → Pair
in_order a b = record { first = some a; second = some b }

-- The calls for a sequence of new nodes.
unfoldable pub update_stacks : List Node → Engine → Result Engine
update_stacks [] e = ok e
update_stacks (n ∷ ns) e = update_stack n e >>= update_stacks ns

-- The nodes of one stream, in which regions nest.
pub data Regions (stream_id : ℕ) : List Node → Type 0 where
  nothing : Regions stream_id []
  plain :
      (n : Node) (ns : List Node)
      → is_enter n ≡ false
      → is_leave n ≡ false
      → Regions stream_id ns
      → Regions stream_id (n ∷ ns)
  region :
      (a b : Node) (body rest : List Node) {ns : List Node}
      → a.record_type ≡ enter
      → b.record_type ≡ leave
      → a.stream_id ≡ stream_id
      → b.stream_id ≡ stream_id
      → Regions stream_id body
      → Regions stream_id rest
      → ns ≡ a ∷ (body ++ (b ∷ rest))
      → Regions stream_id ns

-- The pairs of an enter `a` and its leave `b` in time order, where that is strict. For a region of no
-- duration each of the two puts the other first and itself second.
abbrev pub PairsUp : Node → Node → Pair → Pair → Type 0
PairsUp a b p q =
    ((a.time < b.time) × (p ≡ in_order a b) × (q ≡ in_order a b))
    ⊎ (((a.time ≡ b.time) × (p ≡ in_order b a) × (q ≡ in_order a b))
        ⊎ ((b.time < a.time) × (p ≡ in_order b a) × (q ≡ in_order b a)))

pair_of-before : (a b : Node) → a.time < b.time → pair_of a b ≡ in_order a b
unfolding pair_of
pair_of-before a b h = let t : ltb a.time b.time ≡ true = ground (arith, h) in rw t refl

pair_of-otherwise : (a b : Node) → b.time ≤ a.time → pair_of a b ≡ in_order b a
unfolding pair_of
pair_of-otherwise a b h = let t : ltb a.time b.time ≡ false = ground (arith, h) in rw t refl

pub pair_of-PairsUp :
    (a b : Node) (p q : Pair) → p ≡ pair_of a b → q ≡ pair_of b a → PairsUp a b p q
pair_of-PairsUp a b p q e f = elim (Bool-cases (ltb a.time b.time)) [
  | inl t ↦
      let h : a.time < b.time = ground (arith, t) in
      inl (h, e ∙ pair_of-before a b h, f ∙ pair_of-otherwise b a (omega (arith, h)))
  | inr t ↦
      let h : b.time ≤ a.time = ground (arith, t) in
      inr (elim (Bool-cases (ltb b.time a.time)) [
        | inl u ↦
            let k : b.time < a.time = ground (arith, u) in
            inr (k, e ∙ pair_of-otherwise a b h, f ∙ pair_of-before b a k)
        | inr u ↦
            let k : a.time ≤ b.time = ground (arith, u) in
            inl (omega (arith, h, k), e ∙ pair_of-otherwise a b h, f ∙ pair_of-otherwise b a k)
      ])
]

-- Each enter and its leave have their pairs, and the caller of both is the enter of the region around.
unfoldable pub Paired :
    {stream_id : ℕ} {ns : List Node} → Regions stream_id ns → Option Node → Engine → Type 0
Paired nothing caller e = Unit
Paired (plain n ns _ _ d) caller e = Paired d caller e
Paired (region a b body rest _ _ _ _ d f _) caller e =
    PairsUp a b (e.pairs a.id) (e.pairs b.id)
    × (e.callers a.id ≡ caller)
    × (e.callers b.id ≡ caller)
    × Paired d (some a) e
    × Paired f caller e

abbrev pub Agree : Engine → Engine → ℕ → Type 0
Agree e e' k = (e'.pairs k ≡ e.pairs k) × (e'.callers k ≡ e.callers k)

pub has_member-append :
    (k : ℕ) (xs ys : List Node)
    → has_member k (xs ++ ys) ≡ (if has_member k xs then true else has_member k ys)
has_member-append k [] ys = refl
has_member-append k (x ∷ xs) ys = ground (arith, has_member-append k xs ys)

pub Paired-Agree :
    {sid : ℕ} {ns : List Node} (d : Regions sid ns) (caller : Option Node) (e e' : Engine)
    → ((k : ℕ) → has_member k ns ≡ true → Agree e e' k)
    → Paired d caller e
    → Paired d caller e'
unfolding Paired
Paired-Agree nothing caller e e' h p = tt
Paired-Agree (plain n ns _ _ d) caller e e' h p =
    Paired-Agree d caller e e' (λ k m. h k (ground arith)) p
Paired-Agree {sid} {ns} (region a b body rest _ _ _ _ d f q) caller e e' h (pab, ca, cb, pd, pf) =
    let split : (k : ℕ) → has_member k ns ≡ has_member k (a ∷ (body ++ (b ∷ rest))) =
      λ k. rw q refl in
    let at_a = h a.id (split a.id ∙ ground arith) in
    let at_b = h b.id (split b.id ∙ ground (arith, has_member-append b.id body (b ∷ rest))) in
    (
      rw (at_a.0, at_b.0) pab,
      at_a.1 ∙ ca,
      at_b.1 ∙ cb,
      Paired-Agree d (some a) e e'
          (λ k m. h k (split k ∙ ground (arith, has_member-append k body (b ∷ rest)))) pd,
      Paired-Agree f caller e e'
          (λ k m. h k (split k ∙ ground (arith, has_member-append k body (b ∷ rest)))) pf,
    )

-- The identifiers of the nodes differ.
abbrev pub Distinct : List Node → Type 0
Distinct = Pairwise (λ x y. x.id ≢ y.id)

pub Distinct-right : (xs ys : List Node) → Distinct (xs ++ ys) → Distinct ys
Distinct-right [] ys h = h
Distinct-right (x ∷ xs) ys h = Distinct-right xs ys h.1

All-left :
    (x : Node) (xs ys : List Node) → All (λ y. x.id ≢ y.id) (xs ++ ys) → All (λ y. x.id ≢ y.id) xs
All-left x [] ys h = tt
All-left x (y ∷ xs) ys h = (h.0, All-left x xs ys h.1)

pub Distinct-left : (xs ys : List Node) → Distinct (xs ++ ys) → Distinct xs
Distinct-left [] ys h = tt
Distinct-left (x ∷ xs) ys h = (All-left x xs ys h.0, Distinct-left xs ys h.1)

pub member-fresh :
    (x : Node) (ys : List Node) → All (λ y. x.id ≢ y.id) ys → has_member x.id ys ≡ false
member-fresh x [] h = refl
member-fresh x (y ∷ ys) h = ground (arith, h.0, member-fresh x ys h.1)

-- A node of the left part is not in the right one.
pub member-once :
    (k : ℕ) (xs ys : List Node)
    → Distinct (xs ++ ys)
    → has_member k xs ≡ true
    → has_member k ys ≡ false
member-once k [] ys h m = absurd (cc)
member-once k (x ∷ xs) ys h m = elim (Bool-cases (x.id == k)) [
  | inl t ↦ ground (arith, member-fresh x (xs ++ ys) h.0, has_member-append k xs ys)
  | inr t ↦ member-once k xs ys h.1 (ground arith)
]

>>=_assoc :
    {A B C : Type 0} (r : Result A) (f : A → Result B) (g : B → Result C)
    → ((r >>= f) >>= g) ≡ (r >>= (λ a. f a >>= g))
>>=_assoc (ok a) f g = refl
>>=_assoc raised f g = refl
>>=_assoc undefined f g = refl

pub update_stacks-append :
    (xs ys : List Node) (e : Engine)
    → update_stacks (xs ++ ys) e ≡ (update_stacks xs e >>= update_stacks ys)
unfolding update_stacks
update_stacks-append [] ys e = refl
update_stacks-append (x ∷ xs) ys e =
    let swap : update_stacks (xs ++ ys) ≡ (λ e'. update_stacks xs e' >>= update_stacks ys) =
      fun_ext (update_stacks-append xs ys) in
    rw swap (sym (>>=_assoc (update_stack x e) (update_stacks xs) (update_stacks ys)))

pub open-step :
    (a : Node) (e : Engine) → a.record_type ≡ enter → update_stack a e ≡ ok (open_region a e)
unfolding update_stack is_enter is_leave
open-step a e h = rw h refl

-- The state after the leave `b` of the enter `a`, where `rest` are the regions around.
abbrev pub closed : Node → Node → List Node → Engine → Engine
closed a b rest e = record e {
  pairs = put (put e.pairs b.id (pair_of b a)) a.id (pair_of a b);
  stacks = put e.stacks b.stream_id rest;
  callers = put e.callers b.id (top rest);
}

is_leave-leave : (b : Node) → b.record_type ≡ leave → is_leave b ≡ true
unfolding is_leave
is_leave-leave b k = rw k refl

unlike :
    (a b : Node)
    → a.record_type ≡ enter
    → b.record_type ≡ leave
    → same_record_type a.record_type b.record_type ≡ false
unfolding same_record_type
unlike a b h k = rw (h, k) refl

pub close-step :
    (a b : Node) (rest : List Node) (e : Engine)
    → a.record_type ≡ enter
    → b.record_type ≡ leave
    → e.stacks b.stream_id ≡ a ∷ rest
    → update_stack b e ≡ ok (closed a b rest e)
unfolding update_stack close_region set_partners
close-step a b rest e h k s =
    rw (is_leave-leave b k, s, close_region, set_partners, unlike a b h k) refl

pub plain-step :
    (n : Node) (e : Engine) → is_enter n ≡ false → is_leave n ≡ false → update_stack n e ≡ ok e
unfolding update_stack
plain-step n e h k = rw (k, h) refl
