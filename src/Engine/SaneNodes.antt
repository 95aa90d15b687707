-- ===== src/Engine/SaneNodes.antt =====
-- What `addNewGraphNodeInternal` of src/backend/GraphEngine.cpp adds to a sane graph is sane.
use casita.Prelude.{
  ℕ, ◌^◌, ◌≡◌, refl, sym, ◌∙◌, subst, ◌⊎◌, inl, inr, Bool, true, false, not, ◌&&◌, Option, none,
  some, List, [], ◌∷◌, ◌==◌, arith, Bool-cases, Option-cases, bit_and,
}
use casita.Node.Paradigm
use casita.Node.Defs.{Node, is_enter, is_leave}
use casita.Node.Kinds.{is_waitstate}
use casita.Node.Order.{compare_less}
use casita.GraphNode.Partner.{same_record_type}
use casita.Graph.Defs.{Graph, remove_edge}
use casita.Stream.Defs.{EventStream, paradigm_indices}
use casita.Stream.Add.{Links, Added, added, thrown, fault}
use casita.Stream.Insert.{Inserted, inserted, invalid_iterator}
use casita.Engine.Defs.{
  Engine, get_edge, update_stack, is_wait, sane, set_partners, close_region, open_region,
}
use casita.Engine.Outcomes.{Holds, Holds-bind, Holds-any}
use casita.Engine.Nodes.{
  NodeMap, comes_last, from_added, from_inserted, take_in, earlier, fold_paradigms,
  direct_predecessor_of, direct_successor_of, Linking, link_successor, link_paradigm,
  link_paradigms, link_direct_pred, link_direct_succ, link_node, link_kernel,
  add_new_graph_node_internal,
}
use casita.Engine.Queries.{run_sanity_check}
use casita.Engine.Sanity.{IsSane, link-IsSane, remove_edge-IsSane, run_sanity_check-sane}

-- No successor makes a wait state with the node.
abbrev pub NoWait : Node → NodeMap → Type 0
NoWait n nexts = (p : ℕ) (succ : Node) → nexts p ≡ some succ → is_wait n succ ≡ false

no_wait_self : (w : Bool) → w && not w ≡ false
no_wait_self true = refl
no_wait_self false = refl

no_wait : (w : Bool) → w ≡ false → w && true ≡ false
no_wait w h = rw h refl

abbrev SaneLinking : Linking → Type 0
SaneLinking l = IsSane l.graph

link_successor-IsSane :
    (n pred : Node) (p : ℕ) (direct succ : Option Node) (l : Linking)
    → ((m : Node) → succ ≡ some m → is_wait n m ≡ false)
    → IsSane l.graph
    → Holds SaneLinking (link_successor n pred p direct succ l)
unfolding link_successor
link_successor-IsSane n pred p direct none l w h = h
link_successor-IsSane n pred p none (some succ) l w h = h
link_successor-IsSane n pred p (some direct) (some succ) l w h =
    elim (Option-cases (get_edge pred succ l.graph)) [
      | inl e ↦ rw (e, link_successor) tt
      | inr (old, e) ↦
          rw (e, link_successor)
            (link-IsSane n succ false (some p) (remove_edge old l.graph) (no_wait _ (w succ refl))
              (remove_edge-IsSane old l.graph h))
    ]

link_paradigm-IsSane :
    (n : Node) (preds nexts : NodeMap) (pred succ : Option Node) (i : ℕ) (l : Linking)
    → NoWait n nexts
    → IsSane l.graph
    → Holds SaneLinking (link_paradigm n preds nexts pred succ i l)
unfolding link_paradigm
link_paradigm-IsSane n preds nexts pred succ i l w h =
    elim (Bool-cases (bit_and (2 ^ i) n.paradigm == n.paradigm)) [
      | inr t ↦ rw t h
      | inl t ↦ elim (Option-cases (preds (2 ^ i))) [
        | inl e ↦ rw (t, e, link_paradigm) h
        | inr (m, e) ↦
            rw (t, e, link_paradigm)
              (link_successor-IsSane n m (2 ^ i) succ (nexts (2 ^ i)) _ (w (2 ^ i)) (
                link-IsSane m n (is_wait m n) (some (2 ^ i)) l.graph (no_wait_self (is_wait m n))
                  h))
      ]
    ]

link_paradigms-IsSane :
    (n : Node) (preds nexts : NodeMap) (pred succ : Option Node) (is : List ℕ) (l : Linking)
    → NoWait n nexts
    → IsSane l.graph
    → Holds SaneLinking (link_paradigms n preds nexts pred succ is l)
unfolding link_paradigms
link_paradigms-IsSane n preds nexts pred succ [] l w h = h
link_paradigms-IsSane n preds nexts pred succ (i ∷ is) l w h =
    Holds-bind SaneLinking SaneLinking (link_paradigm n preds nexts pred succ i l)
      (link_paradigms n preds nexts pred succ is)
      (link_paradigm-IsSane n preds nexts pred succ i l w h)
      (λ l' h'. link_paradigms-IsSane n preds nexts pred succ is l' w h')

link_direct_pred-IsSane :
    (n pred : Node) (l : Linking) → IsSane l.graph → IsSane (link_direct_pred n pred l)
unfolding link_direct_pred
link_direct_pred-IsSane n pred l h = elim (Bool-cases l.pred_linked) [
  | inl t ↦ rw t h
  | inr t ↦ rw t (
      link-IsSane pred n (is_wait pred n) (some pred.paradigm) l.graph
        (no_wait_self (is_wait pred n)) h)
]

link_direct_succ-IsSane :
    (n pred : Node) (succ : Option Node) (l : Linking) (g : Graph)
    → ((m : Node) → succ ≡ some m → is_wait n m ≡ false)
    → IsSane g
    → IsSane (link_direct_succ n pred succ l g)
unfolding link_direct_succ
link_direct_succ-IsSane n pred none l g w h = h
link_direct_succ-IsSane n pred (some succ) l g w h = elim (Bool-cases l.succ_linked) [
  | inl t ↦ rw t h
  | inr t ↦ elim (Option-cases (get_edge pred succ g)) [
    | inl e ↦
        rw (t, e, link_direct_succ)
          (link-IsSane n succ false (some succ.paradigm) g (no_wait _ (w succ refl)) h)
    | inr (old, e) ↦
        rw (t, e, link_direct_succ)
          (link-IsSane n succ false (some succ.paradigm) (remove_edge old g)
            (no_wait _ (w succ refl)) (remove_edge-IsSane old g h))
  ]
]

earlier-either : (a b : Option Node) → (earlier a b ≡ a) ⊎ (earlier a b ≡ b)
unfolding earlier
earlier-either a none = inl refl
earlier-either none (some m) = inr refl
earlier-either (some k) (some m) = elim (Bool-cases (compare_less m k)) [
  | inl t ↦ inr (rw (t, earlier) refl)
  | inr t ↦ inl (rw (t, earlier) refl)
]

-- The direct successor is one of the successors.
fold_paradigms-from :
    (n : Node) (nexts : NodeMap) (found : Option Node) (is : List ℕ)
    → NoWait n nexts
    → ((m : Node) → found ≡ some m → is_wait n m ≡ false)
    → (m : Node) → fold_paradigms earlier nexts found is ≡ some m
    → is_wait n m ≡ false
unfolding fold_paradigms
fold_paradigms-from n nexts found [] w f m e = f m e
fold_paradigms-from n nexts found (i ∷ is) w f m e =
    fold_paradigms-from n nexts (earlier found (nexts (2 ^ i))) is w
      (λ k q. elim (earlier-either found (nexts (2 ^ i))) [
        | inl a ↦ f k (sym a ∙ q)
        | inr a ↦ w (2 ^ i) k (sym a ∙ q)
      ])
      m e

direct_successor_of-NoWait :
    (n : Node) (nexts : NodeMap)
    → NoWait n nexts
    → (m : Node) → direct_successor_of nexts ≡ some m
    → is_wait n m ≡ false
unfolding direct_successor_of
direct_successor_of-NoWait n nexts w =
    fold_paradigms-from n nexts none paradigm_indices w (λ k q. absurd (cc))

link_node-IsSane :
    (n : Node) (preds nexts : NodeMap) (g : Graph)
    → NoWait n nexts
    → IsSane g
    → Holds IsSane (link_node n preds nexts g)
unfolding link_node
link_node-IsSane n preds nexts g w h = elim (Option-cases (direct_predecessor_of preds)) [
  | inl e ↦ rw (e, link_node) h
  | inr (pred, e) ↦
      let succ = direct_successor_of nexts in
      let start : Linking = record { graph = g; pred_linked = false; succ_linked = false } in
      let ends : (l : Linking)
          → SaneLinking l
          → IsSane (link_direct_succ n pred succ l (link_direct_pred n pred l)) =
        λ l k.
          link_direct_succ-IsSane n pred succ l (link_direct_pred n pred l)
            (direct_successor_of-NoWait n nexts w) (link_direct_pred-IsSane n pred l k) in
      elim (Bool-cases (n.paradigm == Paradigm.mpi)) [
        | inl t ↦
            rw (e, t, link_node)
              (Holds-bind SaneLinking IsSane
                (link_paradigms n preds nexts (some pred) succ paradigm_indices start) _
                (link_paradigms-IsSane n preds nexts (some pred) succ paradigm_indices start w h)
                ends)
        | inr t ↦ rw (e, t, link_node) (ends start h)
      ]
]

from_added-NoWait : (n : Node) (a : Added) → Holds (λ t. NoWait n t.next) (from_added a)
unfolding from_added
from_added-NoWait n (added s links pred) = λ p m e. absurd (cc)
from_added-NoWait n (thrown s pred) = tt
from_added-NoWait n fault = tt

no_wait_from : (n m : Node) → is_enter n && is_waitstate n ≡ false → is_wait n m ≡ false
unfolding is_wait
no_wait_from n m h = ground arith

from_inserted-NoWait :
    (n : Node) (links : Links) (a : Inserted)
    → is_enter n && is_waitstate n ≡ false
    → Holds (λ t. NoWait n t.next) (from_inserted links a)
unfolding from_inserted
from_inserted-NoWait n links (inserted s pred nexts) h = λ p m e. no_wait_from n m h
from_inserted-NoWait n links invalid_iterator h = tt

-- A node that comes last has no successors.
take_in-NoWait :
    (n : Node) (s : EventStream) (links : Links)
    → (comes_last n s ≡ true) ⊎ (is_enter n && is_waitstate n ≡ false)
    → Holds (λ t. NoWait n t.next) (take_in n s links)
unfolding take_in
take_in-NoWait n s links h = elim (Bool-cases (n.stream_id == s.id)) [
  | inr t ↦ rw t tt
  | inl t ↦ elim (Bool-cases (comes_last n s)) [
    | inl l ↦ rw (t, l) (from_added-NoWait n _)
    | inr l ↦ rw (t, l) (from_inserted-NoWait n links _ (ground arith))
  ]
]

close_region-graph :
    (n : Node) (stack : List Node) (e : Engine)
    → Holds (λ e'. e'.graph ≡ e.graph) (close_region n stack e)
unfolding close_region set_partners
close_region-graph n [] e = tt
close_region-graph n (m ∷ rest) e =
    elim (Bool-cases (same_record_type m.record_type n.record_type)) [
      | inl t ↦ rw (t, close_region, set_partners) tt
      | inr t ↦ rw (t, close_region, set_partners) refl
    ]

update_stack-graph : (n : Node) (e : Engine) → Holds (λ e'. e'.graph ≡ e.graph) (update_stack n e)
unfolding update_stack open_region
update_stack-graph n e = elim (Bool-cases (is_leave n)) [
  | inl t ↦ rw t (close_region-graph n (e.stacks n.stream_id) e)
  | inr t ↦ elim (Bool-cases (is_enter n)) [ inl u ↦ rw (t, u) refl | inr u ↦ rw (t, u) refl ]
]

-- If all edges of the graph pass the check, they do after a call of `addNewGraphNodeInternal` that
-- returns, and `runSanityCheck` finds nothing to throw on any streams. The new node comes last on
-- its stream, or it is not the enter of a wait state.
pub add_new_graph_node_internal-IsSane :
    (link_kernels : ℕ) (device_streams : List EventStream) (n : Node) (s : EventStream) (e : Engine)
    → IsSane e.graph
    → (comes_last n s ≡ true) ⊎ (is_enter n && is_waitstate n ≡ false)
    → Holds
        (λ r. IsSane r.1.graph × ((all : List EventStream) → run_sanity_check r.1.graph all ≡ sane))
        (add_new_graph_node_internal link_kernels device_streams n s e)
unfolding add_new_graph_node_internal
add_new_graph_node_internal-IsSane link_kernels device_streams n s e h c =
    Holds-bind (λ t. NoWait n t.next) _ (take_in n s e.links) _ (take_in-NoWait n s e.links c)
      λ t w.
        Holds-bind (λ e'. e'.graph ≡ e.graph) _ (update_stack n (record e { links = t.links })) _
          (update_stack-graph n (record e { links = t.links }))
          λ e' q.
            Holds-bind IsSane _ (link_node n t.pred t.next e'.graph) _
              (link_node-IsSane n t.pred t.next e'.graph w (subst IsSane (sym q) h))
              λ g k.
                Holds-bind (λ links. Unit {0}) _
                  (link_kernel link_kernels device_streams n (direct_predecessor_of t.pred) t.stream
                    e'.pairs e'.links)
                  _ (Holds-any _) λ links u. (k, λ all. run_sanity_check-sane g all k)
