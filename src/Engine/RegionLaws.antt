-- ===== src/Engine/RegionLaws.antt =====
-- Nested regions leave the stacks as they were: `addNewGraphNodeInternal` of
-- src/backend/GraphEngine.cpp.
use casita.Prelude.{ℕ, ◌≡◌, refl, sym, ap, ◌∙◌, subst, true, false, some, List, ◌∷◌, ◌++◌, arith}
use casita.Node.Flags.{enter, leave}
use casita.Node.Defs.{Node}
use casita.Stream.Add.{put}
use casita.Stream.AddGraphNode.{has_member}
use casita.Engine.Defs.{Engine, ok, top, pair_of, open_region}
use casita.Engine.Regions.{
  update_stacks, update_stacks-append, open-step, close-step, plain-step, closed, Regions, nothing,
  plain, region, Paired, pair_of-PairsUp, Agree, has_member-append, Paired-Agree, Distinct,
  Distinct-left, Distinct-right, member-fresh, member-once,
}

-- What a sequence of nested regions does to the state.
pub record Closes {sid : ℕ} {ns : List Node} (d : Regions sid ns) (e e' : Engine) : Type 0 where
  pub stacks_kept : (k : ℕ) → e'.stacks k ≡ e.stacks k
  pub graph_kept : e'.graph ≡ e.graph
  pub others_kept :
      (k : ℕ) → has_member k ns ≡ false → (e'.pairs k ≡ e.pairs k) × (e'.callers k ≡ e.callers k)
  pub paired : Paired d (top (e.stacks sid)) e'

-- One region: `e2` is the state after its body, `e4` that after the nodes behind it.
module _ (sid : ℕ) (a b : Node) (body rest : List Node) (ea : a.record_type ≡ enter)
    (lb : b.record_type ≡ leave) (sa : a.stream_id ≡ sid) (sb : b.stream_id ≡ sid)
    (d : Regions sid body) (f : Regions sid rest) (e e2 e4 : Engine)
    (c2 : Closes d (open_region a e) e2) (c4 : Closes f (closed a b (e.stacks sid) e2) e4) where
  body_stack : e2.stacks b.stream_id ≡ a ∷ e.stacks sid
  unfolding open_region put
  body_stack = ground (arith, c2.stacks_kept b.stream_id)

  region-run :
      update_stacks body (open_region a e) ≡ ok e2
      → update_stacks rest (closed a b (e.stacks sid) e2) ≡ ok e4
      → update_stacks (a ∷ (body ++ (b ∷ rest))) e ≡ ok e4
  unfolding update_stacks
  region-run run2 run4 =
      rw
        (
          open-step a e ea,
          update_stacks-append body (b ∷ rest) (open_region a e),
          run2,
          close-step a b (e.stacks sid) e2 ea lb body_stack,
        )
        run4

  region-stacks : (k : ℕ) → e4.stacks k ≡ e.stacks k
  unfolding open_region put
  region-stacks k = ground (arith, c4.stacks_kept k, c2.stacks_kept k)

  region-graph : e4.graph ≡ e.graph
  unfolding open_region
  region-graph = c4.graph_kept ∙ c2.graph_kept

  region-others :
      (k : ℕ)
      → has_member k (a ∷ (body ++ (b ∷ rest))) ≡ false
      → (e4.pairs k ≡ e.pairs k) × (e4.callers k ≡ e.callers k)
  unfolding open_region put
  region-others k m =
      let split = has_member-append k body (b ∷ rest) in
      let in_rest = c4.others_kept k (ground arith) in
      let in_body = c2.others_kept k (ground arith) in
      (ground (arith, split), ground (arith, split))

  module _ (distinct : Distinct (a ∷ (body ++ (b ∷ rest)))) where
    fresh_a : has_member a.id (body ++ (b ∷ rest)) ≡ false
    fresh_a = member-fresh a (body ++ (b ∷ rest)) distinct.0

    fresh_b : has_member b.id rest ≡ false
    fresh_b = member-fresh b rest (Distinct-right body (b ∷ rest) distinct.1).0

    after_body : (k : ℕ) → has_member k body ≡ true → Agree e2 e4 k
    unfolding put
    after_body k m =
        let split = has_member-append k body (b ∷ rest) in
        let once = member-once k body (b ∷ rest) distinct.1 m in
        let kept = c4.others_kept k (ground arith) in
        (ground (arith, split, fresh_a, once), ground (arith, split, fresh_a, once))

    after_a : (e4.pairs a.id ≡ pair_of a b) × (e4.callers a.id ≡ top (e.stacks sid))
    unfolding put open_region
    after_a =
        let split = has_member-append a.id body (b ∷ rest) in
        let in_body = c2.others_kept a.id (ground (arith, fresh_a)) in
        let kept = c4.others_kept a.id (ground (arith, fresh_a)) in
        (ground (arith, split, fresh_a), ground (arith, split, fresh_a))

    after_b : (e4.pairs b.id ≡ pair_of b a) × (e4.callers b.id ≡ top (e.stacks sid))
    unfolding put
    after_b =
        let split = has_member-append b.id body (b ∷ rest) in
        let kept = c4.others_kept b.id fresh_b in
        (ground (arith, split, fresh_a), ground (arith, split, fresh_a))

    outer_stack : top ((closed a b (e.stacks sid) e2).stacks sid) ≡ top (e.stacks sid)
    unfolding put
    outer_stack = ap top (ground (arith, sb))

    inner_stack : top ((open_region a e).stacks sid) ≡ some a
    unfolding put open_region
    inner_stack =
        let open_first : (open_region a e).stacks sid ≡ a ∷ e.stacks a.stream_id =
          ground (arith, sa) in
        ap top open_first

    region-Paired :
        {ns : List Node} (q : ns ≡ a ∷ (body ++ (b ∷ rest)))
        → Paired (region a b body rest ea lb sa sb d f q) (top (e.stacks sid)) e4
    unfolding Paired
    region-Paired q = (
      pair_of-PairsUp a b (e4.pairs a.id) (e4.pairs b.id) after_a.0 after_b.0,
      after_a.1,
      after_b.1,
      Paired-Agree d (some a) e2 e4 after_body (subst (λ t. Paired d t e2) inner_stack c2.paired),
      subst (λ t. Paired f t e4) outer_stack c4.paired,
    )

-- The nodes of properly nested regions of one stream, all with other identifiers, go in without a
-- failure. The stacks and the edges are as before; the pairs and callers of other nodes too. An
-- enter and its leave both have the pair of the enter and the leave, in this order if the enter is
-- earlier and in the other one if it is later; if their times are equal, each has the pair of the
-- other and itself. The caller of both is the enter of the region around, or the top of the stack as
-- it was before.
pub update_stacks-Closes :
    (sid : ℕ) (ns : List Node) (d : Regions sid ns) (e : Engine)
    → Distinct ns
    → (e' : Engine) × (update_stacks ns e ≡ ok e') × Closes d e e'
unfolding update_stacks Paired
update_stacks-Closes sid ns nothing e h = (
  e,
  refl,
  record {
    stacks_kept = λ k. refl;
    graph_kept = refl;
    others_kept = λ k m. (refl, refl);
    paired = tt;
  },
)
update_stacks-Closes sid _ (plain n ns p q d) e h =
    let (e', run, c) = update_stacks-Closes sid ns d e h.1 in
    (
      e',
      rw (plain-step n e p q, update_stacks) run,
      record {
        stacks_kept = c.stacks_kept;
        graph_kept = c.graph_kept;
        others_kept = λ k m. c.others_kept k (ground arith);
        paired = c.paired;
      },
    )
update_stacks-Closes sid ns (region a b body rest ea lb sa sb d f q) e h =
    let h' : Distinct (a ∷ (body ++ (b ∷ rest))) = subst Distinct q h in
    let e1 = open_region a e in
    let (e2, run2, c2) = update_stacks-Closes sid body d e1 (Distinct-left body (b ∷ rest) h'.1) in
    let e3 = closed a b (e.stacks sid) e2 in
    let (e4, run4, c4) =
      update_stacks-Closes sid rest f e3 (Distinct-right body (b ∷ rest) h'.1).1 in
    (
      e4,
      subst (λ l. update_stacks l e ≡ ok e4) (sym q)
          (region-run sid a b body rest ea lb sa sb d f e e2 e4 c2 c4 run2 run4),
      record {
        stacks_kept = region-stacks sid a b body rest ea lb sa sb d f e e2 e4 c2 c4;
        graph_kept = region-graph sid a b body rest ea lb sa sb d f e e2 e4 c2 c4;
        others_kept = λ k m.
            region-others sid a b body rest ea lb sa sb d f e e2 e4 c2 c4 k
              (ap (has_member k) (sym q) ∙ m);
        paired = region-Paired sid a b body rest ea lb sa sb d f e e2 e4 c2 c4 h' q;
      },
    )
