-- ===== src/Node/OrderLaws.antt =====
-- `compare_less` orders the nodes of one stream, and all nodes that are neither offload kernels or
-- waits nor MPI exits. Beyond these it is no order.
use casita.Prelude.{
  ◌<◌, ◌≡◌, sym, ◌∙◌, ◌≢◌, Bool, true, false, ◌&&◌, ◌||◌, not, ◌==◌, ltb, if◌then◌else◌, arith,
}
use casita.Node.Paradigm
use casita.Node.Ofld
use casita.Node.Mpi
use casita.Node.Defs.{Node, is_atomic, has_paradigm, has_type}
use casita.Node.Order.{compare_less}

-- No rule of `compare_less` for kernels, waits and exits applies to the node.
pub record IsPlain (n : Node) : Type 0 where
  pub no_task :
      (has_paradigm n Paradigm.offload && (has_type n Ofld.task_kernel || has_type n Ofld.wait))
      ≡ false
  pub no_exit : (has_paradigm n Paradigm.mpi && has_type n Mpi.exit) ≡ false

-- On the nodes of one stream "before" is transitive.
pub compare_less_trans :
    (a b c : Node)
    → a.stream_id ≡ b.stream_id
    → b.stream_id ≡ c.stream_id
    → compare_less a b ≡ true
    → compare_less b c ≡ true
    → compare_less a c ≡ true
unfolding compare_less
compare_less_trans a b c s t p q = ground arith

-- Of two nodes of one stream with distinct identifiers exactly one is before the other.
pub compare_less_total :
    (a b : Node)
    → a.stream_id ≡ b.stream_id
    → a.id ≢ b.id
    → compare_less b a ≡ not (compare_less a b)
unfolding compare_less
compare_less_total a b s d = ground arith

-- No node is before itself.
pub compare_less_irrefl : (a : Node) → compare_less a a ≡ false
unfolding compare_less
compare_less_irrefl a = ground arith

pub compare_less_asymm :
    (a b : Node) → a.stream_id ≡ b.stream_id → compare_less a b ≡ true → compare_less b a ≡ false
unfolding compare_less
compare_less_asymm a b s p = ground arith

-- What is left of the order on plain nodes: the time, atomic nodes first, the paradigm, then the
-- stream downwards and the identifier upwards.
key_less : Node → Node → Bool
key_less a b =
    if not (a.time == b.time)
    then ltb a.time b.time
    else if is_atomic a && not (is_atomic b)
    then true
    else if not (is_atomic a) && is_atomic b
    then false
    else if not (a.paradigm == b.paradigm)
    then ltb a.paradigm b.paradigm
    else if a.stream_id == b.stream_id
    then ltb a.id b.id
    else ltb b.stream_id a.stream_id

compare_less-key_less : (a b : Node) → IsPlain a → IsPlain b → compare_less a b ≡ key_less a b
unfolding compare_less key_less has_paradigm
compare_less-key_less a b u v = ground arith

key_less_trans : (a b c : Node) → key_less a b ≡ true → key_less b c ≡ true → key_less a c ≡ true
unfolding key_less
key_less_trans a b c p q = ground arith

-- Across streams "before" is transitive on plain nodes.
pub compare_less_trans_plain :
    (a b c : Node)
    → IsPlain a
    → IsPlain b
    → IsPlain c
    → compare_less a b ≡ true
    → compare_less b c ≡ true
    → compare_less a c ≡ true
compare_less_trans_plain a b c u v w p q =
    compare_less-key_less a c u w
    ∙ key_less_trans a b c (sym (compare_less-key_less a b u v) ∙ p)
        (sym (compare_less-key_less b c v w) ∙ q)

-- Three offload nodes at one time, not atomic: a kernel, a wait on a higher stream, and another
-- node on a stream between.
pub record IsCycle (k w x : Node) : Type 0 where
  pub wait_time : w.time ≡ k.time
  pub other_time : x.time ≡ k.time
  pub wait_paradigm : w.paradigm ≡ k.paradigm
  pub other_paradigm : x.paradigm ≡ k.paradigm
  pub kernel_offload : has_paradigm k Paradigm.offload ≡ true
  pub no_mpi : has_paradigm k Paradigm.mpi ≡ false
  pub kernel_started : is_atomic k ≡ false
  pub wait_started : is_atomic w ≡ false
  pub other_started : is_atomic x ≡ false
  pub kernel : has_type k Ofld.task_kernel ≡ true
  pub wait : has_type w Ofld.wait ≡ true
  pub other_no_kernel : has_type x Ofld.task_kernel ≡ false
  pub other_no_wait : has_type x Ofld.wait ≡ false
  pub above : k.stream_id < x.stream_id
  pub below : x.stream_id < w.stream_id

-- On such nodes "before" runs in a circle, so it is no strict weak order.
pub compare_less_cycle :
    (k w x : Node)
    → IsCycle k w x
    → (compare_less k w ≡ true) × (compare_less w x ≡ true) × (compare_less x k ≡ true)
unfolding compare_less has_paradigm
compare_less_cycle k w x h = (ground arith, ground arith, ground arith)
