-- ===== src/Tests/InsertTests.antt =====
-- A node that is inserted between two others: src/backend/EventStream.cpp.
use casita.Prelude.{ℕ, zero, suc, ◌<◌, refl, none, List, [], ◌∷◌, arith, find_first, get_last?}
use casita.Node.Flags.{has_flag}
use casita.Node.Defs.{Node, has_paradigm}
use casita.Node.Order.{compare_less}
use casita.GraphNode.FindNode.{IsSorted}
use casita.Stream.Defs.{EventStream, new_event_stream}
use casita.Stream.Consistent.{has_bit, of_paradigm, IsConsistent}
use casita.Stream.Insert.{insert_graph_node}
use casita.Stream.InsertLaws.{Placed, IsPlace, insert_graph_node-Placed}
use casita.Tests.Data.{send_enter, send_leave, wait_enter}

abbrev ends : List Node
ends = send_enter ∷ wait_enter ∷ []

abbrev gap : EventStream
gap = record (new_event_stream 0 0 "master" 3) {
  nodes = ends;
  last_node = get_last? ends;
  graph_data = λ i. record {
    first_node = find_first (has_bit i) ends;
    last_node = get_last? (of_paradigm i ends);
  };
}

gap-IsSorted : (i : ℕ) → i < 4 → IsSorted (of_paradigm i ends)
unfolding has_paradigm has_flag compare_less
gap-IsSorted zero h = tt
gap-IsSorted (suc zero) h = tt
gap-IsSorted (suc (suc zero)) h = (((refl, refl, λ e. omega (arith, e)), tt), (tt, tt))
gap-IsSorted (suc (suc (suc zero))) h = tt
gap-IsSorted (suc (suc (suc (suc i)))) h = absurd (omega arith)

gap-IsConsistent : IsConsistent gap
unfolding new_event_stream
gap-IsConsistent = record {
  firsts = λ i h. refl;
  lasts = λ i h. refl;
  sorted = gap-IsSorted;
  last = refl;
  own = (refl, (refl, tt));
}

gap-IsPlace : IsPlace send_leave ends (send_enter ∷ []) (wait_enter ∷ [])
unfolding compare_less
gap-IsPlace = record {
  head = send_enter;
  others = [];
  next = wait_enter;
  rest = [];
  starts = refl;
  follows = refl;
  joined = refl;
  not_before = tt;
  before = refl;
}

insert_graph_node-Placed_example :
    Placed send_leave gap
      (send_enter ∷ [])
      (wait_enter ∷ [])
      2
      (insert_graph_node send_leave gap (λ k. none) (λ k. none))
insert_graph_node-Placed_example =
    insert_graph_node-Placed send_leave gap (λ k. none) (λ k. none) (send_enter ∷ [])
      (wait_enter ∷ []) 2 gap-IsConsistent (omega arith) gap-IsPlace
