-- ===== src/Node/Counters.antt =====
-- The counters of a node behave as a map: src/backend/include/graph/Node.hpp.
use casita.Prelude.{
  ℕ, ◌+◌, ◌%◌, ◌<◌, ◌≡◌, inl, inr, true, false, none, some, List, [], ◌∷◌, ◌==◌, if◌then◌else◌,
  arith, Option-cases,
}
use casita.Node.Defs.{
  Node, find_counter, put_counter, erase_counter, set_counter, inc_counter, get_counter,
  remove_counter, u64,
}

find-put :
    (k m v : ℕ) (cs : List (ℕ × ℕ))
    → find_counter k (put_counter m v cs) ≡ (if m == k then some v else find_counter k cs)
unfolding find_counter put_counter
find-put k m v [] = ground arith
find-put k m v ((j, w) ∷ cs) = ground (arith, find-put k m v cs)

find-erase :
    (k m : ℕ) (cs : List (ℕ × ℕ))
    → find_counter k (erase_counter m cs) ≡ (if m == k then none else find_counter k cs)
unfolding find_counter erase_counter
find-erase k m [] = ground arith
find-erase k m ((j, w) ∷ cs) = ground (arith, find-erase k m cs)

-- A counter that is set has the value, and the others are as before.
pub get_counter-set_counter :
    (n : Node) (m v k : ℕ)
    → get_counter (set_counter n m v) k ≡ (if m == k then (v, true) else get_counter n k)
unfolding get_counter set_counter
get_counter-set_counter n m v k = ground (arith, find-put k m v n.counters)

-- A counter that is incremented by a 64-bit number holds the sum modulo 2^64, where a missing
-- counter counts as 0, and the others are as before.
pub get_counter-inc_counter :
    (n : Node) (m v k : ℕ)
    → v < u64
    → get_counter (inc_counter n m v) k
      ≡ (if m == k then (((get_counter n m).0 + v) % u64, true) else get_counter n k)
unfolding get_counter inc_counter
get_counter-inc_counter n m v k h = elim (Option-cases (find_counter m n.counters)) [
  | inl e ↦ ground (arith, find-put k m v n.counters)
  | inr (old, e) ↦ ground (arith, find-put k m ((old + v) % u64) n.counters)
]

-- A counter that is removed is missing and reads 0, and the others are as before.
pub get_counter-remove_counter :
    (n : Node) (m k : ℕ)
    → get_counter (remove_counter n m) k ≡ (if m == k then (0, false) else get_counter n k)
unfolding get_counter remove_counter
get_counter-remove_counter n m k = ground (arith, find-erase k m n.counters)
