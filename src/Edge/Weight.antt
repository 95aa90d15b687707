-- ===== src/Edge/Weight.antt =====
-- The weight of an edge is complementary to its duration: src/backend/include/graph/Edge.hpp.
use casita.Prelude.{◌+◌, ◌-◌, ◌<◌, ◌≡◌, ◌↔◌, true, false, ◌==◌, if◌then◌else◌, arith}
use casita.Node.Defs.{u64}
use casita.Edge.Defs.{Edge, get_weight, make_blocking, unblock, u64_max}

-- The weight of an edge of a 64-bit duration fits 64 bits, and it is the infinite one exactly if
-- the edge blocks.
pub get_weight_range :
    (e : Edge)
    → e.duration < u64
    → (get_weight e < u64) × ((get_weight e ≡ u64_max) ↔ (e.blocking ≡ true))
unfolding get_weight
get_weight_range e h = (ground arith, ((λ p. ground arith), (λ p. ground arith)))

-- Of two edges of 64-bit durations that do not block, the one with the smaller weight lasts
-- longer.
pub get_weight_order :
    (e f : Edge)
    → e.blocking ≡ false
    → f.blocking ≡ false
    → e.duration < u64
    → f.duration < u64
    → get_weight e < get_weight f
    → f.duration < e.duration
unfolding get_weight
get_weight_order e f p q a b h = ground arith

-- An edge that does not block, made blocking and unblocked again, is as it was, but one of no
-- duration gets the distance in time of its end points as its duration.
pub unblock-make_blocking :
    (e : Edge)
    → e.blocking ≡ false
    → unblock (make_blocking e) ≡ record e {
      duration =
          if e.duration == 0
          then (e.start_node.time - e.end_node.time) + (e.end_node.time - e.start_node.time)
          else e.duration;
    }
unfolding unblock make_blocking
unblock-make_blocking e p = ground arith
