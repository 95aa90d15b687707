-- ===== src/Tests/EdgeTests.antt =====
-- Weights and blame of edges: src/backend/include/graph/Edge.hpp.
use casita.Prelude.{◌≡◌, ◌+◌, refl, [], ◌∷◌}
use casita.Edge.Blame.{get_total_blame}

total : get_total_blame (λ a b. a + b) 0 ((1, 20) ∷ (4, 2) ∷ []) ≡ 22
unfolding get_total_blame
total = refl
