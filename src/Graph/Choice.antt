-- ===== src/Graph/Choice.antt =====
-- The choice of a predecessor in `Graph::getCriticalPath` of src/backend/Graph.cpp, on nodes whose
-- in-edges do not go back in time.
use casita.Prelude.{
  ℕ, suc, ◌≤◌, ◌<◌, ◌≡◌, refl, ◌∙◌, ◌⊎◌, inl, inr, false, some, List, [], ◌∷◌, arith, get_elem?,
  All, Bool-cases,
}
use casita.Edge.Defs.{Edge, get_weight, is_reverse_edge, u64_max}
use casita.Graph.CriticalPath.{Choice, choose, choose_all, is_chosen}

weight-lt : (e : Edge) → e.blocking ≡ false → get_weight e < u64_max
unfolding get_weight
weight-lt e h = ground arith

-- Where the choice comes from: it is the old one, or a listed edge that does not block.
unfoldable pub Origin : Choice → List Edge → Choice → Type 0
Origin c es d =
    ((d.predecessor ≡ c.predecessor) × (d.max_weight ≡ c.max_weight))
    ⊎ ((i : ℕ) × (e : Edge) × (get_elem? es i ≡ some e)
        × (d.predecessor ≡ some e.start_node)
        × (d.max_weight ≡ get_weight e)
        × (e.blocking ≡ false))

choose_step :
    (c : Choice) (e : Edge)
    → is_reverse_edge e ≡ false
    → (((choose c e).predecessor ≡ c.predecessor)
        × ((choose c e).max_weight ≡ c.max_weight)
        × ((choose c e).loop_check ≡ c.loop_check)
        × (e.blocking ≡ false → get_weight e ≤ c.max_weight))
      ⊎ (((choose c e).predecessor ≡ some e.start_node)
          × ((choose c e).max_weight ≡ get_weight e)
          × ((choose c e).loop_check ≡ c.loop_check)
          × (e.blocking ≡ false)
          × (c.max_weight < get_weight e))
unfolding choose
choose_step c e r = elim (Bool-cases (is_chosen c.max_weight e)) [
  | inl t ↦ inr (ground arith, ground arith, ground arith, ground arith, ground arith)
  | inr t ↦ inl (ground arith, ground arith, ground arith, λ b. ground (arith, weight-lt e b))
]

pub choose_mono :
    (c : Choice) (es : List Edge)
    → All (λ e. is_reverse_edge e ≡ false) es
    → (c.max_weight ≤ (choose_all c es).max_weight) × ((choose_all c es).loop_check ≡ c.loop_check)
unfolding choose_all
choose_mono c [] h = (omega arith, refl)
choose_mono c (e ∷ es) h =
    let rest = choose_mono (choose c e) es h.1 in ground (arith, choose_step c e h.0)

-- The chosen weight bounds that of each edge that does not block.
pub choose_all-max :
    (c : Choice) (es : List Edge)
    → All (λ e. is_reverse_edge e ≡ false) es
    → All (λ e. e.blocking ≡ false → get_weight e ≤ (choose_all c es).max_weight) es
unfolding choose_all
choose_all-max c [] h = tt
choose_all-max c (e ∷ es) h =
    let up = choose_mono (choose c e) es h.1 in
    (λ b. ground (arith, choose_step c e h.0), choose_all-max (choose c e) es h.1)

pub choose_all-Origin :
    (c : Choice) (es : List Edge)
    → All (λ e. is_reverse_edge e ≡ false) es
    → Origin c es (choose_all c es)
unfolding choose_all Origin
choose_all-Origin c [] h = inl (refl, refl)
choose_all-Origin c (e ∷ es) h = elim (choose_all-Origin (choose c e) es h.1) [
  | inr (i, f, g, p, w, b) ↦ inr (suc i, f, g, p, w, b)
  | inl (p, w) ↦ elim (choose_step c e h.0) [
    | inl (p', w', _, _) ↦ inl (p ∙ p', w ∙ w')
    | inr (p', w', _, b, _) ↦ inr (0, e, refl, p ∙ p', w ∙ w', b)
  ]
]
