-- ===== src/Device/Pending.antt =====
-- Which kernels stay pending: src/backend/DeviceStream.cpp.
use casita.Prelude.{
  ℕ, ◌≡◌, ◌≢◌, refl, inl, inr, Bool, true, false, Option, none, some, List, [], ◌∷◌, ◌++◌, ◌==◌,
  if◌then◌else◌, arith, get_last?, get_last?-concat, All, Pairwise, Option-cases, List-cases,
}
use casita.Node.Defs.{Node}
use casita.Device.Defs.{
  DeviceStream, add_pending_kernel, pop_back, consume_last_pending_kernel, erase_until,
  consume_pending_kernels, clear_pending_kernels, set_links, set_pending_kernels_sync_link,
}

pop_back-concat : (xs : List Node) (x : Node) → pop_back (xs ++ x ∷ []) ≡ xs
unfolding pop_back
pop_back-concat [] x = refl
pop_back-concat (y ∷ []) x = refl
pop_back-concat (y ∷ z ∷ xs) x = ground (arith, pop_back-concat (z ∷ xs) x)

-- Consuming the last pending kernel gives back the kernel that was added last, and the stream as it
-- was before.
pub consume_last_pending_kernel-add_pending_kernel :
    (s : DeviceStream) (k : Node)
    → consume_last_pending_kernel (add_pending_kernel s k) ≡ (some k, s)
unfolding consume_last_pending_kernel add_pending_kernel
consume_last_pending_kernel-add_pending_kernel s k =
    rw
      (
        add_pending_kernel,
        consume_last_pending_kernel,
        get_last?-concat s.pending_kernels k,
        pop_back-concat s.pending_kernels k,
      )
      refl

erase_until-none : (k : Node) (xs : List Node) → All (λ m. m.id ≢ k.id) xs → erase_until k xs ≡ []
unfolding erase_until
erase_until-none k [] h = refl
erase_until-none k (x ∷ xs) h = ground (arith, h.0, erase_until-none k xs h.1)

erase_until-append :
    (k : Node) (xs ys : List Node)
    → All (λ m. m.id ≢ k.id) xs
    → erase_until k (xs ++ k ∷ ys) ≡ k ∷ ys
unfolding erase_until
erase_until-append k [] ys h = ground arith
erase_until-append k (x ∷ xs) ys h = ground (arith, h.0, erase_until-append k xs ys h.1)

get_last?-All :
    (P : Node → Type 0) (x : Node) (xs : List Node)
    → P x
    → All P xs
    → (z : Node) × (get_last? (x ∷ xs) ≡ some z) × P z
get_last?-All P x [] p h = (x, refl, p)
get_last?-All P x (y ∷ xs) p h = let (z, e, q) = get_last?-All P y xs h.0 h.1 in (z, rw e refl, q)

get_last?-skip :
    (xs : List Node) (y : Node) (ys : List Node) → get_last? (xs ++ y ∷ ys) ≡ get_last? (y ∷ ys)
get_last?-skip [] y ys = refl
get_last?-skip (x ∷ xs) y ys = ground (arith, get_last?-skip xs y ys)

-- What is left pending once a kernel is consumed that has these kernels behind it.
abbrev pub left_pending : Node → List Node → List Node
left_pending k [] = []
left_pending k (y ∷ ys) = k ∷ y ∷ ys

-- Consuming the pending kernels up to one that is pending once removes those in front of it. The
-- kernel itself is removed only if it is the last one.
pub consume_pending_kernels-pending :
    (s : DeviceStream) (k : Node) (xs ys : List Node)
    → s.pending_kernels ≡ xs ++ k ∷ ys
    → All (λ m. m.id ≢ k.id) xs
    → All (λ m. m.id ≢ k.id) ys
    → (consume_pending_kernels s (some k)).pending_kernels ≡ left_pending k ys
unfolding consume_pending_kernels clear_pending_kernels erase_until
consume_pending_kernels-pending s k xs [] e h g = ground (arith, e, get_last?-concat xs k)
consume_pending_kernels-pending s k xs (y ∷ ys) e h g =
    let (z, f, d) = get_last?-All (λ m. m.id ≢ k.id) y ys g.0 g.1 in
    ground (arith, e, f, d, get_last?-skip xs k (y ∷ ys), erase_until-append k xs (y ∷ ys) h)

-- Consuming the pending kernels up to one that is not pending removes all of them.
pub consume_pending_kernels-absent :
    (s : DeviceStream) (k : Node)
    → All (λ m. m.id ≢ k.id) s.pending_kernels
    → (consume_pending_kernels s (some k)).pending_kernels ≡ []
unfolding consume_pending_kernels clear_pending_kernels erase_until
consume_pending_kernels-absent s k h = elim (List-cases s.pending_kernels) [
  | inl e ↦ ground (arith, e)
  | inr (x, rest, e) ↦
      let h' : All (λ m. m.id ≢ k.id) (x ∷ rest) = rw e at h in
      let (z, f, d) = get_last?-All (λ m. m.id ≢ k.id) x rest h'.0 h'.1 in
      ground (arith, e, f, d, erase_until-none k (x ∷ rest) h')
]

-- No kernel of the list has a link.
abbrev pub are_free : (ℕ → Option ℕ) → List Node → Bool
are_free links [] = true
are_free links (x ∷ xs) = elim (links x.id) [ some old ↦ false | none ↦ are_free links xs ]

-- A node of the list has the identifier.
abbrev pub is_pending : ℕ → List Node → Bool
is_pending k [] = false
is_pending k (x ∷ xs) = if x.id == k then true else is_pending k xs

are_free-update :
    (links : ℕ → Option ℕ) (n : ℕ) (to : Option ℕ) (xs : List Node)
    → All (λ m. n ≢ m.id) xs
    → are_free (λ k. if k == n then to else links k) xs ≡ are_free links xs
are_free-update links n to [] h = refl
are_free-update links n to (x ∷ xs) h = ground (arith, h.0, are_free-update links n to xs h.1)

-- The links after the kernels are linked: the assertion fails if one had a link before.
abbrev pub Synced : List Node → ℕ → (ℕ → Option ℕ) → ℕ → Bool → Option (ℕ → Option ℕ) → Type 0
Synced xs to links k true (some after) = after k ≡ (if is_pending k xs then some to else links k)
Synced xs to links k false none = Unit
Synced _ _ _ _ _ _ = ⊥

Synced-cons :
    (x : Node) (xs : List Node) (to : ℕ) (links : ℕ → Option ℕ) (k : ℕ) (free : Bool)
    (r : Option (ℕ → Option ℕ))
    → Synced xs to (λ j. if j == x.id then some to else links j) k free r
    → Synced (x ∷ xs) to links k free r
Synced-cons x xs to links k true (some after) h = ground arith
Synced-cons x xs to links k true none h = h
Synced-cons x xs to links k false (some after) h = h
Synced-cons x xs to links k false none h = h

set_links-Synced :
    (xs : List Node) (to : ℕ) (links : ℕ → Option ℕ) (k : ℕ)
    → Pairwise (λ x y. x.id ≢ y.id) xs
    → Synced xs to links k (are_free links xs) (set_links xs (some to) links)
unfolding set_links
set_links-Synced [] to links k h = refl
set_links-Synced (x ∷ xs) to links k h =
    let links' : ℕ → Option ℕ = λ j. if j == x.id then some to else links j in
    elim (Option-cases (links x.id)) [
      | inr (old, e) ↦
          let a : are_free links (x ∷ xs) ≡ false = ground (arith, e) in
          let b : set_links (x ∷ xs) (some to) links ≡ none = ground (arith, e) in rw (a, b) tt
      | inl e ↦
          let a : are_free links (x ∷ xs) ≡ are_free links' xs =
            ground (arith, e, are_free-update links x.id (some to) xs h.0) in
          let b : set_links (x ∷ xs) (some to) links ≡ set_links xs (some to) links' =
            ground (arith, e) in
          rw (a, b)
            (Synced-cons x xs to links k (are_free links' xs) (set_links xs (some to) links')
              (set_links-Synced xs to links' k h.1))
    ]

-- Linking the pending kernels to a synchronisation, where no kernel is pending twice, succeeds
-- exactly if none of them has a link. Then each has the link, and no other node's link changes.
pub set_pending_kernels_sync_link-Synced :
    (s : DeviceStream) (to : ℕ) (links : ℕ → Option ℕ) (k : ℕ)
    → Pairwise (λ x y. x.id ≢ y.id) s.pending_kernels
    → Synced s.pending_kernels to links k
        (are_free links s.pending_kernels)
        (set_pending_kernels_sync_link s (some to) links)
unfolding set_pending_kernels_sync_link
set_pending_kernels_sync_link-Synced s to links k h =
    set_links-Synced s.pending_kernels to links k h
