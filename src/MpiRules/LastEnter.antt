-- ===== src/MpiRules/LastEnter.antt =====
-- The last enter of a collective: src/analysis/include/mpi/CollectiveRule.hpp.
use casita.Prelude.{
  ℕ, suc, ◌+◌, ◌-◌, ◌%◌, ◌≤◌, ◌<◌, ◌≡◌, refl, sym, ap, ◌∙◌, ◌⊎◌, inl, inr, some, List, [], ◌∷◌,
  ◌==◌, ltb, if◌then◌else◌, arith, get_elem?, All, All-get_elem?, Bool-cases, ltb→lt, ==_iff,
}
use casita.Node.Defs.{u64}
use casita.Engine.Defs.{sub64}
use casita.MpiRules.Collective.{
  Entry, LastEnter, later_enter, last_enter_from, last_enter, add_blames,
}

abbrev pub of_entry : Entry → LastEnter
of_entry e = record { time = e.enter_time; process_id = e.stream_id; remote_node_id = e.enter_id }

later_enter_cases :
    (acc : LastEnter) (e : Entry)
    → ((acc.time < e.enter_time) × (later_enter acc e ≡ of_entry e))
      ⊎ ((e.enter_time ≤ acc.time) × (later_enter acc e ≡ acc))
unfolding later_enter
later_enter_cases acc e = elim (Bool-cases (ltb acc.time e.enter_time)) [
  | inl t ↦ inl (ltb→lt acc.time e.enter_time t, rw (t, later_enter) refl)
  | inr t ↦ inr (ground (arith, t), rw (t, later_enter) refl)
]

later_enter-bounds :
    (acc : LastEnter) (e : Entry)
    → (acc.time ≤ (later_enter acc e).time) × (e.enter_time ≤ (later_enter acc e).time)
later_enter-bounds acc e = elim (later_enter_cases acc e) [
  | inl (h, q) ↦ rw q (omega (arith, h), omega arith)
  | inr (h, q) ↦ rw q (omega arith, h)
]

last_enter_from-grows :
    (acc : LastEnter) (es : List Entry) → acc.time ≤ (last_enter_from acc es).time
unfolding last_enter_from
last_enter_from-grows acc [] = omega arith
last_enter_from-grows acc (e ∷ es) =
    omega (arith, last_enter_from-grows (later_enter acc e) es, (later_enter-bounds acc e).0)

-- No entry is later than the result of the loop.
last_enter_from-All :
    (acc : LastEnter) (es : List Entry) → All (λ e. e.enter_time ≤ (last_enter_from acc es).time) es
unfolding last_enter_from
last_enter_from-All acc [] = tt
last_enter_from-All acc (e ∷ es) = (
  omega (arith, last_enter_from-grows (later_enter acc e) es, (later_enter-bounds acc e).1),
  last_enter_from-All (later_enter acc e) es,
)

-- The result is an entry, unless nothing was later than what the loop started with.
Found : LastEnter → List Entry → LastEnter → Type 0
Found acc es last =
    (last ≡ acc) ⊎ ((i : ℕ) × (e : Entry) × (get_elem? es i ≡ some e) × (last ≡ of_entry e))

last_enter_from-Found : (acc : LastEnter) (es : List Entry) → Found acc es (last_enter_from acc es)
unfolding last_enter_from Found
last_enter_from-Found acc [] = inl refl
last_enter_from-Found acc (e ∷ es) = elim (last_enter_from-Found (later_enter acc e) es) [
  | inl q ↦ elim (later_enter_cases acc e) [
    | inl (h, p) ↦ inr (0, e, refl, q ∙ p)
    | inr (h, p) ↦ inl (q ∙ p)
  ]
  | inr (i, f, l, q) ↦ inr (suc i, f, l, q)
]

pub last_enter-All : (es : List Entry) → All (λ e. e.enter_time ≤ (last_enter es).time) es
unfolding last_enter
last_enter-All es = last_enter_from-All _ es

-- Where some enter has a time other than 0, the last enter is one of the entries.
pub last_enter-found :
    (es : List Entry)
    → 0 < (last_enter es).time
    → (i : ℕ) × (e : Entry) × (get_elem? es i ≡ some e) × (last_enter es ≡ of_entry e)
unfolding last_enter Found
last_enter-found es h = elim (last_enter_from-Found _ es) [
  | inl q ↦
      let zero_time : (last_enter es).time ≡ 0 = ap (λ (x : LastEnter). x.time) q in
      absurd (omega (arith, zero_time, h))
  | inr found ↦ found
]

-- What a rank waits for, by its entry.
abbrev pub wait_of : LastEnter → Entry → ℕ
wait_of last e = if last.process_id == e.stream_id then 0 else last.time - e.enter_time

abbrev pub sum_waits : LastEnter → List Entry → ℕ
sum_waits last [] = 0
sum_waits last (e ∷ es) = wait_of last e + sum_waits last es

sub64-wait :
    (last : LastEnter) (e : Entry)
    → last.time < u64
    → e.enter_time ≤ last.time
    → (last.process_id ≡ e.stream_id → e.enter_time ≡ last.time)
    → sub64 last.time e.enter_time ≡ wait_of last e
unfolding sub64
sub64-wait last e h k q = elim (Bool-cases (last.process_id == e.stream_id)) [
  | inl t ↦ let own = q ((==_iff last.process_id e.stream_id).0 t) in rw t (omega (arith, h, own))
  | inr t ↦ rw t (omega (arith, h, k))
]

-- One step of the loop.
mod_step :
    (total wait rest step : ℕ)
    → step ≡ wait
    → ((total + step) % u64 + rest) % u64 ≡ (total + (wait + rest)) % u64
mod_step total wait rest step q = omega (arith, q)

add_blames-sum :
    (last : LastEnter) (total : ℕ) (es : List Entry)
    → last.time < u64
    → total < u64
    → All (λ e. e.enter_time ≤ last.time) es
    → All (λ e. last.process_id ≡ e.stream_id → e.enter_time ≡ last.time) es
    → add_blames last.time total es ≡ (total + sum_waits last es) % u64
unfolding add_blames
add_blames-sum last total [] h k p q = omega (arith, k)
add_blames-sum last total (e ∷ es) h k p q =
    add_blames-sum last ((total + sub64 last.time e.enter_time) % u64) es h (omega arith) p.1 q.1
    ∙ mod_step total (wait_of last e) (sum_waits last es) (sub64 last.time e.enter_time)
        (sub64-wait last e h p.0 q.0)

-- The ranks of a collective have one entry for each stream.
abbrev pub IsPerStream : List Entry → Type 0
IsPerStream es =
    (i j : ℕ) (a b : Entry)
    → get_elem? es i ≡ some a
    → get_elem? es j ≡ some b
    → a.stream_id ≡ b.stream_id
    → a.enter_time ≡ b.enter_time

All-at :
    (P : Entry → Type 0) (es : List Entry)
    → ((i : ℕ) (e : Entry) → get_elem? es i ≡ some e → P e)
    → All P es
All-at P [] f = tt
All-at P (e ∷ es) f = (f 0 e refl, All-at P es (λ i. f (suc i)))

-- An entry of the stream of the last enter is as late as the last enter.
last-time :
    (es : List Entry)
    → IsPerStream es
    → (j : ℕ) (b : Entry) → get_elem? es j ≡ some b
    → (last_enter es).process_id ≡ b.stream_id
    → b.enter_time ≡ (last_enter es).time
unfolding last_enter Found
last-time es u j b l h = elim (last_enter_from-Found _ es) [
  | inl q ↦
      let bound =
        All-get_elem? (λ e. e.enter_time ≤ (last_enter es).time) es j b (last_enter-All es) l in
      let zero_time : (last_enter es).time ≡ 0 = ap (λ (x : LastEnter). x.time) q in
      omega (arith, bound, zero_time)
  | inr (i, a, k, q) ↦
      let time : (last_enter es).time ≡ a.enter_time = ap (λ (x : LastEnter). x.time) q in
      let process : (last_enter es).process_id ≡ a.stream_id =
        ap (λ (x : LastEnter). x.process_id) q in
      u j i b a l k (sym h ∙ process) ∙ sym time
]

-- The blame that the last rank of a collective gets is the sum of what the ranks wait for, up to the
-- wrap-around of 64 bits, if the entries of one stream have one enter time and the last enter time is
-- below 2 ^ 64. A rank waits for the time from its enter to the last enter, unless it is the last.
pub add_blames-sum_waits :
    (es : List Entry)
    → IsPerStream es
    → (last_enter es).time < u64
    → add_blames (last_enter es).time 0 es ≡ sum_waits (last_enter es) es % u64
add_blames-sum_waits es u h = omega (
  arith,
  add_blames-sum (last_enter es) 0 es h (omega arith) (last_enter-All es) (
      All-at (λ e. (last_enter es).process_id ≡ e.stream_id → e.enter_time ≡ (last_enter es).time)
        es (last-time es u)),
)
