-- ===== src/Statistics/Sized.antt =====
-- Accesses inside of the arrays of src/analysis/Statistics.cpp.
use casita.Prelude.{ℕ, zero, suc, ◌+◌, ◌%◌, ◌<◌, ◌≡◌, refl, ap, some, List, [], ◌∷◌, arith, length}
use mathlib.Core.Option
use casita.Node.Defs.{u64}
use casita.Statistics.Defs.{
  Statistics, stat_number, stat_activity_type_number, add_at, with_stats, with_counts,
  count_activity, add_stat_with_count,
}

unfoldable pub IsSized : Statistics → Type 0
IsSized s = (length s.stats ≡ stat_number) × (length s.activity_count ≡ stat_activity_type_number)

add_at-length :
    (i v : ℕ) (xs : List ℕ)
    → i < length xs
    → (ys : List ℕ) × (add_at i v xs ≡ some ys) × (length ys ≡ length xs)
unfolding add_at
add_at-length i v [] h = absurd (omega (arith, h))
add_at-length zero v (x ∷ xs) h = ((x + v) % u64 ∷ xs, refl, refl)
add_at-length (suc i) v (x ∷ xs) h =
    let (ys, e, l) = add_at-length i v xs (omega (arith, h)) in
    (x ∷ ys, ap (Option.map (λ (zs : List ℕ). x ∷ zs)) e, omega (arith, l))

pub count_activity-IsSized :
    (i : ℕ) (s : Statistics)
    → i < stat_activity_type_number
    → IsSized s
    → (t : Statistics) × (count_activity i s ≡ some t) × IsSized t
unfolding count_activity with_counts IsSized
count_activity-IsSized i s h (p, q) =
    let (ys, e, l) = add_at-length i 1 s.activity_count (omega (arith, h, q)) in
    (record s { activity_count = ys }, rw (e, with_counts) refl, (p, omega (arith, l, q)))

pub add_stat_with_count-IsSized :
    (i time count : ℕ) (s : Statistics)
    → suc i < stat_number
    → IsSized s
    → (t : Statistics) × (add_stat_with_count i time count s ≡ some t) × IsSized t
unfolding add_stat_with_count with_stats IsSized
add_stat_with_count-IsSized i time count s h (p, q) =
    let (ys, e, l) = add_at-length i count s.stats (omega (arith, h, p)) in
    let (zs, f, k) = add_at-length (suc i) time ys (omega (arith, h, p, l)) in
    (
      record s { stats = zs },
      rw (e, f, add_stat_with_count, with_stats) refl,
      (omega (arith, k, l, p), q),
    )
