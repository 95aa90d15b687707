-- ===== src/Statistics/Defs.antt =====
-- class Statistics of src/analysis/Statistics.cpp. The arrays are lists of their lengths; `none` is an
-- access outside of an array.
use casita.Prelude.{ℕ, zero, suc, ◌+◌, ◌%◌, Option, none, some, List, [], ◌∷◌}
use mathlib.Core.Option
use casita.Node.Defs.{u64}

-- The enumerators of `StatMetric` and `ActivityType` that give the lengths.
abbrev pub stat_number : ℕ
stat_number = 31

abbrev pub stat_activity_type_number : ℕ
stat_activity_type_number = 13

pub record Statistics : Type 0 where
  pub stats : List ℕ
  pub activity_count : List ℕ

unfoldable pub zeros : ℕ → List ℕ
zeros zero = []
zeros (suc n) = 0 ∷ zeros n

unfoldable pub new_statistics : Statistics
unfolding zeros
new_statistics = record {
  stats = zeros stat_number;
  activity_count = zeros stat_activity_type_number;
}

-- `array[i] += value` and `array[i] = value`.
unfoldable pub add_at : ℕ → ℕ → List ℕ → Option (List ℕ)
add_at i value [] = none
add_at zero value (x ∷ xs) = some ((x + value) % u64 ∷ xs)
add_at (suc i) value (x ∷ xs) = Option.map (λ (ys : List ℕ). x ∷ ys) (add_at i value xs)

unfoldable pub set_at : ℕ → ℕ → List ℕ → Option (List ℕ)
set_at i value [] = none
set_at zero value (x ∷ xs) = some (value ∷ xs)
set_at (suc i) value (x ∷ xs) = Option.map (λ (ys : List ℕ). x ∷ ys) (set_at i value xs)

unfoldable pub with_stats : Statistics → Option (List ℕ) → Option Statistics
with_stats s none = none
with_stats s (some stats) = some (record s { stats = stats })

unfoldable pub with_counts : Statistics → Option (List ℕ) → Option Statistics
with_counts s none = none
with_counts s (some counts) = some (record s { activity_count = counts })

-- The count stands before the time.
unfoldable pub add_stat_with_count : ℕ → ℕ → ℕ → Statistics → Option Statistics
unfolding add_at with_stats
add_stat_with_count stat_type time count s = elim (add_at stat_type count s.stats) [
  | none ↦ none
  | some counted ↦ with_stats s (add_at (suc stat_type) time counted)
]

unfoldable pub add_stat_value : ℕ → ℕ → Statistics → Option Statistics
unfolding add_at with_stats
add_stat_value stat_type value s = with_stats s (add_at stat_type value s.stats)

-- The loop over an array; `none` where the argument is shorter.
unfoldable pub add_arrays : List ℕ → List ℕ → Option (List ℕ)
add_arrays [] values = some []
add_arrays (x ∷ xs) [] = none
add_arrays (x ∷ xs) (v ∷ values) =
    Option.map (λ (ys : List ℕ). (x + v) % u64 ∷ ys) (add_arrays xs values)

unfoldable pub set_arrays : List ℕ → List ℕ → Option (List ℕ)
set_arrays [] values = some []
set_arrays (x ∷ xs) [] = none
set_arrays (x ∷ xs) (v ∷ values) = Option.map (λ (ys : List ℕ). v ∷ ys) (set_arrays xs values)

unfoldable pub add_all_stats : List ℕ → Statistics → Option Statistics
unfolding add_arrays with_stats
add_all_stats stats s = with_stats s (add_arrays s.stats stats)

unfoldable pub set_all_stats : List ℕ → Statistics → Option Statistics
unfolding set_arrays with_stats
set_all_stats stats s = with_stats s (set_arrays s.stats stats)

unfoldable pub get_stats : Statistics → List ℕ
get_stats s = s.stats

unfoldable pub count_activity : ℕ → Statistics → Option Statistics
unfolding add_at with_counts
count_activity activity_type s = with_counts s (add_at activity_type 1 s.activity_count)

unfoldable pub set_activity_count : ℕ → ℕ → Statistics → Option Statistics
unfolding set_at with_counts
set_activity_count activity_type count s =
    with_counts s (set_at activity_type count s.activity_count)

unfoldable pub set_activity_counts : List ℕ → Statistics → Option Statistics
unfolding set_arrays with_counts
set_activity_counts counts s = with_counts s (set_arrays s.activity_count counts)

unfoldable pub get_activity_counts : Statistics → List ℕ
get_activity_counts s = s.activity_count

unfoldable pub add_activity_counts : List ℕ → Statistics → Option Statistics
unfolding add_arrays with_counts
add_activity_counts counts s = with_counts s (add_arrays s.activity_count counts)
