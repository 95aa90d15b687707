-- ===== src/MpiStream/Maps.antt =====
-- The laws of the map of records: src/backend/include/MpiStream.hpp.
use casita.Prelude.{
  ℕ, ◌<◌, ◌≡◌, refl, subst, inl, inr, none, some, [], ◌∷◌, ◌==◌, ltb, if◌then◌else◌, arith, All,
  Pairwise, Bool-cases,
}
use casita.MpiStream.Defs.{MpiIcommRecord, RecordMap, find_record, put_record, erase_record}

-- The keys rise, and each record stands under the identifier of its request.
abbrev pub IsSorted : RecordMap → Type 0
IsSorted = Pairwise (λ x y. x.0 < y.0)

abbrev pub Keyed : RecordMap → Type 0
Keyed = All (λ x. x.1.request_id ≡ x.0)

pub find_record-put_record :
    (k j : ℕ) (r : MpiIcommRecord) (map : RecordMap)
    → find_record j (put_record k r map) ≡ (if k == j then some r else find_record j map)
unfolding find_record put_record
find_record-put_record k j r [] = refl
find_record-put_record k j r ((i, q) ∷ map) = ground (arith, find_record-put_record k j r map)

-- No key of the map is the given one.
pub find_record-above :
    (k : ℕ) (map : RecordMap) → All (λ x. k < x.0) map → find_record k map ≡ none
unfolding find_record
find_record-above k [] h = refl
find_record-above k ((i, q) ∷ map) h = ground (arith, h.0, find_record-above k map h.1)

All-above : (j k : ℕ) (map : RecordMap) → j < k → All (λ x. k < x.0) map → All (λ x. j < x.0) map
All-above j k [] h a = tt
All-above j k (x ∷ map) h a = (omega (arith, h, a.0), All-above j k map h a.1)

pub find_record-erase_record :
    (k j : ℕ) (map : RecordMap)
    → IsSorted map
    → find_record j (erase_record k map) ≡ (if k == j then none else find_record j map)
unfolding find_record erase_record
find_record-erase_record k j [] s = ground arith
find_record-erase_record k j ((i, q) ∷ map) s =
    ground (arith, find_record-erase_record k j map s.1, find_record-above i map s.0)

pub All-put_record :
    (P : ℕ × MpiIcommRecord → Type 0) (k : ℕ) (r : MpiIcommRecord) (map : RecordMap)
    → P (k, r)
    → All P map
    → All P (put_record k r map)
unfolding put_record
All-put_record P k r [] h a = (h, tt)
All-put_record P k r ((i, q) ∷ map) h a = elim (Bool-cases (i == k)) [
  | inl t ↦ rw t (h, a.1)
  | inr t ↦ elim (Bool-cases (ltb k i)) [
    | inl u ↦ rw (t, u) (h, a)
    | inr u ↦ rw (t, u) (a.0, All-put_record P k r map h a.1)
  ]
]

pub All-erase_record :
    (P : ℕ × MpiIcommRecord → Type 0) (k : ℕ) (map : RecordMap)
    → All P map
    → All P (erase_record k map)
unfolding erase_record
All-erase_record P k [] a = tt
All-erase_record P k ((i, q) ∷ map) a = elim (Bool-cases (i == k)) [
  | inl t ↦ rw t a.1
  | inr t ↦ rw t (a.0, All-erase_record P k map a.1)
]

pub put_record-IsSorted :
    (k : ℕ) (r : MpiIcommRecord) (map : RecordMap) → IsSorted map → IsSorted (put_record k r map)
unfolding put_record
put_record-IsSorted k r [] s = (tt, tt)
put_record-IsSorted k r ((i, q) ∷ map) s = elim (Bool-cases (i == k)) [
  | inl t ↦
      let same : i ≡ k = ground arith in rw t (subst (λ z. All (λ x. z < x.0) map) same s.0, s.1)
  | inr t ↦ elim (Bool-cases (ltb k i)) [
    | inl u ↦ rw (t, u) ((ground arith, All-above k i map (ground arith) s.0), s)
    | inr u ↦
        rw (t, u)
          (
            All-put_record (λ x. i < x.0) k r map (ground arith) s.0,
            put_record-IsSorted k r map s.1,
          )
  ]
]

pub erase_record-IsSorted : (k : ℕ) (map : RecordMap) → IsSorted map → IsSorted (erase_record k map)
unfolding erase_record
erase_record-IsSorted k [] s = tt
erase_record-IsSorted k ((i, q) ∷ map) s = elim (Bool-cases (i == k)) [
  | inl t ↦ rw t s.1
  | inr t ↦ rw t (All-erase_record (λ x. i < x.0) k map s.0, erase_record-IsSorted k map s.1)
]

pub put_record-Keyed :
    (k : ℕ) (r : MpiIcommRecord) (map : RecordMap)
    → r.request_id ≡ k
    → Keyed map
    → Keyed (put_record k r map)
put_record-Keyed k r map h a = All-put_record (λ x. x.1.request_id ≡ x.0) k r map h a

pub erase_record-Keyed : (k : ℕ) (map : RecordMap) → Keyed map → Keyed (erase_record k map)
erase_record-Keyed k map a = All-erase_record (λ x. x.1.request_id ≡ x.0) k map a

pub find_record-Keyed :
    (k : ℕ) (r : MpiIcommRecord) (map : RecordMap)
    → Keyed map
    → find_record k map ≡ some r
    → r.request_id ≡ k
unfolding find_record
find_record-Keyed k r [] a h = absurd (cc)
find_record-Keyed k r ((i, q) ∷ map) a h = elim (Bool-cases (i == k)) [
  | inl t ↦ ground (arith, t, h, a.0)
  | inr t ↦ find_record-Keyed k r map a.1 (ground (arith, t, h))
]
