-- ===== src/Prelude/Lists.antt =====
-- Lists measured and indexed by native numbers, under the library's names, and lookup by position
-- from the end of a vector.
use Prim.Native.Nat.{ℕ, zero, suc, ◌+◌, ◌<◌}
use mathlib.Core.Path.{◌≡◌, refl, subst}
use mathlib.Core.Logic.{◌⊎◌, inl, inr}
use mathlib.Core.Bool.{Bool, true, false}
use mathlib.Core.List.{List, [], ◌∷◌, ◌++◌}
use mathlib.Core.Option.{Option, none, some}
use native.Mathlib.Omega.{arith}
use casita.Prelude.Tests.{if◌then◌else◌, Bool-cases}

module _ {ℓ} {A : Type ℓ} where
  abbrev pub length : List A → ℕ
  length [] = 0
  length (x ∷ xs) = suc (length xs)

  abbrev pub get_elem? : List A → ℕ → Option A
  get_elem? [] i = none
  get_elem? (x ∷ xs) zero = some x
  get_elem? (x ∷ xs) (suc i) = get_elem? xs i

  pub length-append : (xs ys : List A) → length (xs ++ ys) ≡ length xs + length ys
  length-append [] ys = omega arith
  length-append (x ∷ xs) ys = omega (arith, length-append xs ys)

  pub get_elem?-lt : (xs : List A) (i : ℕ) → i < length xs → (a : A) × (get_elem? xs i ≡ some a)
  get_elem?-lt [] i h = elim h [ ]
  get_elem?-lt (x ∷ xs) zero h = (x, refl)
  get_elem?-lt (x ∷ xs) (suc i) h = get_elem?-lt xs i (omega arith)

  pub lt-length_of_get_elem? :
      (xs : List A) (i : ℕ) (a : A) → get_elem? xs i ≡ some a → i < length xs
  lt-length_of_get_elem? [] i a h = cc
  lt-length_of_get_elem? (x ∷ xs) zero a h = omega arith
  lt-length_of_get_elem? (x ∷ xs) (suc i) a h = omega (arith, lt-length_of_get_elem? xs i a h)

  -- `std::vector::back` of a vector that may be empty.
  abbrev pub get_last? : List A → Option A
  get_last? [] = none
  get_last? (x ∷ xs) = elim (get_last? xs) [ none ↦ some x | some y ↦ some y ]

  pub get_last?-concat : (xs : List A) (a : A) → get_last? (xs ++ a ∷ []) ≡ some a
  get_last?-concat [] a = refl
  get_last?-concat (x ∷ xs) a = rw (get_last?-concat xs a)

  -- The items that pass a test.
  abbrev pub keep_if : (A → Bool) → List A → List A
  keep_if p [] = []
  keep_if p (x ∷ xs) = if p x then x ∷ keep_if p xs else keep_if p xs

  pub keep_if-append :
      (p : A → Bool) (xs ys : List A) → keep_if p (xs ++ ys) ≡ keep_if p xs ++ keep_if p ys
  keep_if-append p [] ys = refl
  keep_if-append p (x ∷ xs) ys = ground (arith, keep_if-append p xs ys)

  pub List-cases : (xs : List A) → (xs ≡ []) ⊎ ((x : A) × (rest : List A) × (xs ≡ x ∷ rest))
  List-cases [] = inl refl
  List-cases (x ∷ xs) = inr (x, xs, refl)

  -- Every item, and every two items in their order.
  abbrev pub All {κ} : (A → Type κ) → List A → Type κ
  All P [] = Unit
  All P (x ∷ xs) = P x × All P xs

  abbrev pub Pairwise {κ} : (A → A → Type κ) → List A → Type κ
  Pairwise R [] = Unit
  Pairwise R (x ∷ xs) = All (R x) xs × Pairwise R xs

  pub All-get_elem? {κ} :
      (P : A → Type κ) (xs : List A) (i : ℕ) (a : A) → All P xs → get_elem? xs i ≡ some a → P a
  All-get_elem? P [] i a h e = absurd (cc)
  All-get_elem? P (x ∷ xs) zero a h e = let q : x ≡ a = cc in subst P q h.0
  All-get_elem? P (x ∷ xs) (suc i) a h e = All-get_elem? P xs i a h.1 e

  pub Pairwise-get_elem? {κ} :
      (R : A → A → Type κ) (xs : List A) (i j : ℕ) (a b : A)
      → Pairwise R xs
      → i < j
      → get_elem? xs i ≡ some a
      → get_elem? xs j ≡ some b
      → R a b
  Pairwise-get_elem? R [] i j a b h p e f = absurd (cc)
  Pairwise-get_elem? R (x ∷ xs) i zero a b h p e f = absurd (omega arith)
  Pairwise-get_elem? R (x ∷ xs) zero (suc j) a b h p e f =
      let q : x ≡ a = cc in subst (λ z. R z b) q (All-get_elem? (R x) xs j b h.0 f)
  Pairwise-get_elem? R (x ∷ xs) (suc i) (suc j) a b h p e f =
      Pairwise-get_elem? R xs i j a b h.1 (omega arith) e f

  pub All-append {κ} : (P : A → Type κ) (xs ys : List A) → All P xs → All P ys → All P (xs ++ ys)
  All-append P [] ys h k = k
  All-append P (x ∷ xs) ys h k = (h.0, All-append P xs ys h.1 k)

  -- The first item that passes a test, by linear search.
  abbrev pub find_first : (A → Bool) → List A → Option A
  find_first p [] = none
  find_first p (x ∷ xs) = if p x then some x else find_first p xs

  pub find_first-none :
      (p : A → Bool) (xs : List A)
      → find_first p xs ≡ none
      → (i : ℕ) (a : A) → get_elem? xs i ≡ some a
      → p a ≡ false
  find_first-none p [] h i a e = cc
  find_first-none p (x ∷ xs) h zero a e = ground arith
  find_first-none p (x ∷ xs) h (suc i) a e = find_first-none p xs (ground arith) i a e

  pub find_first-some :
      (p : A → Bool) (xs : List A) (a : A)
      → find_first p xs ≡ some a
      → (i : ℕ) × (get_elem? xs i ≡ some a) × (p a ≡ true)
  find_first-some p [] a h = absurd (cc)
  find_first-some p (x ∷ xs) a h = elim (Bool-cases (p x)) [
    | inl e ↦ (0, ground arith, ground arith)
    | inr e ↦ let (i, f, g) = find_first-some p xs a (ground arith) in (suc i, f, g)
  ]
