-- ===== src/MpiStream/Kept.antt =====
-- The table of pending requests while sends are open: src/backend/MpiStream.cpp. A send is open from
-- the record of its MPI_Isend on, up to a leave that gives the record its node.
use casita.Prelude.{
  ℕ, ◌≡◌, refl, sym, subst, ◌∙◌, ◌⊎◌, inl, inr, Bool, true, false, ◌||◌, none, some, List, [], ◌∷◌,
  ◌==◌, if◌then◌else◌, arith, All, Bool-cases,
}
use casita.MpiStream.Defs.{MpiIcommRecord, RecordMap, find_record, put_record, erase_record}
use casita.MpiStream.Handlers.{State}
use casita.MpiStream.Maps.{
  IsSorted, Keyed, find_record-above, All-put_record, All-erase_record, put_record-IsSorted,
  erase_record-IsSorted,
}
use casita.MpiStream.Tracked.{HasMsg, Tracked, All-find}

abbrev pub is_open : ℕ → List ℕ → Bool
is_open k [] = false
is_open k (j ∷ live) = j == k || is_open k live

abbrev pub close : ℕ → List ℕ → List ℕ
close k [] = []
close k (j ∷ live) = if j == k then close k live else j ∷ close k live

is_open-close :
    (j k : ℕ) (live : List ℕ)
    → is_open j (close k live) ≡ (if k == j then false else is_open j live)
is_open-close j k [] = ground arith
is_open-close j k (i ∷ live) = ground (arith, is_open-close j k live)

-- The record knows the node of its message, or its send is open.
abbrev pub Opened : List ℕ → ℕ × MpiIcommRecord → Type 0
Opened live x = HasMsg x.1 ⊎ (is_open x.0 live ≡ true)

-- The records are sorted by their keys, each stands under its own identifier, and only those of open
-- sends may lack their nodes.
pub record Kept (live : List ℕ) (map : RecordMap) : Type 0 where
  pub sorted : IsSorted map
  pub keyed : Keyed map
  pub opened : All (Opened live) map

abbrev pub IsKept : List ℕ → State → Type 0
IsKept live st = Kept live (st.0).mpi_icomm_records

All-Opened-none : (map : RecordMap) → All (Opened []) map → All (λ x. HasMsg x.1) map
All-Opened-none [] a = tt
All-Opened-none (x ∷ map) (inl h, a) = (h, All-Opened-none map a)
All-Opened-none (x ∷ map) (inr h, a) = absurd (cc)

-- Where no send is open, all records know their nodes.
pub Kept-Tracked : (map : RecordMap) → Kept [] map → Tracked map
Kept-Tracked map t = record {
  sorted = t.sorted;
  keyed = t.keyed;
  has_msg = All-Opened-none map t.opened;
}

pub nil-Kept : (live : List ℕ) → Kept live []
nil-Kept live = record { sorted = tt; keyed = tt; opened = tt }

pub put_record-Kept :
    (live : List ℕ) (k : ℕ) (r : MpiIcommRecord) (map : RecordMap)
    → r.request_id ≡ k
    → Opened live (k, r)
    → Kept live map
    → Kept live (put_record k r map)
put_record-Kept live k r map e m t = record {
  sorted = put_record-IsSorted k r map t.sorted;
  keyed = All-put_record _ k r map e t.keyed;
  opened = All-put_record (Opened live) k r map m t.opened;
}

pub erase_record-Kept :
    (live : List ℕ) (k : ℕ) (map : RecordMap) → Kept live map → Kept live (erase_record k map)
erase_record-Kept live k map t = record {
  sorted = erase_record-IsSorted k map t.sorted;
  keyed = All-erase_record _ k map t.keyed;
  opened = All-erase_record (Opened live) k map t.opened;
}

same-Opened :
    (live : List ℕ) (k : ℕ) (r q : MpiIcommRecord)
    → q.msg_node ≡ r.msg_node
    → Opened live (k, r)
    → Opened live (k, q)
same-Opened live k r q m (inl (n, f)) = inl (n, m ∙ f)
same-Opened live k r q m (inr h) = inr h

-- A record that is found and changed elsewhere than in its identifier and its node.
pub found-Kept :
    (live : List ℕ) (k : ℕ) (r q : MpiIcommRecord) (map : RecordMap)
    → Kept live map
    → find_record k map ≡ some r
    → q.request_id ≡ r.request_id
    → q.msg_node ≡ r.msg_node
    → Kept live (put_record k q map)
found-Kept live k r q map t h e m =
    put_record-Kept live k q map (e ∙ All-find _ k r map t.keyed h)
      (same-Opened live k r q m (All-find (Opened live) k r map t.opened h)) t

more-Opened :
    (live : List ℕ) (k : ℕ) (map : RecordMap) → All (Opened live) map → All (Opened (k ∷ live)) map
more-Opened live k [] a = tt
more-Opened live k (x ∷ map) (inl h, a) = (inl h, more-Opened live k map a)
more-Opened live k (x ∷ map) (inr h, a) = (inr (ground (arith, h)), more-Opened live k map a)

pub more-Kept : (live : List ℕ) (k : ℕ) (map : RecordMap) → Kept live map → Kept (k ∷ live) map
more-Kept live k map t = record {
  sorted = t.sorted;
  keyed = t.keyed;
  opened = more-Opened live k map t.opened;
}

-- A request whose record knows its node need not be open.
close-Opened :
    (live : List ℕ) (k : ℕ) (map : RecordMap)
    → IsSorted map
    → ((r : MpiIcommRecord) → find_record k map ≡ some r → HasMsg r)
    → All (Opened live) map
    → All (Opened (close k live)) map
unfolding find_record
close-Opened live k [] s h a = tt
close-Opened live k ((i, q) ∷ map) s h a = elim (Bool-cases (i == k)) [
  | inl t ↦
      let same : i ≡ k = ground arith in
      let gone : find_record k map ≡ none =
        subst (λ z. find_record z map ≡ none) same (find_record-above i map s.0) in
      (
        inl (h q (rw t refl)),
        close-Opened live k map s.1 (λ r e. absurd (let bad : none ≡ some r = sym gone ∙ e in cc))
            a.1,
      )
  | inr t ↦ (
    elim a.0 [ inl m ↦ inl m | inr o ↦ inr (ground (arith, t, o, is_open-close i k live)) ],
    close-Opened live k map s.1 (λ r e. h r (rw t e)) a.1,
  )
]

pub close-Kept :
    (live : List ℕ) (k : ℕ) (map : RecordMap)
    → ((r : MpiIcommRecord) → find_record k map ≡ some r → HasMsg r)
    → Kept live map
    → Kept (close k live) map
close-Kept live k map h t = record {
  sorted = t.sorted;
  keyed = t.keyed;
  opened = close-Opened live k map t.sorted h t.opened;
}
