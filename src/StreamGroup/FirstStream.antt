-- ===== src/StreamGroup/FirstStream.antt =====
-- `EventStreamGroup::getFirstDeviceStream` of src/backend/EventStreamGroup.cpp reorders the device
-- streams and keeps what the group says of them.
use casita.Prelude.{
  ℕ, ◌≡◌, refl, subst, ◌∙◌, inl, inr, some, List, [], ◌∷◌, leb, arith, All, Bool-cases,
  Option-cases, ◌+◌, if◌then◌else◌, ◌==◌,
}
use casita.Device.Defs.{ℤ}
use casita.StreamGroup.Defs.{
  Heap, StreamGroup, insert_pointer, sort_pointers, take_front, get_first_device_stream,
  find_device, put_device, get_stream, get_device_null_stream,
}
use casita.StreamGroup.Laws.{IsGrouped, occurrences}

occurrences-insert_pointer :
    (p q : ℕ) (qs : List ℕ)
    → occurrences p (insert_pointer q qs) ≡ (if q == p then 1 else 0) + occurrences p qs
unfolding occurrences insert_pointer
occurrences-insert_pointer p q [] = ground arith
occurrences-insert_pointer p q (r ∷ qs) = elim (Bool-cases (leb q r)) [
  | inl t ↦ ground (arith, t)
  | inr t ↦ ground (arith, t, occurrences-insert_pointer p q qs)
]

occurrences-sort_pointers :
    (p : ℕ) (qs : List ℕ) → occurrences p (sort_pointers qs) ≡ occurrences p qs
unfolding occurrences sort_pointers
occurrences-sort_pointers p [] = refl
occurrences-sort_pointers p (q ∷ qs) =
    ground
      (arith, occurrences-insert_pointer p q (sort_pointers qs), occurrences-sort_pointers p qs)

module _ (P : ℕ → Type 0) where
  All-insert_pointer : (q : ℕ) (qs : List ℕ) → P q → All P qs → All P (insert_pointer q qs)
  unfolding insert_pointer
  All-insert_pointer q [] h hs = (h, tt)
  All-insert_pointer q (r ∷ qs) h hs = elim (Bool-cases (leb q r)) [
    | inl t ↦ rw t (h, hs)
    | inr t ↦ rw t (hs.0, All-insert_pointer q qs h hs.1)
  ]

  All-sort_pointers : (qs : List ℕ) → All P qs → All P (sort_pointers qs)
  unfolding sort_pointers
  All-sort_pointers [] hs = tt
  All-sort_pointers (q ∷ qs) hs =
      All-insert_pointer q (sort_pointers qs) hs.0 (All-sort_pointers qs hs.1)

reordered-IsGrouped :
    (heap : Heap) (added : List ℕ) (g : StreamGroup) (first : List (ℤ × ℕ))
    → IsGrouped heap added g
    → IsGrouped heap added (record g {
      device_streams = sort_pointers g.device_streams;
      device_first_stream_map = first;
    })
unfolding get_stream get_device_null_stream
reordered-IsGrouped heap added g first h = record {
  same = λ p. occurrences-sort_pointers p g.device_streams ∙ h.same p;
  devices = All-sort_pointers _ g.device_streams h.devices;
  keyed = h.keyed;
  nulls = h.nulls;
  by_device = h.by_device;
}

take_front-IsGrouped :
    (id : ℤ) (p : ℕ) (heap : Heap) (added ordered : List ℕ) (g after : StreamGroup)
    → sort_pointers g.device_streams ≡ ordered
    → take_front id g ordered ≡ some (p, after)
    → IsGrouped heap added g
    → IsGrouped heap added after
unfolding take_front
take_front-IsGrouped id p heap added [] g after s e h = absurd (cc)
take_front-IsGrouped id p heap added (q ∷ rest) g after s e h =
    let first = put_device id q g.device_first_stream_map in
    let moved : record g {
      device_streams = sort_pointers g.device_streams;
      device_first_stream_map = first;
    }
        ≡ after =
      rw s (ground (arith, e)) in
    subst (IsGrouped heap added) moved (reordered-IsGrouped heap added g first h)

pub get_first_device_stream-IsGrouped :
    (id : ℤ) (p : ℕ) (heap : Heap) (added : List ℕ) (g after : StreamGroup)
    → get_first_device_stream id g ≡ some (p, after)
    → IsGrouped heap added g
    → IsGrouped heap added after
unfolding get_first_device_stream
get_first_device_stream-IsGrouped id p heap added g after e h =
    elim (Option-cases (find_device id g.device_first_stream_map)) [
      | inr (q, f) ↦
          let kept : g ≡ after = ground (arith, e, f) in subst (IsGrouped heap added) kept h
      | inl f ↦
          take_front-IsGrouped id p heap added (sort_pointers g.device_streams) g after refl
            (ground (arith, e, f)) h
    ]
