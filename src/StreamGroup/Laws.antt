-- ===== src/StreamGroup/Laws.antt =====
-- The lists and maps of a stream group agree: src/backend/EventStreamGroup.cpp.
use mathlib.Core.List.{append-nil}
use casita.Prelude.{
  ℕ, ◌+◌, ◌≡◌, refl, sym, ap, ◌∙◌, subst, inl, inr, Bool, true, Option, none, some, List, [], ◌∷◌,
  ◌++◌, ◌==◌, if◌then◌else◌, arith, All, All-append, keep_if, keep_if-append, Bool-cases,
}
use casita.Node.Flags.{has_flag}
use casita.Stream.Defs.{is_device_stream, is_device_null_stream, set_stream_type}
use casita.Device.Defs.{ℤ, pos, negsuc}
use casita.StreamGroup.Defs.{
  Heap, DeviceMap, StreamGroup, same_int, find_device, put_device, put_stream, add_host_stream,
  make_null, set_device_null_stream, list_or_empty, list_device, get_stream, get_device_null_stream,
}

same_int_refl : (a : ℤ) → same_int a a ≡ true
unfolding same_int
same_int_refl (pos a) = ground arith
same_int_refl (negsuc a) = ground arith

pub same_int_eq : (a b : ℤ) → same_int a b ≡ true → a ≡ b
unfolding same_int
same_int_eq (pos a) (pos b) h = let e : a ≡ b = ground arith in rw e refl
same_int_eq (negsuc a) (negsuc b) h = let e : a ≡ b = ground arith in rw e refl
same_int_eq (pos a) (negsuc b) h = absurd (cc)
same_int_eq (negsuc a) (pos b) h = absurd (cc)

same_int_join : (a b c : ℤ) → same_int a c ≡ true → same_int b c ≡ true → same_int a b ≡ true
same_int_join a b c p q = rw (same_int_eq a c p, same_int_eq b c q) (same_int_refl c)

pub find_device-put_device :
    {A : Type 0} (id k : ℤ) (a : A) (map : DeviceMap A)
    → find_device id (put_device k a map) ≡ (if same_int k id then some a else find_device id map)
unfolding find_device put_device
find_device-put_device id k a [] = refl
find_device-put_device id k a ((j, b) ∷ map) = elim (Bool-cases (same_int j k)) [
  | inl t ↦ ground (arith, t, same_int_eq j k t)
  | inr t ↦ ground (arith, t, find_device-put_device id k a map, same_int_join j k id)
]

-- The streams of a device, in the order in which they were added.
abbrev pub of_device : Heap → ℤ → List ℕ → List ℕ
of_device heap id = keep_if (λ p. same_int (heap p).device_id id)

-- The list of a device in the map.
abbrev pub listed : ℤ → StreamGroup → List ℕ
listed id g = list_or_empty (find_device id g.device_id_streams_map)

-- How often a pointer is in a list.
unfoldable pub occurrences : ℕ → List ℕ → ℕ
occurrences p [] = 0
occurrences p (q ∷ qs) = (if q == p then 1 else 0) + occurrences p qs

-- The device streams are those added, in any order, and of a device type; the map by identifier and
-- the lists by device name the streams that belong there, and the null streams are marked as such.
pub record IsGrouped (heap : Heap) (added : List ℕ) (g : StreamGroup) : Type 0 where
  pub same : (p : ℕ) → occurrences p g.device_streams ≡ occurrences p added
  pub devices : All (λ p. is_device_stream (heap p).base ≡ true) g.device_streams
  pub keyed : (id p : ℕ) → get_stream g id ≡ some p → (heap p).base.id ≡ id
  pub nulls :
      (id : ℤ) (p : ℕ)
      → get_device_null_stream id g ≡ some p
      → is_device_null_stream (heap p).base ≡ true
  pub by_device : (id : ℤ) → listed id g ≡ of_device heap id added

occurrences-append :
    (p : ℕ) (qs rs : List ℕ) → occurrences p (qs ++ rs) ≡ occurrences p qs + occurrences p rs
unfolding occurrences
occurrences-append p [] rs = ground arith
occurrences-append p (q ∷ qs) rs = ground (arith, occurrences-append p qs rs)

All-map : {P Q : ℕ → Type 0} → ((n : ℕ) → P n → Q n) → (ns : List ℕ) → All P ns → All Q ns
All-map f [] h = tt
All-map f (n ∷ ns) h = (f n h.0, All-map f ns h.1)

make_null-device :
    (p q : ℕ) (heap : Heap)
    → is_device_stream (heap q).base ≡ true
    → is_device_stream (make_null p heap q).base ≡ true
unfolding make_null set_stream_type is_device_stream has_flag
make_null-device p q heap h = elim (Bool-cases (p == q)) [
  | inl t ↦ rw (t, make_null) refl
  | inr t ↦ rw (t, make_null) h
]

make_null-null :
    (p q : ℕ) (heap : Heap)
    → is_device_null_stream (heap q).base ≡ true
    → is_device_null_stream (make_null p heap q).base ≡ true
unfolding make_null set_stream_type is_device_null_stream has_flag
make_null-null p q heap h = elim (Bool-cases (p == q)) [
  | inl t ↦ rw (t, make_null) refl
  | inr t ↦ rw (t, make_null) h
]

make_null_self : (p : ℕ) (heap : Heap) → is_device_null_stream (make_null p heap p).base ≡ true
unfolding make_null set_stream_type is_device_null_stream has_flag
make_null_self p heap = let t : (p == p) ≡ true = ground arith in rw (t, make_null) refl

make_null-id : (p q : ℕ) (heap : Heap) → (make_null p heap q).base.id ≡ (heap q).base.id
unfolding make_null set_stream_type
make_null-id p q heap = ground arith

make_null-device_id : (p q : ℕ) (heap : Heap) → (make_null p heap q).device_id ≡ (heap q).device_id
unfolding make_null set_stream_type
make_null-device_id p q heap = ground arith

of_device-make_null :
    (p : ℕ) (heap : Heap) (id : ℤ) (ps : List ℕ)
    → of_device (make_null p heap) id ps ≡ of_device heap id ps
of_device-make_null p heap id [] = refl
of_device-make_null p heap id (q ∷ ps) =
    rw (make_null-device_id p q heap, of_device-make_null p heap id ps)

make_null-IsGrouped :
    (p : ℕ) (heap : Heap) (added : List ℕ) (g : StreamGroup)
    → IsGrouped heap added g
    → IsGrouped (make_null p heap) added g
make_null-IsGrouped p heap added g h = record {
  same = h.same;
  devices = All-map (λ q. make_null-device p q heap) g.device_streams h.devices;
  keyed = λ id q e. make_null-id p q heap ∙ h.keyed id q e;
  nulls = λ id q e. make_null-null p q heap (h.nulls id q e);
  by_device = λ id. h.by_device id ∙ sym (of_device-make_null p heap id added);
}

pub add_host_stream-IsGrouped :
    (p : ℕ) (heap : Heap) (added : List ℕ) (g : StreamGroup)
    → IsGrouped heap added g
    → IsGrouped heap added (add_host_stream heap p g)
unfolding add_host_stream put_stream get_stream get_device_null_stream
add_host_stream-IsGrouped p heap added g h = record {
  same = h.same;
  devices = h.devices;
  keyed = λ id q e. elim (Bool-cases ((heap p).base.id == id)) [
    | inl t ↦ ground arith
    | inr t ↦ h.keyed id q (ground arith)
  ];
  nulls = h.nulls;
  by_device = h.by_device;
}

pub list_device-IsGrouped :
    (p : ℕ) (heap : Heap) (added : List ℕ) (g : StreamGroup)
    → is_device_stream (heap p).base ≡ true
    → IsGrouped heap added g
    → IsGrouped heap (added ++ p ∷ []) (list_device heap p g)
unfolding list_device put_stream get_stream get_device_null_stream
list_device-IsGrouped p heap added g d h = record {
  same = λ q.
      occurrences-append q g.device_streams (p ∷ [])
      ∙ ap (λ z. z + occurrences q (p ∷ [])) (h.same q)
      ∙ sym (occurrences-append q added (p ∷ []));
  devices = All-append _ g.device_streams (p ∷ []) h.devices (d, tt);
  keyed = λ id q e. elim (Bool-cases ((heap p).base.id == id)) [
    | inl t ↦ ground arith
    | inr t ↦ h.keyed id q (ground arith)
  ];
  nulls = h.nulls;
  by_device = λ id.
      let d_id = (heap p).device_id in
      elim (Bool-cases (same_int d_id id)) [
        | inl t ↦ ground (
          arith,
          t,
          find_device-put_device id d_id (listed d_id g ++ p ∷ []) g.device_id_streams_map,
          keep_if-append (λ q. same_int (heap q).device_id id) added (p ∷ []),
          h.by_device id,
          same_int_eq d_id id t,
        )
        | inr t ↦ ground (
          arith,
          t,
          find_device-put_device id d_id (listed d_id g ++ p ∷ []) g.device_id_streams_map,
          keep_if-append (λ q. same_int (heap q).device_id id) added (p ∷ []),
          h.by_device id,
          append-nil (of_device heap id added),
        )
      ];
}

-- The group with a null stream of a device.
abbrev name_null : ℤ → ℕ → Bool → StreamGroup → StreamGroup
name_null id p only g = record g {
  device_null_stream_map = put_device id p g.device_null_stream_map;
  device_null_stream_only = only;
}

name_null-IsGrouped :
    (p : ℕ) (heap : Heap) (added : List ℕ) (g : StreamGroup) (only : Bool)
    → IsGrouped heap added g
    → IsGrouped (make_null p heap) added (name_null (heap p).device_id p only g)
unfolding get_device_null_stream get_stream
name_null-IsGrouped p heap added g only h =
    let m = make_null-IsGrouped p heap added g h in
    record {
      same = m.same;
      devices = m.devices;
      keyed = m.keyed;
      nulls = λ id q e. elim (Bool-cases (same_int (heap p).device_id id)) [
        | inl t ↦
            let same : p ≡ q = ground (
              arith,
              t,
              e,
              find_device-put_device id (heap p).device_id p g.device_null_stream_map,
            ) in
            subst (λ z. is_device_null_stream (make_null p heap z).base ≡ true) same
              (make_null_self p heap)
        | inr t ↦ m.nulls id q (
            ground (
              arith,
              t,
              e,
              find_device-put_device id (heap p).device_id p g.device_null_stream_map,
            ))
      ];
      by_device = m.by_device;
    }

pub set_device_null_stream-IsGrouped :
    (p : Option ℕ) (heap : Heap) (added : List ℕ) (g : StreamGroup)
    → IsGrouped heap added g
    → (let r = set_device_null_stream heap p g in IsGrouped r.0 added r.1)
unfolding set_device_null_stream
set_device_null_stream-IsGrouped none heap added g h = h
set_device_null_stream-IsGrouped (some p) heap added g h =
    elim (Bool-cases (is_device_stream (heap p).base)) [
      | inr t ↦ rw t h
      | inl t ↦ rw t (name_null-IsGrouped p heap added g _ h)
    ]
