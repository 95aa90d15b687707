-- ===== src/StreamGroup/Reached.antt =====
-- The stream groups that the operations of src/backend/EventStreamGroup.cpp build.
use casita.Prelude.{
  ℕ, ◌≡◌, refl, ◌∙◌, inl, inr, false, not, ◌&&◌, Option, none, some, List, [], ◌∷◌, ◌++◌,
  if◌then◌else◌, arith, Bool-cases, Option-cases,
}
use casita.Stream.Defs.{is_device_stream}
use casita.Device.Defs.{ℤ, negsuc}
use casita.StreamGroup.Defs.{
  Heap, DeviceMap, StreamGroup, new_stream_group, same_int, find_device, put_device,
  add_host_stream, list_or_empty, set_device_null_stream, list_device, add_device_stream,
  remove_host_stream, get_stream, get_device_streams, get_device_null_stream,
  get_first_device_stream,
}
use casita.StreamGroup.FirstStream.{get_first_device_stream-IsGrouped}
use casita.StreamGroup.Laws.{
  IsGrouped, same_int_eq, find_device-put_device, add_host_stream-IsGrouped, list_device-IsGrouped,
  set_device_null_stream-IsGrouped,
}

unmark_null-IsGrouped :
    (heap : Heap) (added : List ℕ) (g : StreamGroup)
    → IsGrouped heap added g
    → IsGrouped heap added (record g { device_null_stream_only = false })
unfolding get_stream get_device_null_stream
unmark_null-IsGrouped heap added g h = record {
  same = h.same;
  devices = h.devices;
  keyed = h.keyed;
  nulls = h.nulls;
  by_device = h.by_device;
}

-- A stream of another type is refused.
abbrev pub added_after : Heap → ℕ → List ℕ → List ℕ
added_after heap p added = if is_device_stream (heap p).base then added ++ p ∷ [] else added

add_device_stream-IsGrouped :
    (null_stream : ℤ) (p : ℕ) (heap : Heap) (added : List ℕ) (g : StreamGroup)
    → IsGrouped heap added g
    → (let r = add_device_stream null_stream heap p g in
        IsGrouped r.0 (added_after heap p added) r.1)
unfolding add_device_stream set_device_null_stream
add_device_stream-IsGrouped null_stream p heap added g h =
    elim (Bool-cases (is_device_stream (heap p).base)) [
      | inr t ↦ rw t h
      | inl t ↦
          let l = list_device-IsGrouped p heap added g t h in
          elim (Bool-cases (
            not (same_int null_stream (negsuc 0))
            && same_int (heap p).native_stream_id null_stream)) [
              | inl u ↦
                  let listed_too : added_after heap p added ≡ added ++ p ∷ [] = rw t refl in
                  let a : add_device_stream null_stream heap p g
                      ≡ set_device_null_stream heap (some p) (list_device heap p g) =
                    rw (t, u) refl in
                  rw (a, listed_too)
                    (set_device_null_stream-IsGrouped (some p) heap (added ++ p ∷ [])
                      (list_device heap p g) l)
              | inr u ↦
                  rw (t, u) (unmark_null-IsGrouped heap (added ++ p ∷ []) (list_device heap p g) l)
            ]
    ]

remove_host_stream-IsGrouped :
    (p : ℕ) (heap : Heap) (added : List ℕ) (g : StreamGroup)
    → IsGrouped heap added g
    → IsGrouped heap added (remove_host_stream p g)
unfolding remove_host_stream get_stream get_device_null_stream
remove_host_stream-IsGrouped p heap added g h = record {
  same = h.same;
  devices = h.devices;
  keyed = h.keyed;
  nulls = h.nulls;
  by_device = h.by_device;
}

-- An empty list for an unknown device changes no list.
put_device-empty :
    (id k : ℤ) (map : DeviceMap (List ℕ))
    → find_device id map ≡ none
    → list_or_empty (find_device k (put_device id [] map)) ≡ list_or_empty (find_device k map)
put_device-empty id k map e = elim (Bool-cases (same_int id k)) [
  | inl t ↦ ground (arith, t, e, find_device-put_device k id [] map, same_int_eq id k t)
  | inr t ↦ ground (arith, t, find_device-put_device k id [] map)
]

get_device_streams-IsGrouped :
    (id : ℤ) (heap : Heap) (added : List ℕ) (g : StreamGroup)
    → IsGrouped heap added g
    → IsGrouped heap added (get_device_streams id g).1
unfolding get_stream get_device_null_stream get_device_streams put_device
get_device_streams-IsGrouped id heap added g h =
    elim (Option-cases (find_device id g.device_id_streams_map)) [
      | inr (ps, e) ↦ rw (e, get_device_streams) h
      | inl e ↦
          let map = put_device id [] g.device_id_streams_map in
          let a : (get_device_streams id g).1 ≡ record g { device_id_streams_map = map } =
            rw (get_device_streams, e) refl in
          rw a (record {
            same = h.same;
            devices = h.devices;
            keyed = h.keyed;
            nulls = h.nulls;
            by_device = λ k. put_device-empty id k g.device_id_streams_map e ∙ h.by_device k;
          })
    ]

-- The groups that a sequence of calls reaches, with the heap after it and the device streams that
-- were added, in the order of the calls.
pub data Reached (null_stream : ℤ) : Heap → List ℕ → StreamGroup → Type 0 where
  start : (heap : Heap) → Reached null_stream heap [] new_stream_group
  host :
      (p : ℕ) (heap : Heap) (added : List ℕ) (g : StreamGroup)
      → Reached null_stream heap added g
      → Reached null_stream heap added (add_host_stream heap p g)
  device :
      (p : ℕ) (heap : Heap) (added : List ℕ) (g : StreamGroup)
      → Reached null_stream heap added g
      → Reached null_stream
          (add_device_stream null_stream heap p g).0
          (added_after heap p added)
          (add_device_stream null_stream heap p g).1
  null_set :
      (p : Option ℕ) (heap : Heap) (added : List ℕ) (g : StreamGroup)
      → Reached null_stream heap added g
      → Reached null_stream
          (set_device_null_stream heap p g).0
          added
          (set_device_null_stream heap p g).1
  removed :
      (p : ℕ) (heap : Heap) (added : List ℕ) (g : StreamGroup)
      → Reached null_stream heap added g
      → Reached null_stream heap added (remove_host_stream p g)
  looked :
      (id : ℤ) (heap : Heap) (added : List ℕ) (g : StreamGroup)
      → Reached null_stream heap added g
      → Reached null_stream heap added (get_device_streams id g).1
  first_asked :
      (id : ℤ) (p : ℕ) (heap : Heap) (added : List ℕ) (g after : StreamGroup)
      → get_first_device_stream id g ≡ some (p, after)
      → Reached null_stream heap added g
      → Reached null_stream heap added after

new_stream_group-IsGrouped : (heap : Heap) → IsGrouped heap [] new_stream_group
unfolding new_stream_group get_stream get_device_null_stream find_device
new_stream_group-IsGrouped heap = record {
  same = λ p. refl;
  devices = tt;
  keyed = λ id p e. absurd (cc);
  nulls = λ id p e. absurd (cc);
  by_device = λ id. refl;
}

-- In every group that calls of the operations reach, the device streams are those that were added,
-- in some order, and of a device type, a stream that is found by its identifier has it, the null
-- stream of a device is marked as such, and the list of a device holds the added device streams with
-- its ID, in the order of the calls.
pub Reached-IsGrouped :
    (null_stream : ℤ) (heap : Heap) (added : List ℕ) (g : StreamGroup)
    → Reached null_stream heap added g
    → IsGrouped heap added g
Reached-IsGrouped n _ _ g (start heap) = new_stream_group-IsGrouped heap
Reached-IsGrouped n _ _ _ (host p heap added g r) =
    add_host_stream-IsGrouped p heap added g (Reached-IsGrouped n heap added g r)
Reached-IsGrouped n _ _ _ (device p heap added g r) =
    add_device_stream-IsGrouped n p heap added g (Reached-IsGrouped n heap added g r)
Reached-IsGrouped n _ _ _ (null_set p heap added g r) =
    set_device_null_stream-IsGrouped p heap added g (Reached-IsGrouped n heap added g r)
Reached-IsGrouped n _ _ _ (removed p heap added g r) =
    remove_host_stream-IsGrouped p heap added g (Reached-IsGrouped n heap added g r)
Reached-IsGrouped n _ _ _ (looked id heap added g r) =
    get_device_streams-IsGrouped id heap added g (Reached-IsGrouped n heap added g r)
Reached-IsGrouped n _ _ _ (first_asked id p heap added g after e r) =
    get_first_device_stream-IsGrouped id p heap added g after e (Reached-IsGrouped n heap added g r)
