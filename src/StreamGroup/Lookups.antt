-- ===== src/StreamGroup/Lookups.antt =====
-- What the lookups of src/backend/EventStreamGroup.cpp give after its operations.
use casita.Prelude.{
  ℕ, suc, ◌≡◌, ◌≢◌, refl, inl, inr, ◌&&◌, none, some, List, [], ◌∷◌, ◌++◌, ◌==◌, if◌then◌else◌,
  arith, All, Bool-cases, Option-cases, length,
}
use casita.Stream.Defs.{is_device_stream}
use casita.Device.Defs.{ℤ}
use casita.StreamGroup.Defs.{
  Heap, DeviceMap, StreamGroup, same_int, find_device, put_device, put_stream, add_host_stream,
  set_device_null_stream, list_device, add_device_stream, erase_pointer, remove_host_stream,
  get_stream, get_device_streams, get_num_devices,
}

-- A stream that is added as a device stream is found by its identifier if it has a device type, and
-- is refused otherwise; the other identifiers find what they found before.
pub get_stream-add_device_stream :
    (null_stream : ℤ) (heap : Heap) (p id : ℕ) (g : StreamGroup)
    → get_stream (add_device_stream null_stream heap p g).1 id ≡ (
        if is_device_stream (heap p).base && (heap p).base.id == id
        then some p
        else get_stream g id)
unfolding get_stream add_device_stream list_device set_device_null_stream put_stream
get_stream-add_device_stream null_stream heap p id g = ground arith

erase_pointer-append :
    (p : ℕ) (ps : List ℕ) → All (λ q. q ≢ p) ps → erase_pointer p (ps ++ p ∷ []) ≡ ps
unfolding erase_pointer
erase_pointer-append p [] h = ground arith
erase_pointer-append p (q ∷ ps) h = ground (arith, h.0, erase_pointer-append p ps h.1)

-- A host stream that was not in the list of host streams and is added and removed again is gone
-- from that list, which is as before, but its identifier still finds it.
pub remove_host_stream-add_host_stream :
    (heap : Heap) (p : ℕ) (g : StreamGroup)
    → All (λ q. q ≢ p) g.host_streams
    → ((remove_host_stream p (add_host_stream heap p g)).host_streams ≡ g.host_streams)
      × (get_stream (remove_host_stream p (add_host_stream heap p g)) (heap p).base.id ≡ some p)
unfolding remove_host_stream add_host_stream get_stream put_stream
remove_host_stream-add_host_stream heap p g h =
    (erase_pointer-append p g.host_streams h, ground arith)

length-put_device :
    {A : Type 0} (id : ℤ) (a : A) (map : DeviceMap A)
    → find_device id map ≡ none
    → length (put_device id a map) ≡ suc (length map)
unfolding find_device put_device
length-put_device id a [] h = refl
length-put_device id a ((k, b) ∷ map) h = elim (Bool-cases (same_int k id)) [
  | inl t ↦ absurd (ground (arith, h, t))
  | inr t ↦ ground (arith, h, t, length-put_device id a map)
]

-- Asking for the streams of a device that is not known adds it to the number of devices; asking for
-- a known device does not change the group.
pub get_num_devices-get_device_streams :
    (id : ℤ) (g : StreamGroup)
    → get_num_devices (get_device_streams id g).1 ≡ elim (find_device id g.device_id_streams_map) [
      | none ↦ suc (get_num_devices g)
      | some ps ↦ get_num_devices g
    ]
unfolding get_num_devices get_device_streams
get_num_devices-get_device_streams id g =
    elim (Option-cases (find_device id g.device_id_streams_map)) [
      | inr (ps, e) ↦ ground (arith, e)
      | inl e ↦ ground (arith, e, length-put_device id [] g.device_id_streams_map e)
    ]
