-- ===== src/StreamGroup/Defs.antt =====
-- class EventStreamGroup of src/backend/EventStreamGroup.cpp. A pointer is an address of the heap of
-- stream objects, since a stream's type changes while the lists hold it.
use casita.Prelude.{
  ℕ, Bool, true, false, not, ◌&&◌, Option, none, some, List, [], ◌∷◌, ◌++◌, ◌==◌, leb,
  if◌then◌else◌, length,
}
use casita.Stream.Defs.{is_device_stream, is_mpi_stream, set_stream_type, es_device_null}
use casita.Device.Defs.{ℤ, pos, negsuc, DeviceStream}

abbrev pub Heap : Type 0
Heap = ℕ → DeviceStream

-- Maps with a device ID as key.
abbrev pub DeviceMap : Type 0 → Type 0
DeviceMap A = List (ℤ × A)

pub record StreamGroup : Type 0 where
  pub streams_map : ℕ → Option ℕ
  pub host_streams : List ℕ
  pub device_streams : List ℕ
  pub all_streams : List ℕ
  pub device_null_stream_only : Bool
  pub device_null_stream_map : DeviceMap ℕ
  pub device_first_stream_map : DeviceMap ℕ
  pub device_id_streams_map : DeviceMap (List ℕ)

unfoldable pub new_stream_group : StreamGroup
new_stream_group = record {
  streams_map = λ id. none;
  host_streams = [];
  device_streams = [];
  all_streams = [];
  device_null_stream_only = false;
  device_null_stream_map = [];
  device_first_stream_map = [];
  device_id_streams_map = [];
}

unfoldable pub same_int : ℤ → ℤ → Bool
same_int (pos a) (pos b) = a == b
same_int (negsuc a) (negsuc b) = a == b
same_int _ _ = false

module _ {A : Type 0} where
  unfoldable pub find_device : ℤ → DeviceMap A → Option A
  unfolding same_int
  find_device id [] = none
  find_device id ((k, a) ∷ rest) = if same_int k id then some a else find_device id rest

  unfoldable pub put_device : ℤ → A → DeviceMap A → DeviceMap A
  unfolding same_int
  put_device id a [] = (id, a) ∷ []
  put_device id a ((k, b) ∷ rest) =
      if same_int k id then (k, a) ∷ rest else (k, b) ∷ put_device id a rest

-- `streamsMap[ p->getId() ] = p`.
unfoldable pub put_stream : Heap → ℕ → (ℕ → Option ℕ) → ℕ → Option ℕ
put_stream heap p map id = if (heap p).base.id == id then some p else map id

unfoldable pub add_host_stream : Heap → ℕ → StreamGroup → StreamGroup
unfolding put_stream
add_host_stream heap p g = record g {
  host_streams = g.host_streams ++ p ∷ [];
  all_streams = g.all_streams ++ p ∷ [];
  streams_map = put_stream heap p g.streams_map;
}

-- The write `stream->setStreamType( ES_DEVICE_NULL )`.
unfoldable pub make_null : ℕ → Heap → Heap
unfolding set_stream_type
make_null p heap q =
    if p == q
    then record (heap q) { base = set_stream_type (heap q).base es_device_null }
    else heap q

-- `none` is a NULL pointer.
unfoldable pub set_device_null_stream : Heap → Option ℕ → StreamGroup → Heap × StreamGroup
unfolding make_null put_device
set_device_null_stream heap none g = (heap, g)
set_device_null_stream heap (some p) g =
    if not (is_device_stream (heap p).base) then (heap, g) else (
      make_null p heap,
      record g {
        device_null_stream_map = put_device (heap p).device_id p g.device_null_stream_map;
        device_null_stream_only =
            if length g.device_streams == 1 then true else g.device_null_stream_only;
      },
    )

-- `operator[]` of the map of lists.
abbrev pub list_or_empty : Option (List ℕ) → List ℕ
list_or_empty none = []
list_or_empty (some ps) = ps

unfoldable pub list_device : Heap → ℕ → StreamGroup → StreamGroup
unfolding put_stream find_device put_device
list_device heap p g =
    let id = (heap p).device_id in
    record g {
      device_streams = g.device_streams ++ p ∷ [];
      all_streams = g.all_streams ++ p ∷ [];
      streams_map = put_stream heap p g.streams_map;
      device_id_streams_map =
          put_device id (list_or_empty (find_device id g.device_id_streams_map) ++ p ∷ [])
            g.device_id_streams_map;
    }

-- `null_stream` is the program option.
unfoldable pub add_device_stream : ℤ → Heap → ℕ → StreamGroup → Heap × StreamGroup
unfolding list_device set_device_null_stream same_int
add_device_stream null_stream heap p g =
    if not (is_device_stream (heap p).base)
    then (heap, g)
    else if not (same_int null_stream (negsuc 0)) && same_int (heap p).native_stream_id null_stream
    then set_device_null_stream heap (some p) (list_device heap p g)
    else (heap, record (list_device heap p g) { device_null_stream_only = false })

unfoldable pub erase_pointer : ℕ → List ℕ → List ℕ
erase_pointer p [] = []
erase_pointer p (q ∷ rest) = if q == p then rest else q ∷ erase_pointer p rest

unfoldable pub remove_host_stream : ℕ → StreamGroup → StreamGroup
unfolding erase_pointer
remove_host_stream p g = record g { host_streams = erase_pointer p g.host_streams }

unfoldable pub get_stream : StreamGroup → ℕ → Option ℕ
get_stream g id = g.streams_map id

-- The NULL pointer of an unknown stream is dereferenced.
pub data MpiLookup : Type 0 where
  mpi_stream : Option ℕ → MpiLookup
  null_dereferenced : MpiLookup

unfoldable pub get_mpi_stream : Heap → StreamGroup → ℕ → MpiLookup
unfolding get_stream
get_mpi_stream heap g id = elim (get_stream g id) [
  | none ↦ null_dereferenced
  | some p ↦ if is_mpi_stream (heap p).base then mpi_stream (some p) else mpi_stream none
]

unfoldable pub get_device_stream : Heap → StreamGroup → ℕ → Option ℕ
get_device_stream heap g id = elim (g.streams_map id) [
  | none ↦ none
  | some p ↦ if is_device_stream (heap p).base then some p else none
]

-- `getDeviceStreams( deviceId )` makes an empty entry for an unknown device.
unfoldable pub get_device_streams : ℤ → StreamGroup → List ℕ × StreamGroup
unfolding find_device put_device
get_device_streams id g = elim (find_device id g.device_id_streams_map) [
  | some ps ↦ (ps, g)
  | none ↦ ([], record g { device_id_streams_map = put_device id [] g.device_id_streams_map })
]

unfoldable pub get_num_devices : StreamGroup → ℕ
get_num_devices g = length g.device_id_streams_map

-- An unknown device has the null pointer.
unfoldable pub get_device_null_stream : ℤ → StreamGroup → Option ℕ
unfolding find_device
get_device_null_stream id g = find_device id g.device_null_stream_map

-- `std::sort` of pointers.
unfoldable pub insert_pointer : ℕ → List ℕ → List ℕ
insert_pointer p [] = p ∷ []
insert_pointer p (q ∷ rest) = if leb p q then p ∷ q ∷ rest else q ∷ insert_pointer p rest

unfoldable pub sort_pointers : List ℕ → List ℕ
unfolding insert_pointer
sort_pointers [] = []
sort_pointers (p ∷ rest) = insert_pointer p (sort_pointers rest)

-- The assignment to `deviceFirstStreamMap`, after the sort. `none` is `front()` of an empty vector.
unfoldable pub take_front : ℤ → StreamGroup → List ℕ → Option (ℕ × StreamGroup)
unfolding put_device
take_front id g [] = none
take_front id g (p ∷ rest) = some (
  p,
  record g {
    device_streams = p ∷ rest;
    device_first_stream_map = put_device id p g.device_first_stream_map;
  },
)

unfoldable pub get_first_device_stream : ℤ → StreamGroup → Option (ℕ × StreamGroup)
unfolding find_device sort_pointers take_front
get_first_device_stream id g = elim (find_device id g.device_first_stream_map) [
  | some p ↦ some (p, g)
  | none ↦ take_front id g (sort_pointers g.device_streams)
]
