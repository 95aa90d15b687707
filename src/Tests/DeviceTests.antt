-- ===== src/Tests/DeviceTests.antt =====
-- Pending kernels and a group of two streams: src/backend/DeviceStream.cpp and
-- src/backend/EventStreamGroup.cpp.
use casita.Prelude.{ℕ, ◌≡◌, refl, true, ◌⊎◌, All, none, some, [], ◌∷◌, arith}
use casita.Stream.Defs.{
  EventStream, new_event_stream, paradigm_indices, get_last_node_of, is_device_stream,
}
use casita.Node.Flags.{has_flag}
use casita.Stream.AddLaws.{mem}
use casita.Stream.LastNode.{get_last_node_of-covers, covers, candidate}
use casita.Device.Defs.{
  pos, DeviceStream, new_device_stream, consume_pending_kernels, set_pending_kernels_sync_link,
}
use casita.Device.Pending.{
  consume_pending_kernels-pending, Synced, set_pending_kernels_sync_link-Synced,
}
use casita.StreamGroup.Defs.{
  Heap, StreamGroup, new_stream_group, add_device_stream, get_first_device_stream,
}
use casita.StreamGroup.Laws.{IsGrouped}
use casita.StreamGroup.Reached.{start, device, first_asked, added_after, Reached-IsGrouped}
use casita.Tests.Data.{send_enter, send_leave, kernel, other}

-- A device stream on which two kernels are pending.
abbrev busy : DeviceStream
busy = record (new_device_stream 9 0 "device") { pending_kernels = kernel ∷ other ∷ [] }

-- The kernel that is not the last one stays.
consume_pending_kernels-pending_example :
    (consume_pending_kernels busy (some kernel)).pending_kernels ≡ kernel ∷ other ∷ []
consume_pending_kernels-pending_example =
    consume_pending_kernels-pending busy kernel [] (other ∷ []) refl tt (λ e. omega (arith, e), tt)

set_pending_kernels_sync_link-Synced_example :
    Synced
      (kernel ∷ other ∷ [])
      7
      (λ k. none)
      6
      true
      (set_pending_kernels_sync_link busy (some 7) (λ k. none))
set_pending_kernels_sync_link-Synced_example =
    set_pending_kernels_sync_link-Synced busy 7 (λ k. none) 6
      ((λ e. omega (arith, e), tt), (tt, tt))

-- A stream with a last MPI node only.
abbrev mixed : EventStream
mixed = record (new_event_stream 0 0 "master" 3) {
  graph_data = λ i. record { first_node = some send_enter; last_node = some send_leave };
}

get_last_node_of-covers_example :
    All (λ i. covers (get_last_node_of mixed 4) (candidate mixed 4 i) ≡ true) paradigm_indices
    × ((get_last_node_of mixed 4 ≡ none)
        ⊎ ((i : ℕ) × (mem i paradigm_indices ≡ true)
            × (get_last_node_of mixed 4 ≡ candidate mixed 4 i)))
unfolding new_event_stream
get_last_node_of-covers_example = get_last_node_of-covers mixed 4 (λ i. refl)

abbrev heap : Heap
heap p = record (new_device_stream 9 0 "device") { device_id = pos 2 }

-- Two streams that are added in the order 2, 1.
abbrev two : Heap × StreamGroup
two =
    let one = add_device_stream (pos 7) heap 2 new_stream_group in
    add_device_stream (pos 7) one.0 1 one.1

abbrev reordered : StreamGroup
reordered = record two.1 { device_streams = 1 ∷ 2 ∷ []; device_first_stream_map = (pos 2, 1) ∷ [] }

first_is_lowest : get_first_device_stream (pos 2) two.1 ≡ some (1, reordered)
unfolding get_first_device_stream add_device_stream new_stream_group new_device_stream
    is_device_stream has_flag
first_is_lowest = refl

Reached-IsGrouped_example :
    IsGrouped two.0
      (added_after (add_device_stream (pos 7) heap 2 new_stream_group).0 1 (added_after heap 2 []))
      reordered
Reached-IsGrouped_example =
    let one = add_device_stream (pos 7) heap 2 new_stream_group in
    Reached-IsGrouped (pos 7) two.0 (added_after one.0 1 (added_after heap 2 [])) reordered (
      first_asked (pos 2) 1 two.0 (added_after one.0 1 (added_after heap 2 [])) two.1 reordered
        first_is_lowest
        (device 1 one.0 (added_after heap 2 []) one.1
          (device 2 heap [] new_stream_group (start heap))))
