-- ===== src/Device/Defs.antt =====
-- class DeviceStream of src/backend/DeviceStream.cpp. The links of all nodes are a store by
-- identifier, since a pending kernel is also a node of the stream.
use casita.Prelude.{
  ℕ, String, Option, none, some, List, [], ◌∷◌, ◌++◌, ◌==◌, if◌then◌else◌, get_last?,
}
use casita.Node.Defs.{Node}
use casita.Stream.Defs.{EventStream, new_event_stream, es_device, reset}

-- `int`.
pub data ℤ : Type 0 where
  pos negsuc : ℕ → ℤ

pub record DeviceStream : Type 0 where
  pub base : EventStream
  pub device_id : ℤ
  pub native_stream_id : ℤ
  pub running_kernel_enter : Option Node
  pub pending_kernels : List Node

unfoldable pub new_device_stream : ℕ → ℕ → String → DeviceStream
unfolding new_event_stream
new_device_stream id parent_id name = record {
  base = new_event_stream id parent_id name es_device;
  device_id = negsuc 0;
  native_stream_id = negsuc 0;
  running_kernel_enter = none;
  pending_kernels = [];
}

unfoldable pub set_device_id : DeviceStream → ℤ → DeviceStream
set_device_id s device_id = record s { device_id = device_id }

unfoldable pub set_native_stream_id : DeviceStream → ℤ → DeviceStream
set_native_stream_id s stream_id = record s { native_stream_id = stream_id }

unfoldable pub set_running_kernel : DeviceStream → Option Node → DeviceStream
set_running_kernel s kernel_enter = record s { running_kernel_enter = kernel_enter }

unfoldable pub add_pending_kernel : DeviceStream → Node → DeviceStream
add_pending_kernel s kernel_leave = record s {
  pending_kernels = s.pending_kernels ++ kernel_leave ∷ [];
}

unfoldable pub get_last_pending_kernel : DeviceStream → Option Node
get_last_pending_kernel s = get_last? s.pending_kernels

-- `pop_back`.
unfoldable pub pop_back : List Node → List Node
pop_back [] = []
pop_back (x ∷ []) = []
pop_back (x ∷ y ∷ rest) = x ∷ pop_back (y ∷ rest)

unfoldable pub consume_last_pending_kernel : DeviceStream → Option Node × DeviceStream
unfolding pop_back
consume_last_pending_kernel s = elim (get_last? s.pending_kernels) [
  | some result ↦ (some result, record s { pending_kernels = pop_back s.pending_kernels })
  | none ↦ (none, s)
]

unfoldable pub clear_pending_kernels : DeviceStream → DeviceStream
clear_pending_kernels s = record s { pending_kernels = [] }

-- What is left after `erase` from the beginning up to the kernel, which stays.
unfoldable pub erase_until : Node → List Node → List Node
erase_until kernel_leave [] = []
erase_until kernel_leave (x ∷ rest) =
    if x.id == kernel_leave.id then x ∷ rest else erase_until kernel_leave rest

unfoldable pub consume_pending_kernels : DeviceStream → Option Node → DeviceStream
unfolding erase_until clear_pending_kernels
consume_pending_kernels s none = s
consume_pending_kernels s (some kernel_leave) = elim (get_last? s.pending_kernels) [
  | none ↦ s
  | some last_kernel ↦
      let s' = if last_kernel.id == kernel_leave.id then clear_pending_kernels s else s in
      record s' { pending_kernels = erase_until kernel_leave s'.pending_kernels }
]

-- `setLink` of each pending kernel: a kernel that has a link already fails the assertion, which is
-- `none`.
unfoldable pub set_links : List Node → Option ℕ → (ℕ → Option ℕ) → Option (ℕ → Option ℕ)
set_links [] sync_leave links = some links
set_links (x ∷ rest) sync_leave links =
    let after = set_links rest sync_leave (λ k. if k == x.id then sync_leave else links k) in
    elim (links x.id) [ some old ↦ none | none ↦ after ]

unfoldable pub set_pending_kernels_sync_link :
    DeviceStream → Option ℕ → (ℕ → Option ℕ) → Option (ℕ → Option ℕ)
unfolding set_links
set_pending_kernels_sync_link s = set_links s.pending_kernels

-- Pending kernels are kept.
unfoldable pub reset_device : DeviceStream → DeviceStream
unfolding reset
reset_device s = record s { base = reset s.base }
