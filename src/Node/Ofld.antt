-- ===== src/Node/Ofld.antt =====
-- src/backend/include/graph/Node.hpp:
-- enum NodeTypeOFLD.
use casita.Prelude.{ℕ}

abbrev pub wait : ℕ
wait = 0x2

abbrev pub wait_queue : ℕ
wait_queue = 0x4

abbrev pub wait_all : ℕ
wait_all = 0x8

abbrev pub wait_evt : ℕ
wait_evt = 0x10

abbrev pub waitstate : ℕ
waitstate = 0x20

abbrev pub task_kernel : ℕ
task_kernel = 0x40

abbrev pub task_data : ℕ
task_data = 0x80

abbrev pub enqueue_kernel : ℕ
enqueue_kernel = 0x100

abbrev pub enqueue_data : ℕ
enqueue_data = 0x200

abbrev pub enqueue_evt : ℕ
enqueue_evt = 0x400

abbrev pub enqueue_wait : ℕ
enqueue_wait = 0x800

abbrev pub query : ℕ
query = 0x1000

abbrev pub query_evt : ℕ
query_evt = 0x2000

abbrev pub blocking_data : ℕ
blocking_data = 0x4000

abbrev pub async_data : ℕ
async_data = 0x8000
