-- ===== src/Node/Omp.antt =====
-- src/backend/include/graph/Node.hpp:
-- enum NodeTypeOMP.
use casita.Prelude.{ℕ}

abbrev pub sync : ℕ
sync = 0x2

abbrev pub forkjoin : ℕ
forkjoin = 0x4

abbrev pub parallel : ℕ
parallel = 0x8

abbrev pub implicit_task : ℕ
implicit_task = 0x10

abbrev pub misc : ℕ
misc = 0x20

abbrev pub waitstate : ℕ
waitstate = 0x40

abbrev pub target : ℕ
target = 0x80

abbrev pub target_flush : ℕ
target_flush = 0x100
