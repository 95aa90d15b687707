-- ===== src/Node/Paradigm.antt =====
-- src/backend/include/graph/Node.hpp:
-- enum Paradigm. `cpu` follows `omp_target` with no value of its own, so it is 33.
use casita.Prelude.{ℕ, ◌+◌}

abbrev pub cuda : ℕ
cuda = 0x1

abbrev pub ocl : ℕ
ocl = 0x2

abbrev pub mpi : ℕ
mpi = 0x4

abbrev pub omp : ℕ
omp = 0x8

abbrev pub ompt : ℕ
ompt = 0x10

abbrev pub omp_target : ℕ
omp_target = 0x20

abbrev pub cpu : ℕ
cpu = omp_target + 1

abbrev pub offload : ℕ
offload = 0x3

abbrev pub compute_local : ℕ
compute_local = 0x1b

abbrev pub all : ℕ
all = 0x3f
