-- ===== src/Node/Misc.antt =====
-- src/backend/include/graph/Node.hpp:
-- enum NodeTypeMisc.
use casita.Prelude.{ℕ}

abbrev pub cpu : ℕ
cpu = 0x40000000

abbrev pub process : ℕ
process = 0x80000000
