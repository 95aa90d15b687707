-- ===== src/Node/Flags.antt =====
-- Record types, and the test of a bit flag: src/backend/include/graph/Node.hpp. Paradigms and
-- `int nodeType` combine bit flags; a flag word is the number of its bit pattern. The flags
-- themselves are in the modules `Paradigm`, `Ofld`, `Mpi`, `Omp` and `Misc`.
use casita.Prelude.{ℕ, Bool, not, ◌==◌, bit_and}

pub data RecordType : Type 0 where
  atomic enter leave single : RecordType

-- `flags & mask` read as a Boolean.
unfoldable pub has_flag : ℕ → ℕ → Bool
has_flag flags mask = not (bit_and flags mask == 0)
