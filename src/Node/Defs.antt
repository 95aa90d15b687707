-- ===== src/Node/Defs.antt =====
-- class Node of src/backend/include/graph/Node.hpp: its fields, its accessors and its counters. A
-- pointer to a node is the identifier that the constructor drew from `globalNodeId`.
use casita.Prelude.{
  ℕ, ◌+◌, ◌%◌, String, Bool, true, false, Option, none, some, List, [], ◌∷◌, ◌==◌, if◌then◌else◌,
  bit_or,
}
use casita.Node.Flags.{RecordType, atomic, enter, leave, has_flag}

pub record Node : Type 0 where
  pub id : ℕ
  pub time : ℕ
  pub stream_id : ℕ
  pub function_id : ℕ
  pub name : String
  pub record_type : RecordType
  pub paradigm : ℕ
  pub node_type : ℕ
  pub link : Option ℕ
  pub referenced_stream : ℕ
  pub counters : List (ℕ × ℕ)

-- The constructor, with the value of `globalNodeId` before and after.
unfoldable pub new_node : ℕ → ℕ → ℕ → String → ℕ → RecordType → ℕ → Node × ℕ
new_node global_node_id time stream_id name paradigm record_type node_type = (
  record {
    id = global_node_id + 1;
    time = time;
    stream_id = stream_id;
    function_id = 0;
    name = name;
    record_type = record_type;
    paradigm = paradigm;
    node_type = node_type;
    link = none;
    referenced_stream = 0;
    counters = [];
  },
  global_node_id + 1,
)

unfoldable pub is_enter : Node → Bool
is_enter n = elim n.record_type [ enter ↦ true | _ ↦ false ]

unfoldable pub is_leave : Node → Bool
is_leave n = elim n.record_type [ leave ↦ true | _ ↦ false ]

unfoldable pub is_atomic : Node → Bool
is_atomic n = elim n.record_type [ atomic ↦ true | _ ↦ false ]

unfoldable pub has_paradigm : Node → ℕ → Bool
has_paradigm n p = has_flag n.paradigm p

unfoldable pub has_type : Node → ℕ → Bool
has_type n t = has_flag n.node_type t

unfoldable pub set_function_id : Node → ℕ → Node
set_function_id n new_id = record n { function_id = new_id }

unfoldable pub set_record_type : Node → RecordType → Node
set_record_type n type = record n { record_type = type }

unfoldable pub set_paradigm : Node → ℕ → Node
set_paradigm n p = record n { paradigm = p }

unfoldable pub add_type : Node → ℕ → Node
add_type n type = record n { node_type = bit_or n.node_type type }

unfoldable pub set_referenced_stream_id : Node → ℕ → Node
set_referenced_stream_id n stream_id = record n { referenced_stream = stream_id }

-- A second link fails the assertion, which is `none`.
unfoldable pub set_link : Node → Option ℕ → Option Node
set_link n link = elim n.link [ some old ↦ none | none ↦ some (record n { link = link }) ]

-- `std::map::operator[]`, and `find` on the map of counters.
unfoldable pub find_counter : ℕ → List (ℕ × ℕ) → Option ℕ
find_counter metric [] = none
find_counter metric ((m, v) ∷ rest) = if m == metric then some v else find_counter metric rest

unfoldable pub put_counter : ℕ → ℕ → List (ℕ × ℕ) → List (ℕ × ℕ)
put_counter metric value [] = (metric, value) ∷ []
put_counter metric value ((m, v) ∷ rest) =
    if m == metric then (m, value) ∷ rest else (m, v) ∷ put_counter metric value rest

unfoldable pub erase_counter : ℕ → List (ℕ × ℕ) → List (ℕ × ℕ)
erase_counter metric [] = []
erase_counter metric ((m, v) ∷ rest) =
    if m == metric then erase_counter metric rest else (m, v) ∷ erase_counter metric rest

unfoldable pub set_counter : Node → ℕ → ℕ → Node
unfolding put_counter
set_counter n metric value = record n { counters = put_counter metric value n.counters }

-- Counters are `uint64_t`.
abbrev pub u64 : ℕ
u64 = 0x1_0000_0000_0000_0000

unfoldable pub inc_counter : Node → ℕ → ℕ → Node
unfolding find_counter put_counter
inc_counter n metric value = elim (find_counter metric n.counters) [
  | some old ↦ record n { counters = put_counter metric ((old + value) % u64) n.counters }
  | none ↦ record n { counters = put_counter metric value n.counters }
]

-- The value, and what `*valid` is set to.
unfoldable pub get_counter : Node → ℕ → ℕ × Bool
unfolding find_counter
get_counter n metric = elim (find_counter metric n.counters) [
  | none ↦ (0, false)
  | some v ↦ (v, true)
]

unfoldable pub remove_counter : Node → ℕ → Node
unfolding erase_counter
remove_counter n metric = record n { counters = erase_counter metric n.counters }

unfoldable pub remove_counters : Node → Node
remove_counters n = record n { counters = [] }
