-- ===== src/Node/Mpi.antt =====
-- src/backend/include/graph/Node.hpp:
-- enum NodeTypeMPI.
use casita.Prelude.{ℕ}

abbrev pub send : ℕ
send = 0x2

abbrev pub recv : ℕ
recv = 0x4

abbrev pub wait : ℕ
wait = 0x8

abbrev pub collective : ℕ
collective = 0x10

abbrev pub sendrecv : ℕ
sendrecv = 0x20

abbrev pub misc : ℕ
misc = 0x40

abbrev pub exit : ℕ
exit = 0x80

abbrev pub waitstate : ℕ
waitstate = 0x100

abbrev pub onetoall : ℕ
onetoall = 0x200

abbrev pub alltoone : ℕ
alltoone = 0x400

abbrev pub isend : ℕ
isend = 0x800

abbrev pub irecv : ℕ
irecv = 0x1000

abbrev pub waitall : ℕ
waitall = 0x2000

abbrev pub test : ℕ
test = 0x4000

abbrev pub testall : ℕ
testall = 0x8000

abbrev pub init : ℕ
init = 0x10000

abbrev pub finalize : ℕ
finalize = 0x20000

abbrev pub allranks : ℕ
allranks = 0x40000

abbrev pub blocking : ℕ
blocking = 0x80000

abbrev pub comm : ℕ
comm = 0x100000
