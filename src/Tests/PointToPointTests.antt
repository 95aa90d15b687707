-- ===== src/Tests/PointToPointTests.antt =====
-- A send that a receive overlaps: src/analysis/include/mpi/SendRule.hpp and RecvRule.hpp there.
use casita.Prelude.{arith}
use casita.Node.Mpi
use casita.MpiRules.PointToPoint.{Message, message_of, send_verdict, recv_verdict}
use casita.MpiRules.Agreement.{Agreed, verdicts_agree}
use casita.Tests.Data.{make_node}
use casita.Node.Paradigm
use casita.Node.Flags.{enter, leave}

abbrev sent : Message
sent =
    message_of Mpi.send (make_node 1 10 0 enter Paradigm.mpi Mpi.send)
      (make_node 2 30 0 leave Paradigm.mpi Mpi.send)

abbrev received : Message
received =
    message_of Mpi.recv (make_node 3 20 1 enter Paradigm.mpi Mpi.recv)
      (make_node 4 40 1 leave Paradigm.mpi Mpi.recv)

verdicts_agree_example :
    Agreed sent received (send_verdict sent received) (recv_verdict received sent)
unfolding message_of
verdicts_agree_example =
    verdicts_agree sent received (omega arith) (omega arith) (omega arith) (omega arith)
