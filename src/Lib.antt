-- ===== src/Lib.antt =====
-- SCDTR: a distributed lighting control system. Each node is an Arduino with a lamp and a light sensor;
-- nodes talk over I2C; a Raspberry Pi listens on the bus, keeps a log of every node and answers clients
-- over TCP. Requests that change something go to the master node over its serial port.
--
-- The parts and their files:
--   Board              multiple_board/main: the firmware. Constants of constants.hpp.
--   Board/Communication  communication.cpp: packets. Shared holds the variables that setup points to;
--                      send_packet, send_consensus, send_info, read_packet, read_consensus, on_receive.
--   Board/Pi           pi.cpp: the PI controller with feed-forward, dead zone and anti-windup.
--   Board/Main         main.ino: Node holds the globals; setup, updateState, calibrate, doConsensus,
--                      sendInfo, writeToLed and the timer interrupt, and receive, which gives a packet to
--                      the handler that is installed; Main/Completed has the calls of sendInfo within a
--                      consensus, Main/Line is readLine, Main/Command is processCommand, Main/Led has the
--                      step relation of a node, Main/Missed the orders that come during an exchange, and
--                      Main/Interrupted updateState with interrupts between its statements.
--   Board/Matrix, Board/Consensus  matrix.cpp and consensus.cpp: the optimisation of a round; solve takes
--                      the copies that getCopies collects as an argument, and Consensus/Exchange has
--                      getCopies and onReceive as the steps of two nodes.
--                      Consensus/Joint has solve in both nodes, over such exchanges, and Optimum/Closed
--                      the six solutions in closed form, with the best of them in Optimum/Least. The calls of onComplete in solve are
--                      in doConsensus.
--   Board/Calibration  calibration.cpp and utils.cpp: the handler of a measurement, and the gains;
--                      Calibration/Execute has execute in two nodes at once, with their lamps, on a fixed
--                      schedule, and Calibration/Interleaved has it as the steps of two nodes.
--   Single             single_board/main: the firmware of one node on its own. Single/Pi is its controller,
--                      Single/Main its loop, commands and interrupt, with the step relation in Bounds.
--   Sniffer            rpi/src/pig2i2c.cpp: pin levels to packets.
--   Server/System      rpi/src/System.cpp: the log; Figures, Period and Feed are its figures, the values
--                      of a span of time, and handleRead.
--   Server/Request     rpi/src/request.cpp: parseRequest, and streamUpdate in Update; Described says what
--                      the text of a stream is.
--   Server/Session     rpi/src/TCPSession.cpp: the buffers of a client; Session/Lifecycle has the
--                      outstanding operations as the steps of a relation.
--   Server/System/Saved  saveEntries of System.cpp: the text of the files.
--   Server/Accept      rpi/src/TCPServer.cpp: the accepts.
--   Server/Program     rpi/src/server.cpp, with start, handleRead and handleWriteSerial of System.cpp and
--                      the handlers of TCPSession.cpp: the program's life, with any number of sessions.
--   Client             rpi/src/client.cpp: the handlers and the outstanding operations of the client.
--   Demo               demos: Cli is cli.ino, Sweep is sweep.ino and sweep_utils.cpp.
--   Telemetry          sendInfo, the sniffer and handleRead, one behind the other.
--   Actuation          parseRequest, readLine, processCommand and onReceive, one behind the other.
--   Network            both nodes on one bus: Recalibrated is a reset, Solved a round in which both solve,
--                      and Reported an order from the client to the server's answers.
--   TestClient         rpi/src/test_client.cpp: the script, and a session that it is played to.
--   Text, Float, Prelude  what the program uses of the standard library.
--   Tests              the theorems at concrete inputs.
--
-- Conventions. State is passed explicitly. An access outside an array, a null pointer where the code
-- needs a text, or an exception that nothing catches is `none`. Floats are a parameter, a record of
-- operations (Float) with the few laws that a proof names (IsFloat); float and double are one type, so
-- intermediate precision is not modelled. The instance Milli shows that the laws can hold. An unsigned
-- long is a number below 2 ^ 32 on both machines, with its wrap-around written out; ids and sizes are
-- natural numbers, and the int that a command of the master is read as has 16 bits. Loops are
-- structural recursion over a count or a list; fuel is only in the 20 digits of to_string, enough below
-- 2 ^ 64, and in the loop of the sweep, which needs one turn for each duty and one to end.
--
-- Not modelled: pins, timers and registers; interrupts inside a function, but for updateState; delays;
-- packets of a calibration or an exchange that are lost, or repeated while an answer is due, but where
-- said (a round of the main loop takes its results as an argument, Outcome); sockets, threads, locks
-- and the opening of files, but for their errors at the start of the server; the arguments of the
-- programs, but for their number there; the unused table of the sweep.
pub mod Prelude
pub mod Float
pub mod Sniffer
pub mod Tests
pub mod Board
pub mod Server
pub mod Telemetry
pub mod Actuation
pub mod Text
pub mod Single
pub mod Client
pub mod Demo
pub mod Network
pub mod TestClient
