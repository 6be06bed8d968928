-- ===== src/Lib.antt =====
-- PowerBoot, an SFTP client for Classic Mac OS, with PowerNet, its sockets over Open Transport.
--
-- The parts and their files:
-- Prelude: what the other modules share: names of the libraries, Boolean tests, lists over the
--   native naturals, bits, and text as a list of bytes.
-- Inet: PowerNet/src/arpa. `prefix`, `digit`, `scan`, `separator`, `part`, `parts` and `join`
--   are the pieces of `inet_addr`; `htonl` and its like are those of inet.cpp. Inet/Scan,
--   Inet/Fields, Inet/Decimal and Inet/Address hold the proofs.
-- Errors: `__throw_os_err` of PowerNet/src/socket/internal.cpp, with the codes by group in
--   Errors/Xti, Errors/Unix, Errors/Net and Errors/Port. Proofs in Errors/Report.
-- World: the state that all threads share: the table of sockets with the fields of `class
--   Socket` (World/Sockets), the fields of `class SFTP` (World/Session), and the calls of
--   foreign code with their replies (World/Calls).
-- Effects: code as a function of the shared state, which ends with a value, by an exception,
--   with its thread disposed of, in a loop that outlasts its fuel, or in undefined behaviour.
--   Effects/Keeps has the rules of rely and guarantee, in Keeps/Rules and Keeps/Calls, and
--   Effects/Steps has the equations of single steps; Effects/Waiting is about the loops that
--   yield.
-- Transfer: the data and the abstract classes of src/transfer/transfer.hpp, a class as the
--   record of its methods.
-- Net: `socket`, `connect`, `recv`, `send` and `select` of PowerNet/src/socket, with Net/FdSets
--   for the macros over `fd_set`, Net/Connect for `connect_thread` and Net/Notifier for
--   `notifier`. Proofs in Net/FdSets/Members, Net/Table, Net/Open, Net/Transfer, Net/Buffered,
--   Net/Invariant, Net/Dialing, Net/Events and Net/Waiting.
-- Sftp: `error_throw`, `SFTP::wait` and RC_ERR_HANDLE of src/console/error.cpp and
--   src/transfer/sftp; Sftp/Files and Sftp/Handles for file.cpp, Sftp/Protocol for the classes
--   that implement those of Transfer, Sftp/Session for the life of a session and Sftp/ReadThread
--   for its thread. Proofs in Sftp/Outcome, Sftp/Delivery, Sftp/Taken, Sftp/Thread,
--   Sftp/Lifetime, Sftp/Retry, Sftp/Opening, Sftp/Ending, Sftp/Serving and Sftp/Meeting.
--   Sftp/Operations has the operations without a value under one name, for Sftp/Performed, which
--   like Sftp/Reading and Sftp/Exact follows a call to its end. Sftp/Server has an abstract
--   server, and Sftp/Server/Applied what a list of operations comes to on it.
-- Console: `_consolewrite`, `ScreenDraw` and `handleColorCode` of src/console. Proofs in
--   Console/Buffer, Console/Visible, Console/Drawing and Console/Draw. Console/Port has
--   QuickDraw as a record of operations and laws, and Console/Port/Calls what `ScreenDraw` and
--   `console_setup` call of it, with proofs in Console/Port/Restored and Console/Port/Setup;
--   Console/Window has `MacMain`, and Console/Window/Loop its proofs.
-- Main: `main` and `main_func` of src/main.cpp. Proofs in Main/Listing.
-- Threads: all threads together, as steps of one state machine over the shared state.
--   Threads/Code has every piece of code that a thread runs under one name. Threads/Lasting,
--   Threads/Kept and Threads/Steps are about what steps leave as it was, and Threads/Order about
--   the order of the calls of libssh2; Threads/Rules, Threads/Stages, Threads/Outcomes,
--   Threads/Calls, Threads/Writes, Threads/Sockets, Threads/Client, Threads/Session,
--   Threads/Connecting, Threads/Reading and Threads/Listing take the code apart into steps, and
--   Threads/Program, Threads/Stretches and Threads/Schedule put the pieces together.
-- Examples: the theorems at concrete inputs.
--
-- How the parts interact: the threads are cooperative. A thread is modelled alone, and at each
-- yield, and in each call of libssh2, the parameter `interfere` of its environment stands for
-- what the others do meanwhile. One that disposes of this thread then ends it there (`resumes`).
-- A theorem that needs the others to keep something, or to spare this thread, which is not to
-- dispose of it, says so (`Respects`, `Resumes`). In Threads the others move by steps of the
-- program (`OthersStep`), where a step is one change of the shared state by whatever thread, or
-- they run the code of the program itself, in turns made of pieces of it, each up to its end or
-- up to a yield from which it does not go on (`Turn`). Open Transport and libssh2 are parameters
-- too: their replies may depend on all that has happened; where a theorem is about the order of
-- a session, what it counts as a handshake or an SFTP session without an error is a set of calls
-- to which the replies agree (`accepts`, `Truthful`).
--
-- Bounds and fuel: a `long` and a `size_t` have 32 bits, a `short` has 16, and the wrap-around
-- is written out. Ids, counts and codes are natural numbers. A loop that waits takes fuel, and
-- running out of it is an outcome of its own, `spinning`, which the theorems tell from a value.
--
-- The window is seen from `MacMain` alone: the other threads run in its yields, and what they
-- print is a parameter of `ScreenDraw`, the buffer of lines. The Toolbox is a list of polls with
-- their events, and QuickDraw any instance of its interface.
--
-- Not modelled: the headers of PowerNet other than sys/select.h (copies of those of musl:
-- declarations, and constants of network protocols), the build files, and the libraries that the
-- build fetches (libssh2, mbedTLS). A call of `NewThread` counts as one that makes the thread
-- ready. Between the `printf` of the program and `_consolewrite` stands the C library: the text
-- is recorded as it is printed. Memory that nothing clears has the bytes of a parameter
-- (`fresh`), and what `printf` makes of the 64 bits of a size is another (`size_line`).
pub mod Prelude
pub mod Inet
pub mod Errors
pub mod World
pub mod Effects
pub mod Transfer
pub mod Net
pub mod Sftp
pub mod Main
pub mod Console
pub mod Threads
pub mod Examples
