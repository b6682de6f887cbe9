-- ===== src/Lib.antt =====
-- A model of nfs-client-simulator, a C++ program that speaks to an NFS server with RPC requests that it
-- builds itself: it asks the port mapper for the ports of the mount daemon and of NFS, mounts an export,
-- looks a name up in its root, and unmounts it.
--
-- The parts, from the bytes up, with the files of the repository:
--   Xdr             xdr.cpp: XDR items in a byte array. Encode, Decode and Sequences say what each function
--                   writes and reads, Emit composes writes, RoundTrip composes both.
--                   Integer is getInteger, with when it ends (Xdr/Integer/Ends).
--   Text            the routines of the C++ library that read and print numbers: stoll, atoi and the output
--                   to a stream. Text/Decimal: what is printed in decimal is read back.
--   DescriptiveEnum descriptiveenum/: splitString, generateEnumMap and printEnum. Names has the enumerators and
--                   their text in the program, Read and Values what generateEnumMap makes of it, Print
--                   the calls of printEnum, Perms the names of the permissions.
--   Logging         logging/Logging.hpp: a logger, and the statements DEBUG_LOG and TEST_DEBUG_LOG
--                   (Logging/Lines, and Logging/Moved where the logger is moved).
--   Dump            printHandle of Utils.cpp, mem_dump of xdr.hpp and mem_dump_impl of xdr.cpp.
--   GenericEnums    GenericEnums.hpp, and the enumerations of rpc.hpp and PortMapperContext.hpp that
--                   stand in messages.
--   NfsEnums        the enumerations of Context.hpp that stand in messages and permissions.
--   Utils           Utils.cpp and Utils.hpp: getMonotonic, getRandomNumber, getSelfFQDN, and the owner of an
--                   array (Utils/Handler; Utils/Random says what getRandomNumber returns).
--   Arguments       parseArgs of Utils.cpp, on what getopt returns (Arguments/Servers, Arguments/Options).
--   Rpc             rpc.hpp: makeRPC and addAuthSys (Rpc/Call), parseAndStripRPC (Rpc/Reply).
--   System          the operating system: for each system call the results that its calls yield in order,
--                   and a record of what was handed over. It is an argument of every definition.
--   Context         Context.hpp and Context.cpp: the state of a connection; connect and disconnect
--                   (Context/Connection), send (Context/Send, with Delivery for what it hands over and
--                   Progress for when it ends), receive (Context/Receive).
--   Call            the steps that getPort, makeMountCall, makeUmountCall and lookup have in common: build a
--                   request in an array (Call/Request and Call/Message), send it, receive the reply and
--                   strip its header (Call/Answer).
--   PortMapper      PortMapperContext.cpp: getPort, getMountPort, getNfsPort.
--   Mount           Mount.cpp: makeMountCall, makeUmountCall.
--   Auth            the calls with another authentication than AUTH_SYS.
--   Inode           Context::Inode: its constructor, stripSlash (Inode/Strip, and Inode/Plain in one pass) and
--                   lookup (Inode/Lookup what it sends, Inode/Answer a server that answers, Inode/Results a
--                   directory without a handle).
--   Overrun         the calls whose request does not fit the array.
--   Server          not code of the repository: how a server reads a call as RFC 5531, 4506 and 1813 have it, and
--                   answers it; the clients are measured by it. Words: the items, Requests: the calls, Dirop: the
--                   arguments of a lookup, Sent: what the mount calls send, Lookups: a lookup, Ports: a port
--                   mapper, Exports: a mount daemon.
--   Runs            calls one after another, in any order and with any results of the system: what every call keeps
--                   (Runs/Calls), the descriptors that are opened and closed (Sockets, Zero), the transactions
--                   (Transactions), a reply that comes late (Late) and the time that printStatus reads (Dated).
--                   Alone has the calls that do not connect.
--   FsTree          FSTree.cpp: the roots of the mounted exports (FsTree/Roots); Mounts has the view that forgets
--                   the order of the mounts, a quotient.
--   ServerContexts  class ServerContexts of Context.hpp: contexts with use counts (Counts), and the pool that
--                   they implement (Pool).
--   Session         main.cpp: main, and the session with the first server. Mounted has the first half
--                   against servers that answer, End how main ends.
--   Common          the helpers that the others share; Examples: a concrete input for each theorem.
--
-- Conventions. A function of the program has its name in snake_case. A `uchar_t*` is the list of the bytes
-- from there to the end of its array, and `none` is nullptr; a handle and a string are lists of bytes.
-- What a C++ run can come to is an Outcome: `ok` with a value, `aborted` by a failed DASSERT or an
-- exception, `fault` for undefined behaviour (an access outside an array, a null or an uninitialised
-- pointer or an end iterator read), or `blocked` in a system call that does not return. State is passed
-- explicitly: members that a function changes are in its result, as are reference parameters. Numbers are
-- natural, with `% 2 ^ w` where w bits wrap around; an int32_t is an integer. A new array holds arbitrary
-- bytes, which are an argument (Memory).
--
-- Bounds and loops. The loops of send and receive are recursions on the list of the results that the
-- system yields, so no fuel is involved: where the list ends the call is blocked. The loop of stripSlash
-- runs on fuel, the length of the name, which each round makes smaller. The theorems on whole calls take a
-- host name of at most 255 bytes, since the resolver gives no longer one, and a request that fits its array
-- of 1024 bytes, as it does for a path of at most 600 and a name of at most 255; what becomes of the others
-- is in Overrun.
--
-- printEnum, parseArgs and the log recur on their texts. The loop of getInteger runs on fuel, which shows
-- when it ends; the digits of a number are printed on as much fuel as the number, which each digit divides.
--
-- Not modelled: the log lines of the other parts; the mutexes (there is one thread); the branches for a
-- null pointer from `new`; and what is declared and never defined. getopt, random, the clock and the
-- resolver are not code of the repository: what they return is an argument. strtok, strlen, atoi,
-- std::stoll and the containers are modelled as the C and C++ libraries define them.
pub mod Common
pub mod Xdr
pub mod GenericEnums
pub mod Text
pub mod DescriptiveEnum
pub mod Logging
pub mod Utils
pub mod Rpc
pub mod System
pub mod Context
pub mod Call
pub mod PortMapper
pub mod Dump
pub mod Mount
pub mod NfsEnums
pub mod Inode
pub mod FsTree
pub mod Server
pub mod ServerContexts
pub mod Auth
pub mod Runs
pub mod Overrun
pub mod Arguments
pub mod Session
pub mod Examples
