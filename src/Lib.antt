-- ===== src/Lib.antt =====
-- A client and a server that exchange batches of requests over TCP or named pipes: the server
-- matches each request with advertisements of the requested size and sends the replies back.
--
-- A message is a header of 44 bytes and up to four strings. It is compressed and encrypted, singly
-- or doubly, on its way. The server cuts the text that it decrypts into the requests of a task and
-- hands the task to the controller, whose threads first make the size key of every request and
-- then ask the policy for the replies; between the two phases all threads meet at a barrier, and
-- the requests are sorted by size. The policy matches a request with the advertisements of its
-- size, which were read from a file when the server started, and prints the reply.
--
-- Parts and files, and the code that each is about:
-- Base: the names that all files share, Boolean tests, lists over the native numbers, bytes,
-- sorting.
-- Charconv: the interface of number conversions (common/IOUtility.h takes them from Boost), and
-- the standard library's.
-- Header: common/Header.h, common/Header.cpp and the number fields of common/IOUtility.h.
-- Message: processMessage of common/IOUtility.cpp.
-- Crypto: common/CryptoOperations.cpp, with encrypt and decrypt of common/CryptoSodium.cpp and
-- common/CryptoPlPl.cpp over a cipher that is a parameter, the hidden key of both files, and
-- isEncrypted of common/CryptoBase.cpp.
-- Split: the splitting functions of common/Utility.h, and the readers common/StringLines2.cpp and
-- common/FileLines2.cpp.
-- Request: the request of Task.h and its size key.
-- Ad: business/Ad.h, business/Ad.cpp, business/AdBid.h.
-- Transaction: business/Transaction.h, business/Transaction.cpp.
-- Policy: policy/Policy.h and the policies. Policy.Interface is what a task asks of a policy; the
-- transactions' theorem on the caches of a thread fills it for SortInputPolicy.
-- Task: Task.h and Task.cpp. fetch_add and the work on the claimed index are separate definitions.
-- TaskController: TaskController.h and TaskController.cpp as a step relation, the completion in
-- its two steps, one access to shared state a step; Board is the argument about threads that share
-- a counter, and Order the abstract view of the controller: a queue of texts that are answered one
-- after the other.
-- TaskBuilder: client_src/TaskBuilder.cpp, with getRequestId of common/IOUtility.cpp. The source
-- is the list of its lines; an id behind the array of ids, where the source's access is undefined,
-- ends the batches with none.
-- Transport: common/Fifo.h, common/Fifo.cpp, common/Tcp.h and common/Tcp.cpp. A pipe is the list
-- of the answers that read, write, poll and open give, and a loop that has used up its list still
-- waits.
-- ThreadPool: common/ThreadPoolBase.cpp, ThreadPoolSessions.cpp and common/Runnable.h, the pool of
-- the sessions as moves of its threads and callers.
-- Session: Session.h, Session.cpp, FifoSession.cpp and TcpSession.cpp. The controller is an
-- argument, a function on tasks, which TaskController describes, and Session.Turn puts together
-- the transport, the encryption and the update of the task.
-- Server: Server.h, Server.cpp, TcpAcceptor.cpp and FifoAcceptor.cpp.
-- Client: client_src/Client.cpp, client_src/FifoClient.cpp and client_src/TcpClient.cpp, with the
-- choice of keys of Session.cpp. The loop is over what sending, receiving and the builder return,
-- none where a call does not return, on fuel, the limit on the number of tasks, which is enough as
-- each round takes one.
-- Compression: common/CompressionLZ4.cpp over the library, which is a parameter.
-- Lines: common/Lines.cpp, common/Lines.h, common/StringLines.cpp and common/FileLines.cpp, the
-- buffer with what it holds behind the part in use. A call behind a line that took a delimiter
-- from there is undefined in the code and finds no line here.
-- Tests: runs at concrete inputs, and each result below at one.
--
-- Conventions. A string is the list of its bytes. A function that may throw returns an Option, and
-- none is the throw; the reader of a header returns how it ended together with the header that it
-- leaves. Sizes are natural numbers: no sum or product of the modelled code comes near 2 ^ 64, and
-- where a type's bound matters (the conversions, the amounts compared as int, the limit of a
-- batch) it is written out. Loops over a text run on fuel, the length of the text, which is enough
-- as each round takes a byte away; the loop over batches has as much fuel as there are lines, and
-- each batch takes one. std::sort is an insertion sort, one of the results that the standard
-- allows.
--
-- Parameters: Boost.Charconv, Boost.Regex, the floating-point amounts, the ciphers and the
-- compression libraries, each with the documented laws that are used, as hypotheses or as the
-- fields of a record.
--
-- Not modelled: the calls of the operating system and of Boost, which are arguments, the
-- heartbeat, the thread of the task builder, options, logging, the libraries' key exchange and
-- signatures, and the vendored common/monocypher.cpp.
pub mod Ad
pub mod Base
pub mod Charconv
pub mod Client
pub mod Compression
pub mod Crypto
pub mod Header
pub mod Lines
pub mod Message
pub mod Policy
pub mod Request
pub mod Server
pub mod Session
pub mod Split
pub mod Task
pub mod TaskBuilder
pub mod TaskController
pub mod Tests
pub mod ThreadPool
pub mod Transaction
pub mod Transport
