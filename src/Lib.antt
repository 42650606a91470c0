-- ===== src/Lib.antt =====
-- Verification library of the secure file transfer system.
--
-- A client written in C++ (Client/) sends one file to a server written in Python (Server/). It reads
-- the server's address, its own name and the path of the file from "transfer.info"; it registers, or
-- reconnects where "me.info" exists; it exchanges an RSA key for an AES key; it sends the encrypted
-- file in packets; it compares its checksum with the server's, and sends the file again where they
-- differ. Each request is repeated when the server answers with a general error, and the fourth
-- failure ends the program. The server keeps its clients in a list of objects and in a data base, makes
-- the AES keys, stores the packets, decrypts the whole file and judges each request in one call of its
-- selector. This library models both, and their first run together.
--
-- Files and code:
--   Global            Client/global.h: the constants
--   Request           Client/request.h, Client/request.cpp: class Request, one function per method
--                     (set_client_id is setClientID, and so on); message is the vector massage of
--                     send_to_server. Children: Layout, Fields
--   Answer            Client/answer.h, Client/answer.cpp: class Answer (read_client_id is
--                     getClientID). Children: Checks, Fields, Total
--   ClientOb          Client/client_ob.h, Client/client_ob.cpp: class Client. Child: Names
--   Cksum             Client/cksum_new.cpp: crctab, memcrc, readfile. Children: Tables with the eight
--                     rows; Spec, the checksum of POSIX bit by bit; Table, Linear, Bitwise, Value,
--                     Checks
--   Wrappers          Client/AESWrapper.cpp, Client/RSAWrapper.cpp, Client/Base64Wrapper.cpp. Buffers has
--                     the constructors and methods on char pointers, the public key and the key
--                     that is drawn; its child Keys has proofs
--   Various           Client/various_functions.cpp. Children: Hex, Paths, Packets, KeyFile, Total
--   Session           Client/client.cpp: Packets is the loop of send_file, Finish has crc_checking,
--                     the_end and send_file, Keys has the key exchange, Connect has read_transfer,
--                     registering, reconnection and main. Children with proofs: Sending (all packets),
--                     Retries, Registration, KeyExchange, Round and Success (send_file), Registered
--                     and FirstRun (a whole run), Stored (reconnecting), Total and Ending (fuel)
--   Server            Server/*.py: General (general.py), Text (bytes, UTF-8 and numbers), Runtime (the
--                     state, ServerFile of files.py, ServerClient of clients.py, and the monad of a
--                     call, which returns, raises or waits), Tables (sql.py), Checksum (cksum.py),
--                     Connection (the socket, answer.py), Registry (loops over the lists), Disk,
--                     Header, Keys, Requests, Files and Verdicts (request.py, clients.py,
--                     various_functions.py), Loop (server.py: read, data_base_handle, and serve, the
--                     calls of read for one connection). Children with proofs, of Loop: Reading,
--                     Refusals, Joining, Opened, NewFile and Again (a file that is new, and one that
--                     is sent again), Verdict, Session (a whole conversation), Returns and Waiting,
--                     Consistent and Agree (objects and tables), Restart
--   System            the client and the server together
--   Wire              the layout of messages on the wire, apart from the program
--   Runtime           the world: bytes that the server will send, messages written, files, and the
--                     monad of a run, which returns, exits, aborts, meets undefined behaviour or has
--                     no fuel left. Children: Laws, Ends
--   Library           Crypto++ and Boost.Endian as a record of functions, with documented laws
--   Base              shared names, tests, lists, integers, bits, order
--   Example, Witnesses, Session.Runs: a concrete library and server, and runs on them
--
-- An object that the code changes through a reference is an argument and a result. An `int` is an
-- integer with its conversions written out, and a sum that it cannot hold is `undefined`; `unsigned
-- long` has 32 bits, as on Windows, where the client is built. An exception that nobody catches aborts, exit(1) is `exited`, and an access out of
-- bounds is `undefined`.
--
-- Fuel: the functions that call themselves after a general error or a wrong checksum start with
-- MAX_TRIES, which is enough since each such call has counted one more failure, and the fourth does
-- not call. The packet loop starts with one more than the size of the file, which is enough since
-- each round takes 4096 bytes.
--
-- Parameters: the functions of the record Library. Its laws are that Boost.Endian stores the least
-- significant byte first, and that Base64 decoding undoes encoding and skips line ends. On the server,
-- the functions of the record PyLibrary: UUIDs, the clock, random keys and PyCryptodome.
--
-- On the server, a handler changes objects in the global list in their place, which is a change at a
-- position of the list. A read of the socket takes what has arrived when the handler is called. With
-- nothing there it raises BlockingIOError, or, once the socket blocks, it waits. Whether a send raises,
-- and after how many bytes, is a field of the state. A UUID that repeats makes the insertion of a row
-- raise.
--
-- Not modelled: console output; on the client, a read that waits: it finds either all of the bytes
-- that it asks for or the end of the stream; failures of reading a file that exists; on the
-- server, SQLite's errors and locks, bytes that arrive while a request is handled, several connections
-- at once, and the start of the listening socket; line end conversion of text files.
pub mod Base
pub mod Global
pub mod Runtime
pub mod Library
pub mod Wire
pub mod Request
pub mod Answer
pub mod ClientOb
pub mod Cksum
pub mod Wrappers
pub mod Various
pub mod Session
pub mod Server
pub mod System
pub mod Example
pub mod Witnesses
