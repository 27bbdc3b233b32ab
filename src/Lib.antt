-- ===== src/Lib.antt =====
-- tracebox records channels of time-stamped data. A client sends a record over TCP; the server's
-- callback hands it to a writer queue, whose thread writes it into a storage of bounded size; the
-- storage keeps one folder for each day, and a folder one stream for each channel. A stream is an
-- index file and, when its records vary in length, a data file. A reader client asks a scanner for
-- the streams of a time range and for the records of one of them. A combiner merges what it reads.
--
-- Which file models which part:
--   Format, Calendar      libs/data_types.h: the file header byte by byte (little endian, packed),
--                         the sizes of the records, `maxRecordSize`, `Time2YYYYMMDD`.
--   FileIo                libs/log_writer/storage_management/file_io.h: `StandardFileIO`, a stream
--                         with a buffer: all that was handed to it, how much of that has reached
--                         the file, and the device's answers, so that every failure can be met.
--   StreamWriter          libs/log_writer/storage_management/stream_writer.{h,cpp}: `StreamWriter`,
--                         each method a function on its fields, with an `Outcome` for its `int`, an
--                         exception of the fault injector, or a loop over file names without an
--                         end. StreamWriter/Linked ties what the two streams were handed to a list
--                         of records (`Linked`) and the files to one (`InFiles`); StreamWriter/Log
--                         is the abstract log of both lists.
--   Folder                libs/log_writer/storage_management/folder.{h,cpp}.
--   Storage               libs/log_writer/storage_management/storage.{h,cpp} over the interface of
--                         storage_backend.h, a record of a state type and three operations, with
--                         the law `Removes` that the accounting relies on; Storage/Filesystem
--                         is storage_backend.cpp and keeps `Removes`.
--   LogWriter             libs/log_writer/writer/log_writer.{h,cpp}: a step relation in which any
--                         thread may move; a step is what a thread does under the mutex, or one
--                         write into the storage.
--   Reader                libs/log_reader/file_reader.h, idx_file_reader.h, data_file_reader.h and
--                         stream_reader.{h,cpp}: `std::ifstream` with its fail state, and each
--                         reader as its fields.
--   Scanner               libs/log_reader/storage_scanner.{h,cpp}: `resolveIndexPath`, `getData`
--                         and, in Scanner/Discovery, `getStreams`.
--   TcpSocket             libs/tcp_server/tcp_socket.h: the length-prefixed frames, over a socket
--                         whose calls move some bytes, are interrupted, or fail.
--   Server                libs/tcp_server/tcp_server.{h,cpp}: `start`, `stop` and, in Server/Loop, the
--                         thread of `run`, over what `epoll_wait` and the other calls answer.
--   Descriptors           the open and the watched descriptors of the process, with a count of the
--                         calls of `close` on what is not open.
--   TcpClient             libs/log_client/tcp_client.{h,cpp}.
--   Messages              libs/data_protos/logger.proto: each message as a record.
--   Clients               libs/log_client/log_client.{h,cpp} and reader_client.{h,cpp}.
--   Handlers              libs/log_writer/writer/tracebox_logger.h and libs/log_reader/log_reader.h.
--   Exchange              a client and a server's callback at the two ends of a connection.
--   Api                   src/tracebox_api.cpp and include/tracebox.
--   Combiner              libs/log_client/streams_combiner.{h,cpp}: the map from seconds to records
--                         as a list in the order of its keys.
--   EndToEnd              what a reader finds in the files that a writer has left.
--   Prelude, Bytes        lists, options, machine integers and little-endian bytes.
--   Tests                 runs on concrete inputs and an instance of each theorem.
--
-- Numbers are natural numbers with the wrap-around of the source's widths written out: offsets,
-- record sizes and file sizes are `uint32_t`, the storage's counts `size_t`, results `int`. The loop
-- over file names has fuel `2 ^ 32 + 1`, as many names as its `uint32_t` suffix can make. The loops
-- of `Storage` and the worker's rounds take their fuel as an argument, with theorems on how much is
-- enough.
--
-- Parameters: the file system (which paths exist, what they hold, canonical paths), the clock and
-- the local time, the division of times by 1E9 in the combiner, which is done in doubles, the answers
-- of devices and sockets, and the parsing of a path into components.
--
-- Not modelled: the programs in apps/ and the tests. The code that is generated from
-- libs/data_protos/logger.proto is a parameter, a function that writes a message and one that reads
-- it, with what a theorem needs of it as a hypothesis on the messages it is about. The operating
-- system is the answers of its calls; a server's loop and the threads that call `stop` meet only in
-- what a load of `state_` finds.
pub mod Prelude
pub mod Bytes
pub mod Format
pub mod FileIo
pub mod StreamWriter
pub mod Reader
pub mod EndToEnd
pub mod TcpSocket
pub mod Calendar
pub mod Folder
pub mod Storage
pub mod LogWriter
pub mod Scanner
pub mod Descriptors
pub mod Server
pub mod TcpClient
pub mod Messages
pub mod Clients
pub mod Handlers
pub mod Exchange
pub mod Api
pub mod Tests
pub mod Combiner
