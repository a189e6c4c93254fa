-- ===== src/Lib.antt =====
-- A forensic dumping tool: a Windows client that dumps memory, registry, processes and network
-- state into a log directory, a Linux server that asks for the dumps and stores them, and a
-- stand-alone client in one file.
--
-- The parts, and how they interact. The server's `clientThread` (server_linux/server.cpp) sends a
-- buffer that says "dump" and calls `writeDir`. The client's `_tmain` (InfoDumping/main.cpp)
-- waits for that buffer, writes the dumps (memory, processes, connections, registry) into a new
-- directory, and calls `sendDir` (InfoDumping/InfoDumping.cpp). Both sides move whole buffers
-- with their own `sendAll` and `receiveAll`. The dump of physical memory, `dump_ram`, drives the
-- class `WinPmem` (kernel/executable/winpmem.cpp), which installs a driver and copies the
-- memory's runs to a file.
--
-- The files:
--   Prelude: shared names, Boolean tests, lists, bytes and C strings, and the ways a function
--     ends.
--   Socket: one end of a connection. `calls` answers each system call, so that every splitting of
--     the bytes and every failure is a value of it. Delivery and Runs say what a transfer did.
--   Wire: `struct box` as bytes (Layout: packing and unpacking) and Format, the protocol as a
--     function from directory trees to bytes, which is a specification and no code.
--   Json: a part of JSON's grammar as a relation between values and texts, which the dumps are
--     compared with.
--   Server: Transfer (`sendAll`, `receiveAll`; Bounds and Drained for what they change and take),
--     Files (the file system; Distinct for its invariant), Receive (`writeFile` and `writeDir`,
--     with Steps, Trees and Top for what they store, Keeping and Keeps for the properties of the
--     disk that they keep, Confined for what they leave alone, Ending and Ends for their end on
--     every input, Lone for first boxes of another kind), Session (`clientThread`), Main (`main`:
--     Options, Reach for what every run keeps, Rounds for how a round ends, Exits).
--   Client: Args (`parseArgs`), Connection (`constructConnection`), Transfer (`sendAll` and
--     `receiveAll` with their unsigned counters), Files (what the Windows calls answer about a
--     path), Send (`sendFile`, `sendDir`), Round (the four dumps of one round; Apart and Complete
--     for the files that they leave), Session (the loop of `_tmain`), Main (`_tmain` around its
--     loop: Stamp for the log directory's name, First, Unset), Netstat (`parseNetstatOutput`,
--     and Json for `netStatInfoToJson`), Registry (`EnumerateKey`: Value for a value, Enumerate
--     for the recursion; Dump for `dump_registries`; Shows says which value the dump of a key is
--     to have, in the terms of the code, and Says in those of Means, which does without it;
--     Numeral, Strings, Data, Denotes, Frame, Tree and Hives follow the text from a
--     number to the five files), Dumps (`dum_net`, `dump_process_info`).
--   Alone: the stand-alone client (kernel/executable/main.cpp). Its functions have the text of
--     the other client's, so the definitions of Client that depend on `SIZE` take it as `room`,
--     and those that depend on the names of the files take a timestamp, which is empty there.
--     Signal and Misread say how it gets on with the server.
--   Dump: both sides together.
--   Image: Device (the driver's device and the image), Copy (`pad`, `copy_memory`,
--     `print_memory_info`, `write_raw_image`), Driver (`extract_driver`, `install_driver`,
--     `uninstall_driver`), Acquire (`set_acquisition_mode`, `create_output_file`, `dump_ram`),
--     Text (`asprintf`, `aswprintf`), Metadata (`store_metadata_` and the functions that print;
--     Reads is a reader of the metadata, Described compares the two).
--   Tests: the theorems at concrete inputs.
--
-- State and operations. A function of the program is a function of its state, a socket with a disk
-- or a current directory, or the members of the class, that gives the way it ended and the new
-- state. An early return, `exit(1)` and undefined behaviour are values of `Status`. What the
-- operating system and the network answer are fields of the state or of a record of answers, and
-- any answer is possible but those named under "Not modelled". What a dump inserts into a stream
-- is a function of the stream's number base, which `std::hex` leaves behind. The server's threads
-- share its disk, and a run of the server in Server/Main is a list of events: a connection, a
-- failing `accept`, or a whole round of one thread.
--
-- Fuel. The server's transfers and the loops of `pad`, `copy_memory`, `writeFile` and `sendFile`
-- count their own rounds, each of which moves a byte or more, and each round of `asprintf` makes
-- its buffer larger. The client's transfers may loop for ever, since a failed call can wrap the
-- counter around: there the theorems take fuel above the size of the message. `writeDir` takes
-- fuel above the length of what it is sent, and each of its rounds and nested calls reads at
-- least a byte of it. A round of a thread in Server/Main is given one more than the bytes that
-- its client has sent. The two sessions count rounds, and the digits of a number are counted by
-- the number itself.
--
-- Sizes. `int` and `size_t` counters of the server stay below 16401 and are plain numbers;
-- `unsigned int` is computed modulo 2 ^ 32. Addresses are the `__int64` that are not negative,
-- and sums of them stay below 2 ^ 63; `out_offset` is computed modulo 2 ^ 64. The sizes of
-- `asprintf` are plain numbers, for texts below 2 ^ 30 characters.
--
-- Not modelled: what the external commands do (a parameter), what Windows answers about a
-- directory (a function of the files, and a parameter), the locale of the wide streams, what the
-- functions outside Image/Metadata print, the usage texts, failures of `malloc` but in `asprintf`,
-- and the kernel driver, third-party code whose answers are parameters. Of the system calls:
-- a `fwrite` of the server stores all its bytes (its result is not looked at in the program);
-- a connection's peer closes it behind what it sends, so that no read blocks for ever; a write
-- to a closed connection gives -1 and no SIGPIPE; a thread's connection is its own, though the
-- number of a descriptor that a failed transfer has closed may be given to another client
-- before the thread uses it again; a path is its text, and ".." leads nowhere else. The list of
-- the memory's runs has any length, where `WINPMEM_MEMORY_INFO` has room for 20.
pub mod Prelude
pub mod Socket
pub mod Server
pub mod Wire
pub mod Json
pub mod Client
pub mod Image
pub mod Dump
pub mod Alone
pub mod Tests
