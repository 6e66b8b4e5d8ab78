-- ===== src/Lib.antt =====
-- A model of ElectrumZ, an Electrum server for Bitcoin in C++, and its properties.
--
-- A client connects over TCP, plain or with TLS, and sends requests as lines of JSON. The
-- connection (src/net/JsonRPCServer.cxx) gathers the bytes, cuts them into lines, and hands each
-- request to the switch over the methods, which answers by the classes and conversions of
-- src/electrum/Commands.cxx. The transaction outputs are kept in LMDB, filled from Bitcoin Core's
-- block files (src/blockchain/TXODB.cxx). What only Bitcoin Core knows is asked over its RPC
-- server (src/net/RPCClient.cxx).
--
--   Base          lists, texts and tests over the native numbers, and `Outcome`: a value, an exception
--                 or undefined behaviour, each of the first two with the state it leaves
--   Json, Bitcoin nlohmann::json, and the copied Bitcoin Core utilities, as records of operations
--   Bitcoin       its children are about files that the repository has adapted: Bitcoin/Hash about
--                 include/electrumz/bitcoin/hash.h, Bitcoin/Header and Bitcoin/Block about block.h beside it
--   Commands      include/electrumz/Commands.h and src/electrum/Commands.cxx: the method map
--                 (Commands/Map), the response classes (Commands/Types) and `to_json`
--   Connection    src/net/JsonRPCServer.cxx and include/electrumz/JsonRPCServer.h
--     Memory      blocks, `strchr`, `strstr` and `memcpy`, where a read past a block has no answer
--     State       the members of the class, what libuv and the C library decide (`Platform`)
--     Buffer      `AppendBuffer`; Buffer/Bounds has its bounds
--     Write       `WriteInternal` and `HandleWrite`
--     Tls         `TryHandshake`, `InitTLSContext` and the callbacks; mbedtls is any strategy that
--                 receives, sends and finishes
--     Read        `HandleRead` and the read callback; its children follow a plain-text request through
--                 the searches, the buffer and the loop over lines; Read/Session takes several
--                 requests together, and Read/Waiting and Read/Decrypted are about TLS
--     Dispatch    `HandleCommand`; Dispatch/Replies and Dispatch/Methods say what it answers
--     Sound       the invariant of a connection
--     Requests    the answers to a stream of requests
--   Lmdb          the key-value store LMDB, as the calls that the code makes
--   Txo           src/blockchain/TXODB.cxx, include/electrumz/TXODB.h and include/electrumz/TXO.h
--     Record      outputs and their bytes
--     Database    opening, growing the map, lookups and statistics
--     Preload     `PreLoadBlocks`: Preload/Blocks stores a block, Preload/Files reads the files,
--                 Preload/Loaders has the threads that share them, and Loaders/Endings when they wait. Blocks/Journal is what LMDB documents
--                 of transactions, Blocks/Steps, Blocks/Entries, Blocks/Adds and Blocks/Atomic are about what
--                 an attempt leaves of a block, and Loaders/Stores and Loaders/Stored about all threads.
--                 Preload/Passes is the whole of `PreLoadBlocks`, Preload/Reader the block that is read out of
--                 a file, and Preload/Addresses and Preload/Answers are about lookups behind it
--   Rpc           src/net/RPCClient.cxx and include/electrumz/RPCClient.h: the client of Bitcoin Core's
--                 RPC server. Rpc/Queries, Rpc/Table, Rpc/Open and Rpc/Reads are about its invariant,
--                 Rpc/States has the states it gets to, Rpc/Answer follows a query, Rpc/Completion is about
--                 `CompleteQuery`, and Rpc/Order about answers in any order
--   Script        include/electrumz/bitcoin/script.h, src/blockchain/bitcoin/script.cpp and key_io.cpp, which the
--                 repository has adapted from Bitcoin Core
--     Ops         `GetScriptOp` and `IsPushOnly`; Ops/Encoding has the written form of an operation
--     Solver      `Solver` and its matchers; Solver/Sizes has what its solutions are, Solver/Forms and
--                 Solver/Multisig the scripts that it recognises
--     Destination `ExtractDestination`, `ExtractDestinations` and `EncodeDestination`; Destination/Sound and
--                 Destination/RoundTrip say what is extracted
--   Services      the RPC client and the database as the services behind `HandleCommand`; Services/Subscribe
--                 and Services/Loaded follow a subscription into the database
--   Worker        src/electrumz.cxx, src/net/NetWorker.cxx and include/electrumz/NetWorker.h: `main`, the
--                 constructor of the worker, `Work` and the clients it accepts
--   Config        src/util/Config.cxx and include/electrumz/Config.h
--   Tests         small libraries and the theorems applied to them
--
-- A function of the C++ code is a function from the state to an outcome. The loop at `parse_again`
-- runs on fuel: one more than the bytes of the block, which is enough because each round takes a
-- newline off it. A block file is read on one round more than it has bytes. The threads
-- that load the files are a relation: any of them makes the next step, which is a turn at the list of
-- files, a round of reading, or an attempt to store a block. An attempt with the growing of the map
-- behind it is one step, and a thread makes it only where no transaction that writes is open, since
-- `mdb_txn_begin` waits for that. How often a block is
-- tried again after the map has grown is a number that the caller gives, and running out of it is
-- a result of its own, which Preload/Blocks/Retries and Preload/Files/Fuel exclude for enough tries,
-- while the threads try without a limit. The loops over a script run on its length, or one more, which is
-- enough because an operation has a byte. Signed counts that the code compares with 0 are natural
-- numbers here, with the negative codes of mbedtls as constructors of their own. The value of `uv_write` for a text,
-- the contents of fresh memory and the bytes behind a block are parameters, and so are JSON
-- values, TLS, hashes, hexadecimal texts and the number formats.
--
-- Not modelled: steps of other threads between the abort of an attempt and the growing of the map behind
-- it, the answer that libuv gives later to a write, logging, the counts of the loader that are only printed, frees and leaks, the peer's address, the event loop and its threads,
-- the HTTP parser, the parsing of arguments, and the copied Bitcoin Core code
-- but for the bytes of an output point and the adapted files.
pub mod Base
pub mod Bitcoin
pub mod Commands
pub mod Config
pub mod Connection
pub mod Json
pub mod Lmdb
pub mod Rpc
pub mod Script
pub mod Services
pub mod Tests
pub mod Txo
pub mod Worker
