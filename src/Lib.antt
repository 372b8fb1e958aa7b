-- ===== src/Lib.antt =====
-- The cross-chain agent carries transfers between two chains. A bridge contract on the source chain
-- records the start of a transfer; the agent repeats it on the other chain, acknowledges it on the source
-- chain, and replies to the acknowledgement on the other one. Websocket clients deliver the contracts'
-- logs to HandleManager, which hands them, with the calls of a timer, to one handle for each direction.
-- A handle keeps the transfers in progress in maps, each entry with a record in RocksDB under the
-- map's prefix and the transfer's identifier.
--
-- The files:
--   Glue/Layer1ToLayer2  src/glue/layer1_to_layer2_handle.cpp: Maps (Save..., Clear...), Parse
--     (makeCrossTxInfo), Send (sendTransactionTo..., Send..., ReplyAck...), Events (Handle...Event),
--     TimeOuts (...TimeOut, OnTimer), Start (Initialize)
--   Glue/Layer2ToLayer1  src/glue/layer2_to_layer1_handle.cpp, laid out in the same way
--   Glue/HandleManager   src/glue/handle_manager.cpp
--   Glue/Submit          checkTxResponse and the common part of sendTransactionToLayer1 and 2
--   Glue/Node            the state of all this: the outside world, the store, the seven maps
--   Glue/Recovery        what a new process makes of the store that another one has left
--   Glue/Consistency     what ties the maps to the store; Glue/Printed the contracts' answers
--   WebClient            src/common/web_client.cpp
--   Transaction          src/common/layer1_transaction.cpp and layer2_transaction.cpp
--   Database             src/database: DatabaseProxy, DatabaseManager, Storage, RocksDbDriver;
--     Database/Batches storage_lock.cpp, consistent_writebatch.cpp, and the batches of storage.cpp
--   General              src/common/general.h and general.cpp: CrossTx, AddressPrefix, TimerNotify
--   Settings             src/main/configure.cpp and src/common/configure_base.cpp
--   Keys                 src/common/private_key.cpp: the form of keys and addresses
--   Network              src/common/network.cpp: Peers and Timer have the class Network
--   Utils/Timer          src/utils/timer.cpp
--   Utils/Text           src/utils/strings.h: separators, blanks, letters, unsigned numbers
--   Strings              src/utils/strings.h: numbers, hexadecimal text, std::getline, substr, printf
--   Messages             src/proto and src/main/configure.h
--   Env                  everything outside the repository, as parameters
--   Prelude, Exec, Map   numbers and text, methods with state and faults, std::map
--   Tests                runs at concrete inputs
--
-- A method is a function from a state to an outcome: a result with the next state, or a fault. A fault
-- is an exception that nobody catches, or a step that C++ leaves undefined: a vector that is indexed
-- past its end, a loop that goes on from an erased element, a number that does not fit, an object
-- among the variable arguments of a log line. A result `false` with an output argument is `none`.
-- Numbers of type int64_t wrap around at 64 bits where the code computes with them. A range-for over a
-- map is recursion on the size that the map has at its start, which is enough for a body that adds no
-- entry to that map.
--
-- Parameters: the clock, httplib, jsoncpp, protobuf, RocksDB, base-n and the private keys. `DbLaws`
-- says of RocksDB that it accepts every write and holds what was put; `EncodingLaws` says of base-n
-- that it writes two hexadecimal digits for each byte, and of protobuf that it writes bytes;
-- `MessageLaws` says that protobuf reads back what it has written, `SeekLaws` that an iterator of
-- RocksDB visits every key from a given one on, in order, and `BatchLaws` that a batch is written
-- update by update. `Sockets` has the sockets below a Network and the methods of its subclasses, and
-- `SettingsApi` jsoncpp, AES and keys for the settings. Base58 is a parameter of `Keys`.
--
-- Not modelled: sockets and websocket sessions, cryptography, the process and its command line, the
-- web server, logging but for the arguments of a log line that may throw or are objects, the reading
-- of the settings' file, and locks: a method that holds one from its start to its end is one step, and
-- the locked parts of Network::OnMessage are steps of their own. The sweep of a Network's timer is a
-- definition, but not one of the steps of `Reach`.
pub mod Prelude
pub mod Exec
pub mod Map
pub mod Strings
pub mod Utils
pub mod Settings
pub mod Network
pub mod Keys
pub mod Messages
pub mod Env
pub mod General
pub mod Database
pub mod Transaction
pub mod WebClient
pub mod Glue
pub mod Tests
