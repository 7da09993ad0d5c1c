-- ===== src/Lib.antt =====
-- The network core of the engine, its script machine, its hashes and readers of its files: what goes
-- over a connection, how it is cut into frames and put together again, what a replay file begins with,
-- what the COB bytecode of a unit does to its pieces, what a login hashes, and how scenario files and
-- archives are read.
--
-- - Common: shared names, tests on native numbers, lists measured by them, bytes and words, and
--   `int32_t` as a 32-bit pattern.
-- - Net/Wire: `Writer` and `Reader` of src/net/protocol.h as a monad over the bytes that are left and
--   the flag `ok`; RoundTrip and Lawful hold the laws that compose over a whole message.
-- - Net/Command: `Writer::cmd` and `Reader::cmd` of src/net/protocol.cpp.
-- - Net/Bundle: the payload of a tick, written by `closeTick` of src/server/server.cpp and read by
--   src/net/client.cpp; the payloads of PlayerCommands and StateHash.
-- - Net/Conn: src/net/conn.h and conn.cpp. `send`, `flush_write`, `recv` and `poll` are functions on
--   the record of the two buffers; what the socket answers is a list of answers, one for each call, and
--   `recv` returns those that it has not asked for.
-- - Net/Relay: one player's commands from the outbox and the send limits of src/client/gameview_net.cpp
--   through the queue and the bundle of src/server/server.cpp and back; Flow is the step relation.
-- - Net/Referee: `checkHashes` of src/server/server.cpp, the judgement of the reported state hashes.
-- - Net/Replay: src/net/replayhdr.h and the head of `loadReplayFile` in src/client/replayfile.cpp.
-- - Cob/Vm: src/cob/vm.h and vm.cpp. `exec` is one function for the opcodes, `step` fetches and
--   decodes, `run` is a slice, `tick` a tick with the animation sweep, `call` a query.
-- - Crt: src/crt/crt.h and crt.cpp. Fields, Records and Stored hold the laws of a field, of a record of
--   fixed size and of a parser that may fail; a parser takes the bytes from its offset on.
-- - Crypto: src/net/crypto.h and crypto.cpp. The file itself is SHA-256, Mac is HMAC and PBKDF2, Hex is
--   `equalCT`, `toHex` and `fromHex`; Streaming and Reference are about SHA-256, Keys about Mac.
-- - Auth: src/net/auth.h and auth.cpp; Login is about the proof and its check, Transcript about
--   `authMessage`. Auth/Session is `Server::authMsg` of src/server/server.cpp, Auth/Handshake
--   is `onFrame` and `handshake` before it; Entry, Nonces, Admission, SignIn
--   and Exchange are about them, the last two with what src/net/client.cpp sends.
-- - Accounts: src/server/accounts.h and accounts.cpp, with the answers of the clock and of the file system
--   as arguments; Names is about `AccountStore`, Locks and Streaks about
--   `LoginThrottle`. File is `load`, the text of
--   the accounts file, with numbers read by a `long` of 64 bits; Loading is about it.
-- - Hpi: src/hpi/hpi.h and hpi.cpp. The file itself has the mask, the LZ77 decompressor, a chunk and
--   `Archive::read`; Tree has the directory walks. A throw is an outcome, and so is fuel that is spent.
-- - Examples: concrete inputs on which the theorems are used.
--
-- The parts meet in the bytes: a bundle's payload is the payload of a frame, a frame's bytes are what
-- one `Conn` queues and the other polls. A login hashes with Crypto, and the accounts keep its
-- credentials.
--
-- Numbers are natural numbers, with the wrap-around of a width written out; a float on the wire is
-- its bit pattern; the floats of the script machine, the Mersenne Twister and the hooks that answer
-- are parameters (Cob/Vm/Env), as are the float comparison of a scenario's version and zlib. A run
-- of bytecode takes at most 5000 rounds and a query at most 64 slices, the limits of the source,
-- which end both loops. A loop over bytes has the length of its input as fuel, since each round
-- takes a byte at the least; `walk` has no limit in the source and takes its depth as an argument.
-- What C++ leaves undefined (a read past the code or the pieces, a division that overflows) is a
-- fault without a result. A hook that calls back into the machine, system calls, random bytes,
-- the writing of the accounts file, the header and the packer of archives, and the rest of the server,
-- client and simulation are not modelled.
pub mod Common
pub mod Net
pub mod Cob
pub mod Crt
pub mod Crypto
pub mod Auth
pub mod Accounts
pub mod Hpi
pub mod Examples
