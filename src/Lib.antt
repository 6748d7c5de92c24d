-- ===== src/Lib.antt =====
-- A model of the JavaScript SDK of CuttleDB: the client that speaks the line protocol of the
-- database (adapters/cuttledb.js), the cluster of such clients (adapters/cluster.js), the
-- transport to an engine in the same process (wasm/cuttledb.mjs) and the HTTP client of the
-- search service (adapters/search.js). The database engine itself is a binary; the escape
-- contract of PROTOCOL.md stands for it here.
--
-- The client is a stack. A transport (`TcpTransport`, `WsTransport`) frames the bytes that
-- arrive into lines, gives each line to the promise that waits first, or to the listeners if it
-- is an event, and settles promises. The class `CuttleDB` makes one command line from each call,
-- awaits its answer, strips `+OK` or throws what `-ERR` reports, and reads the body with one of
-- the readers of the wire format. `Cluster` holds several such clients and chooses among them.
--
-- - Prelude, Text, Number: the shared names; JavaScript's strings as lists of UTF-16 code units
--   with `split`, `join`, `replaceAll`, `indexOf`, `startsWith`; printing and `parseInt(s, 10)`,
--   with the sign, NaN and the rounding of a double above 2 ^ 53. They model the language, not
--   the repository.
-- - Wire: the helpers at the end of adapters/cuttledb.js. Wire/Escape is `encodeValue` and the
--   row text of `insert`; Wire/Row is `splitWireRow`; Wire/Rowlist is `splitWireRows` and
--   `parseRowlist`; Wire/Body is the bracket test of the readers; Wire/Results reads the lists
--   of row ids, pairs, scores and log events of `find`, `findc`, `join`, `parseKnn` and
--   `parseLog`; Wire/Groups is `parseGroupBy`; Wire/Contract is the escape contract of
--   PROTOCOL.md, written independently of the code.
-- - Transport/Router: what the two transports share line for line: `_waiters`,
--   `_eventListeners`, the promises, `parseEvent`, `_failAll`. Transport/Tcp and Transport/Ws:
--   the two classes, each operation a function on the state; the socket is the list of calls
--   that it gets, and what it delivers comes as arguments (a chunk, a frame, a failure).
--   Transport/Connect is `connect`: the reports of the runtime on a socket, in their order, and
--   the promise that they settle. Transport/Tcp/Closed is about a socket that has closed.
--   Transport/Router/Queue is the specification, a first-in-first-out queue of promises, and
--   Transport/Router/Events that of one listener.
-- - Client: the class `CuttleDB` over any transport, which is a record of `send` and `sendBatch`
--   on a state (Client/Exec). Client/Send is `_ok`, `send` and `sendBatch`; Client/Session the
--   constructor and `connect`; Client/Schema the tables and handles with `parseKv`; Client/Rows
--   the rows; Client/Queries the lookups, searches and the log; Client/Grouping is `groupBy`;
--   Client/Transaction the transactions. Client/RoundTrip and Client/Transaction/Atomic state
--   what they need of a server as hypotheses. Client/Simulation is the interface between client
--   and transport: what a transport has to do so that the methods do over it what they do on the
--   server; Client/Methods carries `insert`, `get` and `transaction` over it. Client/KeyValues
--   is about `info`. Client/OneLine is about the line that a command with cells takes.
-- - Link: a transport with a server at its other end. The server is a parameter: it answers each
--   line and may send events before. Link/Tcp and Link/Ws join `TcpTransport` and `WsTransport`
--   to it, with the cutting of bytes into chunks, and of lines into frames, as parameters;
--   Link/Wasm finds the server in the module's memory. All three are set against the interface
--   of Client/Simulation. Over WASM there are no events. Link/Flight has many calls in flight
--   over one connection, `send` and `sendBatch` alike: a step relation in which the client
--   calls, the server reads a line or sends an event, what it sends is cut into chunks
--   (Link/Flight/Tcp) or put into frames (Link/Flight/Ws) and arrives, and listeners come and
--   go, in any order. It is set against the server that takes the calls one after the other;
--   Link/Flight/Due is the part of the invariant that the two transports share. Link/BatchInsert
--   sets `insertBatch` beside a loop of `insert`. Link/Injection is about a newline in an
--   argument. A promise that nothing has settled when the server has answered would hang; there
--   the model gives an error.
-- - Cluster: adapters/cluster.js. The clients that it makes are known by their numbers, and
--   their `close` by its calls. Cluster/Hash is `fnv1a` with JavaScript's 32-bit operators;
--   Cluster/Write is `writeToAll`; Cluster/Routing and Cluster/Lifecycle hold the theorems on
--   routing and on the clients.
-- - Crypto: `FieldCipher` and `encRow`; Crypto/Rows is `insertEnc`, `insertBatchEnc` and
--   `getDec`, and Crypto/Carried has them over a transport. node:crypto and Buffer are a
--   parameter.
-- - Wasm: `WasmTransport` of wasm/cuttledb.mjs, whose code adapters/wasm/cuttledb.mjs repeats,
--   as an instance of the transport that Client/Exec asks for; the module that Emscripten builds
--   is a parameter. Wasm/Memory has the calls that it gets for its memory.
-- - Search: adapters/search.js, the HTTP client of a separate service. Search/Values is what it
--   does with parsed JSON, Search/Form the query that `URLSearchParams` writes; `fetch` and
--   `JSON.parse` are parameters, and the network is a state that `fetch` changes.
-- - Tests: the model at concrete inputs.
--
-- Promises are numbers, in the order of their making, and a settlement is an entry of a log;
-- only the first settlement of a promise counts, as in JavaScript. A callback is a number and
-- its calls are recorded; callbacks return, and do not call back into the client while a line is
-- routed. Transport/Router/Throws and Transport/Tcp/Throws have the loop over the listeners and
-- `_onData` when a callback throws. The loop of `_onData` runs on fuel, the length of the buffer
-- plus one: each round takes at least a newline off the buffer. The loop over a group's entry
-- runs on the length of the entry. The loops of `parseInt` and of printing run on fuel that is
-- the number itself. Ids are natural numbers below 2 ^ 53, which JavaScript prints in decimal;
-- the integers that `groupBy` prints may be any, and Number/Print is how they print; values,
-- operators and thresholds come as the strings that `String` gives for them.
--
-- Not modelled: sockets and the import of node:net, TextDecoder (a parameter), `info` of the
-- cluster (the order in which promises are rejected), the parsing of floating-point numbers (a
-- parameter where a reader uses it), node:crypto, the engine that the WASM transport runs, and
-- the Python adapter, which is a second implementation of the same client.
mod Prelude
pub mod Text
pub mod Number
pub mod Wire
pub mod Transport
pub mod Client
pub mod Link
pub mod Cluster
pub mod Wasm
pub mod Crypto
pub mod Search
mod Tests
