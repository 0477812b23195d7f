-- ===== src/Lib.antt =====
-- The core of cold.watch: from the bytes of a node's messages to the alerts on watched coins.
--
-- A node publishes raw transactions (on entry to its mempool) and raw blocks, each with a number.
-- The ingest checks the numbers, parses the bytes, compares what moves with an index of watched
-- scripts and owned coins, alerts, and writes to the index only what a block confirms. The index of
-- the service is a database of tenants, items and channels. The files follow the packages:
--
-- - Match/Sequence: src/coldwatch/match/sequence.py. The record `SequenceTracker` holds the state per
--   topic and the flag for a reconciliation pass; `observe`, `flag_for_reconciliation` and
--   `reconciled` are its methods. Detection and Counters hold its laws.
-- - Match/Tx: src/coldwatch/match/tx.py. A method of the reader is a function of the buffer and a
--   position to a value and a new position, or to a `MalformedTransaction`. Wire says independently
--   what the bytes of a transaction are; Ensures and Loops say what each part of the parser promises
--   on any bytes, Reads and RoundTrip what it reads back.
-- - Match/Block: src/coldwatch/match/block.py, in the same way. `struct.error` is an outcome of its own,
--   since no handler of the program names it.
-- - Match/Keys: src/coldwatch/match/keys.py.
-- - Match/Index: the protocol `WatchIndex` of src/coldwatch/match/matcher.py as an interface with laws
--   (Contract), and the dictionary index (Memory); Items holds the lists of item ids.
-- - Match/Provisional: `ProvisionalOutpoints` of the same file, the coins of the mempool.
-- - Match/Matcher: `Matcher`, over any index that keeps the contract: Reports on `match`, Record on
--   `apply`, Alarm on both in a row.
-- - Match/Stream: src/coldwatch/match/stream.py: `SeenTransactions` (Seen) and `StreamIngest`. A method
--   takes the state of the ingest and returns its outcome, a value or an exception, with the state
--   that it leaves. The generator of the hook is the data type `Owed`. Folds says what a pass over
--   blocks makes of the matcher, Flag, Alerts, Writes and Returns follow the methods.
-- - Subscribe: src/coldwatch/subscribe.py. A pass of `poll_once` is what the two sockets give until they are
--   empty; Outcomes, Drain and Passes compare it with the `run` of the ingest.
-- - Reconcile: src/coldwatch/reconcile.py. `ChainFollower.blocks_to_apply` as the hook of the ingest:
--   Chain on what it fetches, Repair on what it yields, Ingest on both together.
-- - Crypto: src/coldwatch/crypto. ChaCha20 on lists of 16 words, Poly1305 on numbers, and Aead, whose
--   `seal` takes the nonce that it draws as an argument.
-- - Storage: src/coldwatch/storage. Rows holds the tables of schema.py as a record, Tables and Coins
--   what SQL does with them. Under Store, Watches, Items, Channels and Index hold the methods of
--   `Store`: each returns its outcome with the database that it leaves, which `transaction` rolls
--   back where its body raises. Contract makes the store an index for the matching loop. Steps says
--   independently what a call may do to the database; below it, Taken shows that the calls keep to
--   it, Valid says when a database is in order and Sound that every step keeps it so, Life has the
--   statuses of an item, Histories what holds after any row of calls, Sealed what the ciphertexts give
--   back, Holding when an item keeps its coins, Activation and Removal `activate` and the purge.
--   A body of `with self._db` is a function to its outcome and what it has written, which is kept
--   where the body returns. Alarm runs the matcher over the store, with calls between transactions.
-- - Node: src/coldwatch/node. Json says what the values that `json.loads` returns answer to the built-in
--   operations; Rpc is `BitcoinRpc.call` from the body of the response on; Scan reads the answer to
--   a scan. Supervisor is `ScanSupervisor` of supervisor.py, with its queue and its futures (Futures); in
--   Worker, the worker thread is a state machine, whose phases are the places between its calls
--   of the queue and of the node. Events puts the methods of the callers, the steps of the worker
--   and the two steps of `close` in any order. Below them, Outcomes, Groups and Delivery say
--   what the loops over requests do to the futures, Holds, Served and Kept carry the invariant,
--   Settings, Invariant, Bounds and Closed hold over any row of events, Progress, Serving and
--   Closing bound the steps of the worker, Asked, Answers and Results are on a scan and its end.
-- - Nostr/Nip44: src/coldwatch/channels/nostr/nip44.py, over the base64 of Nostr/Base64. Padding has the
--   length of a padded plaintext, RoundTrip what `decrypt` makes of a payload.
-- - Base: numbers, integers, lists, bytes, dictionaries and results.
--
-- SHA-256 and HMAC-SHA256 are parameters of the definitions that call them. What is asked of them is
-- said at each theorem: 32 bytes where a length or an encoding depends on them, nothing elsewhere. The hook
-- that fetches missing blocks is a parameter of the ingest. The calls of the node are a parameter of
-- the follower: each gives an answer or a fault and changes a state of its own. The callback on
-- anomalies is a list of what was announced: it is taken to return. Coins and scripts are compared by
-- their keyed hashes, as the program does. Tokens, nonces and the day are arguments of the methods of
-- the store, and so is how the database answers `VACUUM` and the checkpoint; the lock makes every
-- method one step, and calls come between transactions of the loop, not inside one. Labels and destinations are their UTF-8 bytes, and an id fits SQLite's integers.
--
-- The node's reply to a call is an argument of the step that needs it, and so is whether the wait that the
-- worker is in has run out. What `int` makes of a text is a parameter, and a float is known by what
-- `int` and `bool` make of it. `submit` is two steps of the supervisor, its test of `_closed` and its
-- put, since no lock keeps a `close` out between them; another method of a caller is one, and so
-- are the flags, the sentinel and the abort of `close`. The worker, too, takes a step between
-- the test of `_stopping` and the call of the node. The wait of `close` for the worker may
-- time out: its second step can come at any time. A worker that `start` makes once the
-- supervisor is stopping returns at once and is not told apart from the first.
--
-- A byte is a number below 256, and the fields of 32 bits are bounded where the code tests them.
-- The parsers recur on the counts that they read. The loop of `hkdf` has the length asked for plus
-- one as fuel: each pass adds the 32 bytes of a hash.
--
-- The loop of `_hkdf_expand` has the same fuel, and `floor_log2` halves a number of at most 64 bits.
-- The loops of the cipher and of the tag have a pass for each block of 64 or 16 bytes begun.
--
-- Not modelled: opening and closing the database file, and its table `outbox`, which no method of the
-- store touches; the connection and the credentials of the RPC client, and the handlers that call
-- `close` on a signal or at exit (src/coldwatch/node); the sockets (src/coldwatch/subscribe.py) and the
-- rest of the channels (src/coldwatch/channels), of which only `Direction` is used by the
-- matcher; in nip44.py, the multiplication on the curve.
pub mod Base
pub mod Match
pub mod Reconcile
pub mod Crypto
pub mod Storage
pub mod Nostr
pub mod Node
pub mod Subscribe
