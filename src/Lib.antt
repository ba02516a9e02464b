-- ===== src/Lib.antt =====
-- MinBFT: the core of a Byzantine fault-tolerant replica that orders the requests of clients.
--
-- A replica's stack hands it messages of clients and of the other replicas
-- (core/message-handling.go). A message is validated, the messages embedded in it are handled
-- first, and a certified message is processed if its counter, which the sender's trusted
-- component (USIG) assigned, is the next one of that sender. A Request is captured once per
-- sequence number (core/request.go, core/internal/clientstate); the primary of the view proposes
-- it in a Prepare, the backups answer with Commits, and the commitment collector (core/commit.go)
-- finds out when enough replicas have committed to a proposal, which is then executed. A timeout
-- makes a replica ask for the next view (core/timeout.go); enough ReqViewChange messages are a
-- certificate to start the change (core/req-view-change.go), enough ViewChange messages a
-- certificate for the new primary's NewView (core/view-change.go, core/new-view.go).
--
-- Files:
-- - Base: names of the libraries that the others share, Boolean tests, lists, counting, and
--   Base/Result for what a Go function returns.
-- - Messages: messages/api.go, the messages as data with their getters.
-- - Commitment: core/commit.go, makeCommitmentAcceptor (accept_commitment), makeCommitmentCounter
--   (count_commitment), and makeCommitmentCollector under its lock (collect). The children prove
--   what a report of the collector means; Commitment/Decisions and Commitment/Advance are about
--   the order in which proposals are decided, Commitment/Agree compares two collectors.
-- - ClientState/Seq: core/internal/clientstate/request-seq.go, the methods on the four marks;
--   ClientState/Seq/Threads has goroutines that call them, interleaved at the mutex.
-- - ClientState/Reply: core/internal/clientstate/reply.go, the last Reply and the passes of a
--   channel that waits for one.
-- - ClientState/Provider: core/internal/clientstate/client-state.go and timeout.go, the map of
--   clients' states, and a state's timers.
-- - ViewState, RequestList: core/internal/viewstate and core/internal/requestlist.
-- - ViewChange: the validators and collectors of core/view-change.go, core/new-view.go and
--   core/req-view-change.go.
-- - NewView/Extract: extractPreparedRequests of core/new-view.go; NewView/Sizes, NewView/Levels
--   and NewView/Returns are about its recursion, NewView/Kept about the requests that it keeps,
--   NewView/Survives about those that were committed before.
-- - Timer: the delays of the view-change timer, core/internal/backofftimer.
-- - Usig: the binary form of a UI, usig/usig.go. Usig/Sgx: usig/sgx, the enclave's counter, and
--   creation and verification of identifiers.
-- - MessageLog: core/internal/messagelog/messagelog.go, the log with a goroutine that streams it.
-- - Protobuf: messages/protobuf, messages to the generated structures and back (Protobuf/Parse).
-- - Authen: messages/authen.go, the bytes of a message that are authenticated; Authen/Content
--   says what they are to mean.
-- - Auth: sample/authentication/crypto.go, the tags of messages that the sample makes and
--   verifies.
-- - Keys: sample/authentication/keymanager.go, the key store; Keys/Parse loads it, Keys/Generate
--   makes the keys of a test network, and Keys/Loading, Keys/Pairs, Keys/Generated, Keys/Testnet
--   and Keys/Loads follow them into the store. Keys/Authenticator is
--   sample/authentication/authenticator.go, which picks a scheme and a key for each role;
--   Keys/Tags and Keys/Schemes are about a replica's.
-- - Ledger: sample/requestconsumer/simpleledger.go, the blocks of the sample application.
-- - Streams: the streams of bytes of a replica (makeMessageStreamHandler and the handlers of
--   clients, Hellos and peers in core/message-handling.go, HandleMessageStream of
--   core/replica.go), around a Node; Streams/Run has what a stream sends, and runs of events.
--   Streams/Lasting, Streams/Phases, Streams/Handled, Streams/Steps and Streams/Answered are
--   about what clients are sent, Streams/Others and Streams/Ended about a stream that is dropped,
--   Streams/Drained is about the logs that go out to a peer, Streams/Peers is
--   startPeerConnections with the Hello that each connection begins with, Streams/Started what
--   New returns.
-- - Client: client/request.go and client/message-handling.go; Client/RequestBuffer and
--   Client/Supply are client/internal/requestbuffer, Client/Collect is collectReplies.
--   Client/RequestStream is the goroutine that supplies a replica with requests, as a step
--   relation; Client/Streaming and Client/Streamed are about what it sends. Client/Incoming has a
--   client that makes one call of Request after the other and reads the bytes from replicas;
--   Client/Held, Client/Correct and Client/Wire are about its results, Client/Crash about its
--   panics.
-- - Replica: the state that the handlers share, and how they are composed. Replica/Requests has
--   the life of a request, Replica/Commits the appliers of Prepare, Commit and NewView,
--   Replica/Views view checks and view changes, Replica/Validate the validators, Replica/Process
--   the order of counters and the embedded messages, Replica/Run sequences of events.
--   Replica/Setup has the certificate sizes that New makes of n and f. Replica/Keeps,
--   Replica/Changes, Replica/Handlers and Replica/Embedded carry a property of the state from the
--   elementary changes to all handlers; Replica/Once, Replica/Order and Replica/OwnLog use them,
--   the last with Replica/Entries and Replica/Starts for the log.
-- - Node: a whole replica, which is the state of Replica with what the handlers hand to others:
--   the application's results and the Replies made of them, the logs for single peers, the
--   requests that are forwarded when a prepare timer expires, the expiration of all timers, and
--   the logs that a Hello asks for. Node/Core is about events that do not touch them,
--   Node/Executed, Node/Answers and Node/Replies about Replies, Node/Forwards and Node/Forwarded
--   about forwarding.
--
-- Choices. Numbers are the native ones; the increment and decrement of a uint64 wrap around
-- (inc64, dec64). A Go map that is read with its zero value as the default is a function; the
-- request list is a list in the order of insertion. An error keeps its kind and the contexts
-- around it, not its text, and a panic is a result of its own. A section under a lock is one
-- step; the replica model handles one event after the other, so a call that would have to wait
-- for another goroutine returns the error would_wait instead. The application's authenticator,
-- the certificates of the local USIG and the signatures are fields of Replica.Config, functions
-- about which nothing is assumed but that they return; the sample's check of a signature may
-- panic, which only the client's model has (Client.ClientConfig).
--
-- Fuel. extract counts the levels of certificates that it descends into; extract_prepared gives
-- one more than the size of the certificate, and each level is inside a message of the one
-- before. Everything else is structural recursion.
--
-- Not modelled: handlers of one replica that run at the same time, overlapping calls of a
-- client's Request, the channels and goroutines of connections, of the USIG's enclave its loading
-- and the sealing of its key, and of the sample application (sample) the commands, the
-- configuration and the connections. Of the sub-messages that may be absent on the wire only a
-- Commit's proposal is modelled, not the Request of a Prepare. The protocol-buffers library, the
-- YAML and base64 forms of key files, the hash, and other cryptography are parameters. The forms
-- of messages that are printed (messages/utils.go), generated code, mocks and logging have no
-- behaviour that the protocol depends on.
pub mod Base
pub mod Messages
pub mod Usig
pub mod ClientState
pub mod ViewState
pub mod RequestList
pub mod MessageLog
pub mod Timer
pub mod Commitment
pub mod Auth
pub mod Authen
pub mod Client
pub mod Keys
pub mod Ledger
pub mod NewView
pub mod Node
pub mod Protobuf
pub mod Replica
pub mod Streams
pub mod ViewChange
