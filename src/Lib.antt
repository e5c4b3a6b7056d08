-- ===== src/Lib.antt =====
-- Verification of ggrok, a relay that joins a publisher (share) and its subscribers (listen) through
-- mutually authenticated connections, whose tunnelled bytes only the two ends can read.
--
-- A peer opens every connection with a kind byte. A control connection then carries a Hello, the
-- publisher's proof that the session is its own, relay's answer, and control frames; a data connection
-- carries an Attach, after which relay splices the subscriber's to the publisher's and the two ends
-- authenticate each other and exchange sealed frames.
--
-- - Prelude: tests, lists, results, byte strings and maps that all parts use.
-- - Proto (internal/proto): Io is a connection with what it has to read and takes of ours, and the Go
--   functions over it as actions that may fail (ReadFull, writeFull). Hello, ConnKind, Attach, Control
--   and Admin are the messages of the files of those names. Crypto has the credentials of crypto.go,
--   Token the texts of token.go, Claim the publish claim of claim.go and the Handshake of hello.go, Auth
--   the NewAuthenticatedConn of auth.go, Frames the EncryptedConn of frame_conn.go.
-- - Relay (internal/relay): Session is session.go, one function for each critical section of the lock,
--   and Session/History any sequence of them. Registry is registry.go: the sessions are references into
--   a heap, and Register, Subscribe, Kill and the attaches are functions of the registry. Connections
--   is connections.go, the set of sockets that an eviction closes, and Connections/Policy any sequence
--   of calls on it. Server is relay.go: handleConn with the switch on the kind, handleDataConn, and
--   handleControlConn up to its heartbeat loop.
--   Registry/Broker is what the registry promises of its SessionIDs alone, Admin is admin.go with the
--   reload of the revocation list, and Heartbeat the heartbeat loop of relay.go.
-- - Peer (internal/peer): Reconnect is the Serve of reconnect.go over the attempts that it makes,
--   Session the connections that session.go dials, Control the loop of control.go, and Slots the channel
--   that limits the tunnels of a peer.
-- - Listen (internal/listen/listen.go) and Share (internal/share/share.go): the data planes of a
--   subscriber and of a publisher. Listen is a state that interleaved steps change, and uses Slots.
-- - Splice (internal/streamio/splice.go): the two directions of a splice and their counter.
-- - Ca (internal/ca/ca.go): Serials has the texts of serials and the list of the revoked, Directory the
--   files of issued and revoked certificates, with Store and Revoke, and Issue the certificates that are
--   signed. Files is the model of a directory's files.
-- - Mtls (internal/mtls/mtls.go): the set of revoked serials, and what a handshake does with it.
--   Mtls/Enforcement and Relay/Admin/Reload follow a revocation from the authority to relay.
-- - Cmd (cmd/ggrok): Credentials is credentials.go, Settings config.go and secrets.go, Color color.go,
--   and Status the reporter of failures in status.go.
-- - HostPort (internal/hostport.go): host:port pairs and port ranges.
-- - Examples: concrete inputs for the theorems, with a toy instance of the cryptographic primitives.
--
-- Parameters: the cryptographic primitives (Proto/Crypto, Primitives) with the laws that their packages
-- document (Lawful), the JSON encoder of admin payloads, base32, the standard library's parsers of
-- addresses and numbers (HostPort, Net, and its Lawful), x509's signing (Ca/Issue), whether a line fits
-- the scanner of a revocation list, filepath.Join and the home directory (Cmd/Settings), and everything
-- that comes from outside: the random bytes, the time, whether a write to a peer or a file succeeds,
-- what the TLS dialer gives, when a context ends, and what a certificate check gives.
--
-- Bounds: a number has the width of its Go type where it is written or counted (16-bit ports and
-- lengths, 64-bit counters, which wrap as in Go). A history is of fewer than 2 ^ 64 calls, so that no
-- counter of a session wraps. Fuel: the loop of Write takes a byte of the text in every round, and the
-- loop of Read takes a byte of the connection in every frame, so the fuel given is enough; the two
-- loops on a control connection read five bytes at least in every round.
--
-- Not modelled: TLS, X.509 and PEM, the buffers and copying of io.Copy, deadlines and timers,
-- logging, the accept loop of relay, and the commands of cmd/ggrok with what they print.
pub mod Prelude
pub mod Proto
pub mod Ca
pub mod Mtls
pub mod Listen
pub mod Share
pub mod Splice
pub mod Cmd
pub mod Relay
pub mod Peer
pub mod Examples
pub mod HostPort
