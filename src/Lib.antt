-- ===== src/Lib.antt =====
-- OwnTransit: an outbound-only tunnel for SSH. A connector behind a firewall keeps a control connection
-- to a relay; a client asks the relay for a session on a route, the relay asks the connector for a data
-- connection, and when it arrives the relay joins the two. Inside the tunnel the peers hold a short lease
-- on each other's authorization, and each side can end it at once.
--
-- The files and the code, with paths from the root of the repository:
--
-- Protocol (internal/protocol/protocol.go, ready.go): the frames that all parts exchange. `read_frame` is
--   ReadFrame, `encode` the bytes that WriteFrame hands to `writeFull`, which is `write_full`; `read_ready`
--   is ReadReady. A reader is the list of the bytes that arrive before it ends.
-- Identifiers (internal/protocol/id.go): parseID, with encoding/base32 as a parameter.
-- Backoff (internal/connector/limits.go): nextBackoff and jitterDuration.
-- Limits (internal/config/config.go): RelayLimits, ConnectorLimits, their defaults and `validate`.
-- Relay (internal/relay/service.go): the fields of Service that its mutex protects, and one function for
--   each operation on them: beginPending, joinData, finishActive, cancelPendingKey, cancelPendingItem,
--   resolvePendingLocked, installControl, removeControl, and in Relay.Bucket allowOpen and
--   consumeClientCarrier. Relay.Steps lets them follow each other in any order, as the goroutines of the
--   relay do; a joined pair ends once. A control and a pending item have an address, which stands for the
--   identity of the Go pointer; the channel `resolved` of an item is the list of what was sent to it.
-- Lease (internal/leasewire/conn.go, wire.go): the fields of Conn that its mutex protects. Lease.Wire is
--   the frames, Lease.Clock the two clocks and `authorized`, Lease.Control the challenges and grants, and
--   Lease.Loops a pass of each goroutine and the critical sections of a pass, which `run` puts in any order. Lease.Moves splits every step
--   into elementary changes, on which the invariants of Lease.Authority, Lease.Readiness, Lease.Terminal and
--   Lease.Replay rest. Lease.Handshake has the frames that two connections exchange, field by field.
-- Guard (internal/sessionguard/sessionguard.go): the idle and lifetime deadlines of a joined stream;
--   `touch` is touch, `after_read` what a Reader does after a read.
-- PairRelay (internal/pairrelay/relay.go, types.go, inventory.go): the receivers that wait at the pairing
--   relay, as one pool of either kind: enqueueLeg, removeLeg and takeLeg, the active pairs with
--   acquireActive and releaseActive, the deadlines, and normalizeLimits over the values in its order.
--   PairRelay.Lifecycle has both pools with the admissions: RemoveAdmission and Close, as far as they touch
--   these, and the steps of the relay. Close leaves the counters as they are.
-- PairRelay.Wire (internal/pairrelay/wire.go): `read_bounded_wire_frame` is readBoundedWireFrame, and the
--   preface and the payload of a token and a blob have their names. `encode_wire_frame` is the bytes that
--   writeWireFrame hands to the writer.
-- PairRelay.Token (internal/pairrelay/token.go): the route tokens. `seal_token`, `open_token`,
--   `verify_token`, `issue_token` and `renew_token` are the functions of these names, with HMAC-SHA256 as a parameter.
-- Signing (internal/signing/signing.go): Sign, Verify, the message they make of a domain and a payload,
--   KeyID and ValidateKeyID; SHA-256, base 64 and Ed25519 are parameters.
-- ReleasePolicy (internal/release/policy.go): the policies, the anchor, VerifyPolicyAdvance,
--   VerifyPolicyAtAnchor and AuthorizeRetainedRelease. A `Codec` holds the packages that the code calls,
--   with JSON (internal/strictjson and encoding/json). `Advances` is a chain of accepted policies.
-- Manifest (internal/release/manifest.go): `validate_manifest` is Manifest.Validate, loop by loop, with the maps of seen
--   names as lists. Manifest.Names is the tests on texts, the regular expressions among them; Manifest.Matrix the
--   artifacts of a release; Manifest.Install the signed form and VerifyForInstall.
-- Packages (internal/packagetxn/decision.go, and of transaction_unix.go the tests that it uses): the files of a decision with
--   `validate_decision_files`; Packages.Records is the receipts, the decisions and `decision_from_receipt`, and Packages.Verified
--   verifyDecision, with release.VerifyBundleForInstall as an argument.
-- Prelude: lists with native lengths, results, tables with keys, big-endian numbers, readers, fields and
--   texts.
--
-- The parts meet in the data: Relay takes its limits from Limits, and the identifiers of its keys travel
-- in the frames of Protocol; a route token opens as the claims under which PairRelay keeps its legs;
-- ReleasePolicy verifies with Signing and reads ids with Identifiers; Manifest installs a release under a
-- policy that ReleasePolicy has verified; a lease runs inside a session that Relay has joined.
--
-- Times and durations are natural numbers of nanoseconds: an Instant of Lease has the monotonic and the
-- wall reading of a Go time, which move apart, and Relay and Limits use one reading. Negative durations,
-- which the validation refuses, do not occur. `write_loop` runs on fuel, one unit for each byte that is
-- left, which is enough since every turn that goes on takes a byte. All other functions are structural.
-- Counters are natural numbers, so a decrement stops at 0.
--
-- What is not modelled: TLS and the authentication of peers (a connector's pin and a client's name are
-- arguments), the copying of bytes between joined connections, the random source (a nonce is an
-- argument), the digests of a lease's binding, the read and write deadlines of a lease's connection, and
-- the programs, the rest of the pairing and the enrollment around these parts. Of the installation, the
-- decisions are modelled and the transaction on the file system is not; making a signed manifest or policy
-- (Sign, SignPolicy) is not modelled either. A relay or a service that is not there (a nil pointer) and the
-- zero time do not occur.
pub mod Packages
pub mod Manifest
pub mod Signing
pub mod ReleasePolicy
pub mod Identifiers
pub mod Backoff
pub mod PairRelay
pub mod Guard
pub mod Lease
pub mod Prelude
pub mod Protocol
pub mod Limits
pub mod Relay
