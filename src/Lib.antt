-- ===== src/Lib.antt =====
-- A verification library for Attached: what crates/tunnel-protocol, crates/session-sync-protocol and
-- crates/session-sync-worker (Rust) read, write and store, and what crates/cli and
-- crates/herdr-plugin keep of the hosts that are published.
--
-- How the parts interact. A host publishes a host access descriptor: it is encoded as canonical
-- CBOR, encrypted into an envelope and put, through the synchronization service, into a row of its
-- account. A client downloads the envelope, decodes the descriptor and connects to the endpoint
-- that it names. Over that connection run the messages of the tunnel: the handoff of a
-- self-update, and the forwarding of TCP ports.
--
-- Tunnel (crates/tunnel-protocol/src/lib.rs, tcp_forward.rs): Tunnel/Wire has the constants,
-- AttachedVersion, write_attached_version, read_attached_version and ensure_frame_end;
-- Tunnel/Request and Tunnel/Response the two messages of the update handoff, with the writers
-- and the readers of the source under their names; Tunnel/Forward the TCP forwarding messages.
-- A `match` inside a reader is a function of its own (read_operation, read_status).
--
-- Stream: a tokio stream is an interface, AsyncRead or AsyncWrite on a state type, whose operations
-- are actions: state in, a result with the next state or an error out (Action). Delivers and Accepts
-- are the laws of a stream that holds given bytes; Stream/Slices shows that a byte slice and a byte
-- vector meet them. Errors of anyhow are the data type Error, one constructor per message.
--
-- Descriptor (crates/session-sync-protocol/src/canonical.rs, limits.rs): Descriptor/Cbor has
-- put_head and its kin and the operations of Decoder; Descriptor/Model validate, new and
-- encode_host_access_descriptor; Descriptor/Decoding decode_host_access_descriptor. The crates
-- chrono and iroh-tickets are the interface Outside, and ChronoLaws is what chrono documents.
--
-- Sealing (crates/session-sync-protocol/src/crypto.rs): keys, associated data, and the sealing and
-- opening of descriptors, over the interface Cipher for HKDF and XChaCha20-Poly1305; CipherLaws is
-- what the cipher documents of encryption and decryption, and does not speak of secrecy.
--
-- Api (crates/session-sync-protocol/src/api.rs): Api/Envelope has the envelope and its
-- constructor, Api/Wire its text form and parse_json over the crate base64 as the interface Base64,
-- Api/Sequence live record indexes, and Api/Sequence/Visitor the bounded visitor over the interface
-- SeqAccess of the crate serde.
--
-- Account (crates/session-sync-protocol/src/account.rs): Account/Bundles has owner bundles and the
-- bundles of one scope, over the interface Crypto for hashes and public keys; Account/Tokens
-- identifiers and bearer tokens as text.
--
-- Worker (crates/session-sync-worker/src/model.rs, storage.rs, api.rs): Worker/Account has stored
-- accounts, their 80-byte encoding and scope authentication, over the crate uuid as the interface
-- UuidCrate; Worker/Records has stored records and put. Worker/Records/History has the rows that
-- puts can leave as an inductive relation.
--
-- Worker/Storage: the state is the SQL tables, the records in the order of their keys. Each SQL
-- statement of the source is a function on the tables (Sql), with the constraints and the trigger of
-- initialize_schema; Rows has the reading of rows, and Operations initialize, load_account,
-- load_index, load_record and put_record. They are sequences of calls (Session), each of which may
-- fail: a storage holds the list of the outages that the next calls meet. A call that returned an
-- error leaves the storage as it was, and the rows of a statement that ran can be read. Writing has
-- what put_record promises, a finite map with a quota, and Runs the sequences of puts.
--
-- Worker/Http: requests with their headers and bodies as far as the handlers look at them, where
-- reading a header or a chunk may fail, read_bounded_body, and the responses. Worker/Handlers: the
-- handlers of an account object, each from a request and a storage to a response or an error of the
-- platform and the storage afterwards; fetched turns an error into the answer of AccountObject::fetch.
-- A request comes with the parameters of its path, as the router of the platform finds them.
-- Worker/Forward: the public Worker in front of the objects. The objects are a function from accounts
-- to storages; Platform is how the reader of a new request sees its bytes, and a call of an object
-- may be lost before or after the object served it (Fetch). Worker/Creation: issuance.rs and the
-- creation of accounts, four attempts over the accounts that are issued, behind the answer of the
-- rate limiter of the platform; the loop for two tokens recurses on the draws of the source of
-- randomness.
--
-- LocalEncryption (crates/cli/src/local_encryption.rs): the envelopes of local secrets over the
-- interface Aead; LocalEncryption/Keys the operator's password, the salt and the derived key, with the
-- two caches in a store beside the state of the world.
--
-- Catalog (crates/cli/src/sync/state_catalog.rs, refresh.rs): Catalog/Model has catalogs, validate,
-- host and the listing of hosts; Catalog/Merge how save_refresh reconciles a refresh with the
-- catalog that is stored, where Finding, Loop, Pointwise and Order have its lemmas; Catalog/Fetch
-- fetch_consistent_record over the interface Client, whose state is the world in which others
-- publish; Catalog/Store the encrypted file, over the interface Files of the file, the master key and
-- serde_json; Catalog/Refresh the refreshed catalog of refresh_unlocked_at, with where its records
-- come from in Sources, and Catalog/Refresh/Attachment the refresh of one selected publisher.
--
-- Herdr (crates/herdr-plugin/src/attached.rs, discovery.rs, state.rs): Herdr/Hosts has the snapshots
-- of the exporter; Herdr/Discovery the Reconciler and prune, Herdr/Polling poll and check, over the
-- interface World of the registry, the readiness of an alias, the state's file and the clock.
--
-- SyncHttp (crates/cli/src/sync/http.rs): the client of the service, over the interface Web of the
-- crates that it calls. SyncHttp/Reading has the parts of an answer, SyncHttp/Calls the four calls;
-- Revision, Bodies, Headers and Fetched what is read of an answer; Delivered and Published join the
-- client to the account object of Worker, whose answers the platform delivers whole (Carries);
-- Refreshing takes the client as the one of Catalog/Fetch; Accepted joins all this to Sealing and
-- to Catalog/Refresh, from a host to the catalog of a reader.
--
-- Maps: the ordered maps of these crates, association lists in key order; a set is a list.
--
-- Common: native numbers, lists, `Result`, big-endian words, decimal numbers and UTF-8, with their
-- lemmas.
--
-- Integers and bounds. Numbers are natural numbers; where the source works at a width, the model
-- writes the bound out: heads truncate to `u16` and `u32`, positions of the decoder are checked
-- against 2^64, revisions against 2^64 and then i64::MAX. usize has 64 bits, and 32 in the
-- Worker modules, whose platform is WebAssembly; decode_vec answers alike at both widths.
-- Numbers in SQL texts have at most 20 digits, enough below 2^64. Bytes are numbers, and a
-- theorem that needs them below 256 says so. The loop of the bounded visitor recurses on the
-- room that is left in its vector, and the attempts at a record on their number, three; no
-- definition needs other fuel. A client whose descriptor cannot be parsed again panics in the source;
-- the refresh then has an error of its own. Instants are in nanoseconds.
--
-- Not modelled: async scheduling (a message is one sequence of reads, a request runs alone on its
-- object), zeroizing of memory, Debug and Display forms, and JSON. Of crates/cli, the command line, the
-- server, the client and its broker, and the other files of its state; the records of a refresh are fetched
-- one after the other, where the source has up to eight in flight. Of the Herdr plugin, processes and
-- their lifecycle. The end-to-end tests, the URL router of the worker and its keys for the rate
-- limiter, the text forms of bundles and service origins have no module here.
pub mod Common
pub mod Action
pub mod Stream
pub mod Tunnel
pub mod Descriptor
pub mod Sealing
pub mod Api
pub mod Account
pub mod Worker
pub mod Maps
pub mod Catalog
pub mod LocalEncryption
pub mod Herdr
pub mod SyncHttp
