-- ===== src/Lib.antt =====
-- Skarbiec hands a secret out only on someone's authority. This library models the part of it that
-- decides: the capability broker, the register of access requests, the acquisition bearers and the
-- grants that they rest on; the audit journal, which every such operation is written to; and of its
-- own cryptography the OpenPGP packets and the radix-64 text in which keys and items are kept, and
-- the big numbers that signatures are verified with.
--
-- The parts and how they interact.
--   A person issues a capability (`grant capability`, src/access/capability/issue.rs), a bounded
--   right to one resource. A workload redeems it on the broker's socket
--   (src/access/capability/redeem/request.rs) with a proof by the key that a live consumer grant
--   registers for it. Both write the capability journal (journal.rs, state.rs).
--   An agent files an access request (src/access/request/file.rs), a decider approves, denies or
--   withdraws it (decide.rs), and an approval with enough deciders behind it issues a capability
--   through the same `issue`, a standing consumer grant, or nothing.
--   A registered workload gets a bearer for one field (src/access/acquisition/mod.rs) under a live
--   acquire grant, and reads the field once.
--   A grant's capabilities are parsed by the rules of their actions (src/access/actions.rs,
--   src/access/grant/rules/capabilities.rs).
--   Every operation appends a line to the audit journal (src/runtime/audit), whose lines are chained
--   by their hashes through files that are closed day by day; `audit verify` reports on the chain.
--
-- The files.
--   Prelude: Boolean tests, lists, the result type, text as the code reads it (split_once, split,
--     trim, strip_prefix, the parsing of u64 and NonZeroU64), decimal printing, maps by text.
--   Access/Grant: a stored grant, `active`, `acquisition_grant`; Action and Rules are `Action` and
--     `parse_capabilities`. Rules/Target and Rules/Shape say what a target and a spelling have to be
--     without the code's tables, Rules/Spelled how a parsed one is printed, Rules/Parsed what
--     passes.
--   Access/Capability/State, Journal: the state, `forget_stale`, `redeemable`; `replay`, `apply`,
--     `load_state`, `save_state`, `save_entry`. A disk is the journal's values and whether bytes
--     that do not parse follow them.
--   Access/Capability/Request, Redeem: the line from the socket, `shape` (the checks of its members),
--     the signed `payload`; `handle` of redeem/request.rs is handle, redeem, serve, check,
--     read_value, hand_over and spend, in its order, each early return a value.
--   Access/Capability/Issue, Challenge: `issue`, `live`, `active_count`, `challenge_put` with its calls
--     of the vault and their outcomes; Challenge/Saved is about the item it saves.
--   Access/Capability/Trace: histories of requests and issues as lists of events.
--   Access/Request/Lifetime, Register, Decide, Answer, File: `Lifetime`, `find` and the write through
--     its reference, `authorize`, `uses_for`, `issue`, `approve`, `close`, `Filing::from_flags`,
--     `file`; File/Same and File/Answered tell a reused request from a new one, Trace has the
--     histories of the register.
--   Access/Acquisition/Proof, State, Issue: the names, the signed bytes, `purge_expired`, `issue`,
--     `consume`; Trace has the histories of bearers asked for and presented.
--   Crypto/OpenPgp, Base64: the packet reader and writer of crates/crypto/src/openpgp/mod.rs, and
--     the radix-64 text of armor.rs.
--   Crypto/Bignum: `Big` of crates/crypto/src/bignum.rs, limb by limb. Value has the number that limbs
--     stand for; Order, Sum, Product, Bits, Remainder, Power and Bytes are the operations' proofs.
--   Crypto/Rsa: crates/crypto/src/rsa.rs on those numbers; Open is `PublicKey::open`, Pkcs1
--     `verify_pkcs1v15`, Pss `verify_pss` and `mgf1`, with their encodings as RFC 8017 states them.
--   Runtime/Audit: a journal as its closed files and its open file; Append is journal.rs and
--     segments.rs (`append_sync`, `rotate`, `close`, `finish_interrupted_close`), Report is
--     `chain_report` and its walk; Report/Sound what an intact report says, Chain the journals that
--     the operations reach, a close that stopped half way included.
--   The modules named Runs, and those below them, hold runs at concrete inputs.
--
-- How state and numbers are read. A stored JSON record is a record whose members are options, `none`
-- where a member is absent or not of the type it is read as. A handler takes the state and gives its
-- answer and the state it leaves. Numbers are natural numbers; what the source reads as u64 is
-- refused at 2^64 and beyond, where it adds it checks for overflow as the source does, and the
-- signed expiry of an issued grant is checked at 2^63. A text is its characters, and signed bytes are
-- written by code points. The words of a big number wrap at 2^64 and its products at 2^128, and what
-- would panic there is `none`. Every recursion is on a list, a text or a count that the source's loop
-- has, but those of the packet reader, which take the number of bytes that are left as fuel, one more
-- for the chunks of a body, that of `rchunks`, whose fuel is the number of bytes, and that of MGF1,
-- whose fuel is the length asked for; a packet, a chunk and a pass each take or make a byte at
-- least, so that is enough. Running out in the packet reader is a value of
-- its own.
--
-- What is a parameter. The Ed25519 verdict, the hash, the random ids, the clock, the route
-- resolution, the opened vault items and their tags, the keyring, the byte sizes that decide when the
-- journal is replaced, and the issue of a standing consumer grant are members of an Env; the hash, the
-- printing of a line, its length and the clear signatures of the audit journal are those of a Host; the
-- digests of a signature's verification (sha.rs) are those of a Hasher. No
-- law is assumed of any of them but those that a theorem names.
--
-- What is not modelled. File and socket failures, but that of the audit line behind a redemption's
-- save and of the vault's calls when a code is stored; locks (an event stands for all that is done under
-- its lock), a line of the audit journal that was written by half, the start of an epoch and the query
-- of the journal, printed messages, the file in which the
-- bearer of a standing grant is left, the remote filing over HTTP and the dialog of
-- src/access/request/watch.rs; and the other parts of the repository, the vault core, the
-- rest of the cryptography, the managed credentials, the network surfaces and the runtime integrations.
pub mod Prelude
pub mod Access
pub mod Crypto
pub mod Runtime
