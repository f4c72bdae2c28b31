-- ===== src/Lib.antt =====
-- Receipts: the evidence that an agent's actions were authorized, and its verification.
--
-- Merkle models the Merkle trees of agentauth/receipts/c2sp.py over any leaf hash and node hash,
-- with the split of a tree (Merkle/Split), its root (Merkle/Root) against RFC 6962 (Merkle/TreeHash),
-- audit paths (Merkle/Inclusion), what a path binds (Merkle/Soundness) and consistency proofs
-- (Merkle/Consistency); C2sp gives them the hashes of that file.
-- Signing models agentauth/core/signing.py: a signature descriptor, its check, and the trust in
-- the signers of a bundle (Signing/Bundles).
-- Revocation models agentauth/receipts/revocation.py.
-- Audit models `AuditChain` of agentauth/receipts/audit.py: the log and its hash chain, its
-- checkpoints and the trust in them (Audit/Checkpoints), its inclusion and consistency proofs
-- (Audit/Proofs), and the older tree over hexadecimal hashes (Audit/Hexadecimal). An append signs
-- with Signing, a verification asks Revocation, a proof is one of Merkle.
-- Witness models agentauth/receipts/witness.py: a witness that signs a log's checkpoints, on the
-- consistency proofs that Audit checks.
-- Operations models agentauth/core/operations.py: capabilities and their attenuation. Delegation
-- models agentauth/core/delegation.py: chains of tokens, whose capabilities Operations compares,
-- and their envelopes, which Signing signs, and the issue of a child (Delegation/Issue,
-- Delegation/Issuance). Decision models agentauth/core/decision.py and outcomes.py. Mandate models
-- agentauth/core/mandate.py and budget.py: the envelope of a mandate, a receipt against it
-- (Mandate/Receipts), and its parent and bundle (Mandate/Parents); Mandate/Attenuation,
-- Mandate/Ancestors and Mandate/Enforcement are about what their checks enforce. Permit models
-- agentauth/receipts/permit.py.
-- Paths models agentauth/core/path_matching.py on `normpath` and `fnmatchcase` (Paths/Patterns), as
-- the standard library has them; Paths/Components and Paths/Scope are about their results.
-- Resources models agentauth/core/resource_refs.py. Assurance models agentauth/receipts/assurance.py.
-- TaskScope models agentauth/core/task_scope.py; TaskScope/References says which path a reference
-- names.
-- Policy models agentauth/receipts/policy.py and policy_engine.py: trust tiers (Policy/Trust),
-- capabilities and resource scopes (Policy/Capabilities), references, task scopes and the gateway of
-- governed_runtime.py (Policy/Scopes), the checks of an authority and the default engine
-- (Policy/Engine), the guards of egress.py (Policy/Arguments, Policy/Hosts, Policy/Egress), credential_access.py
-- (Policy/Credentials) and artifact_guard.py (Policy/Artifacts), and the gate that runs all of them
-- before a side effect (Policy/Gate). The other files of Policy are about what passes them.
-- Pinning models agentauth/receipts/tool_pinning.py: the metadata of a tool, pinned at its first call.
-- Monitor models the session histories of agentauth/receipts/action_monitor.py.
-- Governor models the governors that decide on a step: the one by rules of
-- agentauth/receipts/sandbox_governor.py (Governor/Rules, Governor/Renewal), and those around
-- another one of default_deny_governor.py, tighten_policy.py and protected_zone_governor.py with
-- instruction_surfaces.py (Governor/DefaultDeny, Governor/Tightening, Governor/Zones). A governor
-- is a state and a step on it, so that each takes any other inside. Governor/Loops models the loop
-- monitor of behavior_monitor.py. The rules issue permits with Permit; Governor/Stack is about all
-- of them together.
-- Scenarios runs the parts on a toy platform.
--
-- State and errors: a class with mutable fields is a record, and a method returns the new record
-- with its result; an exception is `none`, a constructor of a result type, or an error value.
-- The SQLite table of the log is the list of its rows in the order of their numbers. JSON texts
-- are the values that they stand for, and a canonical JSON hash is a function of that value.
-- Parameters: SHA-256, hexadecimal text, Ed25519 and the canonical hashes (`Platform`, `Crypto`),
-- ISO texts of instants (`Clock`), the arithmetic of amounts (`Numbers`), the parsing of URLs and the
-- patterns of secrets (`Services`).
--
-- Fuel: the recursions on a tree run on the number of its leaves. Each call splits its list into
-- two shorter ones that are not empty, so the number is enough (Merkle/Root). The loops that
-- shift a number run on that number, which falls at each round. The translation of a pattern takes
-- a character at each round and runs on the pattern's length.
--
-- Not modelled: signed notes, HTTP, SQLite and file access, the issue of mandates, encodings (COSE,
-- SCITT), attestation, the scores of actions, the texts of violations, the dictionaries that
-- records are written to and read from, and the integrations with other libraries: they do I/O,
-- change a representation, or wrap other code. Lists of trusted keys are
-- arguments: a checkpoint that is verified without them is verified with empty ones, where the source
-- falls back on the environment. Sizes from outside are not negative.
mod Prelude
pub mod Merkle
pub mod C2sp
pub mod Signing
pub mod Revocation
pub mod Audit
pub mod Witness
pub mod Scenarios
pub mod Operations
pub mod Delegation
pub mod Decision
pub mod Mandate
pub mod Permit
pub mod Paths
pub mod Resources
pub mod Assurance
pub mod TaskScope
pub mod Policy
pub mod Pinning
pub mod Monitor
pub mod Governor
