-- ===== src/Lib.antt =====
-- swaw-kit: the resource protocol and the runtime service of the project kit (_lib/proj).
--
-- The program addresses commands and facets of resources by routes, and its runtime service starts
-- them, keeps their output, journals it on disk and cancels them. The protocol crate
-- (_lib/proj/_protocol/src) is used by every part; in the application (_lib/proj/_app/src) the
-- registry owns runs and queries, a run owns its journal and its control, and threads of the
-- process runner report to them.
--
-- Files and the code they model:
--   Prelude            native numbers, texts as byte lists, lists, results, their shared lemmas
--   Protocol/Name      command_name.rs and the name checks of resource_route.rs
--   Protocol/Route     resource_route.rs: ResourceRoute, FacetRoute, RouteTarget, parse_route;
--                      Valid is the predicate that `validate` decides,
--                      Segments the splitting at `/` and `::`, Printing and Reading the round trips
--   Protocol/Identity  command_identity.rs: CommandIdentity, its address, ancestry and data roots,
--                      and command_resource_route of resource_route.rs
--   Protocol/Capability, Protocol/Contract
--                      command_capability.rs and execution_contract.rs: ExecutionContract::new
--   Protocol/Digest    digest.rs: revisions and RevisionBuilder, whose hasher is the bytes that it
--                      was given; SHA-256 is an argument
--   Protocol/Error     the errors of the crate, a constructor for each message
--   Runtime/Journal    run_journal/mod.rs, event.rs and storage.rs: Writer::append, finish
--   Runtime/History    run_journal/read.rs: read_run, on the bytes of the events file, and
--                      read_run_history (Listing), on the entries of the directory
--   Runtime/Run        runtime_service/registry/run.rs: CommandRun, with model.rs
--   Runtime/Control    runtime_service/registry/operation_control.rs: OperationControl; System has
--                      the threads that share one, Cancel and Resolves what they bring about
--   Runtime/Query      runtime_service/registry/query.rs: QueryObserver, run_query_with
--   Runtime/Registry   runtime_service/registry.rs: RunRegistry, RegistryState
--   Runtime/Invocation runtime_service/model.rs: validate_invocation, on lists of code points
--   Process/Frames     command_event.rs: CommandEventFrameDecoder, CommandProgress::validate
--   Process/Utf8       utf8_output.rs: Utf8LossyDecoder::decode
--   Process/Reader     process_runner/monitor.rs: read_output, which composes the two decoders
--   Cleanup            runtime_cleanup_engine/mod.rs and the document of runtime_cleanup.rs
--   Protocol/Tests, Runtime/Tests, Process/Tests and Cleanup/Tests hold concrete runs.
--
-- Correspondence: a method that mutates its receiver is a function from the old state to the new
-- one and the method's result; a body under a mutex is one such function, and threads are steps of
-- a relation on states. Locks are never poisoned; the statuses of runs,
-- each under a lock of its own, are read at one moment where the registry prunes them. The answers of the operating system, of serde and
-- of the process control are arguments. Texts are their UTF-8 bytes, which the code compares and
-- cuts at ASCII bytes only; numbers are unbounded where the code counts bytes, events and
-- sequence numbers in 64 bits, and query ids wrap at 2 ^ 64. Loops are structural recursion over
-- the list that the code walks; only the two decoders of output run on fuel, one round for each
-- pending byte and one more, since each round but the last takes a byte off.
--
-- Not modelled: the file system and processes themselves, the owner leases of journals, the catalog,
-- the planning of commands, the command line, the web server, entries, releases, the host and tray,
-- and everything that is not Rust.
pub mod Prelude
pub mod Protocol
pub mod Runtime
pub mod Process
pub mod Cleanup
