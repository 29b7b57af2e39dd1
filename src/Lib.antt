-- ===== src/Lib.antt =====
-- The data-quality toolkit: its pure core, over states and parameters that stand for the
-- session, the file system and the standard library.
--
-- Paths are from the root of the repository, below src/data_quality_toolkit.
--
-- Catalog.antt and Catalog/ model the KPI catalogue, domain/semantics. Kpi and Catalogue are
-- the pydantic models of schema.py without their field constraints. Catalog/Graph has
-- build_graph, Catalog/Walks detect_cycles, topo_sort and get_execution_order of dag.py, and
-- Catalog/Validate the checks of validators.py. A graph is an association list in the order of
-- insertion, as a dict is. A nested dfs recurs on fuel, one more than the number of nodes: a
-- call paints a white node, so that there are no more nested calls than nodes (Catalog/Fuel,
-- Catalog/Detect). The bound that Python puts on nested calls, which a long chain of KPIs can
-- reach, is not modelled. The colours 0, 1 and 2 are unvisited, visiting and done.
-- Catalog/Order, Catalog/Cycles, Catalog/Detect, Catalog/Agreement and Catalog/Execution have
-- the proofs on the walks, Catalog/Rules and Catalog/Acceptance those on the validation.
--
-- Versions.antt and Versions/ model the dataset-version record of
-- adapters/ui/services/dataset_versions.py: Versions/Identity has the predicates on ids and
-- paths, Versions/Record the construction with its checks in their order, Versions/Mapping
-- to_mapping and from_mapping. Of a float that JSON gives the model has only whether it equals
-- 1. Versions/RoundTrip, Versions/Accepted, Versions/Shapes, Versions/Places,
-- Versions/WellFormed and Versions/Newline have the proofs. A datetime is the type parameter
-- D, with isoformat, fromisoformat and the test for a time zone as parameters. Digests of
-- files and recipes and fresh ids are calls of hashlib and uuid and are not modelled.
--
-- Session.antt and Session/ model the session of the user interface: the context of
-- adapters/ui/state/context.py, the trust store of adapters/ui/services/managed_trust.py
-- (Session/Trust), and the activation of adapters/ui/services/dataset_activation.py
-- (Session/Contexts, Session/Activation, Session/Managed), with the keys and mutations of the
-- session in Session/Slots. The session is a function from keys to entries, with a count of
-- the mutations tried; the parameter raises says which of them fail. A capability is its
-- identity, the number of those made before it. The process-wide frame cache, which the one
-- registered invalidation hook clears, is kept beside the entries. Session/Restoring has what
-- a run of mutations does, Session/Cleared and Session/Atomicity the switch and the rollback,
-- Session/Valid, Session/Roots and Session/Validity the trust store, Session/Generations
-- sequences of operations, Session/Prepared and Session/Transaction the managed activation.
--
-- Export.antt and Export/ model adapters/ui/services/export_alignment.py and
-- adapters/ui/state/export_context.py, with the basename of shared/text_redaction.py: the
-- verdict on the source of an export against the active context, what it leaves behind, and
-- the later comparison. The path functions of os.path are the parameter normalise.
--
-- Cleanup.antt and Cleanup/ model the cleanup of
-- adapters/ui/services/lifecycle_maintenance.py. The file system, os.path, hashlib and the
-- discovery of managed versions are the record System of operations on a state F; a deletion
-- may fail in each of the ways that the code tells apart. Modification times are natural
-- numbers of nanoseconds.
--
-- Discovery.antt has the value types of adapters/ui/services/dataset_discovery.py.
-- Lineage.antt and Lineage/ model adapters/ui/services/managed_version_lineage.py, which
-- projects the direct relatives of one version of a discovery result: Lineage/Relations has
-- _resolve_selected, _resolve_parent with the walk of _reaches_cycle, _resolve_root and
-- _resolve_children, Lineage/Texts the texts, Lineage/View project_lineage. The walk takes one
-- round more than the cap, which project_lineage sets to one more than the number of ids;
-- every round sees an id that is new, or ends the walk. Lineage/Chains, Lineage/Parents,
-- Lineage/Selection and Lineage/Flags have the proofs.
--
-- Loading.antt and Loading/ model the loading of a managed dataset and the source of a managed
-- export. Loading/Options has the fingerprints of
-- adapters/ui/services/managed_frame_loader.py, Loading/Caches its two bounded caches,
-- Loading/Dispatch get_managed_frame, get_managed_header and get_managed_assessment;
-- Loading/Source the verification of shared/managed_export_source.py, and Loading/Gateway
-- adapters/ui/services/managed_export_gateway.py. The caches here hold the frames themselves,
-- where the session of Session/ holds only their keys. Paths, files and digests are the record
-- World; readers and assessors are functions that the calls take. The reading by chunks takes
-- one round more than there are bytes, and a round takes a byte at least. Loading/Authority,
-- Loading/Admission, Loading/Minting, Loading/Exportable, Loading/Minted and Loading/Committed
-- have the proofs on the gateway, Loading/Chunks and Loading/Stages those on the verification,
-- Loading/Bounded, Loading/Frames, Loading/Again, Loading/Assessments and Loading/Histories
-- those on the caches, Loading/Current those on the reads that no cache serves.
--
-- Profiling.antt and Profiling/ model RowCounter and DtypeInferencer of
-- domain/profiling/core/chunked_aggregators.py: Profiling/Widening has _normalize_dtype and
-- _widen, Profiling/Aggregators the two aggregators on a list of chunks. The tests of
-- pandas.api.types on a dtype are a record of functions. Profiling/Columns, Profiling/Inferred
-- and Profiling/Bags have the proofs.
--
-- Confirmation.antt and Confirmation/ model the confirmation of a processed version,
-- adapters/ui/services/dataset_confirmation.py with
-- adapters/ui/services/confirmation_capability.py: Confirmation/Parent has
-- resolve_confirmation_parent and _build_lineage, Confirmation/Targets
-- _reserve_linked_targets, Confirmation/Disks the operations on files, and
-- Confirmation/Publishing _finalize and _execute_plan. A disk is a function from paths to
-- bytes; what fails is told by the record Storage for each path, since each path is staged,
-- linked and removed at most once. Other processes act before a plan is executed, on any path,
-- and in the faults of the links. The reservation takes the 1001 rounds of the source.
-- Confirmation/Reserving and Confirmation/Descent have the proofs on the planning,
-- Confirmation/Keeping, Confirmation/Outcomes, Confirmation/Publication and
-- Confirmation/Registration those on the files.
--
-- The components meet in the session and in the context: an activation takes a context that a
-- version record gives, commits a trust root, and switches the context; an export is
-- classified against that context. Loads, exports and confirmations all ask the trust store
-- first. Prelude.antt has the names they share.
--
-- Not modelled: Python's bound on nested calls, pandas and the profilers but for the dtypes of
-- chunks, the rules and reports of data quality, databases, the command line, the pages, the
-- directory scan and the history of versions, which the manifest lists part by part.
pub mod Prelude
pub mod Catalog
pub mod Versions
pub mod Session
pub mod Export
pub mod Cleanup
pub mod Discovery
pub mod Lineage
pub mod Loading
pub mod Profiling
pub mod Confirmation
