-- ===== src/Lib.antt =====
-- Verification of the profiled delivery path of the network change delivery platform.
--
-- The program plans a change of an interface description on a device, has the plan approved by its
-- digest, and executes it with evidence. The modelled part is the execution with all it reads:
--
--   Profile, Profile/Families, Profile/Admission
--     network_change_delivery/architecture_contracts.py: the enumerations and the catalog of
--     automation profiles, and the write admissions of profiled_planning.py.
--   Inventory, Inventory/Catalog
--     network_change_delivery/profile_inventory.py: the population owned by Git, `admit_profiled_subject`,
--     and the live read-only target of a device.
--   Models, Models/Description, Digest
--     network_change_delivery/models.py: descriptions, artifacts, results, stages and outcomes.
--   Planning/Subject, Planning/Artifacts, Planning/Validator
--     network_change_delivery/profiled_planning.py: the checks of a subject, the plan and the
--     compliance record, and their validators.
--   Planning/Change, Observed
--     the same file: `build_profiled_plan`, `_build_compliance` and `plan_profiled_change`, a chain of
--     functions, one for each step that follows an answer. Planning/Calls says how far a run of it
--     came, Sound, Concluded and Guarded are the proofs, Planning/Scenarios is concrete.
--   Junos/Diff, Link, Transaction, Confirm
--     network_change_delivery/junos_adapter.py: `_diff_is_scoped` over code points, `JunosTransaction`
--     and `confirm_profiled`. A `Link` holds the world behind PyEZ, the fields of the transaction and
--     its calls, newest first. Junos/Inside and Discipline are the proofs on the transaction, Scenarios is
--     concrete. The lifecycle of Execution/Junos takes the transaction as a provider.
--   WriteAdapter
--     network_change_delivery/profiled_write_adapter.py: the write target and the checks in front of
--     the vendor writers.
--   Execution/Record, Stages, Preflight, Cisco, Junos, Lifecycle
--     network_change_delivery/profiled_execution.py: the record and its validator, the preflight and
--     `execute_profiled_plan`. A `try` block is an `attempt` whose result the next function takes, so
--     the lifecycle is a chain of functions, one for each place where the source branches.
--   Execution/Sound, Guards, Writes, JunosWrites
--     the proofs; Execution/Scenarios holds a concrete plan with concrete providers.
--   Observation, Observation/Attempt
--     network_change_delivery/configuration_observation.py and profiled_configuration_observation.py:
--     the observation of a device's saved configuration, the check of a first attempt and
--     `capture_attempt`, a chain of functions, one for each answer that it branches on.
--     Attempt/Baseline is the proof, Observation/Scenarios is concrete.
--   Rollout/Audit, Parent
--     network_change_delivery/profiled_rollout_audit.py: the records of a rollout and their validators.
--   Rollout/Progress, Approved, Child, Coordinator
--     network_change_delivery/profiled_rollout_execution.py: `_reserved`, which runs the children of an
--     approved rollout one after the other and builds its audit record. Progress holds its variables
--     and what each outcome does to them, Child one pass of the loop, Coordinator the rest.
--   Rollout/Selection, Cohorts, Waves
--     network_change_delivery/profiled_rollout.py: the selectors and the expansion of a selection, and
--     `_cohorts` with its choice of canaries and its waves, which have as much fuel as there are
--     members. Selection/Expanded, Cohorts/Automatic, Images and Arranged are proofs.
--   Rollout/Reservation
--     network_change_delivery/profiled_rollout_reservation.py: the locks of the devices. A `Host` holds
--     the world of the files and the open descriptors, newest first; `os.close` of an open descriptor
--     is taken to return. Reservation/Names, Acquired and Released are proofs.
--   Rollout/Sound
--     the proofs: Transitions and Pass follow one pass, Loop all of them, Coverage, Population, Reasons,
--     Valid and Stops the tests of the validator, Whole the coordinator, Planned its composition
--     with the cohorts; Rollout/Scenarios and Cases are concrete.
--
-- The path src/network_change_delivery is that of the package in the repository. A Python
-- exception is a value of `Raise.Exn`; a validator of a model is a Boolean function, and a model
-- that it rejects raises `validation_error`, where the program builds it; a text that is read as
-- JSON and does not validate is an input, and raises a `ValueError` of its reader. Code that
-- leaves the program runs in `Exec`: a session holds the world of the providers and the list of
-- the calls made, newest first. The providers (inventory, credentials, collector, vendor
-- writers, clock) are a record of functions over an arbitrary world, and nothing is assumed of
-- their answers. The digest of a plan is the parameter `Hashing`. The loops of the modelled code
-- run over lists and texts, so no fuel is used but for the waves of a rollout. Ports are natural
-- numbers, an address is a number with its family, and a time is a number.
--
-- In a rollout, the preflight of all members, the final validation, the capture of a device's
-- history, the files and the store are the functions of `Services`, of which nothing is assumed
-- either; the reading of JSON and the digests of records are parameters, and so is `uuid5`, of
-- which the theorem on the coordinator asks that it tells the members apart. The patterns and
-- lengths of single fields and the signature of a record are not part of the modelled
-- validators; the digest of a candidate's difference has its form by its type, `Sha256Digest`,
-- which `prepare` returns as a text of that form.
--
-- Not modelled: the authorization of a rollout and the planning of its members, the wait for the
-- history to settle behind a collection (`bind_collection_result`, a parameter), the stores of
-- evidence, the sessions and the collection of the Junos adapter, the Ansible adapter, the NetBox,
-- OpenBao, Oxidized, Buildkite and monitoring integrations, and the command line: most of these are
-- input and output, and the rest is reached only through the parameters above.
pub mod Base
pub mod Models
pub mod Profile
pub mod Raise
pub mod Inventory
pub mod Planning
pub mod WriteAdapter
pub mod Exec
pub mod Execution
pub mod Junos
pub mod Observation
pub mod Rollout
