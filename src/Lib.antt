-- ===== src/Lib.antt =====
-- Administrative orchestrator: a model of the core of src/administrative_orchestrator, and what is
-- proved of it.
--
-- The program drives administrative cases (onboarding, offboarding and others) from a request to
-- verified effects in remote systems. A case gathers facts; a policy, of the version in force, says
-- whether facts are missing or which roles must decide; people decide, in roles that the authority
-- directory gives them at that time; once the decisions satisfy the policy an execution
-- authorization is minted, bound to the authority epoch of the case; effects are carried out under
-- it, verified, and the case is completed.
--
-- Files, with the code that each models (paths under src/administrative_orchestrator):
--   Base.antt          shared names: results with an error value, dicts as association lists in
--                      insertion order, Boolean tests, lists, the text operations that the code uses
--   Domain.antt        domain.py: records, enumerations, validators and validity windows
--   Policy.antt        policy.py: evaluations, approval rules, OnboardingPolicy and OffboardingPolicy;
--                      Soundness and Departures have the theorems
--   PolicyPlane.antt   policy_plane.py: PolicyRepository as operations on a list of version rows and a
--                      list of events; Separation, Writes, Immutability, Listing, Resolution and
--                      Activation have the theorems
--   Authority.antt     authority.py: the directory tables, roles_for, resolve_decision_role,
--                      assess_approval_satisfaction and _select_role_decisions; Search, Roles,
--                      Holding and Approval have the theorems
--   Cases.antt         service.py, execution_transitions.py, fact_transitions.py: one function for each
--                      transition; Lifecycle puts them into one step function; Invariant, Graph, Runs,
--                      Freshness and Gate have the theorems
--   Completion.antt    completion.py, with the records of obligations.py: the assessment of the required
--                      obligations; Contract says what discharges one, Latest, Clearance and Discharge have
--                      the theorems
--   Access.antt        access_policy.py: permissions, role sets and AdministrativeAccessPolicy; Table has
--                      the permissions by role; Grants and Matrix have the theorem
--   Messaging.antt     messaging.py: the outbox rows, emission, claims and their leases, recovery, outcomes
--                      and replay; Steps has runs of relay transactions, Retry, Leases, Exclusion
--                      and Redelivery the theorems
--   Persistence.antt   persistence.py on cases, fact_history.py and unit_of_work.py: the transactions that
--                      store a case after a policy evaluation or new facts; Copies, Conflicts and
--                      Acceptance have the theorems
--   Transactions.antt  transaction_repository.py, with its records of financial.py: evidence links and
--                      qualification assessments; Chains, Links, Append, Currency and Histories have
--                      the theorems
--   AuthorityLifecycle.antt
--                      authority_lifecycle.py: the operations that end or begin validity, with their
--                      events; Calls has runs of them, Windows, Directories, Shrinking, Emptied,
--                      Revocation, Bindings and Identities the theorems
--   Commitments.antt   commitment_models.py, commitment_repository.py, commitment_lifecycle.py and
--                      commitment_cancellation.py: fulfillment and cancellation of a commitment;
--                      Effects and Fulfillment have the theorem
--   Tests.antt         concrete inputs, and the theorems at them
--
-- How the code is rendered. A raised exception is the `err` of a result, with a constructor for each
-- message. A datetime is its UTC instant as a natural number, which UtcModel guarantees; `utcnow()` and
-- `uuid4()` are arguments. A UUID is a natural number. A mutable variable of a loop is a state that is
-- passed on. A database table is the list of its rows, and a repository method takes and returns the
-- tables that it reads and writes; a method that raises rolls its transaction back. Loops are structural
-- recursion, so no fuel is needed. The backtracking of `_select_role_decisions` is recursion on the roles,
-- and inside on the candidates of a role, with the two mutated variables as the state. A delegation row
-- whose window is empty raises where the code rebuilds the validated record. Transactions run one after
-- another: no theorem speaks of two that overlap in time. `lower` maps the letters A to Z, and the
-- reason of an unsupported termination status has it between plain quotes.
--
-- Parameters, for what is not under src/administrative_orchestrator: `from_iso` is
-- `datetime.fromisoformat`, `uuid5` is Python's name-based id, `collate` is the order of texts in the
-- database, `isoformat` and `json_time` give the text of a time, `str` that of a UUID or of a fact,
-- `show` that of a number, `sha256` is a digest, `locked` tells the outbox rows that another transaction
-- holds, `same` is pydantic's equality of two fact snapshots, and `Json` with its equality is the type
-- of a stored policy definition. No law is asked of them but that the equality of `Json` decides
-- equality.
--
-- Not modelled: SQLAlchemy sessions and locking, the HTTP surface, authentication, remote providers, the
-- workflow engine, conversations, intake, investigations, financial cases, and the admission of commitments.
pub mod Base
pub mod Domain
pub mod Policy
pub mod Authority
pub mod Cases
pub mod PolicyPlane
pub mod Completion
pub mod Access
pub mod Messaging
pub mod Persistence
pub mod Transactions
pub mod AuthorityLifecycle
pub mod Commitments
mod Tests
