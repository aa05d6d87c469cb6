-- ===== src/Lib.antt =====
-- Seraphim keeps the attendance of a church: cameras see faces, CompreFace recognises them, and
-- volunteers confirm the ones that are not certain. This library models the part of its backend
-- (backend/app) that decides what becomes of a face, and what is kept of its contacts (activities,
-- status, merges, consents, exports), as functions on explicit tables, and proves what these functions
-- keep true.
--
-- The parts and how they interact:
-- Models.antt: the rows of models.py that these parts use, and the database as a record of tables.
-- Session.antt: database.py's session: what a request sees (`work`) and what it has committed.
--   A service method is a transaction `Tx`; `request` runs it and keeps what it committed.
--   Session/Keeps, Session/Rules and Session/Atomic are the rules for invariants, for the outcome
--   of a run, and for what an error leaves.
-- Enrollment.antt: services/enrollment.py and quality_gate.py: `enroll_contact_face`.
-- Attendance.antt: `_log_attendance`, `_maybe_auto_enroll` and `_update_volunteer_stats` of
--   services/task_service.py, which resolve a task; they call Enrollment.
-- Review.antt: the volunteers' actions of services/task_service.py; Review/Queue: what a
--   volunteer is offered. One function for each method, with the name of the method.
-- Pit.antt: routers/pit.py, the admin's answers, and `_process_expired_tasks` of
--   services/queue_manager.py.
-- Dedup.antt and Pipeline.antt: services/dedup.py, `_map_tier` of services/compreface.py and
--   services/face_pipeline.py, from a face crop to a participant or a task.
-- Requests.antt: the requests and jobs above as one type, and the databases that they lead to.
-- Invariants: what holds of the database after any requests; Invariants/TaskRows is the interface
--   that an invariant of tasks and actions fills.
-- Activities.antt: services/activity_service.py, the follow-up activities and their reminders.
-- NameMatch.antt: services/name_match.py, from a normalized name to a contact.
-- Members.antt: services/member_status_service.py, the snapshot of a contact's attendance.
-- Events.antt: services/event_generator.py, the occurrences of a series.
-- Merge.antt: services/dedupe_service.py, merging two contacts: Reassign and References are
--   `_reassign_all`, Merging is `merge_contacts`, Preview is `merge_preview`, RuleSets the rule sets.
-- CustomData.antt: the JSON values of `custom_data`. Consent.antt: services/biometric_consent.py;
--   Consent/Purge: services/biometric_purge.py.
-- Bulk.antt: services/bulk_service.py; Bulk/Audiences: services/audience.py.
-- Cleanup.antt: services/face_cleanup.py, the loop that deletes old images.
-- Exports.antt: the export jobs of routers/export.py and services/queue_manager.py.
-- Transition.antt: services/fr_transition.py, from the legacy system to contacts and consents.
-- Common: text, tables and Boolean tests. Tests: runs on small databases.
--
-- How the model reads the code: times are seconds, but days in Consent; similarities are thousandths, and the variance
-- of the Laplacian hundredths. A status column is a data type. `int` of a text is read on decimal
-- digits. What the clock, OpenCV, CompreFace and the disk answer is an argument (`World`,
-- `ReviewWorld`, `Image`, `Capture`, `Surroundings`). The driver takes a time with a zone for a
-- column without one. A request runs to its end before the next one
-- starts: on one task the row lock makes it so. The query for an existing participant is a test
-- whether there is one. An expiry run takes at most fifty tasks. The recursions are
-- structural, but for printing a number `n`, whose fuel is `n + 1`, and the loop of `run_cleanup`, which
-- need not end: its fuel is the number of rounds, and the theorems about it hold for any number.
--
-- Names are in lower case when they reach NameMatch, and the similarity of jellyfish is an argument of it,
-- as is the contact that Claude names.
--
-- A merge sees the contacts twice, before and under the row locks. The columns with a uniqueness
-- constraint are read as `scalar_one` reads them: the first row is the row. Names are in ASCII when their
-- keys are compared. The answers of CompreFace and of the recomputation only make warnings.
--
-- A purge commits its rows whatever the disk and CompreFace answer. A bulk change
-- whose commit fails loses its rows and gives the same answer. The consents of a contact are one row, as their constraint says.
--
-- Not modelled: the responses and display names, the file snapshot of a log row, the broadcast to
-- the clients, image files, the HTTP client of CompreFace, and the services for imports, migration,
-- search, settings, the contents of an export and authentication, and the routers of events.
pub mod Common
pub mod Bulk
pub mod Consent
pub mod Cleanup
pub mod Exports
pub mod Transition
pub mod CustomData
pub mod Merge
pub mod Models
pub mod Session
pub mod Enrollment
pub mod Attendance
pub mod Review
pub mod Pit
pub mod Dedup
pub mod Pipeline
pub mod Requests
pub mod Invariants
pub mod Activities
pub mod NameMatch
pub mod Members
pub mod Events
pub mod Tests
