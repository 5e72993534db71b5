-- ===== src/Lib.antt =====
-- AutoApply AI: the backend, under backend/app.
--
-- A user's applications are rows of a database. The API routes create and approve them through the
-- application service and put apply jobs in an Arq queue; a worker takes each job, drives a browser
-- run and settles the row. Accounts log in with a password and keep their session by rotating
-- refresh tokens. The harness diagnoses and reviews the runs, learns skills from them and watches
-- the failure rate. Jobs come from a search over the platforms. Resumes are parsed, scored,
-- tailored and optimized, and their files are generated and stored. Secrets and sessions of the
-- platforms are stored encrypted, files under the tenant's prefix, and deleted accounts are purged.
--
--   Prelude        names of the libraries, tests, lists cut by native numbers, tables as lists
--   Tx             core/exceptions.py and a database session: actions from a state to a result and a
--                  state, in which uncommitted writes are absent once an exception is raised
--   Models         models/{enums,application,job,resume}.py, db/tenant.py
--   Applications   services/application.py: Index (the unique index uq_app_active_job), Create
--                  (create_application), Batch (create_batch), Review (get_application,
--                  approve_application, update_status), Listing (list_applications)
--   Dispatch       services/dispatch.py and the POST and approve routes of api/v1/applications.py
--   Worker         workers/tasks.py: the apply task (Rows, Lifecycle), its retries (Retries) and what
--                  it submits (Submissions, Reposts)
--   Auth           api/v1/auth.py and its rows: registration, login, refresh, logout, deletion
--   PasswordReset  services/password_reset.py
--   Llm            core/llm/client.py: the chain of models of a completion
--   Harness        core/harness/diagnose.py (Diagnose), core/harness/anomaly.py (Anomaly),
--                  core/harness/skills.py (Skills), core/harness/{record,review}.py and the review
--                  task of workers/tasks.py (Review)
--   Credentials    core/secrets: encrypted secrets and the rotation of their keys
--   PlatformSessions  services/platform_session.py, on top of the credentials
--   Storage        core/storage/{base,keys,service}.py: the files of the tenants (Service, Tenants)
--   Account        services/account.py and the purge task of workers/tasks.py, on the storage service
--   JobSearch      services/job_search.py: the search and its unique constraint (Registering,
--                  Inserting, Searching), list, get and delete (Stored), and analyze_job over the
--                  scorer (Analysis)
--   Ats            core/ats: skill_matcher.py (Matching), scorer.py (Scoring, Bounds), optimizer.py
--                  (Optimizing)
--   Documents      core/documents/{parser,generator}.py, core/storage/documents.py and the choice of a
--                  letter's template: the sections, skills and contacts of a text (Texts, Sections,
--                  SectionKeys, SkillList, Dicts, Parsing), generation (Letters, Generating, Rendered,
--                  Generated) and storing (Storing, Keys, Persisted, Delivery)
--   Resumes        services/resume.py and api/v1/resumes.py: upload (Uploading, Uploaded), data from a
--                  text (Texts, TextLaws), skills (Skills), scores (Scoring, Bounds), tailoring and
--                  optimizing (Tailoring, Optimizing, Rescoring), download and profile (Routes)
--   CoverLetters   services/cover_letter.py, on the generator and the application rows (Attached)
--   RateLimit      core/ratelimit.py: the check and how many requests of a window pass (Windows)
--   Tests          the theorems at small databases
--
-- A table is the list of its rows; a query selects from it. A service function is an action of the
-- `Tx` monad, and the do blocks follow the statements of the source. The tenant that a request
-- carries in `current_user_id` is an argument. Generated ids, the time, the tokens and the outcomes
-- of calls that leave the program are arguments.
--
-- Bounds and fuel: `run_tries` counts the tries that are left; the task asks for a retry only
-- below the third try, so three are enough. What an await of the apply task meets is its argument
-- `Awaits`. `record_version` counts the attempts that are left of the three in the source. Every
-- other loop is structural over a list.
--
-- Outside the model: the Arq library (the record `Arq` states its documented deduplication by job
-- id and which jobs wait), the Fernet cipher and Redis (the records `Fernet` and `Redis` state
-- what they document), the two storage back ends of core/storage/{local,s3}.py, which call the
-- file system and S3 (the record `FileStorage` states what they promise for plain keys), floating
-- point (the record `Floats`), SQL itself, JSON and HTTP, browsers, language models, the
-- rendering of documents (the record `Renderers`), Unicode case and white space and the regular
-- expressions (the records `TextTools` and `Reader`), spaCy, the migrations, logging and metrics,
-- and the frontend. The platforms and the runtime of the browser automation prompt an agent that
-- decides the course of a run by itself; what a run answers is an argument of the worker. Reads
-- that only aggregate, the websocket bridge, the mailer and the legacy queue are left out.
pub mod Prelude
pub mod Tx
pub mod Models
pub mod Applications
pub mod Dispatch
pub mod Worker
pub mod Auth
pub mod PasswordReset
pub mod Llm
pub mod Harness
pub mod Credentials
pub mod PlatformSessions
pub mod Storage
pub mod Account
pub mod JobSearch
pub mod Ats
pub mod Documents
pub mod Resumes
pub mod CoverLetters
pub mod RateLimit
mod Tests
