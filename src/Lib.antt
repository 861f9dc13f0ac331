-- ===== src/Lib.antt =====
-- Verification of acme.api, a service that obtains, deploys, renews and revokes TLS certificates
-- through an ACME client.
--
-- The parts of the program, and the files that model them:
--
--   Models      acme_api/models: the rows of the database. `World` is what the tasks share: the
--               tables, the clock and the calls made to the job scheduler.
--   Ports       what the service meets: the settings and their check at the start
--               (acme_api/config.py: `Settings`, `Startup`), the ACME backend
--               (acme_api/backend/protocol.py), the deployer (acme_api/deployer.py), the webhook
--               dispatcher and the job scheduler. Those that depend on processes, files or the
--               network are records of functions, with what the callers rely on as laws.
--   Services    acme_api/services: requests (`Requests`), held DNS Persist requests (`Holds`),
--               issuance (`Issuance`), the soft delete (`Retirement`), generations (`Generations`,
--               `Selection`) and revocation at the authority (`Revocations`). `Change` is the
--               lifecycle of one row as a state machine, `Refinement` relates the methods to it,
--               `Interleaving` runs the atomic steps of any number of tasks, the renewals of the
--               scheduler among them, in any order and on rows that may be stale, and `Guarantees` and
--               `Unique` are about every such history.
--               `Configured` is what the check of the settings gives to the look-ups by name.
--   Scheduler   acme_api/scheduler.py: when certificates are renewed, the renewal itself, its retry
--               policy, and the start.
--   Auth        acme_api/auth, acme_api/admin_clients.py: API keys, roles and clients.
--   Webhooks    acme_api/webhooks.py: target validation, retries and dispatch. Its dispatcher fills the
--               interface of `Ports/Dispatcher`.
--   Deployer    acme_api/deployer.py: the names of directories (`Names`), the sources (`Sources`), the
--               files of a generation (`Artifacts`), the calls that stage, publish, select, pin and
--               remove generations (`Directories`, `Publication`, `Migration`, `Selecting`,
--               `Removal`), and the deployment of a certificate
--               (`Deployment`). `Disk` is the disk they work on, `Triples` the rules by which
--               `Staging`, `Written`, `Switch`, `Cleaning` and `Atomic` reason about their calls.
--   Schemas     acme_api/schemas/certificate.py: the validators of the bodies of requests.
--   Routers     acme_api/routers/certificates.py and admin_clients.py: the handlers, their status
--               codes (`Replies`) and the tasks that they leave to run (`Tasks`).
--   Acmesh      acme_api/backend/acmesh_backend.py: the command lines, the environment that a
--               credentials file gives (`Environment`), and the meaning of an exit.
--   Common      shared names, Boolean tests, tables, dictionaries and texts. Samples holds data for
--               the examples, which stand in the `Tests` files.
--
-- How the code becomes definitions. A method is a function from the world to an answer and a world; an
-- exception is an answer `err`, and what was committed before it stays. A guarded UPDATE is one atomic
-- step. A method that reads a row and writes later is split: `..._from` takes the row that was read,
-- which may be stale. An attribute set on such a row is written only if it changes what was read
-- (`Assigned`), as SQLAlchemy does. Instants are seconds since the first instant of Python's calendar, UUIDs are
-- numbers, and random values (ids, salts, drawn keys) are arguments. A row's `timedelta` arithmetic
-- raises `overflow` where Python would leave the calendar. The retry loop of a webhook recurses on the
-- attempts that remain; printing a status code has fuel for one digit more than the number itself.
--
-- The disk. The deployer works on one directory of a certificate: its entries, its generations and
-- their files. Every call of the operating system takes the next element of a list of faults: it does
-- its work, or raises the error and does nothing. An error from some call on, on every call that
-- follows, leaves what a process that is cut off there leaves. A file that is written in part is not
-- modelled: files are written under names that nobody reads, and named by `os.replace` at the end. The
-- names that the code draws at random (`Draws`) are arguments. Retention counts and days are natural
-- numbers, as the settings require.
--
-- The pattern of domains is a machine with the state `Match` that reads one character at a time.
--
-- Not modelled: the acme.sh subprocess and the readings of its output, the routing of paths and the
-- listings of events and of the configuration, JSON and HMAC texts, logging, configuration files and
-- migrations. The order in which SQLAlchemy returns rows is taken to be the order of insertion.
pub mod Acmesh
pub mod Auth
pub mod Common
pub mod Models
pub mod Ports
pub mod Routers
pub mod Samples
pub mod Schemas
pub mod Scheduler
pub mod Deployer
pub mod Services
pub mod Webhooks
