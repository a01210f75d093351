-- ===== src/Lib.antt =====
-- Servers-Manager: verification of the monitoring backend and of the client of its API.
--
-- The backend (src/, a NestJS application) watches the hosts of an organization over SSH, keeps the
-- containers it finds there as services with a history of deployments, raises alerts, and rolls a
-- service back to an earlier deployment. Its parts meet in the database and in three job queues:
-- a host's check (health-check) reads `uptime` and `docker ps`, stores the host's status, raises the
-- alert of the transition (alerts) and hands the listing to the service sync (services), which
-- stores every container, raises its alerts and records a snapshot when its image changed
-- (deployment-snapshots). A domain's check (domain-check) looks at DNS, WHOIS and the certificate.
-- A rollback request (rollback) stores an event and a job; the job recreates the container from a
-- snapshot, checks it, and ends the event. A daily job (insights) reports idle and orphaned
-- entities. Keys and configurations are sealed by crypto, sessions run by ssh. Organizations sign up
-- and in (auth), register hosts with a key pair made for each (hosts), domains (domains), alert rules
-- (alerts) and cloud accounts (cloud-accounts), and see counts of it all (overview). The pages of
-- frontend/ call the API through one client, which renews the access token when it is over.
--
-- What models what:
--   Db            the entity classes (*/entities/*.entity.ts) as records, the tables as lists of
--                 rows, oldest first, the queues, and health-check-log.service.ts's `write`;
--                 Db/Table has the writes of a repository, Db/Query its ordered queries with
--                 `findRecent`, Db/Cascade what a removal takes along by the foreign keys, Db/Ids the
--                 drawing of ids
--   DockerRun     src/rollback/docker-run-command.builder.ts; DockerRun/Words describes by itself how
--                 a POSIX shell splits a line into words
--   DockerPs      src/services/docker-ps-parser.ts
--   Container     src/services/container-status-classifier.ts, src/common/utils/docker.util.ts and
--                 src/deployment-snapshots/docker-inspect-parser.ts
--   Snapshots     src/deployment-snapshots/deployment-snapshots.service.ts
--   Alerts        src/alerts/alert-evaluation.service.ts, its condition and message builders, and
--                 the two adapters of src/alerts/channels
--   Ssh           src/ssh/ssh.service.ts
--   Rollback      src/rollback/rollback.service.ts; Rollback/Processor is rollback.processor.ts
--   ServicesSync  src/services/services-sync.service.ts
--   HealthCheck   src/health-check/health-check.processor.ts and health-check-status-mapper.ts
--   DomainCheck   src/domain-check/domain-check.processor.ts; DomainCheck/Checks is its checks folder
--                 and ssl-status.util.ts
--   Insights      src/insights/insights.service.ts
--   Crypto        src/crypto/crypto.service.ts
--   Hosts         src/hosts/hosts.service.ts; Hosts/Keypair is ssh-keypair.util.ts, with a reader of
--                 the format in Hosts/Keypair/Opened, and Hosts/Bootstrap is
--                 bootstrap-command.util.ts, with a reader of shell lines in Hosts/Bootstrap/Shell
--   Domains       src/domains/domains.service.ts
--   Services      src/services/services.service.ts
--   AlertRules    src/alerts/alerts.service.ts
--   CloudAccounts src/cloud-accounts/cloud-accounts.service.ts and its mapper; CloudAccounts/View is
--                 the same as a map from organization and provider
--   Auth          src/auth/auth.service.ts and auth.controller.ts, src/users/users.service.ts,
--                 src/organizations/organizations.service.ts, jwt.strategy.ts and roles.guard.ts
--   Overview      src/overview/overview.controller.ts
--   Responses     the mappers (*.mapper.ts), and the handlers of the controllers that read with them
--   ApiClient     frontend/src/lib/apiClient.ts with the tokens of frontend/src/context/AuthContext.tsx;
--                 ApiClient/Steps has its events in any order
--   AlertConditions   src/alerts/alert-condition.ts and frontend/src/lib/alertConditions.ts
-- A method keeps its name in snake case; a method with several awaited steps is one function for
-- each place where it can end, called in the order of the source (`process`, `process_event`,
-- `with_service`, ...). Each of these modules has children that prove what holds of it.
--
-- How it is modelled. An operation takes the database and gives the one it leaves, with `Throws`
-- for the value or the exception where the promise can be rejected; what was saved before an
-- exception stays saved. A rollback request is two steps, the checks and the insert, so that the
-- steps of others can stand between; the unique partial index on active events is the insert's
-- condition, and a sequence of such steps and of job runs is a relation of its own. A creation of a
-- domain is its checks and two inserts, and a domain's check is given the row as it was loaded and
-- the database by the time of its saves (`check_found`); `create` and `check_domain` run them in one
-- go. A save is refused under the unique indexes, and a domain's and a certificate's under their
-- foreign keys and the type of their dates. Text is a list
-- of UTF-16 code units, an id is a number that the database draws from one counter, a date is a
-- number of milliseconds, and one operation reads the clock once. Rows that SQL leaves in any order
-- come in one. Every loop is over a list and recurses on it; only the cutting of a key file into
-- lines counts rounds, at most one for each character, and every round takes one at least. Number
-- and comparison operators are those of the native numbers.
--
-- What is a parameter: node-ssh (a session as a function of the commands run before), `fetch`,
-- `JSON.parse` and `JSON.stringify`, lower casing, Node's cipher, base64 and UTF-8, the answer of a
-- queue, the resolver, WHOIS, TLS, `new Date` of a text, the message of an error, bcrypt, the JWT
-- service, the generation of keys, random bytes, the answer of the rate limiter, and the collation
-- of names. A JSON value that a cast declares to be of a type is taken as of that type, apart from
-- the malformed and the null ones where the code reads on. Dates before 1970 do not occur.
--
-- What is not modelled: the console log; the texts of HTTP errors; a repository call that fails for
-- another reason than these; the closing of connections and the overwriting of keys in
-- memory; the stored error output of a check's two commands; relations between rows other than by
-- their ids, what a removal takes along and the foreign keys of a domain and its certificate; what
-- others write to the database between the awaits of one job of a rollback or of a host's check. The schedulers, the rate limiter's store, the checks of
-- the request bodies, the filter of exceptions, the other handlers of the controllers and the pages
-- of the frontend have no model.
pub mod Base
pub mod DockerRun
pub mod DockerPs
pub mod Container
pub mod Db
pub mod Snapshots
pub mod Alerts
pub mod Ssh
pub mod Rollback
pub mod ServicesSync
pub mod HealthCheck
pub mod Insights
pub mod Crypto
pub mod DomainCheck
pub mod Hosts
pub mod Domains
pub mod Services
pub mod AlertRules
pub mod CloudAccounts
pub mod Auth
pub mod Overview
pub mod Responses
pub mod ApiClient
pub mod AlertConditions
mod Tests
