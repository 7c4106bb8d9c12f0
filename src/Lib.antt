-- ===== src/Lib.antt =====
-- clickwrap records that customers have agreed to versions of legal documents. A draft version is
-- published and rolled out to the customers with the role of its document; each of them gets a row,
-- a CustomerVersionState, which moves from PENDING_NOTIFICATION on by display, consent, objection,
-- expiry and replacement; a gate answers whether a customer may enter. Acceptances, objections, events
-- and notes are evidence, which is only appended.
--
-- Which file models which part of the repository:
--   Prelude            tests, lists, sorting, texts and dictionaries in insertion order
--   Domain/Errors      src/common/errors.ts: error codes, and results that may be one
--   Domain/Types       src/domain/types.ts, src/common/auth/actor.ts, src/agreements/audit.ts and
--                      src/common/escalation/escalation-log.ts: the records and enumerations
--   Domain/Lifecycle   src/domain/state-machine.ts, with the diagram of all transitions in Steps
--   Domain/Consent     src/domain/consent-rules.ts: the guards of consent and of publication
--   Domain/Compliance  src/domain/compliance.ts: the gate
--   Domain/Keys, Domain/Links, Domain/Customers   src/domain/keys.ts, acceptance-links.ts, customer.ts
--   Domain/EmailTemplate   src/domain/email-template.ts: the placeholders of mails
--   Store              src/persistence/inmemory: one file for each repository; Outbound is
--                      src/plugins/email/core/outbound-email.repo.inmemory.ts
--   Runtime            what the services share: the repositories of one process as the record World,
--                      calls that pass it on and may throw (Exec), src/consent/inmemory.ts (Replies),
--                      src/events/event-recorder.ts (Recorder), src/agreements/audit.ts (Audit) and
--                      the files of src/agreements/ports.ts (Files)
--   Services           src/consent/acceptance.service.ts, objection.service.ts and
--                      notification.service.ts, src/agreements/publish.service.ts,
--                      src/compliance/compliance.service.ts and
--                      pending-agreements.service.ts, and src/sweeper: the services of the
--                      deadline, activation, reminder and rollout notification jobs; Drafts and
--                      DocumentCreation are src/agreements/version.service.ts and document.service.ts,
--                      LegalEntities is src/legal-entities/legal-entities.reconciler.ts,
--                      SignedDocuments src/signed-documents/signed-document.service.ts and
--                      Integration src/common/integration/resolve-customer.ts
--   Admin              src/admin: manual acceptance, patches of rows, and the administration of
--                      audiences, document types and mail templates
--   Accept             src/accept: the rate limiter of the hosted page, and the links that are handed out
--   Onboarding         src/customers: creation, update, inbound pushes and the list of customers
--   Mail               src/plugins/email/core: reports of deliveries, the permanent links in mails, and
--                      the template and the values that a mail is made from
--   Examples           a small store on which the theorems are applied
--
-- How state and operations correspond: a Map or a table is a list of keys and values in the order of
-- insertion; a repository's method is a function from the table to the new table and the value that
-- it returns; a service's method is a call on the World, and what was written before a `throw` stays
-- written, as in the source, which has no transaction. A method that is longer than a few lines is
-- cut into the parts that the source separates by comments. `deepCopy` has no counterpart, since values
-- are not shared. A time is a natural number of milliseconds since the epoch. The texts of errors are
-- left out; their codes are kept. The clock is a function of how often it was read, and the random ids a
-- function of how many were made: both are parameters, as are SHA-256 and the setting SWEEPER_ENABLED.
-- A transition that reads the clock on some of its branches is given the reading on all of them, and a
-- consent takes the reading for its guards before the first of them.
-- Mails and notices to administrators never fail by their contract; their calls are logged in the
-- World. The optional collaborators of the services are there.
--
-- Bounds: a waiting request polls the idempotency store 50 times, as the source does; between two polls
-- the other requests change the World by a parameter. All other loops run over lists that were read
-- before them.
--
-- What comes from outside is a parameter: the storage of files with its hashes and download URLs, the
-- HMAC by which the token of a permanent link is made, the random token of other links, the texts of
-- dates, the collation of keys, names and ids, the configured base URL, the lower case of a text in a
-- search, and the provider's answers about deliveries. The dates of a request are valid ones where the
-- source does not test them.
--
-- Not modelled: the Prisma driver, which maps rows to a database outside of the repository; HTTP
-- controllers, authentication, the plugins for mail and storage, and the administration's client,
-- which are input and output; the dashboard, the history, the hosted page and its view, the plugin
-- registry; of mails the default designs, their plain text (deriveTextFromHtml), the preview and the
-- services that send them. What sends the mails of the reminder and rollout jobs is a parameter of
-- these.
pub mod Prelude
pub mod Domain
pub mod Store
pub mod Runtime
pub mod Services
pub mod Accept
pub mod Admin
pub mod Mail
pub mod Onboarding
pub mod Examples
