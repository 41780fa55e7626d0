-- ===== src/Lib.antt =====
-- Email-Ops: the decisions of the backend about mail, its rules, its sends and its tokens.
--
-- The program is a NestJS service (backend/src) over a PostgreSQL database and an external mail
-- engine. Agents and people compose mail; a policy decides whether a message leaves or waits for a
-- human; inbound mail runs through mailbox rules; provider webhooks report what became of a
-- message; a worker sends what was scheduled; a token's scopes decide which MCP tools it may call.
--
-- Files and the code they are about:
--   Prelude      shared names, lists, integers, texts (JavaScript's string operations), trim
--   Json         values of a JSON column or body, with the run-time tests that the code makes
--   Autonomy     backend/src/email/autonomy.ts (decideComposeMode, decideAgentComposeMode)
--   RuleEngine   backend/src/mail-rules/rule-engine.ts (parseMatch, parseActions, evaluateRules)
--   MailRules    backend/src/mail-rules/mail-rules.service.ts: applyInbound and executeAction;
--                Write and Table are create, update and remove with their checks
--   Delivery     backend/src/email/message-status.ts, backend/src/webhooks/postmark.types.ts, and
--                recordEngagementEvent of backend/src/email/email.service.ts
--   Scheduling   backend/src/scheduling/scheduling.service.ts, the scheduled sends: Payload is
--                normalizePayload, Worker is fireDueScheduledSends
--   Snooze       the snoozed threads of the same file (snoozeThread, unsnooze, surfaceDueSnoozes)
--   Mailboxes    the fence of a person's own mailbox (mayActThroughMailbox) and its tables
--   Email        composeEmail, approveAgentInboxItem, rejectAgentInboxItem and what they call, of
--                backend/src/email/email.service.ts: Phases is composeEmail, Inbox the approval
--                queue, Context buildAgentComposeContext, Engine callEngine, Learn
--                learnTrustedCorrespondents, Contacts rememberContacts; Once,
--                Gate, Addressees, Released, Confirm, Overlap and Resend are proofs.
--                Scheduling/Mail joins it to the worker.
--   PatScope     backend/src/auth/pat-scope.ts and backend/src/mcp/mcp-scopes.ts
--   Roles        backend/src/common/workspace/role-rank.ts
--   Provisioning backend/src/provisioning/provisioning-policy.ts (decideProvision); Requests and
--                Review are provisioning-requests.service.ts with authorize and fileRequest
--   AccessList   backend/src/auth/access-list.ts (parseAccessList, resolveUserAccess)
--   Entitlement  backend/src/email/entitlement.ts (checkComposeEntitlement)
--   Search       backend/src/stalwart/search-query.ts (extractTokens); Query is parseSearchQuery and
--                buildJmapFilter
--   Triage       backend/src/mail-triage: the services of sender policies and of folders; Classify
--                is classifyInbound of mail-triage.service.ts
--
-- A table is the list of its rows, in the order of their creation, and a handler takes the state
-- and returns the state after it. Where handlers interleave, a row is passed as the handler has
-- read it, beside the table as it is by then; a handler that calls the engine outside of a
-- transaction is a function per phase. The mail engine, the spam engine, the answers of
-- composeEmail in the scheduler's own theorems, what a cleanup executes, and Date parsing and
-- printing are parameters. Texts are lists of code units; lower-casing is that of the letters A to
-- Z. Times are natural numbers of milliseconds, or ISO texts where the code compares texts.
--
-- Recursion is structural everywhere but for the digits of a number (`decimal`, as many rounds as
-- the number), the depth of a match tree (`matches`, as many rounds as the tree is deep) and the
-- tokens of a search query (`extract_tokens` and `read_token`, as many rounds as characters), which
-- are enough.
--
-- The write side of the mail rules runs each handler as one step, so two creates of rules at the
-- same time are not modelled. A webhook's two steps are one where a theorem says that events are
-- captured one after the other.
--
-- Not modelled: exceptions of the database, logging, controllers and transports, the clients of
-- the mail engine, the readers and views of the email service, the notice of a held draft to
-- another service, the web client, and the cleaner engine.
pub mod Prelude
pub mod Json
pub mod Autonomy
pub mod RuleEngine
pub mod MailRules
pub mod Delivery
pub mod Mailboxes
pub mod Email
pub mod Search
pub mod Scheduling
pub mod Snooze
pub mod Triage
pub mod PatScope
pub mod Roles
pub mod Provisioning
pub mod AccessList
pub mod Entitlement
