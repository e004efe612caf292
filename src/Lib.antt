-- ===== src/Lib.antt =====
-- AI phone platform: a telephone assistant that asks a questionnaire, scores the caller as a lead,
-- books an appointment and bills the call. This library models the core of its API
-- (apps/api) and of the package that API and dashboard share (packages/shared).
--
-- How the parts interact. A carrier calls the webhooks. `voice` looks up the dialed number and creates
-- the call; then either every utterance comes to `gather`, which runs one turn of the turn-based
-- conversation, or a session streams the call to the realtime agent, which a language model leads. Both
-- store answers on the row of the call. The last turn, or the status callback of a caller who hangs
-- up, finalizes the call: it scores the lead, stores a summary, records the usage, watches the budget,
-- sends mails and books the appointment.
--
-- Which file models which part:
-- - Types, Js, World: packages/shared/src/types.ts and constants.ts, the JavaScript runtime, and
--   the rows of apps/api/prisma/schema.prisma that one call touches. Numbers are a parameter (`Js`);
--   a theorem that needs facts of IEEE 754 takes `Js.Laws`; Js/Sample.antt has a concrete
--   runtime. Texts are lists of UTF-16 code units, and regular expressions are matchers
--   (Prelude/Patterns.antt).
-- - Questionnaire: questionnaire-engine.ts. `next_question` is `nextQuestion`, `normalize_answer` is
--   `normalizeAnswer`; Fits.antt says what value each type of question promises.
-- - Lead, Cost: lead-scoring.ts and cost.ts.
-- - Billing: apps/api/src/services/cost.service.ts and email/index.ts.
-- - Lifecycle, Calendar: lib/call-lifecycle.ts, lib/calendar-availability.ts and calendar.service.ts;
--   Calendar/Connections.antt has the connections with their encrypted tokens.
-- - Summary: summary.service.ts, `finalizeCall`.
-- - Conversation: conversation.service.ts. Conversation/Turn.antt has one function per phase of
--   `handleTurn`; each reads the call as it was loaded when the turn began.
-- - Realtime: answer-validate.ts, agent.ts and prisma-store.ts. Realtime/Agent/Events.antt has the
--   sessions that a sequence of events reaches.
-- - Realtime/Relay: realtime/protocol.ts and what opens a session in realtime/session.ts. The turns of a
--   session are not modelled: the socket does not wait for one to end before it takes the next message.
-- - Realtime/Stream: realtime/openai-llm.ts, from the chunks of a response to the result of a completion.
-- - Routing: phone-routing.ts, routing-pool.ts and routing-pool.service.ts. Routing/Claims.antt
--   interleaves the queries of all requests as a step relation, and Routing/Numbers.antt has the
--   handlers of routes/phone-numbers.ts.
-- - Webhook: routes/webhooks.ts.
-- - Retention: retention.service.ts.
-- - Access: constants.ts, plugins/auth.ts and routes/users.ts. Access/Tokens.antt has the four kinds of
--   signed token (lib/auth.ts, services/calendar/state.ts, realtime/token.ts), and Access/Login.antt
--   the handlers of routes/auth.ts.
-- - Regex, Dates: packages/shared/src/datetime-nl.ts and lib/timezone.ts. Regex.antt is a backtracking
--   matcher for the constructs that the patterns use, with a case for each; Dates/Ordinal.antt counts
--   the days of the calendar.
-- - Crypto: lib/crypto.ts over the primitives of the crypto library.
-- - Calls: routes/calls.ts and routes/gdpr.ts on the stored calls of all tenants, and the anonymization
--   of routes/admin.ts.
-- - Schemas, Setup: packages/shared/src/schemas.ts, and routes/questionnaires.ts, routes/assistants.ts
--   and lib/starter-content.ts.
-- - Admin: routes/admin.ts, routes/tenants.ts, routes/settings.ts and services/platform.service.ts, one
--   file for the accounts, the prompts, the pool of numbers, the tenants and the charts.
-- - Export: the CSV escape of routes/calls.ts, with a reader of one field as RFC 4180 describes it.
-- - Exec: asynchronous code as explicit state passing; an error keeps what was written before it, and
--   Exec/Fixes.antt has the rules for what an action leaves alone.
--
-- Bounds. The search for slots runs on fuel, one round for each step up to the horizon and one more,
-- which covers every step up to the horizon. The hops of the realtime agent and the attempts of
-- `claimFromPool` are the bounds of the code. Times are milliseconds from the epoch as natural
-- numbers; a subtraction that could go below 0 is written as the code uses it.
--
-- Parameters. The language model, telephony, the provider of calendars, the mail service, `JSON.parse`,
-- the signatures of tokens, the cipher, `Intl` and `toLowerCase` are parameters; a theorem that needs
-- something of them takes it as a record of laws (`Js.Laws`, `Tokens.Laws`, `Crypto.Laws`), and the tests
-- have an instance of each.
--
-- Not modelled: a query that the database refuses (but for the mail log, and for a row that is missing
-- where a handler does not look), the content of mails and of XML, the redirects of a calendar consent, and the adapters of telephony,
-- calendar, mail and language model. A time-out of a realtime call while the model speaks is an aborted
-- completion followed by the time-out. The rows that one call touches hold plain texts; the stored
-- calls of Calls.antt hold cipher texts. Lists, counts, logs, backups and system figures of the console
-- only read, and are left out, as are the dashboard (apps/web), the demo data and the configuration.
mod Prelude
pub mod Js
mod Regex
pub mod Dates
pub mod Types
pub mod Questionnaire
pub mod Realtime
pub mod Lead
pub mod Cost
pub mod Lifecycle
pub mod Calendar
pub mod World
mod Exec
pub mod Billing
pub mod Summary
pub mod Conversation
pub mod Routing
pub mod Webhook
pub mod Access
pub mod Retention
pub mod Export
pub mod Crypto
pub mod Calls
pub mod Schemas
pub mod Setup
pub mod Admin
mod Tests
