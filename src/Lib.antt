-- ===== src/Lib.antt =====
-- A log and login platform: a GraphQL gateway, an authentication service and a browser UI.
--
-- The gateway finds the log streamers of a cluster by DNS, holds a web socket to each of them, counts
-- the GraphQL subscribers of each container and service, and passes the lines that arrive on through
-- Redis. It answers queries on containers and on log files by asking all log streamers and merging
-- what arrives. The authentication service checks passwords, one-time codes and tokens against a table
-- of accounts, and records every attempt. The services do not share state: the gateway calls the
-- authentication service over HTTP. The browser keeps the tokens and refreshes them by a timer. A
-- script reports the errors of a day to Slack.
--
-- LogStreamer: apps/gateway/src/log-streamer-proxy/log-streamer-proxy.service.ts.
--   State: the fields of LogStreamerProxyService. A connection object, a socket and a timer is named
--     by a number, since handlers and timers keep an object after the map of connections has dropped
--     it. What is sent to a socket and which closes are asked for are lists in the state.
--   Subscriptions: retainSubscription and releaseSubscription; Balance follows a history of
--     subscribers.
--   Connections: reconcileConnections (split at its await into begin_reconcile and reconcile),
--     connectWebSocket and its handlers, scheduleReconnect, closeConnection, broadcastToAll,
--     onModuleInit and onModuleDestroy. Links and Invariant are the well-formedness of the state and
--     its preservation, Reconcile, Backoff, Stale, Sending and Shutdown the properties of these
--     operations.
--   Subscribers: subscribeToLogs, subscribeToServiceLogs and the return of their iterators; the end of
--     the wrapped iterator is Redis's. Frames is what each sends, Streaming what a log streamer makes of
--     all that it is sent on one socket.
--   Events: any order of the calls, callbacks and answers of the outside as a step relation, Run.
--   Messages: the handler of the message event. Queries: listContainers and getContainerStats, and
--     discoverLogStreamers of apps/gateway/src/common/discover-log-streamers.ts.
-- LogHistory: apps/gateway/src/log-history/log-history.service.ts, listApps, search and mergeStats. The
--   order of localeCompare is a parameter, and a total and transitive one where the theorems say so.
-- Errors: apps/gateway/src/common/filter/http-exception.filter.ts and its table of
--   libs/shared/src/common/filter/http-status-mapping.ts, and the errors that
--   apps/gateway/src/circuit-breaker/circuit-breaker.service.ts does not count. A text stands with the
--   result of JSON.parse on it, which is shorter, so that data is finite.
-- AuthProxy: what a login and a change of the password carry from the browser's request through the
--   gateway (apps/gateway/src/auth-proxy, the interceptor of requests of
--   apps/gateway/src/http/global-http.module.ts) to apps/auth/src/auth/auth.controller.ts. Arrived and
--   Lowered relate the headers that are sent to those that are read; Channel, ClientIp and Credentials
--   are about the origin, the client address and the tokens.
-- AccessChannel: libs/shared/src/common/http/access-channel.ts, the origin a client came in under.
-- ApiAccess: the headers of apps/ui/src/lib/apollo.ts and the guards of apps/gateway/src/auth that read
--   them, api-key.guard.ts and gql-throttler.guard.ts.
-- UiSearch: apps/ui/src/hooks/useLogSearch.ts, the matches of a query and the walk through them.
-- UiBuffer: apps/ui/src/hooks/useLogBuffer.ts, the bounded buffer of lines.
-- UiTabs: apps/ui/src/hooks/useTabs.ts, the tabs of a page and the active one; Ids and Bounded are their
--   well-formedness.
-- UiContainers: apps/ui/src/features/live-stream/components/ContainerList.tsx, the search, the groups
--   and the favourites.
-- UiServiceLog: apps/ui/src/features/live-stream/components/ServiceLogViewer.tsx, the active containers
--   of a service and their colours.
-- UiAuth: apps/ui/src/features/auth, token.ts and AuthContext.tsx: the stored tokens, the timer that
--   refreshes them, and the handlers of AuthProvider. A handler runs up to its await; the answer is a
--   handler of its own, so that a sequence of events is any interleaving. Sessions, Timers and Refresh
--   are the invariants over such sequences; Races are orders that lose a session or keep one.
-- UiLogin: LoginPage.tsx and error-message.ts of the same directory, on the session of UiAuth.
-- DailyReport: scripts/daily-error-report.mjs. Collected, Groups and Message follow the errors from the
--   answers to the text; Script is the end of the script, with Outcomes.
-- Auth: apps/auth/src.
--   AccountStatus, Accounts: auth/enums and account/account.service.ts over the rows of
--     database/schema.ts; Frame is what an update leaves of the other rows.
--   Errors, History: auth/constants/auth-error.ts, login-history/login-history.service.ts.
--   Tokens: auth/jwt.service.ts. Signing and verifying are a parameter, Jwt, with the law IsVerified.
--   Claims, Service, Sessions: auth/auth.service.ts. A method is a function from the store to its
--     result, or what it throws, and the store that it leaves, so that writes before a throw stay.
--     Service is login, with Branches, Effects, Soundness, Isolation and Lockout; Sessions are the
--     methods that take a token, with Passwords, SecondFactor and Tokens.
-- KstDatetime: apps/auth/src/database/kst-datetime.ts. Calendar computes the civil date of a time and
--   the day of a date, Written and Fraction are the text, RoundTrip puts them together.
-- Common: JavaScript's tests, Map and Set as association lists in the order of insertion, sorting
--   with text keys, texts, headers, settled promises, and the stable sort.
--
-- Loops of the source walk a finite list or text and are structural recursion. Three definitions take
-- fuel: String(n) takes n + 1 steps, more than n has digits; the year of a day is searched for one year
-- at a time with one step more than there are days, which is enough since every year has a day; the
-- month of a day of the year is searched for with 12 steps, one for each month.
--
-- Outside the development are: the libraries (ws, Redis, bcrypt, jose, otplib, opossum, axios, fetch,
-- the parser of urls, zod, passport, the database), which are parameters where a definition calls them,
-- and so are the clock, localeCompare, encodeURIComponent, the lower case of a text beyond
-- ASCII, and the decoding of a token's payload; a request reads its clock once, and two requests do not
-- interleave their statements on the database; times are milliseconds, those of KstDatetime from the
-- year 0 on; floats of container statistics are carried along as numbers; the length of a text counts
-- characters, as in the basic plane. The log streamer itself, written in Go, what the React views draw,
-- the paging of the search panel, scrolling, logging, the passing through of the kiosk administration,
-- and the wiring of the modules are not modelled.
pub mod Common
pub mod AccessChannel
pub mod ApiAccess
pub mod Auth
pub mod AuthProxy
pub mod DailyReport
pub mod Errors
pub mod KstDatetime
pub mod LogHistory
pub mod LogStreamer
pub mod UiAuth
pub mod UiBuffer
pub mod UiContainers
pub mod UiLogin
pub mod UiSearch
pub mod UiServiceLog
pub mod UiTabs
