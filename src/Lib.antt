-- ===== src/Lib.antt =====
-- skills-dashboard: the server of a dashboard on AWS metrics and logs, its TypeScript engine. A
-- request names a range and a period; server/src/domain/window.ts makes the one time window that
-- every panel of the answer shares. Metrics come from CloudWatch through server/src/aws/metrics.ts,
-- which moves their times onto the grid of the window and projects them on its axis; logs come from
-- queries that server/src/aws/insights.ts runs, a bounded number at a time. Both go through the
-- cache of server/src/aws/cache.ts, which folds concurrent misses into one load. The results become
-- series, tables and panels of server/src/domain/series.ts, and a payload is checked against its
-- axis before it is written.
--
-- Files and code:
--   Common            lists, integers, membership and results over the native numbers
--   Text              strings, and decimal numbers in them
--   TextMap           a `Map` with strings as keys
--   Duration          `parseGoDuration` of server/src/domain/logfmt.ts
--   Dimensions        server/src/domain/dimensions.ts
--   GoRegexp          server/src/domain/goregexp.ts, `compileGoRegexp`; the engine is a parameter
--   LogFormat         server/src/domain/logfmt.ts: the log format, its defaults and its check
--   Config            server/src/config/config.ts: `fillDefaults`, `inspect` (`problems`),
--                     `validateConfig` and `repairConfig`; a problem carries what its message is made
--                     of, and `drop_problem` is its `drop`
--   Window            server/src/domain/window.ts: `validateWindow`, `newWindow`, `parseRange`,
--                     `periodsFor`, `timestamps`, `indexOf`, `align`, `resolveWindow` and the rest,
--                     each under its own name in snake case; a thrown error is a `WindowError`
--   Series, Payload   server/src/domain/series.ts: the class `Series` with `set`, `add` and its
--                     reductions; `newTable`, `Panel`, `Payload` and `validatePayload`. The shapes of
--                     statistics, columns and bars are those of web/src/lib/types.ts
--   Catalog           server/src/domain/catalog.ts: the metrics, `searchExpression`, `queryID`; an object
--                     of filters is the list of its fields
--   Metrics           server/src/aws/metrics.ts: `alignToBucket`, the loop of `fetchChunk` over the
--                     samples of a result (`absorb`), `toSeries`
--   Fetch             server/src/aws/metrics.ts: `build`, `fetch_chunks` and `fetch` are the parts of
--                     `fetch`, `walk` is the loop of `fetchChunk` over the pages, `absorb_results` that
--                     over the results of a page; `send` is a call of CloudWatch
--   Cache             server/src/aws/cache.ts: `enter` is `do` up to its first await, `run_owner` and
--                     `run_waiter` are what follows the two awaits, `resolve` is the end of a load,
--                     `prune` and `invalidate` are the methods of these names
--   Runner            server/src/aws/insights.ts: `run_held`, `poll` and `build_result` of
--                     `InsightsRunner`; CloudWatch and the clock are the record `Api`, and the signal
--                     that bounds a query is the time at which it aborts
--   Semaphore         server/src/aws/insights.ts: the class `Semaphore`; `run_on` is what follows the
--                     await of `acquire`
--   TimeRange         web/src/lib/timerange.svelte.ts: the class `TimeRange` and its tables;
--                     `toSearchParams` is left out. Its methods step from one selection to the next,
--                     and its table is compared with the rules of Window
--   Query             server/src/domain/query.ts: `access_preamble`, `namespace_filter`, `probes` and
--                     `level_filter` are methods of `LogQueries`, which holds a format; each query is a
--                     function of its name
--   Env               server/src/config/env.ts: the functions of these names; reading a file gives a
--                     `FileText`. The plain object that holds the assignments of a file is a map:
--                     what a name of Object.prototype does there is left out
--   LogPanels         server/src/http/panels-logs.ts: the panels made of logs; `status_panel` and its like
--                     are what follows the queries of a builder. `Rows` reads times and numbers, `Runs`
--                     is `runLogQueries`, `Pivots` the two pivots; `Platform` holds the built-in
--                     functions on numbers, times and letters, and how a number prints
--   MetricPanels      server/src/http/panels-metrics.ts: the panels made of metrics; `Grouped` has those
--                     that show each metric for each chosen resource, `Cluster` the use of pods and
--                     nodes, `Status` their number and state; a builder takes what is fetched from
--                     `ask`, and `Arithmetic` holds the arithmetic on values
--   Requests          server/src/http/panels.ts and panels-logs.ts: `requestConfig`, `podLogs`, `wafLogs`
--   Pages             server/src/http/panels.ts: `panelBuilders`, `pages`, `buildPanels`,
--                     `handlePanel` and `handlePage`; an `Answer` stands for the response of its status.
--                     The limits of a configuration that was loaded or saved are positive, and so are
--                     taken as natural numbers
--   Resources         web/src/lib/resources.ts: `appName`, and `groupByLoadBalancer` up to the
--                     sorting of its groups; `file_resource` is the body of its loop
--   Tests             runs at concrete inputs
--
-- How the code is represented. A string is the list of its UTF-16 code units. Times are integers,
-- in milliseconds of the epoch, ranges and periods natural numbers of milliseconds; a negative or
-- fractional range or period does not occur in the code. The division of a time is exact. A value of
-- a series is of any type, with the operations that the code applies to it as arguments, so that
-- nothing is assumed of floating point; a duration is an exact decimal fraction. Where a theorem
-- is about sums, `Exact` says that addition is that of whole numbers that a double holds. The queries
-- of a panel are answered by an argument; the queries of one wave are taken in the order in which
-- they end.
--
-- Objects that callers share: a cache entry stands on a heap, and the map of the cache holds its
-- place there. JavaScript runs one step at a time and suspends at an await, so the state machines of
-- the cache and of the semaphore step from one suspension to the next, in any order that a queue of
-- continuations allows: continuations of a settled promise run in the order in which they were
-- queued, and other calls may come in between. A load may end at any time, with any outcome, and the
-- clock of the cache may show any time at any step. `poisoned`, `born` and `epoch` of the cache are
-- not in the code: they record what an entry's load met, for the statements.
--
-- Loops are structural recursion, but for five on fuel: the rounds of `poll`, with one more than
-- the timeout holds, since a wait lasts an interval; the leading flags of a pattern, with its
-- length, since a group takes four characters; the chunks of a list of queries, with its length,
-- since a chunk takes at least one; the digits of a number n, with n + 1, since each step divides
-- by ten; and the parts of a duration, with the length of the text, since each part takes a
-- character.
--
-- Not modelled: the JSON forms of series, panels and payloads;
-- the parsing of log lines, the store of the configuration, the routes and the rest of the browser's code,
-- which these files leave to later work; input and output, the AWS clients, the views and the Go engine,
-- which hold no logic that the TypeScript engine does not have.
pub mod Common
pub mod Text
pub mod TextMap
pub mod Duration
pub mod Dimensions
pub mod GoRegexp
pub mod LogFormat
pub mod Config
pub mod Window
pub mod Series
pub mod Payload
pub mod Catalog
pub mod Metrics
pub mod Fetch
pub mod Cache
pub mod Runner
pub mod Semaphore
pub mod TimeRange
pub mod Query
pub mod Env
pub mod LogPanels
pub mod MetricPanels
pub mod Requests
pub mod Pages
pub mod Resources
pub mod Tests
