-- ===== src/Lib.antt =====
-- Cockpit CronPlus is a page of the Cockpit web console that edits scheduled tasks, runs them and
-- shows their logs, and a daemon and a command line in Go. This library is about the page, the
-- JavaScript under cockpit-cronplus/static/js.
--
-- The parts and how they interact. app.js keeps the page's state (tasks, logs, the running tasks,
-- the dialogs) and calls the `cronplus` command through Cockpit; cron.js computes run times for the
-- previews; utils.js escapes, encodes and formats; time.js formats; i18n.js has the texts; theme.js
-- the theme.
--   Cron/ParseInt    `parseInt` and the regular expressions of cron.js (child: Show)
--   Cron/Field       `matchField`, `parseFieldValues`, `fieldNextAfter`, `fieldMin`, `fieldMatches`
--                    (children: Search, Sorted, Expand, Ordered, Ends, Agree, Next)
--   Cron/Calendar    the dates of the language (children: Bounds, Jump, Months)
--   Cron/Next        `nextRunTimeAfter`, `matchCron6`, `getNextRunTimes`, `getNextRunTime`
--                    (children: Round, Sound, Skip, First, Rank, Progress,
--                    Complete, Runs)
--   Cron/Base        `getNextRunTimesFromBase` (children: Results, Chain, Fill,
--                    Rising)
--   Cron/Schedule    `parseSchedule`, `describeSpecial`, `describeCron`, `updatePreview`, `_getStep`,
--                    and `_estimateIntervalMs` of app.js (children: RoundTrip, Estimate)
--   Utils            `escHtml`, `shellQuote`, `pad2`, `formatDuration`, `formatDateTime` of utils.js
--                    (children: Escape, Format, Base64 for `encodeTaskForSave` and
--                    `decodeTaskOnLoad`, and Shell for `shellReadJson`, `shellWriteJson`,
--                    `spawn`)
--   Time             time.js (child: Agree)
--   App/Types        a task and a log entry
--   App/Values       what the browser keeps of a text that is assigned to an input
--   App/Form         the inputs of the task dialog: `editTask`, `addNewTask`, and what `saveTask` reads
--                    (children: Inputs, EnvVars, Schedules, RoundTrip)
--   App/Store        the task list: `saveTask`, `toggleTask`, `deleteTask`, `importConfig`,
--                    `loadRunning`, `getLastRunInfo`, `loadTaskLogs`, `showTaskLogs`
--                    (children: Ids, Steps, Delete, and Loading for `loadLogs`, `stopTask` and the
--                    footer)
--   App/TaskView     `renderTasks`: the search, the page and the cards (children: Cards, Params)
--   App/Config       tasks.conf: `loadTasks`, `saveTasks`, `exportConfig`, `saveRawEditor`
--                    (children: RoundTrip, Accepts)
--   App/Anchor       `updateNextRuns`, `editFirstRunTime`, `confirmAnchor` (child: RoundTrip)
--   App/Settings     `loadSettings`, `applySettings`, `saveSettings` and the refresh timer (children:
--                    Page for `init` and the page sizes, Dialog for `openSettingsModal`,
--                    `handleSaveSettings` and `handleResetSettings`, Sync, Shade, RoundTrip)
--   App/Run          the run dialog: `runTask`, `startRunOutput`, `stopRunOutput`, `finishRun`,
--                    `closeOutputModal`, as a step relation (child: Invariant)
--   App/Output       `createOutputWriter` (child: Stdin for `sendStdin`)
--   App/Confirm      `confirmDialog`
--   App/Cleanup      `buildPruneArgs`, `countCleanupServer`, `previewCleanup`, `execCleanup`
--                    (child: Dialog for `openCleanupModal`)
--   App/LogView      `renderLogs` (children: Shown, Order, UserOptions, Expand for `loadLogOutput`,
--                    Controls)
--   App/DaemonLog    `renderDaemonLogs` (children: Parse for `parseLogLine`, `_detectLevel` and
--                    `loadDaemonLog`, with Level, RoundTrip for the format that its comment gives and
--                    Written for the one of cronplusd; Timer for the tabs and
--                    `startDaemonLogTimer`, with Invariant)
--   App/CronInputs   the listeners of the schedule inputs, presets and reset in `bindEvents`
--                    (children: Fill, Preset)
--   App/Users        `loadSystemUsers`, `populateUserSelects`, `toggleCustomUser`, `loadUser`
--   App/Refresh      `autoRefresh`, the refresh button and the marks of interaction, as events
--   App/Colors       `colorizeOutput` (children: Pieces, Faithful)
--   App/Paging       the pages of both lists, `paginationHtml`
--   I18n             `detectLang`, `load`, `t` of i18n.js (child: Loading)
--   Theme            theme.js
--   Common           texts, lists, integers and tests that all share
--
-- How state and operations correspond. A handler takes the state that it reads and gives the new
-- one, with the calls that it makes in their order; an `await` ends a handler, and what follows it
-- is another. Promises, processes and timers are events of a sequence. An exception, and `null`, is
-- `none` or a constructor of its own. The answers of the command line, of the user and of the server
-- are arguments.
--
-- Bounds and fuel. Numbers are exact natural numbers and integers. A date is the number of
-- milliseconds since 1970 on a clock with a constant offset and no leap seconds. The loops of
-- `parseFieldValues` have a fuel, since they do not all end: `none` is a loop that has not ended.
-- `nextRunTimeAfter` has its own bounds, 100000 rounds and four years, and the model has the same; six
-- rounds for a day are enough, by the measure of Cron/Next/Rank.
-- The binary search has the length of its array as fuel, which is the most rounds it can make.
-- `toFixed(1)` and the locale's order of two texts are arguments.
--
-- The browser's base 64 and UTF-8 functions are a record of functions, with what they promise as its
-- laws; the reading of JSON and of a date from a text are arguments. What the selects of the settings
-- offer is an argument too, as it stands in the markup. A text that is assigned to an input of the task
-- dialog is kept as the HTML standard has it, without the line breaks of a text input.
--
-- Not modelled: the Go programs; the keys of settings.json that the page does not know; the listeners
-- that only pass a click on to a handler; and the code that only builds or writes markup, as
-- `_highlightMsg`.
mod Common
pub mod Cron
pub mod Utils
pub mod Time
pub mod App
pub mod I18n
pub mod Theme
