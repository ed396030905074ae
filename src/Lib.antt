-- ===== src/Lib.antt =====
-- Bill Tracker, the plugin of the hhq dashboard that keeps a household's bills: a model of its Go
-- code and the theorems about it.
--
-- The program keeps its state in PostgreSQL. Its parts meet there: the settings page and bills.json
-- write bill definitions; the scheduler turns definitions into dated instances, refreshes bank
-- balances over SimpleFIN and the amounts of vendor-connected bills; the view and the
-- calendar's events read them. hhq registers once with a shared secret and then presents the token that
-- it was issued.
--
-- Which file models which part (paths are from the repository's root):
-- - Calendar: what the code uses of Go's `time.Time`, as days. Calendar/Order: days are ordered
--   and numbered.
-- - Schedule: internal/models/bill.go, `NextDueDates` with its month loop. Schedule/Loop,
--   Schedule/Due and Schedule/Ascending hold its theorems.
-- - Models: internal/models. Rows has the structs and the tables of
--   internal/db/migrations/00001_initial_schema.sql, Database how a function reaches them, and
--   Bills, Instances, Accounts, SimpleFin, Vendors and Settings one store each, a definition for
--   each method. Consistent says what the schema and the statements keep.
-- - Crypto: internal/util/crypto.go, over AES-GCM as a parameter with its documented law.
-- - Money: `parseMoneyToCents` of internal/simplefin/client.go, and `parseDollarsToCents` of the two
--   connectors. Money/Text prints amounts and reads them back.
-- - Float: `float64` as `formatCents`, `formatCentsPlain` and `int(dollars*100 + 0.5)` use it
--   (internal/handlers/view.go, settings.go and bootstrap.go): rounded quotients of whole numbers.
--   Float/Scan has strconv.ParseFloat; Float/Nearest, Float/Cents, Float/Parsed and Float/Dollars
--   hold the theorems.
-- - Connectors: internal/connectors/connector.go. Connectors/Html has the searches of a page and
--   Connectors/Dates Go's date layouts, which Connectors/Billeriq and Connectors/Columbiagaspa
--   (internal/connectors/billeriq and columbiagaspa) share.
-- - SimpleFin: the rest of internal/simplefin/client.go; SimpleFin/Dial has its check of addresses.
--   SimpleFin/Addresses and SimpleFin/Balances hold the theorems.
-- - Config: internal/config/config.go. Logging: internal/logging/logging.go.
-- - Server: cmd/server/main.go, with `SettingsPage` of internal/handlers/settings.go. Server/Guarded
--   is about the guard of the token, Server/Safe about what the handlers write. Server/Start is
--   `main` up to the listener, with internal/db.
-- - Scheduler: internal/scheduler/scheduler.go, one definition for each job. Scheduler/Balances goes
--   from the bridge to the accounts' rows, Scheduler/Portal from a vendor's site to the bill;
--   Scheduler/Loops has the loops around the jobs, Scheduler/Versions the one of the update check.
-- - Handlers/Auth: internal/handlers/register.go and auth_middleware.go. Handlers/Forms:
--   `parseBillForm` and `billBootstrapToDefinition`. Handlers/Settings: the actions of settings.go.
--   Handlers/Bootstrap: bootstrap.go and vendor_bootstrap.go, with `resolvePassword` of
--   internal/config; Handlers/Bootstrap/HandMade, the bills of the settings page beside them. Handlers/Pages: the rows that view.go hands to its template, in Handlers/Pages/Table
--   those of settings.go, and in Handlers/Pages/Editing the edit form of web/templates/settings.
--   Handlers/Events: events.go, with what is used of Sscanf. Handlers/Manifest: manifest.go.
-- - Release: internal/release and internal/handlers/version.go; Release/Github has the requests.
-- - System: the server's requests and the scheduler's jobs as values, and runs of them.
-- - Base, Errors and Clock: shared helpers, the error values, and what is read of the time.
--   Tests: runs on small inputs.
--
-- State and errors. A function that uses the database is a function from `Db` to a result and the
-- next `Db`: the tables, and a list that says of each statement to come whether the database fails
-- it. A failing statement changes nothing; what was written before it stays, as in the code, save
-- in the one transaction. `if err != nil { return err }` is the bind of do blocks, `attempt` the
-- handled error, `ignoring` an error that is only logged. Errors are constructors; their texts and
-- the calls of the logger are left out.
--
-- Bounds and fuel. The month loop of `NextDueDates` runs on as many rounds as the window has months,
-- and one more; printing a number in decimal, on as many as its value. Go's `int` is an integer
-- here; where the database's INTEGER refuses a number, the statement fails. Durations and sums of
-- cents wrap around at 64 bits. Years start at 1. Text is bytes; of the white space beyond ASCII
-- nothing is known. A double has at most 1074 binary places, which bounds the search for those of a
-- quotient; products and sums are rounded one by one, as on amd64, for which the images are built,
-- and not fused. The bound of 2 ^ 50 cents on amounts leaves 3 binary places and more.
--
-- Taken as parameters: AES-GCM and the random reader, the answers of vendors, of the SimpleFIN
-- bridge, of its name servers and of GitHub, parsed HTML, JSON, URLs and base64, reading files and
-- the environment, printing JSON, and the database's collation. A clock does not pass midnight while
-- a function runs. Statements of two requests that interleave are not modelled; each request or job
-- runs by itself.
--
-- Not modelled: the markup of pages and the text of messages, what `log` puts in front of a line,
-- what the libraries do that open and migrate the database, the interleaving of the loops, signals,
-- time limits and the HTTP listener, and internal/testutil, which serves tests.
pub mod Base
pub mod Calendar
pub mod Schedule
pub mod Errors
pub mod Models
pub mod Crypto
pub mod Clock
pub mod Money
pub mod SimpleFin
pub mod Config
pub mod Connectors
pub mod Scheduler
pub mod Float
pub mod Handlers
pub mod Release
pub mod Logging
pub mod Server
pub mod System
mod Tests
