-- ===== src/Lib.antt =====
-- mnemo-api: the study services of a flashcard application, as functions on its database tables.
--
-- The program is a web service in Python. Its services, in src/mnemo/services, read and write rows
-- through a database session; src/mnemo/db/database.py puts a transaction around each request. The
-- development models the services that hold the rules of studying.
--
--   * Models: the tables, one record for a row of each (src/mnemo/models), and `Db`, all tables.
--   * Exec: exceptions, and a method as a function from tables to a result and tables
--     (src/mnemo/core/exceptions.py); `request` is the transaction of `get_db`.
--   * SpacedRepetition: the SM-2 schedule (src/mnemo/services/spaced_repetition.py).
--   * Session: study sessions (src/mnemo/services/session.py). Starting has `start_session`, Views
--     the two queries, Scoring the marks for an answer. Answers call SpacedRepetition.
--   * Deck, Flashcard: decks and their cards (src/mnemo/services/deck.py and flashcard.py). Pages:
--     the pages of their listings (src/mnemo/services/utils.py).
--   * ImportJob: imports of CSV texts (src/mnemo/services/import_job.py), and in Worker the process
--     that works off the jobs (src/mnemo/workers/import_worker.py).
--   * Plan: study plans (src/mnemo/services/plan.py).
--   * Progress: streaks and reports (src/mnemo/services/progress.py).
--   * Accounts: the tables of users and API keys. ApiKey: keys (src/mnemo/services/api_key.py).
--     Timezone, User: accounts and their time zones (src/mnemo/utils/timezone.py,
--     src/mnemo/services/user.py).
--   * Auth: login, tokens and the checks of tokens, keys and scopes (src/mnemo/services/auth.py,
--     src/mnemo/api/dependencies.py, src/mnemo/api/v1/routes/auth.py).
--   * Routes: routes of src/mnemo/api/v1/routes behind these checks, here those on accounts (users.py,
--     provision.py, admin.py), in Admin the lists for administrators, in Catalog those on decks and
--     cards (decks.py, cards.py), in Imports and Memory those of imports.py and memory_states.py.
--   * Idempotency: stored responses (src/mnemo/services/idempotency.py), and the route that creates
--     decks with them (src/mnemo/api/v1/routes/decks.py).
--   * RateLimit: what a request must pass first (src/mnemo/middleware).
--   * Samples: stand-ins of the tests for libraries.
--   * Prelude: lists, tables as lists, texts, Boolean tests.
--
-- How the model stands to the code. Identifiers are random tokens that the program compares only:
-- they are numbers, and new ones are arguments. The clock is the argument `now`, in seconds; one
-- call of a method reads it once. A text is the list of its code points; what Python and SQL take
-- from the tables of Unicode is an argument. Ease factors are counted in hundredths, so that the
-- arithmetic is that of exact decimals; the rounding of floats is not modelled. Random order is the
-- argument `shuffle`, and the csv module the argument `csv`. A query for one row by its key is
-- `first?`, a write to a loaded row is `update_if` at its key, and a deletion takes along the rows
-- that the schema's cascades do. All functions are structurally recursive; the loop that counts the
-- days of a streak runs on fuel, one round more than there are dates with study, which is enough
-- because each round meets another date.
--
-- What comes from libraries is an argument as well: the calendar of a time zone, the zones that
-- pytz knows, HMAC, bcrypt, ILIKE, JSON, the JWT library and the Redis client. What a theorem
-- relies on is among its hypotheses: that JSON reads what it wrote, that a token is decoded to its
-- claims until it expires, that Redis counts and keeps a key until its deadline.
--
-- Dates end with the year 9999, as in Python: an interval or a time limit that leads past it raises
-- OverflowError. The limits of the database's columns are modelled where nothing has checked a value
-- before, which is the worker for imports and the time limit of a session. The filter that the
-- database makes of a deck's tag is an argument, which may also refuse the query.
--
-- Not modelled: HTTP and the validation of requests, sessions of other requests that run at the
-- same time and the integrity errors that only these cause, the routes that only pass on what the
-- services return, the client and the scripts.
mod Prelude
pub mod Exec
pub mod Models
pub mod SpacedRepetition
pub mod Session
pub mod Deck
pub mod Flashcard
pub mod ImportJob
pub mod Plan
pub mod Progress
pub mod Idempotency
pub mod Accounts
pub mod ApiKey
pub mod Timezone
pub mod User
pub mod Auth
pub mod Samples
pub mod Pages
pub mod Routes
pub mod RateLimit
