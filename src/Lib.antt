-- ===== src/Lib.antt =====
-- The server of an admin backend: loco-rs handlers over SeaORM tables. This library models the
-- handlers that carry its rules, as functions on the tables, and proves what those rules are for.
--
-- The parts and their files:
--   Base        tests, lists, sorting and the parts of Rust's `str` that the program uses
--   Api         src/errors.rs: ApiError, ApiResult and the conversions of errors
--   Db          the calls of the ORM. Db/Interface names them and what the code relies on; Db/Memory
--               is an instance with lists of rows. Db/Handler is the monad of the async handlers,
--               Db/Rows the queries and changes of one table, Db/Members and Db/Rules the rules by
--               which a handler is followed step by step.
--   Entities    src/models/_entities: the rows. World: all tables, and where each stands.
--   Env         UUIDs, JSON and times, which come from libraries, and the time of the request
--   Rbac        src/models/rbac.rs (Ids, Roles), authorize of src/controllers/admin/mod.rs and
--               find_by_pid of src/models/users.rs (Authorize); Grants says what the tables grant,
--               Check that the code decides this, Visible is the lookup that the handlers share. Links
--               are the queries from a user's roles to what they are linked to, Permissions is
--               load_user_permissions, Scope is resolve_data_scope, Justified says when a scope is
--               granted and Scoped what the code answers.
--   Settings    src/models/system_settings.rs; Settings/Bounds says in which ranges its numbers lie
--   RateLimit   src/middleware/rate_limit.rs: Buckets (increment_and_check over the static buckets) and
--               Rules (the rules and the middleware). History compares the buckets with a limiter that
--               forgets nothing, Bounds counts the requests of a window, Verdicts follows the loop over
--               the rules and Middleware the whole request.
--   FileStream  src/services/file_stream.rs, and in FileStream/Stream stream_local_path of
--               src/services/storage.rs with the part of raw_file_response in
--               src/controllers/admin/file_manager.rs that joins them; Asked describes which range a
--               header asks for, Requested compares requested_range with it, and Bounds, Delivery and
--               Served say which bytes are delivered
--   StaticHosting  src/services/static_hosting.rs: Percent (percent coding), Urls (URLs, the site of a
--               request); a path is the list of its bytes. RoundTrip and Resolve decode what was
--               encoded, Sites is about match_site.
--   Auth        src/models/users.rs (Users), src/models/refresh_tokens.rs (Tokens),
--               src/models/admin_logs.rs (Logs) and src/controllers/auth.rs (Login, Accounts,
--               Departments); Secrets names hashes, tokens and mails, Lookup is a ModelResult whose
--               error the code looks at. Valid and Rotation follow the refresh tokens, Lockout and
--               Entry the login, Switching the current department.
--   Payments    src/controllers/admin/payments.rs: Amount (parse_amount, normalize_amount), Params
--               and Records (bodies and answers), Validate (checks of values), Visible (who sees
--               which row), Channels, Orders and Refunds (the handlers). Moves is the life cycle of
--               orders and refunds; Moves/Statuses, Steps, RefundSteps, Keeps, Refunding and Others follow
--               the handlers, Moves/Paid says what mark_order_paid has done, and Moves/Reach serves any
--               sequence of requests.
--   WorkOrders  src/controllers/admin/work_orders.rs: Params, Records, Validate, Visible, Children
--               (comments, assignments, attachments) and Orders (the handlers; `update` is named
--               update_work_order). Life is the life cycle: Life/Transitions reads validate_transition,
--               Life/Steps, Rows, Keeps, Changes, Handlers and Delete follow the handlers, Life/Moved
--               with MovedRow says what transition has done, and Life/Reach serves any sequence of requests.
--   Examples    a small set of tables at which the theorems are applied
--
-- How the code is modelled. A handler is a function from the tables and a list of faults to a
-- result and the tables: each database call takes one entry of the list and fails if it is true,
-- changing nothing, and what was written before stays, since the handlers open no transaction. A
-- theorem on `Runs` holds for every list, so it covers an error at any call. `RunsIf F` is for
-- statements on when an error is possible: `F` is any proposition that holds if a call of the list
-- fails, so an error under `F` is excluded when no call fails. Requests are served one after the
-- other; two requests that interleave are not modelled. `Reads` and `ReadsIf F` say of a handler
-- that it writes nothing, with what holds of its value and of its errors. Row ids are natural
-- numbers, a time is a number of milliseconds, the columns that a handler sets are a function of
-- the stored row, and the amounts in cents keep the bounds of i64 written out. A filter of a query
-- is a Boolean function of the row. Loops over lists are structural; the stream of a file runs on
-- fuel, one round for each byte that remains, since every round reads one byte at least. The time
-- of the rate limiter is a number of nanoseconds, and its static buckets are an argument and part
-- of the answer of a request, whose calls to the limiter never overlap since they hold the lock.
--
-- Hypotheses. UniqueCodes is the unique constraint on permission codes, UsersKeyed and TokensKeyed
-- say that the primary key finds each stored row, Ordered that time does not run backwards,
-- FileStream.Delivery.Reads what reading a file that does not change promises as long as no read
-- fails, and IsUtf8Test that a slash is UTF-8 and that UTF-8 texts behind each other are. AllBacked
-- and Intact are the invariants, required of the tables that a sequence of requests starts from.
--
-- What is not modelled. The list handlers with their filters and pages, which only read; register,
-- whose row takes defaults of the database, and current, which only reads; the menu tree; the other
-- controllers, middleware and services; HTTP, JWT and JSON; object stores; reading and writing
-- files of hosted sites; the frontend and the migrations. The tables of a module that is not
-- modelled do not occur in World.
pub mod Base
pub mod Api
pub mod Db
pub mod Entities
pub mod World
pub mod Env
pub mod Rbac
pub mod Payments
pub mod WorkOrders
pub mod Auth
pub mod Examples
pub mod FileStream
pub mod RateLimit
pub mod Settings
pub mod StaticHosting
