-- ===== src/Lib.antt =====
-- The services of the B2B shop: orders with their stock, reservations, shipment work, shipments,
-- ledger entries, cancellations and deliveries, the counts that correct the stock, payments, the
-- import of the first data, returned goods, and the accounts with
-- their sessions and second factors.
--
-- How the program is put together. A controller takes the user from the session and passes the body
-- to a method of a service. The method checks the body, opens a transaction, looks for the answer of
-- an earlier run of the same command in command_results, and else works on the tables and stores its
-- answer (apps/api/src/orders/order.service.ts). Orders, stock counts, returns, receivables and the
-- catalogue meet only in the tables.
--
-- The files:
-- - Prelude: shared names, Boolean tests, keys, lists, integers.
-- - Table: tables as lists of rows under their keys, with lookup, modify, insert, upsert and delete;
--   Table/Laws and Table/Sums have what lookups and sums give after each of them.
-- - Text, Json, Dates: JavaScript strings as UTF-16 code units, the UUID pattern, request bodies, and
--   the check of a calendar date.
-- - Schema: a record for a row of each table (apps/api/db/migrations), and Db, the record of all tables.
-- - Tx: transaction, stored and the frame of a command. A transaction maps a Db to an answer with a new
--   Db, or to an error. Tx/Replay has the laws of the frame, Tx/Inversion takes successful runs apart.
-- - Order/Input: submitInput, requestId, shipmentInput, workQuantityInput.
-- - Order/Store: statements that several commands share, and
--   apps/api/src/notifications/notification-outbox.ts.
-- - Order/Submit, Order/Confirm (with allocate), Order/Work (claim, release, picked and inspected
--   quantities), Order/Ship with Order/Tax, Order/Cancel (cancel, request, review), Order/Delivery: the
--   methods of these names. Order/Api has all of them as one type of calls.
-- - Order/Frame, Order/Claims, Order/Sums, Order/Taxed, Order/Transitions: what they promise.
-- - StockCount: start, finalize and cancel of apps/api/src/stock-counts/stock-count.service.ts, with
--   StockCount/Frozen, StockCount/Balanced and StockCount/Frame on what they promise.
-- - Outbox: processDue and retry of apps/api/src/notifications/notification.service.ts, with what
--   becomes of a mail and the times of the clock as parameters; Outbox/Retries.
-- - Listing: apps/api/src/orders/pagination.ts, order-filters.ts and queue-search.ts; Listing/Bounds.
-- - Payments: payment, allocate, refund of a payment and voidPayment of
--   apps/api/src/receivables/receivable.service.ts on tables of their own, from the look at the tables
--   to the last insert; their answers, the check of the request and the frame of the command are left
--   out. Payments/Covered and Payments/Settled.
-- - Integrity: the books in order, which are the queries of scripts/lib/operational-integrity.mjs and
--   what the tables' constraints add; its children prove that every command keeps them, down to single
--   statements (Hold, Release, Dispatch, Reset, Orders, Cut) and up to whole commands (Reach, Counts).
-- - Import: apps/api/src/imports. Import/Csv and Import/Rows are parseInitialImport, Import/Analysis is
--   analyze, Import/Apply is preview and apply, on tables of their own; Import/RoundTrip,
--   Import/Accepted and Import/Agreement are on what they promise. Export: the CSV cells and rows of
--   apps/api/src/exports/data-export.service.ts.
-- - Identity: the tables, the transactions and the administrator of apps/api/src/identity.
--   Identity/Password is verifyPassword, Login the login and logout, Guard the session guard, the CSRF
--   guard and the workspaces, Tokens and Requests are account-lifecycle.service.ts (the transactions,
--   and the requests with the checks of their bodies), Mfa and Reset are mfa.service.ts. Identity/Run,
--   Lockout, ShutOut and Once are on what they promise, with lemmas in Access, Inversion, Limited,
--   Lifecycle and Factors.
-- - Returns: the tables, the commands and the sums of apps/api/src/returns/return.service.ts, on tables of
--   their own; a shipment line has what the service's joins add to it. Returns/Input has the checks of
--   the bodies, Returns/Operations request, inspect, defectDisposition and resolveDefect, and
--   Returns/Credits credit. Returns/Steps and Returns/Credited take successful runs apart;
--   Returns/History has all calls as one type; Returns/Requested, Counted, Taxed and Stocked are on what
--   they promise.
-- - Attachments: apps/api/src/attachments/attachment.service.ts, and Attachments/Scanner the scan of
--   attachment-malware-scanner.ts; Attachments/Limited, Interleaved, Shielded and Scanner/Framing are
--   on what they promise; Attachments/Scanner/Answer has request and ready of the scan with their law.
--   The scan between the two looks at the rights takes no time here.
-- - Audit: the filters of apps/api/src/audit/audit.service.ts. Observability: SafeExceptionFilter of
--   apps/api/src/observability/request-observability.ts.
-- - Config: readConfig of apps/api/src/config.ts, with the parser of URLs as a parameter;
--   Config/Production.
-- - Order/Examples, StockCount/Examples, Listing/Examples, Outbox/Examples, Payments/Examples,
--   Import/Examples, Identity/Examples, Returns/Examples, Attachments/Examples,
--   Config/Examples: a small shop, and the properties on it.
--
-- How state is modelled. A uuid is a number, and randomUUID gives numbers in ascending order from
-- next_id, so that they are new; next_id may start anywhere, also among the ids of version 4. The
-- statements of a transaction run as one step, since each method locks the rows it works on (an upload
-- of an attachment, whose lock goes by a text, also in two steps: Attachments/Interleaved);
-- ROLLBACK gives the changed Db up. An exception that is not an HTTP exception (a violated unique
-- key, an integer out of range, a read of undefined) is a fault, which the transaction turns into
-- 503. CHECK constraints of balances, reservations and work lines are not tested: the books in order
-- imply them. Loops run over lists; the sender recurses on the 20 rounds of the loop of processDue,
-- and the malware scan on the length of the content, of which each round takes at least one byte, so
-- no fuel can run out.
--
-- Bounds. Amounts are exact integers; the code's doubles are exact below 2 ^ 53. The page and the
-- offset of a list are rounded as doubles are, with at most 1100 halvings, more than the bits of any
-- product. A quantity above 2147483647 is a fault in submit, and so is a counted or returned stock
-- above it. A text is read as a number in its decimal spellings; the other ones and objects are NaN.
--
-- Parameters. Hashes, ciphers, password derivation, one-time passwords and the case mappings of Unicode
-- are not in the repository: they are the record Crypto of Identity and arguments of the import. Random
-- tokens, secrets and recovery codes are arguments of the operations that draw them. In the identity
-- services times are seconds, and clock_timestamp() is now(): a transaction takes no time.
--
-- The time of an order's creation is read off its id, which ascends.
--
-- Not modelled: the read-only queries, timestamps and names that nothing reads, the subject and body
-- of notifications, the detail column of delivery events, the timer of the sender and a second server
-- process that sends, a refused connection, the queries and workbooks of exports, the mail and the
-- cookies of the identity services and the derivations that only take time, and the business date of
-- credits, and the other services (catalogue, settlements, refunds of return credits, analytics),
-- which are not yet translated; the web application shows what the services answer.
pub mod Prelude
pub mod Table
pub mod Text
pub mod Json
pub mod Dates
pub mod Schema
pub mod Tx
pub mod Order
pub mod Integrity
pub mod StockCount
pub mod Listing
pub mod Outbox
pub mod Payments
pub mod Import
pub mod Export
pub mod Identity
pub mod Returns
pub mod Attachments
pub mod Audit
pub mod Observability
pub mod Config
