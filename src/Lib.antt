-- ===== src/Lib.antt =====
-- The core of the backend: how a text becomes an audio book (conversion), what a user may
-- synthesize (billing), and how it is paid (payment).
--
-- Conversion (src/modules/conversion) reserves units in billing in the transaction that inserts a
-- conversion, and gives what was not used back in the one that marks it as failed. Workers take the
-- conversion through its states: the preparation cuts the text in segments of SSML and plans the
-- parts, a synthesis per segment stores its audio, and an assembly per part writes the files and
-- the timeline of the words; a sweep schedules again what has stalled.
--
-- Billing (src/modules/billing) counts units. A reservation of units takes them from three sources,
-- the free tier of the month, the pass that runs, and the credits of a wallet; a refund gives the
-- part that was not used back; a grant adds a pass or credits, once per payment reference. Payment
-- (src/modules/payment) asks the provider for the money of an offer, learns the outcome by a
-- notification or by a sweep, and has billing grant the offer in the transaction that concludes
-- the payment. Library (src/modules/library) keeps, for each reader,
-- the position in a book and bookmarks, whichever device sends them.
--
-- Prelude      exceptions and transactions as values (Outcome, with_transaction: a callback that
--              throws leaves the state of before), business errors (Result), tables as lists of
--              rows with the statements of SQL that the repositories use, and their lemmas.
-- Shared       idempotency keys (src/shared/kernel/idempotency.ts); Text: what the code uses of
--              strings, as lists of code units, with their size in UTF-8 and decimal numbers.
-- Billing      Units, Allocation, Period, Offers, Catalog: domain/. Store: the tables of the schema.
--              UnitsLedger and PurchaseLedger: the repositories of infrastructure/persistence.
--              ReserveQuota, RefundQuota, GrantOffer: the use cases of application. Conservation:
--              the books. System: histories of calls.
-- Payment      Status, Settlement, Policy, MobileMoneyNumber: domain/. Store: the repository.
--              Settler, Sweep, Batch, Initiate: application/, with the adapter of billing.
--              Lifecycle: what may become of a payment. System: interleaved statements of both
--              modules. Replay, Expiry, Limits: single calls.
-- Conversion   Ssml, Segmenter, PartPlan, Timeline, Webvtt, Files, Manifest, Overview:
--              domain/services. Status: entities, states and voices. Store, with Reads and Lists:
--              the repository of infrastructure/persistence. Jobs: the queue's adapter.
--              StartConversion, FailConversion, PrepareConversion, SynthesizeSegment,
--              AssemblePart, Reschedule, GetConversion: the use cases of application. System: the
--              statements of all of them interleaved, over the tables of conversion and billing.
--              Outcomes: what single calls leave behind. Overview and its ByDocument: what
--              other modules read.
-- Library      (src/modules/library) Positions: where a reader has stopped, the policy, the
--              repository and the use cases, which read the overview of a conversion. Anchor and
--              Bookmarks: where a bookmark is, the repository and the use cases. ItemStatus: the
--              status of a book.
--
-- A function keeps the source's name in snake case. The state is an argument and a result: Db for
-- billing, and a World for the tables of payment or of conversion with those of billing. The clock,
-- fresh identifiers, the hash of a phone number and of a request, and the provider are arguments.
-- Identifiers, offer codes and hashes are numbers, as they are only compared; a date is its
-- milliseconds; a text that is read is the list of its code units. Units and prices are natural numbers, with the test of a safe integer where the
-- source has it. A constraint of the schema that may fail throws; an external reference that is no
-- UUID, for which the query throws, is taken to find nothing: either way nothing is written. The
-- locks of rows need no state, since a transaction is one step. Of conversion, the pronunciation of words, the answers of the
-- document module, of the speech engine and of the storage, the digest, the encoding of an owner in
-- a key, and whether the queue takes a job are arguments; the bytes in the storage are not followed.
-- A time in seconds is given in thousandths, as the engine's marks are. Every loop is over a list but
-- two that take fuel: the slices of a word, whose fuel is its length, and the digits of a number,
-- whose fuel is one more than the number.
--
-- Not modelled: the reads of the account and of the journal of credits, the deletion of an account,
-- log lines, HTTP and the provider's client; of conversion, the text of
-- pronunciations (pronunciation.ts), the clients of the engine and the queue's workers; of library,
-- the list of books, the deletion of files, and the percentage of progress, which is computed in
-- floating point (the tolerant comparison of words of a bookmark is an argument). The modules
-- document, notification, identity and health are not modelled.
pub mod Prelude
pub mod Shared
pub mod Billing
pub mod Library
pub mod Payment
pub mod Conversion
