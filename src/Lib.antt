-- ===== src/Lib.antt =====
-- go-storage: an object storage library with one interface (`Client`, client.go), a lifecycle
-- wrapper over it (`Store`, store.go), an in-memory provider (storagetest/fake.go) and
-- providers over the SDKs of S3 (s3/) and Azure Blob (azureblob/). A caller builds a `Config`
-- (config.go), finalizes it, and wraps a provider in a `Store`; Start takes the store up, each
-- operation goes through the store to the provider, and Shutdown takes it down.
--
-- A Go pair of a value and an error that may be nil is a pair with an Option. A string is a
-- list of bytes. Code that changes state is a function from a state to a state: of a reader, of
-- a world that a provider changes, of the flags of a store. An int64 is an integer or, where it
-- is never negative, a natural number; the place where the code can reach the end of the range
-- (s3/client.go, maxAttempts) has its wrap-around written out.
--
-- The files, and the code that each models:
--
-- - Prelude: shared names, tests, lists, integers, strings, maps as association lists, and
--   UTF-8.
-- - Errors: errors.go and `errors.Is` over a data type of errors; Errors/Classes: what the
--   providers' classifications share, and in Errors/Classes/Sorting a table of what they are to
--   say.
-- - Stream: `io.Reader`, what it is to behave well, and `io.ReadAll` on fuel; Stream/Compose:
--   `io.LimitReader` and `io.MultiReader`; Stream/Sticky: readers that count and keep their
--   first failure; Stream/Partial: readers that may fail at any byte.
-- - LimitReader: `limitReader` of store.go, with its proofs in LimitReader/Refinement.
-- - Storage: client.go; Storage/Contract: the promise of `Client.Put` as a contract.
-- - Store: `Put`, `readFailure` and `startFailure` of store.go; Store/Operations: `New` and the
--   other operations; Store/Put, Store/Failure and Store/Built: proofs.
-- - Lifecycle: `Start` and `Shutdown` of store.go as steps of any number of goroutines, under
--   every schedule.
-- - Idle: idle.go, with what the functions of its timers do beside the reads as a list of
--   turns.
-- - Config: config.go and env.go; Config/Numbers: `strconv.ParseInt` and `strconv.Atoi`.
-- - S3: s3/, with S3/Keys for s3/keys.go, S3/Errors for s3/errors.go, S3/Options for the
--   options of s3/client.go and S3/New for its `New`; of s3/objects.go, S3/Body is
--   `bodyReader`, S3/Put is `Put` with `failedUpload` and `abortUpload`, S3/Resume is `Get`
--   with `resumingBody`, and S3/Objects has the other operations, those of s3/client.go
--   included, and the provider as a client. S3/Api is what they use of the SDK.
-- - Azureblob: azureblob/, in the same way: Keys, Errors, Options, New, Body for
--   `trackedReader`, Objects for the operations, and Api for what they use of the SDK.
-- - Fake: storagetest/fake.go, with its proofs in the modules below it.
-- - Suite: the checks of storagetest/suite.go as functions of a client; Suite/Cases: the cases
--   that put one body and read it back; Suite/Passes, Suite/Missing and Suite/Deleted: runs
--   over the Fake.
-- - Tests: concrete inputs, at which the theorems are applied.
--
-- Fuel bounds the reads of `io.ReadAll`. A stream makes progress in each read, so that fuel
-- above the number of its bytes is enough; the theorems that read to the end say so. Fuel also
-- bounds the calls of a caller that follows continuation tokens; above the number of keys it is
-- enough.
--
-- `Put` of the S3 provider reads at most a part and one byte into memory, each read at least
-- one byte, so that fuel of the part size and 2 is enough. The read of one byte at the end of a
-- body of a declared size has a number of tries; one is enough for a stream. `Read` of a Get's
-- body resumes at most as often as its number of retries, on which it recurses.
--
-- Parameters stand for what is not in the repository: the provider behind a store, with the
-- contract of Put as a hypothesis; the SDKs, as the interfaces S3/Api and Azureblob/Api, with
-- what the services promise as hypotheses: a write is whole or nothing (`WritesWhole`,
-- `UploadsWhole`), and a ranged answer that a request has conditioned on an ETag is of the
-- version that the ETag names (`ServesVersion`); the body of a Get, which may fail at any byte
-- once its request is cancelled, but loses none (`IsCancellable`); the context package;
-- time.ParseDuration and url.Parse; the process environment; go-core's `EnvName` and
-- `SetDurationFromEnv`; the digest of the Fake. Two errors that the same format makes of the
-- same operands are one error here, where Go compares addresses. The methods of the Fake run
-- one at a time, and what `Put` and the other operations of a store do between the check of
-- `started` and the provider's call is one step. `Close` of a Get's body is not run in the
-- middle of a `Read`.
--
-- Not modelled: options of the Fake other than the four of its package; the atomics and mutexes
-- of `trackedReader`, `resumingBody` and the Fake, and, of the conformance suite
-- (storagetest/suite.go), the checks that list, the Puts that have to fail, the capabilities,
-- the random prefixes of keys and the run of the cleanup.
pub mod Prelude
pub mod Errors
pub mod Stream
pub mod LimitReader
pub mod Storage
pub mod Store
pub mod Lifecycle
pub mod Idle
pub mod Config
pub mod Fake
pub mod Tests
pub mod Azureblob
pub mod S3
pub mod Suite
