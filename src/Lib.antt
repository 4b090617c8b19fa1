-- ===== src/Lib.antt =====
-- mefs-sdk-go, a client of the MEFS object store with the interface of an S3 client: what is modelled
-- of it, and what is proved.
--
-- The parts, and the code that each is about:
--   Prelude      shared names, tests on numbers, lists, texts (a string is the list of its bytes) and
--                signed integers with the wrap-around of an int64
--   Map          a Go map with string keys: its entries, each key once. Where the code ranges over a
--                map, the model visits the entries in the order of the list
--   StringSet    pkg/set/stringset.go: StringSet and its operations; Members, Keys and Equality
--   Policy       pkg/policy: Condition (bucket-policy-condition.go) and, of bucket-policy.go,
--                Statement (types, constants, isValidStatement), Build (newStatements and below),
--                Match (resourceMatch), Remove (getInUsePolicy to removeStatements), Append
--                (appendStatement, appendStatements), Query (GetPolicy, GetPolicies, SetPolicy)
--   Upload       PartInfo (optimalPartInfo of api-put-object-common.go), Splits (partsRequired and
--                calculateEvenSplits of api-compose-object.go), Compose (the checks of
--                ComposeObjectWithProgress there and the copies it asks for), Constants
--                (constants.go) and Multipart: uploads in parts, of
--                api-put-object-multipart.go and api-put-object.go. In it Session has the requests and
--                uploadPart, Upload the loop and what follows it; Sent and Settled are about what any
--                server gets, Parts, Rounds, Whole and Accepted about a server that accepts;
--                Known: putObjectMultipartStreamNoChecksum of api-put-object-streaming.go.
--                Workers: putObjectMultipartStreamFromReadAt of api-put-object-streaming.go, an upload
--                of known size by goroutines; Steps and Accounted are about any interleaving, Order,
--                Sizes and Gathering about the parts that it gives, Waiting about its end, Begin
--                about what comes before the workers
--   GetOptions   api-get-options.go: the header options of a GET request
--   Object       api-get-object.go: the goroutine of getObjectWithContext (Fetcher) with getObject and
--                statObject, its requests and responses (Types), and the methods of Object (Session,
--                Methods). Live, Outcomes and Calls are about sequences of calls, Reading and Bytes
--                about sequential reads, Seeking about a seek and a read, Closing about a
--                closed object
--   Credentials  pkg/credentials: Signature (signature-type.go), Provider, Expiry and Store
--                (credentials.go), Static (static.go), Chain (chain.go)
--   BucketCache  bucket-cache.go: the cache of bucket locations
--   Names        pkg/s3utils/utils.go and s3-endpoints.go: Runes (Go's loop over a string), Encode
--                (EncodePath, QueryEncode), Check (the checks of names and domains), Endpoints (the
--                tests of URLs, the map of endpoints). Decode, Component and Query read encoded text
--                back, Strict is about bucket names, Regions about endpoints
--   Notification bucket-notification.go: Config (configs and their filters), Bucket (BucketNotification);
--                Filters, Distinct and Reach are about the filters and the configs that clash
--   PostPolicy   post-policy.go: the setters and marshalJSON; Fields is about the form
--   Retry        retry.go, retry-continous.go: Codes, Backoff and Timer
--   Tests        runs on concrete inputs and instances of the theorems
--
-- How they interact: SetPolicy removes the statements of the earlier policy, builds new ones and
-- appends them; GetPolicy reads them back through resourceMatch. An object sends one request to its
-- goroutine in each method and waits for the response; the goroutine sets options and asks the
-- server. Every request of an upload starts with the checks of Names, and optimalPartInfo gives it the
-- size of its parts. Notifications and policies use the string sets. A chain is a provider,
-- and the container of credentials caches what its provider returns.
--
-- State and aliasing: a method with a receiver is a function of the receiver's record that returns
-- it changed, and an error is a value. In the policy package the code mutates sets and condition maps
-- in place; the model takes each statement's sets and maps to be objects of their own, as they are
-- after a policy was decoded. A nil set is the empty one, but nil conditions are `none`, since the
-- code tells them apart. A goroutine and the mutex of its object make each method one step: it sends,
-- the goroutine answers, it receives. Where the send would be on a closed channel, or the goroutine
-- would panic, by a read from a nil reader or by an answer without objects, the step has no outcome.
--
-- Bounds: an int64 that may be -1 for an unknown size is an `Option ℕ` in Upload, whose products wrap
-- at 2^64 where the code's do. The floats of optimalPartInfo are exact there: its quotients are taken
-- of integers below 2^53. Offsets of an object are signed and wrap at 2^63. `decimal_digits` has 19
-- digits of fuel, which is all that an int64 has. No other function has fuel: the loop of an upload
-- counts the parts that are left, as the code does. Sizes of an upload are numbers, which stay below the
-- 5 TiB that its parts hold. The product in a retry's wait wraps at 2^64.
--
-- A filter of a notification config is at an address of a store, since configs that are copied share it.
--
-- Not modelled: HTTP and the server (a parameter of the definitions, with its answers as hypotheses),
-- JSON and XML, the other providers of credentials (an interface), signing, executeMethod, the
-- single request that an upload falls back to, and the commands that only send a request. The workers of an
-- upload share the error of their function; only its return and its deferred function are one step, so
-- that a worker does not assign the error between the two.
pub mod Prelude
pub mod StringSet
pub mod Map
pub mod Policy
pub mod Tests
pub mod Upload
pub mod GetOptions
pub mod Object
pub mod Credentials
pub mod BucketCache
pub mod Notification
pub mod Names
pub mod Retry
pub mod PostPolicy
