-- ===== src/Lib.antt =====
-- core-py, the Python foundation library for OFA services: its configuration loader, context
-- variable, repository options, shared errors, document repository, lock kit, resources and request retries, as pure
-- functions with explicit state.
--
-- Parts and files (paths from the repository's root):
--
--   Config    src/core_py/config.py. Config/Value has the values of a configuration, Config/Maps the
--             map functions (`_normalize_map`, `_merge_maps`, `_set_path`, `_get_path`,
--             `_flatten_map`, `_record_sources`), Config/Parse the environment, the flags and
--             the typed overrides, Config/Checks the checks and the masking, Config/Load `load`.
--   Context   src/core_py/context.py. The context variable of one task is passed as a state;
--             Context/Keys has `_normalize_key` and the three key functions.
--   Data      src/core_py/data.py. Exceptions are nodes of a heap, linked by cause and context;
--             Data/Chain is about the walks of `code_of`, `error_data` and `is_retryable_error`,
--             Data/Wrap about exceptions that wrap others, Data/Sort about `Sortable`.
--   Dkit      src/core_py/dkit. Options, Errors, Memory (`InMemoryMutex`, with Memory/Exclusion for
--             sequences of steps and Memory/Waiting for `lock`), Numbers (`InMemoryAtomic`) and Kit
--             (`DefaultKit` over any backend, in Kit/Locked over the in-memory one). Redis is redis.py:
--             `RedisMutex` with its scripts, Redis/Atomic the keys and the unique numbers,
--             Redis/Election the ticks of the election, and Redis/Store what is relied on of a server.
--             Mongo is `MongoMutex` of mongo.py, and Mongo/Store what is relied on of a collection.
--   Resource  src/core_py/resource.py: Identifier (`parse`), Settings (`Options`), Limit
--             (`_LimitReadCloser`), Manager (`Manager`, with Manager/Download for `download`) and
--             Handlers (`_DataHandler`, and the response part of `_HTTPHandler`).
--   Httpx     src/core_py/httpx.py: Retry (`Agent.do`, `_retry_delay` and the tests round them) and
--             Deadline (`context_from_headers`, `_deadline_from_context`).
--   Stream    src/core_py/_async.py: the buffered reads of `AsyncReadableAdapter`.
--   Model     src/core_py/model: RepoOpt and Options (options.py; option objects that contexts share),
--             Audit and Stamps (audit.py and the audit functions of options.py), Pages (page.py and
--             the parsing of snowflake_id.py).
--   Mongox    src/core_py/model/mongox: Value and Codec (codec.py, from an entity to a document), Query
--             (query.py), Patch (patch.py) and Repository (`CollectionRepository`): Scope has the
--             conditions that `_inject_cond` adds, Reads the queries and the feed, Writes the
--             changes to one document and the batches. Act has the steps that may raise, and the
--             records that stand for the collection and the entity's class.
--   Base      shared helpers: texts as lists of code points, dictionaries in insertion order,
--             signed integers, the built-in `int` on a text, results.
--   Tests     runs of the definitions, and the theorems at concrete inputs.
--
-- Texts. A `str` is the list of its code points. `lower` maps the ASCII letters, and `int` reads
-- ASCII digits: keys, names and numbers of the program are ASCII. `strip` knows all of Unicode's
-- spaces.
--
-- Parameters. The YAML reader with the file system, the built-in `float` on a text (its result is a
-- 64-bit pattern), `str` on a value and SHA-256 are arguments of the definitions that use them.
-- `parse_qs`, Base64, percent decoding and the reading of a file name from a header are arguments too.
-- What YAML gives beside null, Booleans, numbers, texts, lists and mappings is left out. Paths are
-- in normal form. Log output is left out.
--
-- Time. A reading of the clock is an argument, in whole ticks; a duration is an integer of ticks. The
-- steps of a mutex run under one guard, so that an interleaving of tasks is a list of steps.
--
-- Loops are structural recursions, but for the walk along a chain of exceptions: its fuel is one more
-- than there are exceptions in the heap, and it never runs out; and the loop of a download over a
-- limited reader, whose fuel is one more than the content is long.
--
-- A repository's collection and its entity class are records of functions: what a collection does
-- meanwhile others use it is the change of its state, and an entity class gives the fields, the audit
-- parts and the decoding of its documents. The text of a value in an error message, the built-in
-- `float` and `datetime.fromisoformat` on a text are arguments.
--
-- The exceptions that the system calls and the close of a stream raise in a download are a record of
-- faults. Initialising an agent is a step of the retry loop's state, and its options and deadline are
-- those after it. A header's timeout stays a number of milliseconds, and raises where a float would
-- overflow.
--
-- The Redis client is a record of functions on the state of the server, and the collection of the
-- locks in MongoDB one on the state of the documents; what others do between two calls of one
-- operation, expiry included, is a function on that state.
--
-- Left out: the unique numbers and the election of the MongoDB backend, request sending and
-- service discovery, logging and trace identifiers, and decoding a configuration or a document
-- into a dataclass.
pub mod Base
pub mod Model
pub mod Mongox
pub mod Context
pub mod Data
pub mod Config
pub mod Stream
pub mod Dkit
pub mod Resource
pub mod Httpx
pub mod Tests
