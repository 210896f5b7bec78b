-- ===== src/Lib.antt =====
-- linguamesh-core is the shared core of a translation client: hosts drive it through a native
-- interface, and it validates configuration, routes a request to a provider and model, protects and
-- splits the source text, streams the translation and reports it as a sequence of events. This
-- library models the parts of the core that decide, under `crates/`; the HTTP clients, the database, the document formats, the native interface and the bindings call them.
--
-- A client checks the core's versions (Compatibility), stores provider profiles (Profile), plans a
-- provider and model for a request (Routing), and starts an operation (Engine) whose events (Event) it
-- reads; a request (Request) may carry a glossary (Glossary), a file may be lent to the core
-- (FileLease), and a failed call is repeated under a policy (Retry). All fail with the errors of
-- Failure or with an error type of their own.
--
-- Files and the code they model:
--   Base and its children: the parts of Rust's standard library that the code uses (`Result`,
--     vectors, `str` as scalar values with UTF-8 lengths, `Ordering` and the stable `sort_by`).
--   Retry: crates/linguamesh-domain/src/retry.rs, `RetryPolicy` and its constructor.
--   FileLease: crates/linguamesh-domain/src/file_lease.rs. The shared atomic cell of a lease is a
--     cell of a store; the threads that share it are a list of atomic actions.
--   Routing: crates/linguamesh-domain/src/routing.rs. Types is the data, Validation `validate`,
--     Filter `rejection_reason` and the loop of `select`, Ranking the scores and their comparison,
--     Selection `select`. Acceptance and Preference describe what is accepted and preferred apart from
--     the tests and the scores; the other children hold the proofs.
--   Profile: crates/linguamesh-domain/src/lib.rs, provider profiles. Credential is
--     `looks_like_credential`, Checks the checks of texts, headers, proxies and certificates, Identity
--     the identifiers, secret references and endpoints, Secrets the parsed secrets, Record
--     `ProviderProfile` and its setters; Outside is what the URL, JSON and UUID crates answer, a parameter of the definitions. Endpoints assumes of `Url::set_path` that it sets the path of an address of a web server and nothing else.
--   Glossary, Compatibility, Request, Event, Failure: the same file's glossary entries, start-up
--     check, presets and requests, usage records and events, and errors.
--     Glossary's Csv is the writer of CSV rows and the parser of CSV records.
--   Protection: the same file's chunking of a protected source text, `split_protected_text` and
--     `ProtectedSource::chunks`. Starts, Boundaries and Success are about the pieces, Distribution
--     about the spans.
--     Its children Scanners and Building are `build_protected_source`; Places, Addresses,
--     Candidates and Lossless say that it loses nothing.
--     Its child Restorer is `ProtectedTextRestorer`: Markers, Pieces and Steps say what it makes of
--     the deltas of a response, Clear, Whole and Roundtrip when it succeeds, Enough is its fuel.
--   Broker: crates/linguamesh-application/src/lib.rs, the secret requests between the core and its
--     host. Channels and Steps say what one action changes, Answers what a request can get.
--   Catalog: crates/linguamesh-provider-catalog/src/lib.rs, `ProviderCatalog::parse`. Shapes describes
--     the texts that it accepts, Validity the catalogue.
--   Provider: crates/linguamesh-provider-api/src/lib.rs, the wait that a provider asks for, the kind
--     of an HTTP status and the prompt. Prompt and Waits hold what follows.
--   Stream: the decoders of server-sent events and the stream of `translate_protected_stream`, which
--     crates/linguamesh-provider-openai/src/lib.rs and the other adapters share. Utf8 is the data of
--     an event, Run the loop on the chunks of a response; Boundary and Chunks are about the decoder,
--     Arms, Restored and Completed about a run.
--   Adapter: the messages of crates/linguamesh-provider-openai/src/lib.rs,
--     crates/linguamesh-provider-anthropic/src/lib.rs, crates/linguamesh-provider-gemini/src/lib.rs
--     and crates/linguamesh-provider-ollama/src/lib.rs, and the arms of their loops. The reader of
--     JSON is a parameter: it gives the fields that the adapter's types name, or nothing. What the
--     network gives is a list of chunks, failures, time-outs and cancellations. Cuts is about how the
--     network cuts a response.
--   Engine: crates/linguamesh-engine/src/lib.rs, the task that `translate_with_sequence_offset`
--     spawns. The provider is a function from the request to an error or to the items that its stream
--     yields; the receiver is the number of sends before it is dropped, where it is; the capacity of
--     the channel only delays a send. Story tells the events without the loop, and Lifecycle that the
--     worker sends them; Protocol, Completion, Metering and Refusal hold what follows.
--
-- Numbers are natural numbers; a machine integer is a number, with its bounds written out where the
-- code computes. `i64` and `i32` are `ℤ`. The loops run over lists, but for some on fuel. The split of a text has
-- the number of characters, since each round takes one at least, and the chunks are proved to make up
-- the whole text. The restorer has one more than the number of spans, since each round but the last
-- uses one up; the decoders have the number of bytes and the scanners that of characters, since each round takes
-- a delimiter; a token has one more than the length of the source. A stream that never ends has no list of items and is not modelled.
--
-- Not modelled: the conversion of
-- glossary entries to CSV rows, TBX glossaries, and the JSON exchange of routing profiles, whose work
-- is on texts that these parts take as given; the construction of HTTP requests in the adapters, the
-- manager of the active provider, the storage, the document
-- formats, the native interface and the tools, which are input and output around these decisions.
pub mod Adapter
pub mod Base
pub mod Broker
pub mod Catalog
pub mod Compatibility
pub mod Engine
pub mod Event
pub mod Failure
pub mod FileLease
pub mod Glossary
pub mod Profile
pub mod Protection
pub mod Provider
pub mod Request
pub mod Retry
pub mod Routing
pub mod Stream
