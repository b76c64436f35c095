-- ===== src/Lib.antt =====
-- The C++ worker: the paged cache of KV blocks and the continuous batcher of
-- backend/scheduling/continuous_batcher.h and backend/scheduling/continuous_batcher.cc; the inference
-- backends of backend/inference_backend.h and backend/inference_backend.cc, with their configuration, texts
-- and HTTP client; and the gRPC service of backend/main.cc.
--
-- The parts. `KvBlockAllocator` owns a fixed array of blocks; a sequence holds some of them by reference
-- counts, and a prompt with a prefix key shares the blocks of its prefix through a cache, from which idle
-- prefixes are evicted when blocks run out. `ContinuousBatcher::Run` serves a list of requests in steps: a
-- budget of prompt tokens, then one token for each of a bounded number of ready sequences, by priority. It
-- calls the allocator's public methods only. The continuous tiny LLM backend runs the batcher on the tokens of
-- its requests and then generates a text for each sequence. The llama server backend posts each request over
-- HTTP and reads the answer, whole or as a stream of events. The service hands its requests to one backend
-- and turns the result into a status and responses.
--
-- Base: the names passed on from the libraries, Boolean tests, lists, integers, texts (bytes) and
--   `std::map` as an association list in the order of its keys.
-- Kv: `AllocatePrompt`, `AppendTokens` and `ReleaseSequence` as `allocate_prompt`, `append_tokens` and
--   `release_sequence`, each from the state `Impl` to the state and the result. Kv/Blocks has the loops over
--   the array, Kv/State the state, its constructor and `Stats`, Kv/Allocate the search for free blocks.
--   Kv/Calls has histories of calls. The other files of Kv are proofs: what an invariant of the reference
--   counts needs (Accounts, Counting, Claims, Evictions, Ledger, Allocation, Invariant, Preserved, Methods,
--   Configured, Histories), what the methods answer and change (Answers, Releases, Ids),
--   when eviction stops (Exhaustion), and
--   what becomes of a prefix that is replaced in the cache (Lost, Leak, Overwrite).
-- Batcher: `Run` as `run_batch`, from the constructor's configuration and the requests to the returned run.
--   Batcher/State has the data, Batcher/Phases what each phase does to one sequence, Batcher/Candidates whom
--   a phase takes and in what order, Batcher/Step one round of the main loop, Batcher the loop, its start
--   and its report. The other files of Batcher are proofs: Work, Chosen, Loops, Termination and Endings on
--   why it ends, Distinct, Every and Outcomes on the sequences, Owners, Owned and Released on their blocks,
--   Reached and Budgets on the allocator and the tokens, Runs on what is returned, Uncancelled on runs that
--   nobody cancels.
-- Texts: the text helpers of backend/inference_backend.cc: `TrimWhitespace`, `TrimLower`,
--   `CollapseWhitespace` and `EscapeSingleQuoted`; Texts/Json has `JsonEscape`, `JsonStringValue` and
--   `ExtractJsonStringField`, Texts/Kinds `ParseBackendKind` and `BackendKindName`. A position in a text is
--   what is left of the text from there on. Escaped (what is read of a JSON string that was written) and
--   Trimmed are proofs. `std::isspace` and `std::tolower` are those of the C locale.
-- Settings: `BackendConfigFromEnv` as `backend_config_from_env`, from the environment as a function, with
--   `EnvInt` and its kin; Settings/Numbers has `strtol` on a whole text, Settings/Create `CreateBackend` and
--   the backends' names. `float` is a type parameter with three operations. Bounds is a proof.
-- Client: `ParseHttpUrl`, `EndpointForOutput` and `AppendWithLimit`; Client/Answers has the server's answers,
--   `ParseLlamaServerCompletion` and what it calls. Urls, Output and Answers/Streamed are proofs.
--   Client/Stream has the lambdas `consume_line` and `on_body` of `LlamaServerBackend::ProcessStream`, with the
--   variables that they capture as a state; Lines, Loops, Pieces and Accepted below it are proofs. Client/Http
--   has `HttpPostJson`, Client/Http/Feed `HttpPostJsonStream`; Opened, Split and Fed are proofs.
-- Backends: the types of requests, results and events, `InferenceBackend::ProcessStream` as `process_stream`,
--   and `SimulatorBackend`. Backends/Generation has `GenerateTinyLLMCompletion`, Backends/Continuous
--   `ContinuousTinyLLMBackend` with `ProcessBatch` as `continuous_batch`. Backends/TinyLlm has
--   `TinyLLMBackend`, Backends/Arithmetic the model's arithmetic over the operations on `float`. Simulator,
--   Generated, Served, Inlined, Arrays, Layered and Labels are proofs. Backends/TinyText has `TinyTextModelBackend`.
-- Tokens: `Tokenize`, `HashToken`, `TokenizeForTinyLLM`, `JoinGeneratedTokens` and `PrefixCacheKey`. Words, Keys
--   and Ids are proofs.
-- Server: `LlamaServerBackend`: its constructor and its texts; Server/Calls has `ProcessBatch` as `server_batch`
--   and `ProcessStream` as `server_stream`. Agreement, Errors and Bodies are proofs.
-- Worker: `InferenceServiceImpl::ProcessBatch` and `Stream` behind their call of the backend, as `service_batch`
--   and `service_stream`. Worker/Responses is proofs.
-- Kv/Tests and Batcher/Tests run the scenarios of backend/scheduling/continuous_batcher_test.cc.
--
-- Fuel: the main loop takes a number of rounds. Each round that serves anyone takes one of the tokens that
-- the requests ask for, or one of two more for each request; `requested` adds these up, and any greater
-- number is enough. The loop that sends an HTTP request takes the length of the text and one more, since each
-- round sends a byte or ends; the loop of `on_body` takes the length of the pending text and one more, since each
-- round removes a line feed. The receive loops follow the list of what the network answers.
--
-- Parameters: the system's answers to `getaddrinfo`, `socket`, `connect`, `send` and `recv`, the measured times,
-- the print of a `float` or `double`, and the arithmetic on `float`. In the backends `is_cancelled` is a
-- function of how often it was asked before, and the stream's callback answers from the events it was given.
--
-- Numbers: token counts and block counts are unbounded natural numbers, where the source's `int` would be
-- undefined on overflow; arguments that may be negative are integers, clamped where the source clamps them.
-- The batcher's `is_cancelled` is a function of the step at which it is asked. A slot of the batcher is one sequence's
-- entry of both vectors, `states` and `run.results`, which the source indexes alike. The average batch size
-- is kept as the two numbers that the source divides as `double`.
--
-- Not modelled: `LlamaCppBackend` and its child processes, the ONNX
-- Runtime backend, which calls a library that is loaded at run time, the start of the gRPC server in
-- backend/main.cc, and the gateway, which is in Go.
pub mod Base
pub mod Kv
pub mod Batcher
pub mod Texts
pub mod Settings
pub mod Client
pub mod Backends
pub mod Server
pub mod Tokens
pub mod Worker
