-- ===== src/Lib.antt =====
-- web3signer-go: a JSON-RPC proxy that signs Ethereum transactions with keys in an MPC-KMS.
--
-- A request comes in over HTTP, is authenticated (internal/server), parsed (internal/jsonrpc) and
-- routed by its method (internal/router): the signing methods go to the sign handler, which asks a
-- signer (internal/signer), which asks the MPC-KMS (internal/kms); everything else is forwarded to
-- the node (internal/downstream).
--
-- Files:
--   Base: Boolean tests, lists, text, integers, the result of a fallible call, and maps from
--     strings (Base/Dict). Go's (value, error) is `Result`, a map an association list.
--   Jsonrpc: internal/jsonrpc. Value is a JSON document, Interface what encoding/json keeps of one in
--     an interface{}, Codes are the error codes (errors.go), Types the messages and how they are
--     written, Parse is ParseRequest with its validation.
--   Errors: internal/errors/errors.go and converter.go, internal/downstream/errors.go. GoError
--     holds the dynamic types behind `error`.
--   Downstream: internal/downstream/client.go. Wire reads responses, Client posts requests, Ids
--     compares ids and has SimpleForwarder (interface.go).
--   Utils: internal/utils/validation.go, and the hexadecimal text of encoding/hex.
--   Kms: internal/kms. Types, Wire (the answers), Signing (signing.go, http_client.go), Requests (the
--     URLs and bodies) and Client (client.go): Kms.Client.sign_with_options is SignWithOptions,
--     wait_for_task_completion WaitForTaskCompletion. Summary is transaction.go with the signer of
--     interface.go.
--   Cli: cmd/web3signer. Flags is flags.go, the table of the flags and registerFlags; Run is root.go,
--     from the configuration to a listening server and its stop.
--   Signer: internal/signer. Decode and Params read transactions (transaction.go,
--     transaction_parser.go, builder.go), Mpc is signer.go, MultiKey multikey_signer.go.
--   Router: internal/router. Responses is base.go, SignHandler sign_handler.go, with Node for what it
--     asks of the node, ForwardHandler forward_handler.go, Table and Http router.go, Forwarding its
--     handleBatchWithForwarding, Batch its RouteBatch, Factory factory.go.
--   Server: internal/server. Auth is middleware.go; Cors, Engine (createGinRouter with the other
--     middleware and the handlers) and Builder (Build) are builder.go; Lifecycle is server.go with
--     the setup of the log.
--   Config: internal/config. Sections that are checked on their own, and in Config/Whole the log
--     section, Config.Validate, BuildURL and getLogLevel of internal/server/server.go.
--   Errors/Context, Errors/Logger: internal/errors/context.go and logger.go. The fields of a logger
--     are a place in a store of maps, and what it hands to logrus is kept as a list of calls. Setup
--     is NewLogger with the methods that configure it.
--
-- Code that is not in the repository is a parameter: net/http (Transport, Network), fastjson,
-- ethgo with its JSON-RPC client and RLP, gin (Gin, with its documented behaviour in Documented),
-- cobra and viper (Binding), Keccak-256 and SHA-256, and the messages of encoding/json. What such
-- code changes is a state `W` that is passed on, so that a call is a function of the world that gives
-- a result and the next world.
--
-- A Go string is its text, and a byte slice a list of numbers below 256. A uint64 is a number with
-- its wrap-around written out, a *big.Int an integer, a time.Duration an integer number of
-- nanoseconds. The text of a JSON document is taken for its value: a number that is no decimal
-- integer keeps its literal. What an interface{} keeps of it is in Jsonrpc/Interface: integers up to
-- 2^53 are exact, any other number in range is `rounded`, named by its literal, and two literals
-- may name one float64. Operations that hold a lock throughout are single steps.
--
-- The polling of a task recurses on the attempts that are left, of which the code itself allows
-- five minutes' worth; the magnitude of an integer bounds the number of its bytes. All else recurs
-- on lists, text and documents.
--
-- RouteBatch is a relation between states: a step is what the feeder or one worker does between two
-- points where another goroutine may act, or the cancellation of the context. Routing a request is
-- one step on the world; a panic of a handler may leave any world. The number of steps that are left
-- falls with each step, which bounds every run.
--
-- Not modelled: output to the log and to the terminal, other than on the stop of the server; the
-- drawing of random identifiers, which are parameters; the manual test program cmd/test-kms, the
-- transport settings of internal/utils/http.go, and the mocks.
pub mod Base
pub mod Jsonrpc
pub mod Errors
pub mod Downstream
pub mod Utils
pub mod Kms
pub mod Signer
pub mod Router
pub mod Server
pub mod Config
pub mod Cli
