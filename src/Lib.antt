-- ===== src/Lib.antt =====
-- A model of noetivela-open's Go code, and what it guarantees.
--
-- Parts. sdk/go/policy holds the routing policy DSL: `Parse` (parser.go) turns a source text into the
-- syntax tree of ast.go. A loop of `Parse` calls `lexer.next` up to the token of kind tokEOF; then
-- `parser.parsePolicy` runs over the tokens, with `parseOr`, `parseAnd`, `parseCmp` and `parseOperand`
-- for the expressions behind `require`. sdk/go/client calls the gateway: each method of client.go builds
-- its request by `newRequest`, sends it by `do` and maps the error by `mapError` where it does so;
-- `ChatStream` reads the body of its response by the `sseScanner` of sse.go. The two packages do not
-- call each other. cli/main.go reads its flags, calls the client and prints; the programs of examples do
-- the same with fixed arguments. contracts/go/extension declares the records and the interfaces of the
-- extension points.
--
-- Files.
--   Prelude          shared names, Boolean tests, lists, texts and association lists over the native ℕ
--   Go               what several parts use of packages fmt, strconv and flag
--   Policy/Token     tokens, errors, and the character classes of package unicode on single bytes
--   Policy/Lexer     `lexer.next` and the loop over it: `next`, `collect`, `tokenize`
--   Policy/Ast       the types of ast.go
--   Policy/Outcome   the parser's state, its results, `peek`, `take`, `expectPunct`, `expectIdent`
--   Policy/Number    `parseNumber`, `parseInteger` and strconv.ParseFloat
--   Policy/Expression  `parseOperand`, `parseCmp`, `parseAnd`, `parseOr`
--   Policy/Parser    the clauses of `parsePolicy`, `isDim`, `parseDimWeight`, `Parse`
--   Policy/Grammar   printed policies, close to contracts/dsl/grammar.ebnf, and how `Parse` reads them
--   Policy/Syntax    the policies that `Parse` takes, as rules on tokens beside the parser: Expressions, Clauses
--   Policy/Tests, Policy/Grammar/Tests and Policy/Syntax/Tests  runs and concrete instances
--   Client/Types     the data of requests and responses
--   Client/Call      `New`, `WithContract`, `newRequest`, `do`, `mapError`
--   Client/Calls     `Chat` and the other methods that make one call
--   Client/Lines     what sse.go uses of bufio.Scanner and of package strings
--   Client/Events    `sseScanner.Next` and the loop of `ChatStream`
--   Client/Streaming  `ChatStream`: its request, its response, and what it sends
--   Client/Channels   the same as turns of the goroutine and of the receiver of its channels
--   Cli              cli/main.go: Commands and Main, with Terminal for its environment, Output for what it prints,
--     and Messages for what it writes on the standard error; Client/Messages has the errors' texts
--   Examples         examples/quickstart and examples/train-dataset
--   Extension        contracts/go/extension
--   Go/Tests, Cli/Tests, Examples/Tests, Client/Tests, Client/Calls/Tests and
--     Client/Streaming/Tests, Client/Channels/Tests  runs and concrete instances
-- Child modules are named for what they prove: Progress for the input that an operation takes, Post
-- and Reports for conditions on results, Panic, Errors, Total, Invariant, RoundTrip, Refusals, Brackets,
-- Lexicographic, Headers, Names, Urls, Queries, Replies, Stream, Chunked, Outcomes, Exits, Documented,
-- Chats, Paging, CommandLines, Training, Replaying, Refused, Traces, Trains, Bounds, Spelling,
-- Written, Sources, Complete, Exact, Means, Operands, Comparisons, Parts, Policies, Lengths, Runs,
-- Accepts, Truncated, Panics, Fuel, Refinement, Liveness, Leaks.
--
-- State. A lexer is the rest of its source with the position; a parser is the rest of its tokens. A
-- source text is a list of bytes. An index out of range is a result `panic`. An error is a constructor
-- of `ParseError` with the values that its message shows. A Go map of weights is an association list
-- whose writes replace, in the order of the first writes.
--
-- Parameters. float64 is a field of the record `Floats`, with the rounding of a decimal, which can be
-- out of range, and the conversion to int. Which texts strconv.ParseFloat takes is written out for
-- texts of digits and points, the only ones that the lexer makes numbers of.
--
-- Of the client, net/http, io and encoding/json are the record `Gateway`: a round trip takes a request
-- and a `World`, and gives a response or an error and the world behind it. A method takes the world and
-- gives its result with the world. The JSON of the stream's events is the record `Chunks`. A reader of a
-- body is the list of the bytes that it gives before its end or its error, which comes by itself, with
-- no bytes.
--
-- Fuel. The loop over the tokens has the length of the source and one more, as each token but the
-- last takes a byte; the parser has the number of tokens and one more, as each call or round that
-- recurs takes a token; the loops over lines and events have the length of the body and one more, as
-- each line takes a byte.
--
-- The record `Terminal` has what the command line uses of files, JSON and float64; a run is its
-- status, its output and its messages, with the world behind it. The record `Texts` has what package
-- flag writes, and the texts of other packages' errors. Package flag and strconv.ParseInt are written
-- out, on structural recursion.
--
-- The channels of `ChatStream` are a record with the place of its goroutine, the chunks received, the
-- buffer for an error and whether the receiver listens; `run` takes a list of turns, and has no result
-- if one of them would have to wait.
--
-- Not modelled. The SDKs in other languages, the contracts as data and the deployment files; the
-- messages of package flag; deadlines and cancellation, which belong to the round trip.
pub mod Prelude
pub mod Go
pub mod Policy
pub mod Client
pub mod Cli
pub mod Examples
pub mod Extension
