-- ===== src/Lib.antt =====
-- Verification of authzen, a Go implementation of the OpenID AuthZEN Authorization API: the
-- information model and its validation, batch evaluation, the HTTP decision point, the store of
-- pending approvals, the documents of the access request profile, the gRPC binding, the profile
-- for MCP servers, the HTTP client, and the command line.
--
-- The program. The root package (types.go, evaluation.go, evaluations.go, search.go, errors.go)
-- holds the requests and responses, their Validate methods and their JSON encodings. The package
-- server turns a decision point, given by its caller behind the interface PDP, into an
-- http.Handler: it checks the method and the content type, decodes and validates the body, asks
-- the decision point, runs a batch member by member under one of three semantics, and maps
-- errors to statuses. The package approval keeps the requests that wait for a human decision in
-- an in-memory store: they are approved, denied or canceled, or expire when a call or a sweep
-- finds their lifetime elapsed, and a hook hears of each end.
--
-- The files. Base holds Go's strings as byte lists (Base/Strings), error results (Base/Results)
-- and integers (Base/Int). Json models `map[string]any`: values, maps and type assertions
-- (Json/Value), their laws (Json/Laws), and what a value reads as after a trip over the wire
-- (Json/Wire). Core models the root package: the structs (Core/Types), errors.go (Core/Errors),
-- the Validate methods (Core/Evaluation, Core/Search), Resolved and the validation of a batch
-- (Core/Batch), MarshalJSON and UnmarshalJSON (Core/Codec) and the decoding of requests
-- (Core/Codec/Requests). Server models server/server.go: the interface to the decision point
-- (Server/Pdp), EvaluateBatch (Server/Batch), requests, responses and request ids (Server/Http),
-- the handler's options (Server/Handler), its endpoints (Server/Endpoints), and the routing with
-- the recovery from panics (Server/Routes). Approval models approval/approval.go
-- (Approval/Types) and approval/store.go: clone (Approval/Clone), Get, Approve, Deny and Cancel
-- (Approval/Store), Create, Delete, Sweep and Len (Approval/Records), newID (Approval/Ids).
-- Expiry is about expireLocked, Moves, Decisions and Births about what single calls do, Counts,
-- Sweeping and Remains about a sweep, Events about sequences of calls, and Keyed, Invariants,
-- Once and Finality about what holds after any. The records of store.go hold pointers, and
-- Create keeps the one of its caller: Heap models the store over that memory, Heap/Events has
-- the calls and the caller's own writes, Heap/Views and Heap/Refines show that the store with
-- each approval in its record (Approval/Store, Approval/Records) is what it does while no two
-- records share an approval. Poll models handler.go, and Notify models notify.go with the URL
-- parser, the validator and the HTTP client as parameters. AccessRequest models the package
-- accessrequest: the documents of denial.go, request.go and task.go (AccessRequest/Types),
-- errors.go (AccessRequest/Errors), HintFromContext and DenialFromHint (AccessRequest/Denial),
-- and validate.go for submissions (AccessRequest/Submit) and tasks (AccessRequest/Tasks);
-- ItemRules, Rules and TaskRules state what the profile demands. Grpc models grpc/conv.go,
-- message by message (Grpc/Proto, Struct, Entities, Evaluation, Batch, Page, Search,
-- Configuration; Convert has the shared loops), grpc/server.go (Grpc/Status, Grpc/Server) and
-- grpc/client.go (Grpc/Client); Carried is about requests as the wire carries them, and
-- Client/Through about a client over a server. Mcp models the package mcp: the classes of runes
-- (Mcp/Runes), quoted strings (Mcp/Quote), the auth-param list (Mcp/Params), String and
-- ParseChallenge (Mcp/Challenge), DenyContext and ChallengeFromDenyContext (Mcp/DenyContext),
-- mcp.go (Mcp/Token, Mcp/Profile) and middleware.go (Mcp/Middleware). Client models
-- client/client.go: the options (Client/Config), endpoints and identifiers (Client/Issuer), the
-- sending of a request and the reading of its response (Client/Transport), the methods
-- (Client/Calls), and the hook for redirects (Client/Redirect). Cli models cmd/authzen: the
-- shared flags of main.go (Cli/Options), evaluate.go (Cli/Evaluate), and the other commands with
-- their dispatch (Cli/Commands, Cli/Run).
--
-- State. The decision point is a record of functions that pass a state of its own along, so the
-- order and the number of its calls can be seen; it may answer, answer with nil, fail or panic.
-- The approval store is a record of its map, its cap and whether it has a hook; a method is one
-- critical section that takes the times it reads and returns the store, a result and the
-- approvals for the hook. A range over a map takes some order. A handler's method returns the
-- state and a response, or the panic that it lets through. Go names are kept in snake case; a
-- nil pointer, map or slice is `none` where the program can tell.
--
-- Not modelled. A JSON document is its tree of values, not its text, and members of a struct are
-- found by their exact names. The text of error messages is kept as data and not formatted. Log
-- lines are left out. Random ids, the reading of a body and mime.ParseMediaType are parameters
-- (Server/Handler, Env). The random bytes of approval ids are arguments; the janitor goroutine
-- of the store, which only calls Sweep, is left out. http.ServeMux matches the paths of a
-- handler exactly. A google.protobuf.Struct is a type of the caller's with NewStruct and AsMap
-- (Grpc/Struct, StructPb), and so are status errors (Grpc/Status); values that json.Marshal
-- refuses are left out. The strings of Mcp are lists of runes, so strings that are not valid
-- UTF-8 are left out there; a float64 status is one that an int can hold; a responder that
-- panics is left out. parseAuthParams runs on fuel, one pass for each rune and one more, and
-- each pass consumes a rune. What the client uses of net/url, net, net/http and the Unicode
-- tables is a record of functions (Client/Config, Net), and so is its use of encoding/json
-- (Client/Calls, Json); flag.FlagSet.Parse and the files of a command are parameters too
-- (Cli/Evaluate, Cli/Commands), and what a command writes to the standard error is left out; a
-- chain of redirects (Client/Redirect, follow) is that of net/http, with the repeating of
-- headers as a parameter. The rounding of an int64 to a float64 (Json/Wire) drops 11 bits at
-- most, since 2^64 / 2^11 is 2^53. The grant, the reasons and the lists inside an approval are
-- values, not shared. All other loops are recursion on the list that they range over, so no fuel
-- is used.
pub mod Base
pub mod Json
pub mod Core
pub mod Server
pub mod Approval
pub mod AccessRequest
pub mod Grpc
pub mod Mcp
pub mod Client
pub mod Cli
