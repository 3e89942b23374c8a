-- ===== src/Lib.antt =====
-- A Go client of the Firezone REST API, and what its code guarantees of the requests it makes.
--
-- A call goes through these parts, one below the other:
--   services (sites.go, groups.go, ...): check the IDs of the caller, encode the request, name the
--     path and the query, and decode the answer;
--   calls (firezone.go: wrapBody, do, doList): the JSON envelopes of bodies and responses;
--   the retry loop (retry.go: requestWithRetry, retryWait): retries rate limited requests;
--   one round trip (firezone.go: rawRequest; path.go: resolvePath; errors.go: parseAPIError).
--
-- The files, and the code that they model:
--   Path         path.go: checkID, buildPath, resolvePath
--   Query        pagination.go, and listOptionsToQuery and filterQuery of firezone.go
--   Client       firezone.go: Client, the options, checkBaseURL, NewClient
--   Http         firezone.go: requestBody, rawRequest
--   Retry        retry.go
--   Calls        firezone.go: wrapBody, do, doList and the envelopes; Calls.Served and Calls.Pages
--                read an answered call, Calls.Sent has the calls that send
--   Errors       errors.go; Errors.Api parses a response, Errors.Message prints an APIError
--   Null         null.go
--   Sites, Groups, Memberships, Policies, Resources, PoolMembers, Actors, Gateways
--                the file of that name in lower case; X.Types has the records, their JSON decoders
--                (`..._fields`) and encoders (`..._json`), X the methods of the service
--   ClientDevices  clients.go
--   X.Requests   for each of these services, the requests that its operations may send, on the
--                lemmas of Calls.Requests, which follow a call down to the transport
--   Resources.Paging  the cursor loop of ExampleListOptions in example_test.go, with a bound on its
--                rounds, of which as many as there are pages are enough
--   Services     firezone.go: the service fields that NewClient sets; Services.Credentials follows
--                what NewClient is given to the requests
--   Testutil     internal/testutil/testutil.go: the client of the tests and its server's responses;
--                of net/http's ResponseWriter what the handlers use: which statuses panic, are sent
--                ahead or have no body
--   AuthProviders, Directories  auth_providers.go and directories.go, a module for each kind
--   Go           the standard library, as far as the code uses it: URLs and escaping, JSON, strconv,
--                sorting, net/url.Values, RFC 3339 timestamps, Duration.String
--   Prelude      helpers
--   Tests        the theorems applied to concrete values, and runs of the client
--
-- A Go name is written in snake_case. A string is a list of bytes, an int or a time.Duration a signed
-- integer of 64 bits that wraps around, a pointer an Option and a map a list of entries. A method
-- that may fail is a function from the log of what has happened to a result and a longer log; the log
-- has the requests that were sent and the waits. The transport, the end of the context and the random
-- numbers are functions of the log (Http.World), so an answer may depend on all that came before.
-- The retry loop is recursion on the number of rounds left, which is the budget and one; Retry.Rounds
-- shows that this is enough.
--
-- Parameters: url.Parse and runtime.Version, and the fields of Http.World. The hypothesis IsRandom
-- says that rand.Int64N(n) is below n; IsBytes says that the numbers of a string are bytes,
-- and IsAscii that they are below 128: the JSON model copies the bytes from 128 on, while Go replaces
-- those that are not UTF-8, so what is read back from printed JSON is stated for ASCII. A client is
-- ready (Calls.Requests.Ready) if it has a budget of n retries, enabled or not, a base URL of bytes and a
-- cap that leaves room for the jitter in an int64, and the random numbers are in their range. What an
-- operation asks for (Calls.Requests.Asks) is one request, to the URL that the base resolves the path to
-- and with the query, sent at most n + 1 times, and once if retries are disabled.
--
-- Not modelled: the default transport, the pointer helper String, time as a measured quantity, and
-- goroutines, since a client has no state that a call changes. JSON decoding does not tell a nil slice
-- from an empty one, except in the values of a condition.
pub mod Actors
pub mod AuthProviders
pub mod Calls
pub mod Client
pub mod ClientDevices
pub mod Directories
pub mod Errors
pub mod Gateways
pub mod Go
pub mod Groups
pub mod Http
pub mod Memberships
pub mod Null
pub mod Path
pub mod Policies
pub mod PoolMembers
pub mod Prelude
pub mod Query
pub mod Resources
pub mod Retry
pub mod Services
pub mod Sites
pub mod Tests
pub mod Testutil
