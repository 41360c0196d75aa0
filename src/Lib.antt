-- ===== src/Lib.antt =====
-- A model of the NX-OS DHCPv6 exporter, a hook library of the Kea DHCPv6 server, with proofs.
--
-- The program. Kea calls the library (src/callout.cpp) when a lease is selected, renewed, rebound,
-- released, declined or expires. The handlers (src/dhcp6_exporter_impl.cpp) turn the lease into a route
-- and give it to the exporter service (src/dhcp6_exporter_service.cpp), whose management client
-- (src/nxos_management_client.cpp) posts commands to an NX-OS switch as JSON-RPC over HTTP
-- (src/jsonrpc/utils.cpp, src/nxos_http_client.cpp) and reads the answers
-- (include/nxos/nxos_structs.hpp). A heartbeat (src/nxos_heartbeat_service.cpp) asks the switch for its
-- uptime and, after a loss or a reboot, has all routes sent again from the lease database.
--
-- The files.
--   Prelude: names of the libraries, tests, lists, integers (`int`, conversions to `size_t`).
--   Outcome: a result, an exception, or undefined behaviour, as a value; do blocks chain them.
--   Run: what a handler does, in order: messages, requests with their callbacks, calls of the failure
--     handler; and how it ends. A callback is the handler of a later step, since the HTTP client calls
--     it on a thread of its own.
--   Json: nlohmann::json as a record of operations and a record of the laws it documents;
--     Json/Model is a concrete library that meets them, Json/Facts has their consequences.
--   Nxos: the structs; Nxos/Parse is from_json, Nxos/Print is to_json.
--   JsonRpc: handleResponse, createRequestFromCommands, JsonRpcException.
--   Kea: what is taken from Kea as parameters, and src/lease_utils.cpp.
--   Route: src/route_export.cpp.
--   Mgmt/Commands, Names, Lookup, Send, Remove, Neighbor: the management client, by operation.
--   Service: exportRoute, removeRoute, restoreLeasesFromLeaseDatabase.
--   Impl: the handlers of lease events.
--   Heartbeat: the heartbeat service as a state machine: a state, and the actions of each step.
--   Http: the task that sendRequest posts, after the result of the POST.
--   Http/Client: the HTTP client as an object, and the steps of its threads.
--   Http/Pool: the thread pool as a system of steps; the service's run may return at any time.
--   System: the parts together, by ticks, lease events and answers in any order; the requests that wait
--     at the two HTTP clients stand in one list. System/Contract says what holds in every run by a
--     contract between handlers, what waits, and the state; System/Batches, Reports, Requests and
--     Handlers, and Safe and Sound, have what handlers and callbacks do, Waiting, Untouched and Defined
--     the runs; Lookups, Leases, Unset, Prefixes and Renewals follow one lease; Losses, Recovery and
--     Failures the connection.
--   Post: the messages of src/post_request_jsonrpc.cpp: Post/Request and Post/Response.
--   Params: src/nxos_connection_params.cpp.
--   Callout: load, unload, dhcp6_srv_configured, and the construction and start of the service.
--   Lifecycle: what the thread of Kea does to the two HTTP clients in startService, stopService and the
--     destructors, as a list of calls, while the threads of the clients run; Lifecycle/Programs has the
--     lists. Conditions, Slots, Refine, Execute, Waits, Settle, Outcome and Total relate it to clients
--     that are only a condition each; Ends has each callout, Callouts the whole life of the library.
--   EventQueue: src/event_queue.cpp.
--   The children of these modules named for what they prove hold the proofs; Tests applies each
--   theorem at a concrete input.
--
-- Parameters. The code of Kea, of nlohmann::json and of httplib is not part of the repository. Kea's
-- addresses are numbers with a text each, hardware addresses a type with a decided equality, the lease
-- database a function. A JSON library is any one that meets `JsonLaws`. `auto x{json}` copies the value or
-- hands it to the constructor from a list of initialisers, as the compiler chooses. The latter wraps the
-- value in an array, unless it is an array of two whose first element is a string, of which it makes an
-- object. Both behaviours are hypotheses, and the operation `brace` stands for it. The text that a
-- moved-from string holds is the operation `moved_from`.
--
-- Numbers. Native numbers stand for the unsigned types; `int` is an integer with the bounds of 32 bits
-- where they matter; the conversions to `size_t` wrap at 64 bits, as does the sum of the uptime. The
-- fuel of std::to_string is the number and one more, which bounds the count of its digits.
--
-- Runs. A run of System takes an arbitrary list of stimuli; the lease database and the configuration do
-- not change during it. Callbacks are atomic: what they share is the heartbeat, and both callbacks that
-- write to it hold its mutex. An exception that leaves a callback is dropped by threadLoop. After undefined
-- behaviour a run keeps the state, notes it in `undefined` and goes on; of the program itself nothing
-- is known from then on, so that a theorem on runs says something of it as far as none is noted.
--
-- Not modelled: messages at the level DEBUG, and the arguments of messages but the route that some name
-- (and the text of a null DUID, which is undefined behaviour); the text of JSON parse errors; the trip of
-- the request body through Kea's Element; the narrowing of the heartbeat's timeout to `int`; the
-- loggers; clientConnectHandler and clientCloseHandler, which do nothing and are called by nobody. Callout
-- says how each callout ends; the waits of the start, the stop and the destructors stand in Lifecycle.
-- There, the poll of a stop, which runs ready tasks on the calling thread under the mutex, is left
-- out: it changes no count of threads, and its tasks are assumed to return. The run of a client's
-- service returns once the service is stopped, and the tasks that let an exception out are finitely
-- many; that a callback may use a member which a destructor has already destroyed is left out. The
-- calls of Kea's handles are modelled by the arguments that they give.
pub mod Prelude
pub mod Outcome
pub mod Json
pub mod Nxos
pub mod JsonRpc
pub mod Kea
pub mod Lifecycle
pub mod Route
pub mod Run
pub mod Mgmt
pub mod Service
pub mod Params
pub mod Impl
pub mod Heartbeat
pub mod Http
pub mod EventQueue
pub mod Callout
pub mod Post
pub mod System
pub mod Tests
