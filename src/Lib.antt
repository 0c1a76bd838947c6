-- ===== src/Lib.antt =====
-- gRPC Playground: a model of its services, and what is proved of it.
--
-- The program is a set of gRPC services in Go. LaptopService (package service) keeps laptops, images and
-- ratings in three stores; AuthService gives tokens to the users of a fourth, and an interceptor decides
-- by those tokens which calls reach a handler. A client package attaches the tokens. Two servers of their
-- own keep orders and products (grpc-service).
--
-- Files and the code that they model:
-- - Prelude, Exec, Dict, Stream, Status: shared. `Exec S A` is a Go function on a state S that returns,
--   returns an error, panics, ends the process or still waits for its stream; Dict is map[string]V;
--   Status has gRPC statuses, the errors of the stores, ctx.Err() and stream.Recv().
-- - Pb: the messages of ecommerce/*.pb.go, with the getters that the services call.
-- - Laptops.Qualify: isQualified and toBit of service/laptop_store.go. Laptops.Store: the LaptopStore
--   interface and InMemoryLaptopStore (Save, Find, Search, deepCopy). Laptops.Rating: the rating store;
--   Laptops.Rating.Shared: the reads of a rating that other streams share.
-- - Laptops.Image: DiskImageStore of service/image_store.go.
-- - Laptops.Server: service/laptop_server.go, over any three stores: Unary (CreateLaptop,
--   GetLaptopByID), Search, Upload, Rate; Memory puts InMemoryLaptopStore in.
-- - Auth.User: service/user.go and user_store.go. Auth.Jwt: service/jwt_manager.go. Auth.Login:
--   service/auth_server.go. Auth.Interceptor: service/auth_interceptor.go.
-- - Laptops.Store.Contract: LaptopStore as a map from IDs to laptops. Laptops.Server.Changes: what a
--   handler can change; Reachable: the stores after any sequence of calls; Interleaved: the steps of
--   handlers that run at the same time; Returns: the ends of streams.
-- - Client: client/auth_client.go and client/auth_interceptor_client.go, and authMethods of
--   cmd/client/main.go. Client.Laptops: client/laptop_client.go, each call also against the server
--   (Created, Searched, Uploaded, Rated). Client.Main: the test calls of cmd/client/main.go.
--   Client.Refreshing: the refresh loop of a token against the server, as a relation in time.
-- - Served: what grpc hands a client of a call that a handler has served.
-- - Locks: the mutexes of the stores, a shared access at a time, with the methods of a store as an
--   argument; Laptops.Store.Locked, Laptops.Image.Locked, Laptops.Rating.Locked and Auth.User.Locked
--   put Save and Add in.
-- - Start: cmd/server/main.go, and the TLS configurations of cmd/; Start.Access composes it with the
--   interceptor and the tokens; Start.Credentials compares the TLS configurations. Serving: net.Listen
--   and Serve, as Orders.Main, Products.Main and Start use them.
-- - Connection: what stands between a stub and a handler: the interceptors of the client and the
--   server, and the services that cmd/server/main.go registers (Memory). Connection.Calls: the calls of a
--   client against them. Client.Program: main of cmd/client/main.go; Client.Program.Started and
--   Client.Program.Runs put it against the server program.
-- - Serializer: serializer/file.go and serializer/json.go.
-- - Orders: grpc-service/order-management-server, its maps and four RPCs; Orders.Reachable has the maps
--   that sequences of calls can lead to, Orders.Client grpc-client/order-management-client. Products:
--   grpc-service/productInfo-server, with grpc-client/productInfo-client in Products.Client.
-- - Scratch: test.go.
-- - Samples: sample-data/random.go; Samples.Laptop: sample-data/generate.go.
-- - Examples: the theorems on concrete inputs.
--
-- A mutex makes each method of a store one step on its map, for which Locks has the reason. A
-- handler is a function that runs from its first step to its last; Laptops.Server.Interleaved has
-- the steps of handlers of LaptopService that run at the same time, and Laptops.Rating.Shared the
-- reads of a rating that they share. The order and product maps have no mutex, and concurrent calls
-- on them are not modelled. The order in which range visits a map is an argument. A stream is the
-- list of the answers of Recv; at its end the call is `waiting`, so no fuel is needed and every
-- loop is structural recursion. uint32 and uint64 keep their wrap-around; float64 is an argument
-- with the operations used. uuid, bcrypt, golang-jwt, copier, the file system and grpc's transport
-- and contexts are arguments, and what they document is a hypothesis where a theorem needs it. Of a
-- formatted message only the format is kept.
--
-- The flags of a program, grpc.Dial, net.Listen and Serve are arguments too. A run of the client
-- program counts its calls: the time of the n-th call and the token that the refresh loop has got by
-- then are arguments.
--
-- Not modelled: logging, grpc reflection, the concurrency of a client's goroutine with its sends, the
-- race of the refresh loop with the reads of its token, the deadlines of contexts, what a laptop and its
-- copy by copier share (nothing changes a laptop that is stored or found), generated stubs, and vendored
-- packages.
pub mod Prelude
pub mod Status
pub mod Exec
pub mod Dict
pub mod Pb
pub mod Stream
pub mod Served
pub mod Locks
pub mod Serving
pub mod Laptops
pub mod Auth
pub mod Orders
pub mod Products
pub mod Client
pub mod Connection
pub mod Samples
pub mod Serializer
pub mod Start
pub mod Scratch
pub mod Examples
