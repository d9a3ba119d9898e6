-- ===== src/Lib.antt =====
-- Verification library of the Baidu Cloud CSI driver, a Go program that offers cloud disks (CDS)
-- and buckets (BOS) to Kubernetes through the gRPC services of the Container Storage Interface.
--
-- The program's parts. The controller (pkg/driver/cds/controller.go) creates, deletes, attaches,
-- detaches and resizes disks through the services of pkg/cloud, which call the cloud's SDK; the
-- node server (pkg/driver/cds/node.go) mounts the disks of its node through a mounter
-- (pkg/driver/cds/mount.go). The program (cmd) parses its flags, builds the driver of disks or of
-- buckets, with the identifier and the zone of the node from the metadata service or from
-- Kubernetes, and serves it at a socket. In the mode `gateway` its requests to the cloud go through
-- a gateway, signed with a token that is read anew when it expires (pkg/cloud/ccegateway). Both
-- servers lock a request while it is in process (pkg/util/keymutex.go), and report an asynchronous
-- operation by the code `Aborted`, on which the caller, or the retry loop of the controller, asks
-- again.
--
-- The modules.
--   Base        shared names, Boolean tests, maps as lists, int64, and functions that return a
--               value or an error and have effects (`Exec`): the state comes back beside the error
--               too.
--   Util        pkg/util: Size (RoundUpGB, SizeGBToBytes), KeyMutex with its threads, Endpoint
--               (ParseGRPCEndpoint), Digest (MD5, ToJSONOrPanic); and the functions of Go's library
--               on texts, numbers and paths that the code calls, by their documentation.
--   Cloud       pkg/cloud: Gateway (ccegateway/bcesigner.go: Token is ensureToken, Sign is Sign,
--               with theorems below them), Metadata (metadata.go), Log (log.go), Error, Auth,
--               Volume (cdsVolume), Service (the interfaces CDSVolumeService and NodeService), Sdk
--               (the SDK's client, a parameter), Cds (cds.go and bcc.go; Eventual, below it, is the
--               service as the controller relies on it), and Calls, a log of the calls that change
--               the cloud. Clients makes the SDK's clients for an authorisation
--               (generateBCCCDSClient, the client of NewBOSService, GetSigner); Signing, below it,
--               composes them with the gateway's signer.
--   Csi         the messages of the CSI specification that the code reads.
--   Controller  pkg/driver/cds/controller.go: a module for each handler, of the handler's name
--               (Create, Delete, Publish, Unpublish, Expand, Validate), its helpers (Capability,
--               Capacity, Zone, Parameters), the state (Server), the retry loop (Retry) and the
--               handlers that retry (Rpc). Flights is the callers that singleflight joins, with
--               theorems below it. Calls holds theorems on the calls of the handlers, and
--               Calls/Contract on those of the controller as a whole; the modules below Create,
--               Capacity, Rpc and Retry hold theorems on these.
--   Node        pkg/driver/cds/node.go: Stage, Unstage (with unpublishing), Publish, Stats, Expand
--               over the interface of the mounter (Mounter); Device is GetDevPath and GetDeviceSize
--               of mount.go, with a theorem on the output of grep in Found; Files is newMounter and
--               the file system of pkg/driver/common/filesystem.go over Go's os. Mounts says what
--               is relied on of a mounter, and Installed is about newMounter as one; Staged,
--               Unstaged, Published and Locked hold theorems.
--   Handover    what the controller hands to the node server: the publish context, from an
--               attachment to the path of a pod; Installed is this with the mounter of newMounter.
--   Bos         pkg/driver/bos: Publish and Unpublish are the node server of node.go, with
--               BucketExists of pkg/cloud/bos.go; Source its options and texts; Engine the
--               container engine, a parameter; Image and Container the mounter of mount.go.
--               Endpoint, Checked, Ends, Gone, Named and Ready, below them, hold theorems.
--   Driver      pkg/driver/common and the drivers: Topology, Options, Serve (server.go, with its
--               interceptor in Serve/Intercepted), Cds and Bos (driver.go of each, with
--               NewCDSService, NewBCCService and NewBOSService of pkg/cloud) and Identity
--               (identity.go of each, and the lists of capabilities). Run is Run of each. Found,
--               Listening, Located, Built, Reported and Served, below them, hold theorems.
--   Command     cmd: Flags (options.go) and Program (main.go); Accepted, Buckets, Started and Ran,
--               below them, hold theorems.
--   Tests       small clouds and nodes, and the theorems at concrete inputs.
--
-- How the code is modelled. A handler is a function from the state to a result and the state.
-- Messages and logs are dropped; an error of a handler is its gRPC code. A message that may be nil
-- is an `Option`, and a Go map a list of its entries. Sizes are integers with the wrap-around of
-- int64 written out. The key of a request under which it is locked is the text of the request, a
-- parameter of the handler. Errors of the SDK carry their HTTP status.
--
-- What is a parameter. The cloud's SDK, the CSI messages' getters, Kubernetes' mount utilities,
-- Go's os, the clock, HTTP, singleflight, Kubernetes' client, the SDK's requests and the container
-- engine are not part of the repository: they are records of operations over an unknown state. What
-- is relied on of them is stated by the records IsEventual (a cloud whose listings come late),
-- IsLogged (a log of calls), IsEventualClient (the SDK's client of such a cloud), IsClock,
-- IsSingleFlight, IsMounter, IsBinder (bind mounts), IsFileSystem, IsOsFiles, IsQuietOs,
-- IsMountUtils, IsBindUtils, IsGrep (the command that lists the serials), IsOs, IsRequest (the
-- SDK's requests), IsNewBosClient and IsTimed (the ticks and the contexts of a wait), each of which
-- a test fills. The sum of MD5 is a function from texts to bytes, and its text a function on texts
-- where buckets use it. IsMounter takes one unmount to uncover a path: a path that is mounted
-- several times is outside it.
--
-- Bounds and fuel. The listing of GetVolumeByName runs on fuel that counts pages: fuel for each
-- page is enough for the whole listing. The retry loop runs on fuel that counts rounds; a round
-- takes two seconds, so that fuel for the time to the deadline is enough; the wait for a container
-- runs on fuel that counts ticks: 31 are enough, since a tick comes every 500 ms, and the context
-- of the wait ends after 15 s. Times are nanoseconds. Letters are compared and changed, and white
-- space is trimmed, in ASCII.
--
-- Concurrency. The key mutex is modelled with any interleaving of threads. The callers of a handler
-- that retries are modelled in any interleaving of their attempts, each of which is one step;
-- `singleflight` makes one of the callers with a key the leader. Calls of other attempts between
-- two calls of one attempt are not modelled.
--
-- Not modelled: the mocks, which are generated; what the SDK, Kubernetes, Docker and gRPC do;
-- Probe, which answers an empty message; and the texts of errors and of the logs of the handlers.
pub mod Base
pub mod Util
pub mod Cloud
pub mod Csi
pub mod Controller
pub mod Node
pub mod Handover
pub mod Bos
pub mod Driver
pub mod Command
mod Tests
