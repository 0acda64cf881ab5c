-- ===== src/Lib.antt =====
-- The harness of the Couchbase Lite end-to-end tests: the Python package client/src/cbltest, and
-- the topologies of machines that the tests run against (environment/aws/topology_setup).
--
-- A test drives test servers (applications that embed Couchbase Lite) and Sync Gateway over HTTP,
-- waits for replications to reach a state or to report documents, and compares what the two sides
-- hold. The files model these parts, below client/src/cbltest where no other path is given:
--
-- Prelude: the shared names: Boolean tests, lists over the native numbers, dictionaries in the order of
--   insertion, exceptions as values (Result), Python's int, and texts as lists of characters.
-- Json: JSON values and the typed reads of jsonhelper.py; Json/Equivalent is json_equivalent,
--   Json/Equivalent/Preorder reasons about it, and Json/Reading reads the JSON of a file.
-- Errors: api/error_types.py (ErrorDomain.equal, ErrorResponseBody.create).
-- ReplicatorTypes: api/replicator_types.py, what a replication is configured with and its JSON;
--   ReplicatorTypes/Flags is ReplicatorDocumentFlags, ReplicatorTypes/Entries reads a status response
--   (with ReplicatorStatusBody of response_types.py), ReplicatorTypes/Events is
--   WaitForDocumentEventEntry and its equality.
-- Replicator: api/replicator.py. The record Replicator holds what the object's methods read and change,
--   and each method is a function from a state to a result and a state. Replicator/Waiting,
--   Replicator/Remaining, Replicator/Requested, Replicator/DocEvents and Replicator/IdleEvents hold the
--   proofs.
-- Multipeer: api/multipeer_replicator.py and the transports of api/multipeer_replicator_types.py;
--   Multipeer/Idle holds the proofs about wait_for_idle.
-- DocsCompare: api/test_functions.py, the comparison of the documents of two sides, with proofs in
--   DocsCompare/Revisions, DocsCompare/Same, DocsCompare/Sides, DocsCompare/Success and DocsCompare/Ids.
-- Config: configparser.py, the servers that a configuration names; Config/Topology is
--   plugins/required_topology.py, which skips a test that needs more of them.
-- Greenboard: greenboarduploader.py, the counts of a session and the document that is uploaded for it;
--   Greenboard/Counts holds the proofs, Greenboard/Upgrade the steps of an upgrade run and their file, and
--   Greenboard/Upgrade/Batch the proofs about a whole run.
-- Requests: DatabaseUpdateEntry of request_types.py.
-- SyncGateway: ISGRPayload (IsgrPayload) and RemoteDocument of api/syncgateway.py.
-- Gateway: api/syncgateway.py, the client of a Sync Gateway. A method is a tree of the requests that it
--   sends, with its pauses (Client), and run plays it against a server: it gives what was done in order
--   (the log), the result and the server's last state. Gateway/Datasets is load_dataset,
--   Gateway/Entries the updates of documents and the rewriting of their revisions, Gateway/Replies and
--   Gateway/Documents the requests about documents, Gateway/Polls the loops that ask again and the
--   deletion of a database, Gateway/Users users, roles, histories and replications. Gateway/Running,
--   Gateway/Batches, Gateway/Loaded, Gateway/Rewriting, Gateway/Updates, Gateway/Merged,
--   Gateway/Upserts, Gateway/Rounds, Gateway/Polling and Gateway/Resets hold the proofs about them.
-- Edge: api/edgeserver.py, the client of an Edge Server, over the same trees of requests: Edge has the
--   sessions of requests, bulk operations, queries and waits, Edge/Calls replications, changes, parts of
--   documents and the firewall, and Edge/Idle the proofs.
-- Router: websocket_router.py, the requests that wait for a test server's response on a web socket.
--   Futures, sockets and the semaphore are part of the record WebSocketRouter; each stretch of a method
--   between two awaits is a function, and Reachable is what can have happened in any order of them.
--   Router/Waiting has the invariant, Router/Stopped what every history has in common and what stop
--   leaves, and Router/Delivery a request with its response.
-- Transport: requests_transport.py, a request to a test server over a web socket, cut at the wait for
--   the router's future, and what is made of a response over a web socket or HTTP. Transport/Bodies is
--   responses.py, Transport/Factory the RequestFactory of requests.py (with TestServerRequest of
--   request_types.py and version.py). Transport/Responses composes the sending with Router, and
--   Transport/Registered the factory with the reading of responses.
-- Clusters: __init__.py (_ClusterBuilder and the clusters of CBLPyTest), with CouchbaseCluster of
--   api/cluster.py and SyncGatewayCluster of api/syncgatewaycluster.py. Clusters/Groups,
--   Clusters/Build and Clusters/Subscripts hold the proofs about the builder, Clusters/Required those
--   that compose it with the check of the required topology, Clusters/RoundRobin those about the
--   round-robin access.
-- Setup: environment/aws/topology_setup/setup_topology.py, what a topology file and the files that it
--   includes ask for (TopologyInputs); Setup/Hosts is what becomes of it with the host names of the
--   machines, and get_ec2_hostname of environment/aws/common/io.py. Setup/Valid, Setup/Slices
--   and Setup/Hosts/Resolve hold the proofs.
-- Backend: write_config of environment/aws/start_backend.py, the configuration for a topology;
--   Backend/Parsed composes it with the reading of Config.
-- Markers: scripts/check_topology_markers.py, the check of a test's markers before it is committed, on
--   the syntax trees of Syntax, which walk goes through row by row. Markers/Usages and Markers/Covered
--   hold the proofs about the check, Markers/Runs those that compose it with the check of the required
--   topology.
-- Tests: concrete inputs.
--
-- The parts meet as in the source: a Replicator asks the test server for its status, the answer is
-- read as a ReplicatorStatusBody, whose documents are appended to the cached updates, and the
-- waiting methods match these updates against the events they were given. A topology that Setup
-- reads gets the host names of its machines, which Backend writes into a configuration;
-- Config/Topology tests the configuration before a test runs, and Clusters builds from it what the
-- test uses.
--
-- Parameters: the test server is a function from the number of a request to its answer (an
-- exception, a body without an activity, or a status), the clock one from the number of a reading to
-- milliseconds. The documents of the two sides are arguments of the comparison. The environment
-- variables, the JUnit file as junitparser reads it, the path below the root of the repository, the
-- JSON of a topology file, the outputs of Terraform, the usage of a test's helpers, and what a Sync
-- Gateway answers when it is connected to are arguments too. For the clients of Sync Gateway and
-- Edge Server the server is a state and a function from a request and the state to an answer and the
-- next state. The classes that an API version registers are lists, in the order of their
-- registration.
--
-- Fuel: the waiting loops end by what the outside world does, so they take fuel, and `unfinished`
-- tells that it ran out. More than 2 * timeout + 2 rounds (in milliseconds) are enough for
-- wait_for and for wait_for_idle where the clock moves by at least a millisecond in two readings,
-- since every round reads the clock once; wait_for_doc_events needs no more rounds than there are
-- answers up to the first one that says that the replicator has stopped. topology_inputs takes the
-- depth to which files may include each other, which is Python's limit of recursion; where it is
-- passed, both raise a RecursionError, which is a RuntimeError. The loops of the client of Sync Gateway
-- count rounds in the source too, and need no fuel; delete_retries is on the retries that are left.
--
-- Not modelled: logging and tracing, the bodies of requests and responses of each API version, the
-- texts of messages (a constructor names the reason instead), fractions in JSON, upper-casing, white
-- space and digits outside ASCII, the HTTP sending to test servers, the clients of Couchbase Server,
-- the other scripts that set up machines, the code of other repositories that is called, the
-- bringing up of test servers, and the tracing of a test's helpers and fixtures through the files
-- that it imports. A Python set of events is a list in the order in which it is probed.
pub mod Prelude
pub mod Json
pub mod Errors
pub mod ReplicatorTypes
pub mod Replicator
pub mod DocsCompare
pub mod Config
pub mod Greenboard
pub mod Requests
pub mod SyncGateway
pub mod Multipeer
pub mod Setup
pub mod Router
pub mod Clusters
pub mod Backend
pub mod Syntax
pub mod Markers
pub mod Tests
pub mod Gateway
pub mod Transport
pub mod Edge
