-- ===== src/Lib.antt =====
-- dittobench-api runs benchmark evaluations of harnesses that miners submit. A run is a job of the
-- store; its harness runs in a sandbox and reaches models only through the inference broker, which
-- holds one session per ticket of the platform. At its end the run is scored or failed by what the
-- session's ledger says. This library models the parts that decide what a run may do, who is
-- charged for its failure and whether it is scored.
--
-- * Base holds the shared helpers. Assoc is a Go map, an association list whose first entry for
--   a key counts; Text is what the program does with strings.
-- * Store models internal/store/store.go: Job is the record of a run, Methods has one function
--   per method, with time.Now() as an argument. A history is a list of calls with their instants.
-- * RateLimit models internal/ratelimit/ratelimit.go: new, allow, and histories of calls.
-- * Broker models cmd/dittobench-api/inference_broker.go. Session is its state. Control has the
--   operations on one session (activate, claimRun, bindSource, replaceBoundSource,
--   destroyBrokerSession, pruneExpired), Lifecycle their sequences, Table the session map and its
--   handlers, Lanes the admission of embedding and chat calls. Decline is how the platform's
--   answers are read, Delivery the loop of proxy, Embedding the hosted embedding lane's,
--   Accounting what the calls write to the session's ledger. Access, Tickets, Concurrency,
--   Table.Capacity, Table.Source, Delivery.Bounds, Delivery.Retries, Embedding.Retries,
--   Accounting.Balance and Accounting.Stale have the proofs.
-- * ControlAuth models cmd/dittobench-api/control_auth.go: the credential check before the
--   control plane. Gate is about enforcement.
-- * Sandbox models parts of internal/sandbox. SafeJoin is safeJoin of tarball.go with what it
--   uses of path/filepath, Extract the loop of extractTarGz, Limits bounds it. Image has the
--   manifests of internal/sandbox/image.go, Image.Primary its indexes, Image.Archive the scan of
--   an archive, Image.Check the verdict of validateDockerSaveArchiveWithStoreIDs and Image.Load
--   loadScreenedImage; Image.Results, Image.Contents, Image.Identities, Image.Vouched and
--   Image.Acquired have the proofs.
-- * Runner models the attempts of a case in internal/runner/runner.go; Delivery says when one is
--   delivered.
-- * NetGuard models isDisallowedIP of internal/netguard/netguard.go, Guard its ValidateURL and
--   the control function of Client; Ranges has the ranges of IPv4, Guard.Resolution what the
--   checks let through.
-- * Scorer models internal/scorer: Text how values are looked for, Calls the calls of a harness,
--   Arguments and Trajectory the score of a trajectory (trajectory.go), Case the accuracy of a
--   tool case, Compose its score and how runSizeJob puts it together, Twins the families of
--   rewordings, Gate the multiplier of the composite (scorer.go, v7.go). Text.Search,
--   Text.Separators, Calls.Names, Arguments.Outcomes, Trajectory.Gates, Compose.Scopes,
--   Twins.Delivery and Gate.Unobserved have the proofs.
-- * Server models parts of cmd/dittobench-api/main.go: Memory is beginMemoryPhase with the
--   function it returns, Cancel the registry of contexts, failAgentInferenceRun and
--   handleCancelRun, Submit the checks of handleScoreRequest and handleSubmit behind the rate
--   limit and the decoding of the body. Evidence is toolPrerequisiteWave and
--   validateV8EvidenceAvailability. Start is submitRunSize with its slots, Environment the
--   environment of the sandbox, and Diagnosis how the failure of a container is classified, with
--   InfrastructureCode of internal/sandbox/sandbox.go. Memory.Slots, Cancel.Verdicts,
--   Submit.Intake, Evidence.Seeded, Start.Admission, Environment.Locked and Diagnosis.Verdicts
--   have the proofs.
-- * Server.Job is runSizeJob, the worker of a run, as a chain of stages over what the run holds
--   and has written: Starting goes up to the data set, Launching up to the probe of the model's
--   route (with relayRunStart of cmd/dittobench-api/relay_preflight.go), Cases has the tool
--   endpoint, the seeding and the cases, Scoring the end of the run, the deferred calls and the
--   whole job. What the stages call is in the records World, CaseWorld and EndWorld. Sequence,
--   Waves, Outcome, Metered, Begun, Accounted and Launched carry the proofs of Reported, Scores
--   and Release.
-- * EgressProxy models cmd/egress-proxy/main.go: the settings, the allowlist and the handler;
--   Allowed has the proof.
-- * Relay models cmd/dittobench-api/relay_preflight.go and ValidUsage of
--   internal/efficiency/efficiency.go: what a run concludes from two snapshots of its session's
--   ledger. Attribution books events between the snapshots with the functions of
--   Broker.Accounting, and FailClosed relates the verdict to them.
--
-- The parts meet in records. Broker.Session.Ledger is written by Broker.Accounting and read by
-- Relay; the failure that Relay.Finalize makes is what the store's FailIfActive and FailWith keep
-- with a job. Server.Job writes the operations of Store.Methods, meters with Relay and fails with
-- its classification.
--
-- Concurrency: a function stands for one critical section of the source, that is, what runs under
-- one lock without releasing it. Broker.Concurrency interleaves the sections of calls by a step
-- relation, Broker.Accounting.Balance those of the ledger.
--
-- The delivery loop runs on fuel; as every round uses up an attempt or one of twelve capacity
-- waits, its maximum of attempts and fourteen more is enough; the embedding loop has six attempts
-- and twelve waits, and fuel for nineteen rounds. The scorer's search loops have fuel for one more
-- round than the text has bytes. The digits of a number are written in at most twenty rounds,
-- enough for 64 bits, and the attempts of a case are counted down. All other recursion is on
-- lists.
--
-- Instants are nanoseconds since Go's zero time, so 0 is the zero time. Counters are unbounded
-- where the source has uint64, except that the sum of the token counts wraps. Random tokens,
-- uuid.Parse, net.ParseIP, the broker's profile check and the answers of the platform are
-- arguments; texts are compared only, but for those of the scorer, of submissions, of settings and
-- host names and of image archives, which are ASCII. The float64 numbers of the scorer are any
-- type with the operations of Scorer.Floats, and the prefixes and names of dittobench-datagen are
-- arguments. Request signing, JSON, logging and HTTP headers are not modelled, nor are the rest of
-- the sandbox, which calls Docker, the memory cases and the report of the scorer, the health
-- probes and the seeding of the runner, and the command line tools. SHA-256 and the decoding of
-- JSON are arguments of the validation of images. A case of Server.Job is run and scored by an
-- argument, and its report is built by one, since dittobench-datagen generates the cases; the
-- cases of a batch are run at once, so that the model has the order in which they are appended to
-- the store as an argument, and of the panics of Go there are those of the build, the generation,
-- the start of a container, the tool endpoint, the report and an index out of range.
pub mod Base
pub mod Server
pub mod Store
pub mod RateLimit
pub mod Broker
pub mod Relay
pub mod ControlAuth
pub mod Sandbox
pub mod NetGuard
pub mod Scorer
pub mod EgressProxy
pub mod Runner
