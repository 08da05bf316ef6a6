-- ===== src/Lib.antt =====
-- Distributed WBPP spreads the preprocessing of PixInsight's WBPP script over the machines of a local
-- network. On the server, pjsr/lib/WBPPShim.js wraps the operations of WBPP's queue: it captures the
-- process that an operation has configured, splits the frames of a group between the server and the
-- cluster or assigns whole integrations to machines, and makes up for what the cluster does not bring.
-- pjsr/lib/ProcessSerializer.js turns a process into plain data and back. pjsr/lib/SidecarBridge.js talks to
-- the sidecar, a Go daemon, through files. On a client, pjsr/lib/WorkerRuntime.js pulls jobs, checks and
-- runs them, and reports. pjsr/DistributedWBPP.js is the entry; it keeps the cluster key.
--
-- The files:
--   Prelude       names of the libraries, tests, lists, texts (UTF-16 code units), outcomes of calls
--   Calls         calls with a state that may throw: the state keeps what was done before the error
--   Key           dwbppNormalizeKey, dwbppFormatKey, dwbppLoadKey, dwbppGenerateKey; in Dialog dwbppSaveKey and
--                 the role dialog
--   Serializer    serializeProcess, deserializeProcess, and in Listing processParameterNames
--   Split         __serverCount, __learnCosts, __ema
--   Capture       __captureViaContainer
--   Machines      __assignMachines
--   Queue         gatherCalibBatch, gatherLightBatch, gatherDrizzleBatch, gatherLNRefBatch, gatherFlatBatch
--   Dispatch      dispatchIntegrationBatch, dispatchLNRefBatch, dispatchDrizzleBatch: their common skeleton,
--                 with distributeCalibBatch and the others, and the wrapped run of an operation
--   Captures      captureII, captureLNRefII, captureDrizzle
--   Leases        the whole jobs, and what each of the three dispatchers puts into the skeleton
--   Windows       the image windows, the frame groups and the keywords of the masters
--   Masters       finalizeMaster, finalizeLightMaster, finalizeLNReference, finalizeDrizzleMaster,
--                 __applyMasterMetadata
--   Flats         distributeFlatBatch, and distributeDrizzleBatch with __normalizeXdrzPaths, and their wrapped runs
--   Metrics       buildDescriptor
--   Measure       distributeMeasurements, the wrapped computeDescriptors
--   Transfer      __verifiedOutputs, __makeTempDir, removeClusterTempDirs
--   Install       installShim, and the wraps of the queue and of the analyzer
--   Operation     the records that captureAndDistribute reads, its names, marks and status
--   Distribute    captureAndDistribute, and the wrapped run of wrapQueue
--   Xdrz          __xdrzServerPaths, __canonicalizeXdrz, baseNameOf
--   Worker        checkJobFiles, rebuildJobProcess, processJob; in Measuring measureFrames; in Jobs integrateFrames
--                 and drizzleIntegrate; in Session countFrames and the timer of the client's window
--   Bridge        distributeAsync, distributeWait and the file calls; in Polling workers; in Pulling pullWork
--                 and reportResult; in Daemon start and stop
--   Logger        FileLogger
--   Entry         main, runServer, runWorker, resolveSidecar, dwbppClearCache
--   Examples      concrete runs
--
-- Dispatch uses Machines; Leases fills Dispatch's Hooks with the captures and with Masters; Flats uses Dispatch;
-- Distribute uses Split and Xdrz; Measure uses Split and Transfer; Worker uses Serializer and Xdrz; Entry uses
-- the daemon of Bridge. What
-- WBPP, PixInsight and the sidecar do is an argument: a record of calls (Hooks, Host, Engine, Surroundings,
-- Analyzer, Platform, Machine, System, Agent, Folders, Disk, Shell, Script), with what the code relies on
-- as a record of laws (IsCounted, IsRegistering, IsMeasuring, IsReliable, KeepsFiles, IsRemoving, IsTidy,
-- LeavesOthers, IsKillable, IsTextual).
-- JavaScript's numbers are an argument where fractions matter (Split.Number); counts are natural numbers.
-- Regular expressions are written out as matchers.
--
-- Only one loop has no bound in the code: the poll of Bridge.Polling, which runs on fuel. It sleeps 500 ms
-- in each round and stops after the waiting time, so a round for each half second, and two more, suffice.
-- The digits of a number n are written in at most n + 1 rounds, one for each digit. Every other loop goes
-- over a list.
--
-- Not modelled: the sidecar, which is written in Go; the dashboard and the client's window,
-- with their help; logs and status messages; the link of a wrapped operation to its wrap: Install has the
-- wraps as data, and Distribute, Dispatch, Flats and Measure what the wrapped calls do. An error's message is
-- kept where it is fixed, and leaves out a window's id.
pub mod Prelude
pub mod Key
pub mod Serializer
pub mod Machines
pub mod Split
pub mod Capture
pub mod Queue
pub mod Calls
pub mod Dispatch
pub mod Xdrz
pub mod Operation
pub mod Transfer
pub mod Metrics
pub mod Measure
pub mod Windows
pub mod Masters
pub mod Captures
pub mod Leases
pub mod Flats
pub mod Install
pub mod Distribute
pub mod Logger
pub mod Worker
pub mod Bridge
pub mod Entry
pub mod Examples
