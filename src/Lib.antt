-- ===== src/Lib.antt =====
-- A model of dstest, which tests distributed systems: it starts the replicas, puts itself between
-- them, and decides which message goes on next, when a client asks, and which fault happens.
--
-- The interceptors (one for every ordered pair of replicas) take what one replica sends to another,
-- the network manager numbers it and queues it at its receiver, if the router lets it pass. In each
-- step the engine shows the front of every queue to the scheduler, and the network manager releases
-- the message that is chosen by closing its channel. Faults change the router and the processes.
--
-- Prelude         shared: numbers, lists, outcomes of Go calls, maps, texts, what comes from outside
-- Config          cmd/dstest/config/config.go: the structures; Config.Paths: ModifyFilepath and Read
-- Network         cmd/dstest/network: Message (Message.go), Queue (messagequeue.go), Translator
--                 (MessageTranslator.go), Router (router.go), Interceptor (interceptor.go and the three
--                 kinds), Manager (manager.go, QueueMessage of router.go, the handlers' queueing), Handlers
--                 (the handlers side by side: each numbers its message, queues it, and waits
--                 for its release), Proxy (what the handlers pass on after the release, and to
--                 which node)
-- Scheduling      cmd/dstest/scheduling: Decision (scheduling.go), Requests (GetClientRequest of three
--                 files), Quota (the requests of the iterations), RandomScheduler, Pct (PCT.go),
--                 Replay (ReplayScheduler.go), Ql (QLScheduler.go, ql/DynamicMemTable.go, ql/MemTable.go,
--                 ql/agent.go; Ql.Adapting: Adapt; Ql.Hashing: StateHash), Strategy (the interface
--                 Scheduler, as the sum of the four)
-- Faults          cmd/dstest/faults
-- Process         cmd/dstest/process: worker.go and process.go; Process.Lifecycle: Init and Shutdown;
--                 Process.Clients: RunClient; Process.Closing: from Shutdown to the end of Run
-- Engine          cmd/dstest/engine/TestEngine.go: Init and a step of the loop; Engine.Runs: Run with its
--                 iterations and experiments. Engine.Rounds, Schedule, Faultless, Learning, Unfinished, Stuck,
--                 Idle, Starved, Silent, Arrivals, Sending, Busy, Progress, Backlog, Flow, Kept,
--                 Closing, Smooth, Finish, Complete, Experiments, Supported and Verdict prove
--                 theorems on them; from Kept to Supported they follow a run from Init to its end
-- Command         cmd/dstest/cmd/run.go
-- Examples        the theorems at concrete inputs
--
-- A method with a pointer receiver is a function from the state to an Outcome: it returns, panics,
-- ends the process (log.Fatalf), or is out of fuel. A method under a mutex is one step; goroutines
-- are steps in any order (Network.Handlers, Network.Manager.History, Process.Accounting). A pointer that is compared
-- is an address, and a channel is a number with a list of those that are closed. Messages are
-- numbered modulo 2^64.
--
-- What the goroutines of the interceptors and of the processes do while the engine runs is a list
-- of happenings (Engine.Happening), which come before a round of the step loop or between the
-- choice of the scheduler and its execution. The network manager's Run and the end of an iteration
-- come after the last of them.
--
-- Fuel: two loops have no bound. The draw loop of PCT.go has as fuel the number of draws for one
-- number, which is enough with a seed from which every number comes within so many draws, as far
-- as the draws get (Scheduling.Pct.Start). The loop over the steps has a list of rounds; as many as there are steps
-- left are enough while as many messages wait or each round brings one (Engine.Backlog,
-- Engine.Flow), and no number is enough while no message waits and no process ends (Engine.Idle).
-- Other loops are recursion on lists or on their count.
--
-- Parameters: the generator of math/rand with its documented bound, the hash of a list of messages,
-- floating-point numbers with their order and logarithm, what encoding/json makes of a message,
-- the hashes of fasthash, the frames that the http2 library reads, requests and
-- canonical names of net/http, filepath.Join, what viper reads, what a node answers, and the
-- answers of the operating system.
--
-- Not modelled: sockets (which are closed by a Shutdown, for instance) and the copying of bytes,
-- files and directories, sleeping and logging, Visualize and Print of the tables, and the flags of
-- the command line.
pub mod Prelude
pub mod Config
pub mod Network
pub mod Scheduling
pub mod Faults
pub mod Process
pub mod Engine
pub mod Command
pub mod Examples
