-- ===== src/Lib.antt =====
-- llingr-adapter-franz: the adapter between the nexus consumer engine and franz-go's Kafka client.
--
-- The program. The engine's polling goroutine calls Poll; a fetch goroutine is the only caller of the
-- client's PollRecords and AllowRebalance and hands records to Poll over a channel; the client calls
-- OnAssigned, OnRevoked and OnLost when the group rebalances, and the bandwidth hooks when it reads.
-- Assigns are queued and processed by Poll, revokes are handed to the engine inside the callback.
-- Fetch errors are counted per partition; one that lasts stops the consumer, which releases the
-- client.
--
-- The files. A Go struct is a record, a method that changes it a function that returns the new one,
-- and what it does to the engine, the client and the logger a list of effects in order (Effects).
--   Prelude    names, signed integers, equality tests, Go strings as bytes, Go maps
--   Foreign    the fields that the adapter reads of franz-go's records and fetches, and errors
--   Decimal    strconv.Itoa
--   Options    franzadapter/adapter_options.go
--   Rebalance  franzadapter/rebalance.go; mapCommittedOffsets and newOffsetFetcher (Fetcher) of
--              franzadapter/adapter.go
--   Poll       Poll of franzadapter/broker_port.go
--   PollErrors handlePollErrors and errIdentity of franzadapter/broker_port.go
--   Fetch      fetchNext and bail of franzadapter/broker_port.go
--   Procedure  effects that may end in a panic
--   Lifecycle  Subscribe, Unsubscribe and releaseBroker of franzadapter/broker_port.go
--   Bandwidth  franzadapter/bandwidth.go; WithBandwidthInterval of franzadapter/adapter.go (Port)
--   Validate   franzadapter/validate/client.go
--   ClientLog  franzadapter/client_logger.go
--   Balancers  franzadapter/compatibility.go
--   Creation   the constructors, initClient, SetClient and CreateConsumer of franzadapter/adapter.go
--   Envelope   ExtractEnvelope of franzadapter/broker_port.go
--   Commit     CommitOffsets of franzadapter/broker_port.go
--   Gate       runFetchLoop of franzadapter/broker_port.go against Poll, as interleaved steps
--   Session    the subscribed adapter: the fetch loop with fetchNext, the steps of Gate, and the calls of
--              releaseBroker one by one; it implements Gate
--   Wired      CreateConsumer of franzadapter/adapter.go together with Lifecycle, Fetch and Session:
--              the adapter that it leaves, from its creation to the close of its client
--   Answers    AckRebalance, BrokerQuery and ConsumerGroup of franzadapter/broker_port.go
--   Tests      runs of the definitions and an instance of each result
-- The proofs about a part stand in the modules below its own, named for what they prove.
--
-- Parameters. The answers of the engine (TriggerRebalance, Build), of the broker (the committed
-- offsets, LeaveGroup, the commit, the ping) and of the client (what PollRecords returns, what OptValue
-- reports) are arguments, so that a result holds for all of them; so are the balancers' own parsing,
-- what an option of the caller does, how `%v` prints a value, and the random bytes of an identifier.
-- Of franz-go these documented facts are used: EachError visits nothing if Err() is nil (a hypothesis),
-- a poll that returned a record stays registered until AllowRebalance and no rebalance callback starts
-- while a poll is registered (the condition CanRebalance), and the client applies its options in order,
-- of which the required ones set what they name and leave each other alone (KeepsRequired). Of the
-- engine: it dispatches a record before it calls Poll again (a condition of the step that calls Poll).
--
-- Bounds. Partitions, offsets and durations are unbounded integers, since the code only compares and
-- prints them; the difference of two instants is cut to the range of a Duration, as `Sub` does. The
-- byte counters wrap at 2^64. The ranges of Go's types of partitions and offsets stand in
-- Rebalance/Types.
-- Go maps are association lists in any order; results that need it assume that no key is listed
-- twice. Two orders of iteration over one map are two listings of it (Prelude/Listings).
-- Fuel has the printing of a number, which the number itself bounds, and the loop over the key-value
-- pairs of a log line, which their count bounds. Go's other loops are recursions on their lists.
--
-- A nil logger is modelled where the code tests for it or where it can meet one: Lifecycle, Commit,
-- Creation. Fetch, PollErrors and Rebalance are the code of an adapter that has a logger, and
-- Wired joins Fetch to an adapter only when it has one.
--
-- Not modelled: the panic of a nil logger in the fetch loop and in the rebalance callbacks, kadm's
-- request for committed offsets (a parameter), the context of an envelope and of a log line, which
-- is only passed on, how often the ticker of the telemetry fires, and how long the bounded waits
-- take: a wait ends by its event or by its timeout, as the environment chooses.
pub mod Prelude
pub mod Foreign
pub mod Decimal
pub mod Effects
pub mod Options
pub mod Rebalance
pub mod Poll
pub mod PollErrors
pub mod Fetch
pub mod Procedure
pub mod Lifecycle
pub mod Bandwidth
pub mod Validate
pub mod Wired
pub mod ClientLog
pub mod Balancers
pub mod Creation
pub mod Commit
pub mod Answers
pub mod Envelope
pub mod Gate
pub mod Session
mod Tests
