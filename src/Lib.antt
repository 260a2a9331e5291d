-- ===== src/Lib.antt =====
-- Verification library of evilresp, a proxy between a Redis client and its server that answers with
-- deliberately damaged replies. The proxy reads a command from the client (resp.rs), forwards it,
-- reads the reply of the upstream, lets the tracker of MULTI and EXEC see it (transaction.rs),
-- perhaps mutates it (mutation.rs, exec_mutation.rs), plans how it is delivered
-- (transport.rs, connection_fault.rs) and writes it to the client while it fingerprints what it
-- wrote. All draws come from a generator that is seeded by the configured seed and by hashes of the
-- command and the reply (evil.rs, rng_for).
--
-- The parts and their files, with paths from the root of the repository:
--
-- * src/resp.rs. Resp/Frame is the type Frame, with `Frames` and `Pairs` for its vectors. Resp/Encode
--   is Frame::encode and encode_with_length. Resp/Result and Resp/Parse are parse_frame and the
--   methods of Parser: a parser maps the bytes from its position on to a value and the bytes that are
--   left. Resp/Reader is read_raw_frame: the stream is the bytes still to come and the raw bytes read
--   so far, `pending` is the stack of counts of children. Resp/Wire, Resp/Lines, Resp/Words and
--   Resp/Canonical describe encodings without the parser; Resp/RoundTrip and the files below
--   Resp/Reader hold the theorems.
-- * src/connection_fault.rs. Transport/Fault: FaultConfig with its setters, and FaultConfig::plan.
-- * src/transport.rs. Transport/Config is TransportConfig::updated, Transport/Plan is
--   TransportConfig::plan with the methods of DeliveryPlan, Transport/Deliver is write_counted and
--   deliver. Transport/Valid is about accepted options, Transport/Covers and Transport/Planned about
--   the chunks of a plan, Transport/Sent, Transport/Settled and Transport/Delivered about delivery.
-- * src/transaction.rs. Transaction is TransactionCommands::observe, Transaction/Queue its theorems.
-- * src/exec_mutation.rs. Exec is ExecConfig::parse and mutate_reply, Exec/Report its theorem, with the
--   lemmas of Exec/Positions; Evil
--   holds the reports of mutations that src/evil.rs declares, Resp/Same the equality of frames.
-- * src/mutation.rs. Mutation is eligible, eligible_weight, select_weight and mutate_selected, with
--   the mutation of the frame itself as a parameter; Mutation/Config is EvilConfig, Mutation/Single
--   is mutate_one, Mutation/Many is mutate_frame, Mutation/Whole is mutate. Mutation/Edited
--   says that one frame at a path is replaced. The theorems stand in Mutation/Selected,
--   Mutation/Changed, Mutation/Reported and Mutation/Answers.
-- * src/framing.rs. Framing/Config is FramingConfig::parse and Target, Framing/Visit is visit as the
--   list of its calls, Framing/Select is select_header, Framing/Corrupt is corrupt_length and
--   Framing/Mutate is mutate_length. Framing/Ahead says, without the encoder's indices, which bytes
--   stand ahead of the n-th frame. Framing/Indices, Framing/Splice, Framing/Own and Framing/Spliced
--   are about the bytes of a replaced header, Framing/Chosen, Framing/Differs and Framing/Faulty about
--   mutate_length.
-- * src/generator.rs. Generator/Config is GeneratorConfig::updated, Generator/Scalars and
--   Generator/Drawn are the drawn scalars and mutate_scalar, Generator/Kinds and Generator/Frames the
--   drawn frames. The theorems stand in Generator/Different, Generator/Bounds and Generator/Distinct.
-- * src/evil.rs. Evil/Canonical is canonicalize_reply, Evil/Replies is mutate_command_reply and
--   random_reply; Evil/Sorted, Evil/Idempotent, Evil/Shuffled and Evil/Replied hold the theorems.
-- * src/cluster.rs. Cluster is the parsing of CLUSTER SLOTS with TcpEndpoint of src/cli.rs,
--   Cluster/Allocate is map_cluster_slots, Cluster/Redirect is ClusterRedirectionMap,
--   Cluster/Answer is local_slots_response. Cluster/Step, Cluster/Ports and Cluster/Registered are
--   about the listeners that are allocated, Cluster/Local about the redirection map, Cluster/Seen
--   about the reply.
-- * src/evil.rs and src/mutation.rs. Random: rng_for, parse_probability and should_apply.
--
-- Base holds the shared names, byte strings, decimal numerals, UTF-8, signed integers and the stable
-- sort of the standard library.
--
-- What is not in the repository is a parameter. Random.Random stands for the crates sha2, rand and
-- rand_chacha and for 64-bit floats; only the documented ranges of its draws are assumed.
-- Transport.Deliver.Socket stands for AsyncWrite, with the contract that a write takes a prefix of
-- its buffer and that an error takes nothing; Transport.Deliver.Fingerprint stands for a hash that is
-- fed piece by piece. Samples holds an instance of each. The argument
-- `lossy` of Cluster stands for String::from_utf8_lossy; only that it keeps UTF-8 text is assumed.
--
-- Bounds and fuel. The limits of 64 MiB and of 128 levels are those of the source. The parser recurses
-- on the levels that are left, so it needs no fuel. The loop of the reader is given twice as many
-- rounds as there are bytes to come and three more: a round pops a level, or takes a byte and pushes
-- one level at most. A delivery runs for a number of answers of the socket; fewer leave it pending,
-- as an unfinished future is. A generated frame has a number of levels that may follow below it, and
-- the search for an item that is not yet in a set tries two integers more than there are items.
-- Numbers are checked against the width of 64 bits where the source parses them; sums of lengths are
-- those of vectors in memory and are not wrapped.
--
-- Not modelled: the messages of refusals (a refusal is `none`, apart from the parser, whose errors
-- are told apart), status lines, logs, TLS, tasks and timeouts. The filters of commands, the commands
-- DEBUG EVIL other than the options of a component, the discovery of a cluster, the
-- rewriting of its replies, its faults, and the dispatch in proxy.rs are outside of this library.
pub mod Base
pub mod Cluster
pub mod Random
pub mod Resp
pub mod Transport
pub mod Transaction
pub mod Evil
pub mod Exec
pub mod Mutation
pub mod Framing
pub mod Generator
pub mod Samples
