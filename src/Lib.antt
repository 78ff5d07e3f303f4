-- ===== src/Lib.antt =====
-- PrismPath, a control plane for workflows written in Markdown: a flow is a graph of nodes with
-- instructions, whose edges carry conditions. A deterministic engine walks through the graph; agents
-- (language models, people, programs) only do the work at a node. A telemetry adapter carries the
-- decisions of an edge device over a narrow link.
--
-- The parts, and the files that model them:
--
-- Base           Lists, texts (lists of code points), Python's integers and dictionaries, which are
--                lists of pairs in the order of insertion.
-- Predicates     prismpath/predicates.py: the conditions on edges. Value has the values that a
--                predicate computes with and their comparisons, Syntax the sandboxed trees, Eval the
--                evaluator _ev, and Condition the four tiers with check_predicate and eval_condition.
--                The parser of Python's expressions (ast.parse) is a parameter ast_parse; nothing is
--                assumed of it. The theorems are in Total, Kinds, Compare, Fold and Limits.
-- Graph          prismpath/parser.py: the records Node and Graph that the engine reads, and in Parse the loop
--                of parse over the lines of the body. What the regular expressions match in a line is a
--                parameter, the record Patterns.
-- Contract       prismpath/contract.py: Spec is FieldSpec, Derive is derive_contract over the trees of a
--                node's predicates, and Gate is validate_output.
-- Engine         prismpath/engine.py: State is what a run keeps (its dictionary state, the steps and the
--                path), Turn is the body of the loop, branch by branch, and Run is the loop with its
--                start. The agent, the router, the comparison of scores and str() are the fields of the
--                record Env. The theorems are in Walk and Trace, in Window, in TypeGate and in Ungated.
-- Analysis       prismpath/analysis.py: Fragment has the verdicts on single conditions, Reach the searches
--                over the graph, Components Tarjan's algorithm, Routes the checks of a node's edges, Cycles
--                those of components and of dead or repeated conditions, Fields those of annotations,
--                Analyze the whole of analyze, and Compose the checks across flows and portability. The
--                message of a Finding is what it quotes. Child flows are opened by a parameter.
-- Checkpoint     prismpath/checkpoint.py: Checkpoint has the snapshot, its tests and record_decision, Resume
--                the four ways back into a run, and Durable the atomic write and run_durable. The theorems
--                are in Walks and Decided, and in Durable/Atomic and Durable/Saves. Files are a dictionary
--                of texts; what hashes and parses the flow's file is the record Site.
-- Telemetry      adapters/telemetry. Zeckendorf is the Fibonacci codec (zeckendorf.py); Merkle the tree
--                of prismpath/ledger_ots.py that it uses; SelfHeal the blocks, their proofs and the
--                retransmission (selfheal.py); Epochs the chained epochs and what is retained of them
--                (epochs.py); AckChannel the authenticated acknowledgements (ackchannel.py). The hash
--                functions are the fields of the record Hashes, of which only the comparison of digests
--                is assumed to be equality; the tags of acknowledgements are parameters. Transport joins
--                the codec and the retransmission. Quantizer has the partitions of a field's values by the
--                constants it is compared with (quantizer.py), with theorems in Reading over Decisions, Gathered,
--                Fields and Cells, and in Signs; Packed has the bytes on the wire (packed.py).
-- ModelCheck     prismpath/model_check.py: the Level M fragment, the desugaring of chained comparisons and
--                the report on a flow's edges. The theorems are in Chains and Fragment, over Deeper.
-- Examples       Runs at concrete inputs.
--
-- How they interact: the engine asks Predicates for the deterministic tier and for the clauses of error
-- edges, and Contract for what it holds against a worker's output. AckChannel applies an accepted message
-- to a store of Epochs, whose epochs commit to blocks as SelfHeal does, whose proofs are paths of Merkle.
--
-- State is passed along. An exception is a value: none in the predicates and in the codec, an Outcome that
-- carries the message in the engine. Text, numbers and containers are unbounded as Python's are. Floating
-- point numbers are no values of the model: a score is of any type, with a comparison.
--
-- A checkpoint is made from what the engine hands to on_step, and a resume enters the engine again.
-- The analysis reads the conditions with the parts of Predicates, and its theorems are about runs of the
-- engine.
--
-- Loops. The engine's loop recurses on the number of turns that are left, which is the code's own bound
-- max_steps. On fuel are: the Fibonacci basis (n rounds, since the last term grows in each), the layers of
-- a Merkle tree (a round for each leaf, since a layer is at most half of the one below and one more half),
-- the blocks of a stream (a round for each bit) and the cap on epochs (a round for each epoch, since each
-- takes the data of one); _reachable (a round for each edge and one more, since an edge is
-- pushed when its node is entered, once), _upstream_nodes (a round for each node and one more, since a node is
-- pushed when it is first seen) and Tarjan's strong (as deep as there are nodes, since each call gives a node
-- its index).
--
-- Not modelled: the search of the model check, the front matter of a document, the router's embeddings, the queue of suspended runs,
-- the guards, the ledgers in Git, cryptographic agility, orchestration and the command line;
-- the ports to Rust and Go; scripts that measure. Printing and the observer on_decision are left out of
-- the engine, and the call to OpenTimestamps calendars out of the epochs.
pub mod Base
pub mod Predicates
pub mod Graph
pub mod Contract
pub mod Engine
mod Examples
pub mod Telemetry
pub mod Analysis
pub mod Checkpoint
pub mod ModelCheck
