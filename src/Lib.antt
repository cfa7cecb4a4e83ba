-- ===== src/Lib.antt =====
-- A model of the Python layer of 0xDSI-CET, which finds complete event trends: sequences of
-- telemetry events that match a query. A query is a text such as "login,exec+,(copy|upload)?" with
-- a window, field predicates, absence conditions and relations. The standing runtime keeps the
-- events of a stream in a temporal graph, evaluates the queries on the partition of each new or
-- removed event, and emits what became a match and what is no longer one. Beside it
-- stand the checks on event batches, the store of partial states and the replay of two runtimes.
--
-- The files, with the code that each models, of bindings/python where no folder is named:
--   Value             events and their dynamic values, `_field` and `_get_field`
--   Platform          what Python's run time gives: SHA-256, `re`, the text of containers, doubles
--   Dsl               dsl.py: Syntax (patterns and steps), Query (query records, what the native
--                     engine supports), Predicate (field predicates), Validate (absence,
--                     relations), Documents (the readers of query documents)
--   Document          Python's access to dictionaries read from JSON
--   AttackChain       attack_chain.py; its children give the forms of tokens, the split of a
--                     pattern, and the compiled document
--   Features, Risk    features.py and risk.py
--   Registry          query_registry.py
--   Contracts         event_contracts.py
--   State             state.py: partial trend states
--   Connectors        connectors/zerobus.py: the poll loops; Normalize of connectors/base.py, and
--                     Accepted, that the contract accepts what it gives
--   Adapters          adapters/sigma.py, and what its documents are read as
--   Counterfactual    counterfactual.py: the difference of two sets of trends
--   Standing.Match    `_match_query_paths` of standing/runtime.py; its children give the paths of
--                     the unlimited search, the limit, and what a match is
--   Standing.Graph    `TemporalGraphState` of standing/runtime.py, with the tables of
--                     security_graph.py; its children give the edges of an event, the operations,
--                     the invariant, and what each operation does to it
--   Standing.Runtime  `StandingTrendRuntime` of standing/runtime.py with the in-memory sink of
--                     standing/sinks.py; its children give the table of active trends, the stream
--                     of outputs, sequences of calls, and what a call leaves as it is
--   SecurityGraph     security_graph.py; its children give the builder, what adding an edge keeps,
--                     which events its edges join, and what a built graph satisfies
--   Bridge            bridge.py over a native library as an argument; its children give the calls,
--                     the dispatch between the two ways to run, overflow, and encoding
--   MultiQuery        multi_query_runtime.py over the graph builder and the bridge; its children
--                     give the order of the trends, the events of a path, and what the trends are
--   Batch             the functions on the rows of a Spark partition: Recompute of
--                     jobs/recompute_trends_prod.py, Detect of
--                     notebooks/0xDSI_CET_Databricks_prod.py; Order, Times and
--                     Earliest are about their events, Grouped and Rows about the first, Buckets
--                     and Groups about the second
--   KnowledgeGraph    temporal_kg.py, and when its entities are seen
--   Investigation     investigation.py, and the order of its timeline
--   Metrics           metrics.py, and how the counts of the queries make up that of all trends
--   Base              shared types: integers, texts, dictionaries, sorting, exceptions as values
--   Tests             concrete inputs
--
-- A method is a function from its object and arguments to a result and the new object. An
-- exception is a value of `Result`; where the code has mutated an object before it raises, the
-- new object is returned beside it. The clock is an argument. A Python set is a list
-- in which only membership counts, and a dictionary is a list of pairs in insertion order.
--
-- Bounds. The four contract fields of an event (event_id, event_time_ms, partition_key, event_type)
-- have their types, and its other values are JSON without floating-point numbers. Texts are lists of
-- code points; digits, blanks and lower case are those of ASCII. Doubles are known by their bits,
-- and the operations on them are arguments. All recursions are structural but that of the decimal
-- text of a number, whose fuel is the number itself plus one, more than it has digits.
--
-- Not modelled: the native engine in C, its loader and set_cost_coefficients, the transports of
-- connectors, the ECS and OCSF adapters, the timer of metrics, sinks on files and HTTP, and the
-- Spark queries around the batch functions.
pub mod Base
pub mod Value
pub mod Platform
pub mod Dsl
pub mod Standing
pub mod Features
pub mod Risk
pub mod Registry
pub mod State
pub mod Connectors
pub mod Counterfactual
pub mod AttackChain
pub mod Contracts
pub mod Document
pub mod SecurityGraph
pub mod Bridge
pub mod Adapters
pub mod Batch
pub mod MultiQuery
pub mod Investigation
pub mod KnowledgeGraph
pub mod Metrics
pub mod Tests
