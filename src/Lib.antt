-- ===== src/Lib.antt =====
-- Verification of oracle-automate, an agent runtime beside Oracle Fusion Cloud ERP.
--
-- An MCP server (crates/mcp-core, crates/mcp-server) exposes tools to agents. The tools reach the ERP
-- through a client (crates/oracle-automate-erp) that is decorated with a metadata cache, retries and a
-- circuit breaker, and write through one orchestration that commits only what it has verified. Beside
-- it stand the memory of the agents (crates/oracle-automate-memory), the monitoring jobs
-- (crates/oracle-automate-scheduler), the politeness of the crawler (crates/oracle-automate-ingest),
-- the audit log (crates/oracle-automate-observability), the knowledge base (crates/oracle-automate-kb)
-- and the knowledge graph (crates/oracle-automate-graph). A client of the protocol (crates/mcp-client) talks to servers over
-- stdio (crates/mcp-transport).
--
-- Files and code:
--   Text, Text/Codes: what the source uses of Rust's texts. A text is a String, or the list of its
--     code points where the source looks inside.
--   Json: `serde_json::Value`.
--   Scheduler/Cadence: `Schedule::next_in`; Scheduler/Firing: `Scheduler::fire_once` and `fire_all_now`
--     (crates/oracle-automate-scheduler/src/lib.rs).
--   Erp/Error, Erp/Retry, Erp/Circuit: `ErpError`, `retry_with_backoff`, `CircuitBreaker`
--     (crates/oracle-automate-erp/src/error.rs and retry.rs).
--   Erp/Message, Erp/Transaction: `parse_erp_messages` and `execute_write_bapi`
--     (crates/oracle-automate-erp/src/erp_result.rs and transaction.rs).
--   Erp/Metadata, Erp/Cache: the metadata types and `MetadataCache`
--     (crates/oracle-automate-erp/src/client.rs and metadata_cache.rs).
--   Memory/Entry, Memory/Working, Memory/Episodic, Memory/Manager: the types of those names
--     (crates/oracle-automate-memory/src/lib.rs).
--   Ingest/RateLimit, Ingest/Robots, Ingest/Chunker: `RateLimiter`, `RobotsTxt` and `split_text`
--     (crates/oracle-automate-ingest/src/rate_limit.rs, robots.rs and chunker.rs).
--   Mcp/Error, Mcp/Jsonrpc, Mcp/Protocol: crates/mcp-core/src/error.rs, jsonrpc.rs and protocol.rs.
--   Mcp/Registry, Mcp/Methods, Mcp/Server, Mcp/Handling: the descriptors, the methods with their bodies,
--     `ServerBuilder` and `ServerContext`, and `Server::handle_method`, `dispatch` and `run_single_actor`
--     (crates/mcp-server/src/registry.rs and server.rs).
--   Mcp/Elicit: `ElicitationHandle` (crates/mcp-server/src/elicit.rs).
--   Mcp/Client: `Client::spawn_with_halves` and `Client::call` (crates/mcp-client/src/lib.rs).
--   Mcp/Stdio: `StdioReader` and `StdioWriter` (crates/mcp-transport/src/stdio.rs) with
--     `Message::from_json` (crates/mcp-core/src/jsonrpc.rs).
--   Erp/Mock, Erp/Mock/Clause, Erp/Mock/Table: `MockErpClient::call_operation`, `parse_conditions` with
--     `sql_like`, and `MockErpClient::read_table` (crates/oracle-automate-erp/src/client.rs).
--   Kb/Schema, Kb/Store: the documents and `InMemoryKb` (crates/oracle-automate-kb/src/schema.rs and
--     store.rs).
--   Kb/Headings, Kb/Tree, Kb/Assemble, Kb/DocTree: `detect_headings`, `DocTreeNode`, the loop of
--     `build_document_tree` with its stack of raw pointers, and the whole function
--     (crates/oracle-automate-kb/src/doc_tree.rs). A pointer to a node is the node's address.
--   Graph/Entity, Graph/Store: the entities and `InMemoryGraph`
--     (crates/oracle-automate-graph/src/entity.rs and store.rs).
--   Observability/Audit: `AuditLog::record` and `redact`
--     (crates/oracle-automate-observability/src/audit.rs).
--   Tools/Answer, Tools/RestCall, Tools/Publish, Tools/Customer, Tools/Order: the answers and the audit of
--     the tools, and the handlers of `tool_rfc_call`, `workflow_release_transport`,
--     `workflow_maintain_customer_master` and `workflow_create_purchase_order`
--     (apps/oracle-automate-server/src/tools.rs).
-- A file in the folder of a component holds what is proved of it, and Tests its runs and examples.
--
-- State is passed explicitly: an operation takes the state and returns it. What an operation calls
-- outside of the modelled code (a client, a tool's handler, a job's executor) is a function on a world
-- `W` and returns the next world. A `HashMap` is an association list (Prelude/Map); where the source
-- walks a map, the model walks the list, and what is proved holds for every order of it. Instants,
-- durations and the clock are natural numbers of one unit, handed in by the caller. Machine words keep
-- their wrap-around where the source lets them wrap (`% 2 ^ 64`).
--
-- Bounds and fuel: most loops of the source are structural recursion here. The retry loop has one unit
-- of fuel for each attempt; the attempts of its policy, and one, are enough. `decimal` has one unit of
-- fuel for each digit. The loops of the chunker have one for each byte that is left, which is enough
-- since each round goes forward by a byte at least.
--
-- Not modelled: HTTP, files, environment and tasks; the reading and writing that serde derives, which
-- are parameters (`Outside`, `to_value`, `from_value`); floats (the hit ratio, a crawl delay, which is
-- a parameter) and what is ranked by them (the searches of the knowledge base and of the operations);
-- what other tasks do between the locks of one call, except in the breaker, the elicitation handle and
-- the MCP client, where the steps of a call are separate and interleave; the walks and the
-- ranking on the graph, retrieval, metrics, skills, the ADT client, the applications but for these tools.
mod Prelude
pub mod Text
pub mod Json
pub mod Kb
pub mod Graph
pub mod Scheduler
pub mod Erp
pub mod Memory
pub mod Ingest
pub mod Mcp
pub mod Observability
pub mod Tools
