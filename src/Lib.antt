-- ===== src/Lib.antt =====
-- Kusion turns a spec, a list of resources with dependencies, into infrastructure. The engine
-- (pkg/engine) validates a request, reads the recorded state, starts a runtime for each type of
-- resource, builds a graph of the resources to apply and to delete, and walks it: each node reads
-- the live resource, compares it with the planned and the recorded one, and creates, updates,
-- deletes or imports it, after which the whole state is saved. A preview walks the same graph and
-- records what would change. This library models that engine and what it rests on.
--
-- What the files model, by the paths of the repository:
--   Base and its modules: Go's tests, texts (package strings) and maps with text keys; a range over a
--     map takes any order of its keys (Visits in Base/GoMap)
--   Status, Control: pkg/status/status.go; results, panics and state (pkg/util/check_utils.go)
--   Value, Models: values of YAML; pkg/engine/models
--   Change: pkg/engine/operation/models/{change,action,operation_type}.go, and the counters of
--     pkg/cmd/apply/options.go
--   Refs: the references in attributes, of pkg/engine/operation/graph/resource_node.go
--   States, States/Local: pkg/engine/states/state.go and states/local/filesystem_state.go
--   States/Bucket, States/Web, States/Database: pkg/engine/states/remote/{oss,s3,http,db}, over a bucket,
--     a server and a table
--   States/Configured: the Configure methods of the backends in pkg/engine/states
--   Runtime, Runtimes: pkg/engine/runtime/runtime.go and runtime/init/init.go
--   Kubernetes and its modules: pkg/engine/runtime/kubernetes, over a cluster (Cluster)
--   Terraform and its modules: pkg/engine/runtime/terraform, over files and programs (Machine)
--   Operation: pkg/engine/operation/models/operation_context.go
--   Projects: pkg/projectstack, over a tree of directories (Tree)
--   Commands and its modules: pkg/cmd/{apply,destroy,preview}/options.go, over the search, the backend
--     and the operations above and a terminal that is a list of answers
--   Node: pkg/engine/operation/graph/resource_node.go, the execution of a node
--   Walk: the callbacks of the walk in pkg/engine/operation/{apply,destory,preview}.go
--   Graph, Parser, Parser/Removal: pkg/engine/operation/graph/node.go and operation/parser
--   Operations: Apply, Destroy and Preview of pkg/engine/operation/{apply,destory,preview}.go
--   Diff: pkg/engine/operation/diff.go
--   Backend: pkg/engine/backend/backend.go
--   Deps: pkg/cmd/deps/options.go
--   Vals: pkg/vals; JsonUtil: pkg/util/json/json.go; Table: pkg/engine/printers/table.go
--   Examples: the theorems at a small project
--
-- How the code corresponds: a struct is a record, a nil pointer or map is none, and a function has
-- the name that it has in Go, in small letters. A function that may return a status or panic has an
-- Outcome; one that changes state returns the state too, also when it fails, so that what was
-- changed before an error stays changed (Exec). The runtimes, the storage and the files are a world
-- that is passed on. Pointers that two maps share are written in both (write_through in Node).
--
-- Bounds: one loop runs on fuel, the descent from a watched object to its dependents (follow in
-- Kubernetes/Watching), for which three rounds are proved to be enough; every other loop is a
-- recursion on the list or value that the code ranges over. Natural numbers are unbounded but for the
-- serial number of a state, which wraps at 64 bits. The walk of the graph is modelled as one node
-- after another; the interleaving of two nodes that run at once is not modelled.
--
-- Parameters are what is not in these files: the graph library and its walker (interfaces with laws,
-- Dag and IsDag, IsReducing, OnlyCalls), the Kubernetes client with its patches (Cluster, SurvivesQueries,
-- IsTyped), files and programs (Machine, SurvivesLocal), YAML (IsFaithful, which JSON is not), a bucket
-- (IsKept), a server (Serves), a database, a tree of directories (IsWalked), the copier, reports of
-- differences, the evaluation of secrets, backends, and KCL. What the engine relies on in a runtime
-- (IsHonest, SurvivesDryRun) is proved for both runtimes (Runtimes/Supported).
--
-- Not modelled: the goroutines and the terminal of the watch operation, printing and the other
-- commands; the compiler of specs; the templates; and the libraries copied under third_party.
pub mod Base
pub mod Status
pub mod Control
pub mod Value
pub mod Models
pub mod Change
pub mod Refs
pub mod States
pub mod Runtime
pub mod Operation
pub mod Node
pub mod Walk
pub mod Graph
pub mod Parser
pub mod Projects
pub mod Runtimes
pub mod Operations
pub mod Diff
pub mod JsonUtil
pub mod Vals
pub mod Table
pub mod Backend
pub mod Examples
pub mod Cluster
pub mod Machine
pub mod Terraform
pub mod Kubernetes
pub mod Deps
pub mod Commands
