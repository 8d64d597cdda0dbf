-- ===== src/Lib.antt =====
-- ShellCN gateway (Go): models of the parts that decide who holds what, and proofs about them.
--
-- A gateway instance serves connections of many protocols. A request is authorized
-- (internal/policy), a session to the upstream is claimed, opened, shared and swept
-- (internal/session), and what several instances must agree on, the live leases, stands in a store
-- (internal/store) behind a registry (internal/livelease) that sessions, agents and tickets use.
--
-- The module Prelude has numbers, Boolean tests, integers, lists, and Go's maps as association
-- lists. The order of an association list is the order of Go's `range`, which the theorems leave
-- open.
-- The module Store models internal/store/memory.go: `memLiveStateLeaseStore` in Leases, and the
-- tables of grants, invitations, enrollments and the audit trail in the modules of these names, with
-- what they share in Scan. There is one function for each method, which takes the table and returns
-- the new one with the result. Instants are numbers. The mutex makes each method one step, and runs
-- of steps stand for any interleaving of callers.
-- The module Session models internal/session/manager.go and handle.go. Entries live in a heap, so
-- that a handle and the table may share one. Each stretch of code under a mutex is one function, a
-- critical section; whole calls (`acquire`, `open_channel`, `visit`) compose sections, with what
-- the plugin and the lease registry answer as arguments and what is done to them as a log of
-- effects. The log is written in the section that decides on an effect; the code performs it after
-- unlocking. `Session.Preservation` lets the sections of any calls interleave.
-- The module Live models internal/livelease/store_registry.go and ownership.go over Store: the
-- registry through which sessions, agents and tickets claim. JSON, trimming and the random lease
-- ids are parameters; finding the addresses of an instance is not modelled.
-- The module Auth models internal/auth/session.go and ticket.go. The JWT package is a parameter, a
-- record of signing and parsing for one key; the clock's readings and random tokens are arguments.
-- A ticket is redeemed through Live, on the store that all instances share.
-- The module Policy models internal/policy/policy.go, with the roles of internal/models/user.go
-- and the risk levels of sdk/plugin/route.go. Casbin is a parameter: a record of its operations
-- and of what the matcher of `rbacModel` means for them.
-- The module Service models parts of internal/service/connections.go over the tables of
-- internal/store/memory.go that they use: the sidebar's folders, the layout that a user
-- saves, and in Order the order and the nesting of the folders, with the search for cycles in Cycle; and of
-- internal/service/enrollment.go, the joining of agents in Enrollment, and the names and quoted words
-- of their commands in Slug.
-- The module Plugin models the schemas of sdk/plugin/schema.go with the conditions, projections and
-- the validation of sdk/plugin/context.go. Values of type `any` are a data type over the type of
-- float64, and printing, trimming, parsing and regular expressions are a record, `Library`.
-- The module Sql models the quoting, the splitting and the keywords of SQL and the redacting of rows in
-- plugins/shared/sqldb/sqldb.go, and the guards before a query in plugins/postgresql/routes.go.
-- The module Ai models internal/ai/budget/budget.go and internal/ai/modelreg/match.go. Texts are
-- lists of bytes; `int` is an integer whose overflow is not modelled. Its part Memory models
-- internal/ai/memory/memory.go over the tables of conversations and messages.
--
-- The loops recur on lists, but for three, which run on fuel: the search of `hasFolderCycle`, with the
-- number of folders and two, which is enough since each step marks another folder; the digits of
-- `itoa`, with the number itself, which is enough since each round divides by ten; and the comments
-- before a first keyword, with the length of the text and one, which is enough since each round drops
-- a line. Numbers of nanoseconds and of tokens do not overflow in the models; the order of a new
-- folder, which clients can drive up, wraps around as an int of 64 bits does. Not modelled: the SQL
-- store, the HTTP and gRPC layers, the rest of the plugins of the protocols, the web client, and the
-- goroutines that only call what is modelled here.
pub mod Prelude
pub mod Store
pub mod Live
pub mod Session
pub mod Auth
pub mod Policy
pub mod Service
pub mod Ai
pub mod Plugin
pub mod Sql
