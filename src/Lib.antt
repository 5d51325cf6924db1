-- ===== src/Lib.antt =====
-- Verification of SwiftWave, a platform that runs applications on a Docker swarm.
--
-- The parts, and the files that model them:
--
-- Core (swiftwave_service/core) keeps the records of the platform in a database and guards every
--   change of them. Core/Database is what gorm offers a table, as a parameter, with what the
--   database documents of it as laws that speak of how many rows pass a test, so that the order of
--   rows does not matter. Core/Models has the records of models.go and the constants of types.go.
--   Core/IngressRules is ingress_rule.operations.go, Core/RedirectRules is
--   redirect_rule.oprations.go and Core/Domains is domain.operations.go; a method keeps its name
--   (Create is create), and a pointer receiver is an argument. Core/Routing is about the three
--   together: Invariant says what the rules in the database keep to, Accepted, Creation,
--   RedirectCreation and Redirection what the checks of the operations find out, Changes that the
--   other operations add nothing, Protection that basic authentication adds no rule, References
--   that rules refer to domains that are there, Unanswered what is left of the checks when queries
--   fail, and Histories puts the operations in sequence. Core/Deployments is the part of
--   deployment.operations.go that decides what is built again and where from. Core/Queries is a
--   chain of database calls that ends at the first error, as `if tx.Error != nil { return tx.Error
--   }` does. Core/Reconcile is what Update does three times, to bring the rows of a table in line
--   with a map: Wanted is what that means, Steps, Rows and Settled follow the rows one at a time,
--   Exact puts them together, and Same and Quiet are about runs that write nothing.
--   Core/Applications is application.operations.go with application_group.operations.go: Models has
--   the records, Store the database and the calls of it as a parameter, Creation is
--   IsExistApplicationName and Create, Updates is Update, Lifecycle the other methods and the
--   groups. gorm's Update of a column through a model that has preloaded rows is a call of its own,
--   update_full: it saves these rows too and brings back those that are gone. Its proofs are Frames
--   (what a part leaves alone), Silence, Wanted, Rows and Exact about Update, Naming and Unique
--   about Create, Groups, Deletion and Sleeping; Memory and Examples are for the examples.
--   Core/Memory is a database in memory for the examples.
-- Core/ConsoleTokens (swiftwave_service/core/console_token.operations.go) makes the tokens that
-- open a console and finds them; Once is about their use.
-- PubSub/Local (pubsub/local_pubsub.go) is the publish/subscribe client inside the process, by
--   which the parts hand each other logs and events. Its state is a record, and a method is a
--   function from the state to a result and a state, a panic, or a call that never returns.
-- ContainerManager (container_manager) sends Docker what a deployment asks for: Client is the
-- Docker client, a parameter; Updates is the part of service.go that changes a running service;
-- Realtime its queries of where tasks run; DockerProxy is docker_proxy.go with its types.
-- TaskQueue (task_queue) hands the work of the API to the background workers: Inspect is inspect.go
--   with the tests of utils.go, Persist is local_task_queue_persist.go, and Local is
--   local_task_queue.go, with a consumer's turn as a step. The JSON of arguments, the hash and the
--   database are parameters. A channel has the capacity that it was made with, a send on a full one
--   waits, and make panics at a negative capacity.
-- GitManager/Parser (git_manager/parser.go) reads and prints the URLs of repositories.
-- SshToolkit/Pool (ssh_toolkit/pool.go) keeps the connections to the servers. Calls of it run at
-- the same time: each is at a Place, step is its next step under one lock, and Reach what some
-- calls reach in any order. Owners says who holds the locks, Bound counts steps, Progress puts both
-- together.
-- StackParser (swiftwave_service/stack_parser/utils.go) reads stack files: Variables is
-- variableFillerHelper with its fillers, Filling and Cycles are about when its loops end; Versions
-- is the check of the minimum version, and Order is about which versions it accepts.
-- Common has the helpers that they share: tests, lists, texts, maps, results and runs.
--
-- A Go error is a value of Error, and a pair of a value and an error is a Result. A text is a list
-- of code points. A uint is a natural number, an int that the code allows below zero is a ℤ; the
-- force counter of a service is a uint64 and wraps around. The retry loop of Updates counts its
-- retries down as the code does. The loops of variableFillerHelper run on fuel, of which one round
-- more than the text has opening braces is enough. The other loops are structural. A range over a
-- Go map, whose order Go leaves open, walks the list that stands for the map.
--
-- Not modelled: interleavings of concurrent calls outside SshToolkit/Pool (elsewhere an operation
-- runs to its end before the next begins), the times that gorm keeps, pauses between retries, logs,
-- and the parts that only pass requests on to Docker, HAProxy, Redis, SSH or HTTP. Volumes, the
-- fields of stack files and the background workers have no model yet.
pub mod Common
pub mod ContainerManager
pub mod Core
pub mod GitManager
pub mod PubSub
pub mod SshToolkit
pub mod StackParser
pub mod TaskQueue
