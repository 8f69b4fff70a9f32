-- ===== src/Lib.antt =====
-- A verification library for the control plane of PoC-webui-v2, the web interface of the firewall.
--
-- The program and its parts. A firewall configuration is a tree of named objects
-- (PoC-webui-v2/internal/model). The HTTP API (internal/api) judges each change of it, the Config
-- Manager (internal/configstore) keeps it in Git, the Validator (internal/validator) checks it, and
-- the Reconciler (internal/reconciler) compiles it and applies it to the drivers in one transaction,
-- with a fallback to the last commit that worked. Sessions (internal/auth) admit the administrator,
-- the Audit Log (internal/audit) chains what was done by hashes, and the Event Collector
-- (internal/events) keeps the last events of the data plane, whose verdicts a reference classifier
-- gives from the configuration.
--
-- Model.*: internal/model. Types and System hold the records of types.go and system.go with their
-- methods; Durations and Ports ParseDuration and PortRange of values.go; Objects the methods of List
-- (find, put, remove, names, sortByName); Tree and Edits the Tree with Put, Delete, Get, Each, Sort
-- and Sys; Lookups the lookups by name, ZoneOf, Side, ExpandAddresses and ExpandServices, over their
-- closure `walk` in Walk; Uuids AssignUUIDs. Objects.Laws and Sorting, Edits.Laws and Views,
-- Walk.Grows and Reaches, Lookups.Expansion and Zones, and Uuids.Stable hold the proofs. Pointers to
-- optional values are Options, maps with string keys association lists or functions. The walk takes
-- fuel, the number of groups and one, since each level of the recursion visits a group that was not
-- seen before. `decimal` takes a number's successor as fuel, which is more than its digits.
-- Model.Metadata: a configuration without its metadata, to say what the Compiler does not see.
-- Predefined: internal/predefined, over the shipped objects, which are a parameter.
-- Validator.*: internal/validator. Intervals holds `iv` and `ivs` of sets.go, its children the
-- proofs against the set of points, Sets `addrSet` and `svcSet`; Errors the record Error and the
-- filter Errors of validator.go. Checks is the receiver `v` as a monad: it reads the current object
-- and its file, and adds findings; Checks.Passing holds the rules for what is known where no error
-- was added. Names, Globals, Network, Entries, Groups and Dhcp hold the checks of validator.go,
-- RuleSets with its children Overlaps and Policies those of rulesets.go, Run ValidateWith, and Load
-- the documents of load.go; the other children are proofs, which Run.Verdicts puts together. JSON
-- Schema and the lines of a document are parameters, and so are the shipped objects. The search for
-- cycles takes fuel, the number of groups and one: each level of the recursion visits a group that
-- is still white. Maps are association lists, and a loop over a map whose order Go leaves open takes
-- the order of the list.
-- Configstore: store.go over a record of what Git and the file system do; a lock makes each
-- operation one step. Locking and Effects hold its proofs.
-- Api: `mutation` of config.go with its helpers, the change of `putUser`, and the guards and `fail`
-- of api.go; Api.Import is the closure of `importConfig`. Api.Saved hands the closure of `putObject`
-- and `deleteObject` to the Config Manager. An object that is none is deleted, so the flag `del` is
-- left out.
-- Audit: audit.go, a log file as a list of lines that parse or do not. Lines are shorter than the
-- 16 MiB of the scanner, and a file that exists can be opened. A write that fails is an argument. The
-- hash of an entry and the JSON round trip of its values are parameters.
-- Auth: auth.go. `login` is Login as one step, Auth.Race its critical sections as the steps of
-- several requests. bcrypt, the MAC and the codings of a token are parameters. Times are
-- nanoseconds.
-- Events.Collector: events.go. The token bucket is a float64: Events.Float64 holds the arithmetic that
-- the source uses of it, on multiples of 2 ^ -1074, with every operation rounded to the nearest, and
-- Float64.Near how far a result is above the exact one. A compiler that joins a product and a sum, as
-- Go may on other processors than amd64, rounds once less. Numbers and counters are 64 bits wide.
-- Events.Routes and Events.Classify: classify.go. A loop that returns from its middle gives an
-- Option.
-- Netip: what is used of Go's net/netip; its text forms are a record of functions.
-- Reconciler: reconciler.go. Transaction is `apply`, Loop `reconcile` and `boot`; what changes while
-- a round runs (the repository, the fault flags at each stage, the success of a write) is an
-- argument. Read, Validate and compile are parameters of the loop; Compile is compile.go, its hash a
-- parameter, Compile.Metadata the loop with that Compiler, and Compile.Unseen what it does not see.
-- In Loop, Rounds describes the ways in which a round ends, Again the round after, Invariant all
-- states that can be reached, Boot the fallback, Faults rounds while a fault is injected.
-- Prelude: shared names, Boolean tests on native numbers, lists, texts and decimals. Tests: runs and
-- the theorems at concrete inputs.
--
-- Not modelled: Open, History, Diff, Archive and File of the Config Manager, which run git and split
-- its output; the HTTP handlers around the changes and the guards; JSON Schema, the YAML form and
-- the walk over the Validator's files; the simulator and the observer, which make up traffic and
-- measurements; the table of defaults; and the prototypes under archive. Waiting goroutines,
-- channels that only wake them, and delays are left out.
pub mod Predefined
pub mod Prelude
pub mod Model
pub mod Validator
pub mod Audit
pub mod Auth
pub mod Configstore
pub mod Api
pub mod Events
pub mod Tests
pub mod Reconciler
pub mod Netip
