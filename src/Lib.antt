-- ===== src/Lib.antt =====
-- Duro, a ledger of events in PostgreSQL with a content-addressed store beside it.
--
-- An event is checked before it is sent (pkg/event), appended in one transaction of PostgreSQL
-- (pkg/postgres), and may refer to an artifact by its digest, whose bytes a directory keeps
-- (pkg/cas); a put of an artifact writes to both (pkg/artifact). This library models the packages
-- as functions that pass a state on, and proves what they promise of each other and of what they
-- keep.
--
-- Base: bytes, results, and `Action`, a function of the state that ends with a value or an error;
-- the state stays as far as the action came, which is what an early return of Go leaves.
-- Go: what the code uses of Go's library, as its documentation and the language say: UTF-8
-- decoding (Go/Utf8), white space (Go/Space), replacing (Go/Text), the JSON syntax with decoding
-- into a map (Go/Json), the encoding of texts and numbers (Go/Json/Encode) and of raw messages
-- (Go/Json/Compact), package flag for flags that are texts (Go/Flag), and the text of a time
-- (Go/Time).
-- Event: `New` and `Validate` (Event/Types), `ValidID` (Event/Id), of pkg/event/event.go.
-- Os: a file system as a function from paths to nodes, the calls of package os on it, and readers
-- and writers. Each call draws an answer from a list in the state, by which it runs, fails, or
-- transfers only a part, so that a theorem about all states is about all failures. A path is the
-- list of its names, the last one first. A handle is the path it was opened by.
-- Paths are resolved through links at the last name; the calls of `Open` resolve them everywhere
-- (Os/Resolve), and the root that it returns has no link in it. A store whose own directories are
-- links further down, as a shard of `sha256` that is a link, fails with an error here.
-- Cas: pkg/cas/cas.go. Cas/Identity has the digests and their texts, Cas/Types the store, its
-- errors and `Path`, Cas/Open `Open`, Cas/Copy `hashingCopy`, Cas/Sync the syncs, Cas/Read `Has`, `get`, `Verify`,
-- `GetToWriter` and `GetToFile`, Cas/Write `stageTemp`, `publish`, `Write` and `WriteFile`.
-- SHA-256 is a parameter, a function into texts of 32 bytes; nothing is said about collisions.
-- Postgres: pkg/postgres/store.go. Postgres/Types has the events and errors, Postgres/Server the
-- calls that database/sql and pgx answer, a parameter over an unknown state, Postgres/Ledger
-- `Open`, `Append` and `Get`, Postgres/Initialize `Initialize`, Postgres/Authority `eligibilityQuery`
-- as a function of what it reads of the system catalogs, Postgres/Provision the grants,
-- and Postgres/Schema the CHECK constraints on event_type of pkg/postgres/schema.sql. What a
-- theorem needs of the server is a record of laws, each a documented behaviour of a transaction.
-- Artifact: pkg/artifact/artifact.go. `Put` stores a file and then appends its observation, so
-- its state is a pair of a file system and a ledger; `filepath.Abs` and `os.Hostname` are a
-- parameter.
-- Cmd: cmd/duro/main.go. Cmd has the state of the process, which is the two stores with the standard
-- output in the file system, and the notices on the standard error; Cmd/UsageText the usage texts,
-- Cmd/Output the JSON lines, Cmd/Init, Cmd/Events and Cmd/Artifacts the commands, each with what it
-- tells of what it did, and Cmd/Run `run` and `main`.
-- Tests: concrete instances of the parameters, on which the definitions run.
--
-- All loops are structural: `hashingCopy` recurs on the list of reads, `syncChain` on the path.
-- Following symbolic links is bounded by 40, as the kernel bounds it. Counts are natural numbers;
-- the guard of `hashingCopy` against the largest int64 is written out. `run` calls itself for `help` in
-- front of a command; its fuel is one more than the number of words. `EvalSymlinks` follows at most
-- 255 links, which is its own bound.
--
-- A time is its reading in its location; what reads it is its text alone. An error of the ledger is
-- one of pkg/postgres, its only implementation, and its text is a parameter.
--
-- Not modelled: the texts of the other catalog queries, the constraints on the content and refs columns,
-- and the bytes of error messages, which are values here.
pub mod Artifact
pub mod Base
pub mod Cas
pub mod Cmd
pub mod Event
pub mod Go
pub mod Os
pub mod Postgres
pub mod Tests
