-- ===== src/Lib.antt =====
-- The git sync extension: a server extension that commits the changes of an Obsidian vault to git and
-- pushes them, in batches.
--
-- The parts, and how they interact. `main` (src/obsidian_git_sync/main.py, Entry) checks the settings
-- (config.py, Config), loads the operator's extensions (extension_hosting.py, Hosting) and hands all to
-- the server. The server calls the extension (extension.py, Extension): it attaches two listeners and
-- starts a timer, which put events into a queue (events.py, Events), and makes the worker. The worker
-- (worker.py) takes the events one by one: it stamps notes (stamping.py, Stamping), stages and commits
-- (Worker), and when the queue is quiet or a push is overdue it fetches, rebases and pushes (Push); Loop
-- holds its loop, its end and its construction. Commands go through GitOps (git_ops.py, GitOps), which
-- has git ask credential_helper.py (CredentialHelper) for the token. A successful push pings a URL
-- (heartbeat.py, Heartbeat). Lock files are reported when a command fails, and stale ones are removed at
-- the start (locks.py, Locks).
--
-- The threads: the server's and the watcher's calls of the listeners, the timer, the worker and the
-- shutdown share the queue. System has them as a step relation: a step is what one thread does between
-- two dealings with the others, so a run is any interleaving of them. A round of the worker on an event
-- is one step, since until `join` has returned in `stop` nobody else touches the worker. Where the join
-- runs out of time (git's limit and five seconds) while the thread waits in `get`, the flush runs beside
-- the thread, which may go on afterwards. A round that raised would end the thread.
--
-- How code corresponds to definitions. A function or method has the definition of its name, its class's
-- module aside; where one is long, its halves have names of their own (`stage_phase` and `commit_phase`
-- of `_stage_and_commit`, `integrate` and `send` of `_push_once`, the `check_` functions of
-- `validate_gitsync`). A record holds an object's attributes (GitOps, Worker, Extension); Settings holds
-- the variables of the environment. Code that may raise is a function from a state to `Run`: a value or
-- an exception, and in both cases the state as it is then (Common.Effect); `try` is `catch`,
-- `on_timeout` or `on_os_error`.
--
-- The tree. A file A.antt at the root has the definitions of one part; the files under A/ have the lemmas
-- and theorems about it, each named for its subject. Common passes on the library's names and holds the
-- rules by which programs are reasoned about: Rules for what a program keeps, Costs for what it costs at
-- most, Ends for what holds where it returns and where it raises, Steps for what chained code does once
-- its first part is known. Tests has the theorems at concrete inputs, in the world of Tests/World.
--
-- The outside. Host has the record Env: git, the clocks, the file system, processes, the network,
-- ruamel.yaml, and the functions of Python's library that no file here defines (urlsplit, float,
-- strptime). Each answer is a function of the trace, the list of all that was done before, the newest
-- first; so one Env is one behaviour, and an answer may change from call to call. History reads from a
-- trace which git commands ran, what each was and how it ended, from its arguments and its reply alone.
-- Importer (Hosting) is Python's import system in the same manner.
--
-- Text is a list of code points (Text), with `strip`, `split`, `partition` and the like as in Python;
-- `lower` is exact for the words that the program compares with. Numeral has the integers, `int(s)` with
-- Unicode's digits, and floats by what the program asks of them. Time is counted in ticks of 2^-1074
-- seconds, of which each finite double is a multiple; a file's mtime is not before 1970. Paths are POSIX
-- (FilePath), with a root `//` read as `/`.
-- Differences of times are exact, where Python rounds them to a double: the age of a lock, and the time
-- since the last push, are off by at most that rounding. Questions whether a path is a file or a
-- directory are answered yes or no; the PermissionError that Python raises for a path in a directory
-- that may not be searched is left out.
--
-- Bounds and fuel. `drain` runs on fuel one above the queue's length, which suffices since each round
-- takes an event. The worker's loop is a recursion on the list of the queue's answers (`Poll`), of any
-- length: a stop ends that list.
--
-- Not modelled: a flush of `stop` that overlaps a round, where the join runs out of time while the
-- thread works on an event: the two would share the worker between any two git commands; the opener of
-- heartbeat.py, which urllib builds from the handler of redirects; the log's levels and formats; the
-- sidecar, the images, the tests and the documents of the repository, which hold no code of the package.
pub mod Common
pub mod Text
pub mod Numeral
pub mod FilePath
pub mod Host
pub mod History
pub mod GitOps
pub mod Locks
pub mod Heartbeat
pub mod Stamping
pub mod Events
pub mod Config
pub mod CredentialHelper
pub mod Worker
pub mod Push
pub mod Loop
pub mod Hosting
pub mod Extension
pub mod System
pub mod Entry
pub mod Tests
