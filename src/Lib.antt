-- ===== src/Lib.antt =====
-- Janosh keeps a JSON document in a Kyoto Tycoon database: every value, array and object is one
-- record, whose key is made of its path. This library models the core of the program.
--
-- The parts, and how they interact:
--   Component  src/component.cpp: one part of a path, with its key form and its pretty form. An
--              index "#3" has the key "$" and 64 binary digits, so that keys sort as indices do.
--   Path       src/path.cpp: `tokenize`, `rebuild`, `update`, and the paths derived from a path. A
--              method that changes its object returns the changed path.
--   Value      src/value.cpp: a typed value, its size, and its text in the database.
--              `Value.Stored` has the part of src/record.cpp that makes a value of such a text.
--   Tracker    src/tracker.cpp, with `publish` of src/message_queue.cpp: counts per operation and
--              key, and the messages that are published.
--   Remote     the server and its cursors, which are not part of the program: the calls that the
--              program makes (`RemoteDb`) and what Kyoto Tycoon documents of them while it answers
--              (`IsMap`). `World` is the server, the tracker of the thread, and the messages sent.
--   Record     src/record.cpp: a record is a cursor, a path and a value. A method
--              (`Record.Methods`) takes the record and the world, and returns both beside its
--              result; a cursor is a number, so copies of a record share it as they do in the
--              program. `Connections` is the map from threads to their connections.
--   Database   src/janosh.cpp: the operations of the class `Janosh`. Single values, containers and
--              `append` of values stand in Database itself, `load` and `patch` in `Load`, `append`
--              and `copy` of records in `Moving`, `remove` and `makeTemp` in `Removal`, `replace`,
--              `move` and `shift` of records in `Shifts`, `dump` and `hash` in `Dumps`.
--   Json       what the JSON reader returns, which is not part of the program.
--   Commands   src/commands.cpp: what each command makes of its parameters; `Names` is the map of
--              their names.
--   Print      `escape_json` of src/path.cpp and `escape` of src/jsoncons.cpp, the visitors src/json.cpp, src/bash.cpp and
--              src/raw.cpp, the walks of src/janosh.cpp that call them, and the commands `get` and
--              `random`. `JsonPath` is the visitor src/jsoncons.cpp, over what it calls of the
--              library jsoncons (`Jsoncons`), and `Filter` has the operations and commands that
--              use it. `Dispatch` is `DatabaseThread::run` of src/database_thread.cpp, over all
--              commands.
--   Wire       src/tcp_worker.cpp and src/tcp_client.cpp: the turns of a worker over the texts
--              that it gets, with what it calls as the record `Service`, and how the client reads
--              the reply. `Server` is the loop of src/tcp_server.cpp with the threads that it
--              starts, `Request` and `Arguments` are about the values that arguments become, and
--              `Subscriptions` and `Subscription` are the readers of published messages in
--              src/lua_script.cpp.
--   Main       `main` of src/janosh.cpp: what it does for its options, with the macros of Lua
--              scripts (`Macros`) and the file of src/settings.cpp (`Settings`).
--   Lua        src/lua_script.cpp: the queue of threads that open a transaction, with its callbacks
--              given by what they return or throw, and the named locks.
--   Logger     src/logger.cpp: the names of threads in the log.
--   Sync       src/semaphore.cpp and src/queue.hpp: a monitor is a record with the threads that
--              sleep and those that were woken, its methods are functions on it, and a step is one
--              method.
--   Websocket  src/websocket.cpp: `Auth` is the class `Authenticator`, `Passwd` the file of
--              passwords, `Server` the callbacks and calls, `Steps` the threads. `Handles`,
--              `Answers`, `Replies` and `Delivery` are about the handles of connections, `Limit`
--              and `Progress` about the limit of received messages, `Access` about logging in,
--              `Sessions` and `Logout` about sessions over all steps.
--
-- Common, Result, Exec and Decimal carry the shared names, the errors (one constructor for each
-- class of src/exception.hpp and for each exception of the libraries that the code lets through),
-- the methods that keep their state beside an error, and a decimal `lexical_cast` for the tests.
--
-- Machine integers: a `size_t` is a native number below 2 ^ 64, and every sum is taken modulo
-- 2^64. The index of `load` and `patch` is an `int`: a 32-bit word, and adding one to the largest
-- of them is undefined behaviour. Where the program's behaviour is undefined, the model throws
-- `undefined_behaviour`, which is no exception of the program. `size_t` of a text and back is the
-- parameter `LexicalCast`. A text is a list of byte codes. Loops over texts, components, values and JSON documents are structural, and `next` counts
-- down the size of its record. The walks that end where the server's cursor does (`previous`,
-- `nextMember`, `dump`, `hash`, `random`, `recurseDirectory`), `getParents`, and the recursion
-- into directories (`append`, `copy`, `remove` and what calls them) are given a number of steps or
-- levels, and throw `out_of_fuel`, which is no exception of the program, when it is used up. For
-- `getParents` one more than the number of components is shown to be enough. The results on
-- commands hold for any number, and for `remove` of a single value one level is enough; the
-- results on the walks of `get` and `filter` hold for any number of steps; no other result is
-- about a bounded walk.
--
-- A record that is "freshly opened" is one that `RecordPool::get` has made of a path's key string:
-- it has a cursor, the path, no value, and does not exist until it is fetched (`opened`). A path
-- "is read back from its key string" if it fits its components and each of these is read back from
-- its key (`IsPlain`); the paths of the results on records are moreover no wildcards and not
-- empty, and the root has the key string that `init` jumps to (`IsSingle`). All keys "are key
-- strings of paths" if `update` reads each of them as a path with that key string (`IsReadable`).
--
-- The steps of the web socket server's threads are counted, since a handle is a `size_t` that is
-- drawn by adding one. An exception that leaves one of its callbacks ends the process, and there
-- is no step after it. Its maps are functions, so that a map that `[]` has read is the map with
-- one more entry.
--
-- Not modelled: sockets, the archive of Boost, the reading of options by Boost, the starting of
-- threads and signal handling, the bindings to Lua, logging (`JANOSH_TRACE` and the `LOG_` calls),
-- and what was copied from other projects. Of uWS there is what was sent, and of Crypto++ the
-- record `Crypto`. What a command has printed before it throws is lost. An exception of the calls
-- for transactions ends a worker, and is left out.
pub mod Common
pub mod Result
pub mod Component
pub mod Path
pub mod Value
pub mod Decimal
pub mod Tracker
pub mod Exec
pub mod Remote
pub mod Record
pub mod Json
pub mod Commands
pub mod Database
pub mod Print
pub mod Wire
pub mod Main
pub mod Lua
pub mod Logger
pub mod Sync
pub mod Websocket
pub mod Tests
