-- ===== src/Lib.antt =====
-- tcp-proxy accepts TCP clients, decides by a database, a white list and a counter of recent accesses
-- who may connect, connects each client to one of several servers, and relays the bytes in both
-- directions from one event loop.
--
-- Parts, files of this library, and sources:
--   Events, Events/*             the table of watched descriptors: `src/events.c`
--   Blacklist, Blacklist/*       counters of recent accesses of each address: `src/auto_blacklist.c`
--   Connections, Connections/*   the linked list of connections and the pool of free entries:
--                                `src/proxying.c`, `include/proxying.h`
--   Proxying, Proxying/*         the relay, the end of a connection, and the sweep of the idle ones:
--                                `src/proxying.c`
--   Proxying/Admission/*         the verdict on a client, the white list, the channels, and the new
--                                connection: `src/proxying.c`, `src/utils.c`
--   Analyzer, Analyzer/*         the plugin that sees the packets: `src/packet_analyzer.c`
--   HashMap, HashMap/*           the map from strings to values: `src/hash_map.c`
--   Logger, Logger/*             appenders, priorities and level names: `src/common_logger.c`
--   Commands, Commands/*         the operator's commands: `src/commands.c`
--   Utils, Utils/*               MAC addresses from text: `src/utils.c`
--   Context, Context/*           shared variables, error messages, and the registry of the components
--                                with its wiring: `src/context.c`
--   Cli, Cli/*                   the words of a command line, the tree of commands, and the buffer of
--                                the answers: `src/cmdlintf.c`
--   Sysconf, Sysconf/*           the table of settings and the calls of the parser: `src/sysconf.c`,
--                                `src/parser.y`
--   Database, Database/*         the connection to the database, its retries, the prepared statements
--                                and the operations on them: `src/db_service.c`
--   Mysql, Mysql/*               the parameters of a statement and the columns of a row:
--                                `src/db_mysql.c`
--   Prelude, Prelude/*           numbers, lists, tables and integers that the other parts share
--
-- How they interact: `accepting_request` asks the black list for the counter of an address, takes an
-- entry of the connections, and adds two events; the event loop hands a ready descriptor to a handler,
-- which is `do_proxying` for one of the two directions; the end of a connection takes the entry from
-- the list, removes both events, and gives the entry back to the pool. The state of `src/proxying.c` is
-- `Proxy`, of which `Memory` holds the links of the entries; `Front` adds the black list. The answers
-- of the database that `accepting_request` takes as arguments are those of the operations in Database,
-- which prepare a statement, bind parameters as Mysql does, and keep the names of the products in the
-- map of HashMap; the settings come from Sysconf. A line that Cli executes calls one of Commands.
--
-- Conventions: a function has the name of the C function. A C `int`, `long` or `ssize_t` is an integer
-- without a bound, save where its width matters (`to_int`, `to_uint32`, `size_sub`); counts that only
-- grow are numbers. A dereferenced NULL, an index out of an array and a division by zero are `none`. A key of a map with
-- a byte of 128 or more may have a negative hash and then no bucket, which is `none` too; the registry of
-- the components takes the map as a function of ASCII names.
-- The answers of the system (`epoll_ctl`, `epoll_wait`, `read`, `write`, `connect`, `malloc`, the clock)
-- and of the database are arguments; calls with an effect outside are a trace. A mutex makes what it
-- guards one step. The loop of `write` runs on fuel, with as many turns as there are bytes, which is
-- enough since each turn but the last takes a byte. `create_statement` has 60 attempts and
-- `safe_reconnect_to_database` 21, as the counters of the code allow; the loop of `wiring` has two rounds,
-- since after the first one its pointer stays at the end.
--
-- Not modelled: log messages, threads and mutexes as such, sockets, readline and its completion, the
-- lexer and the parser, the binding and reading of texts and times of a row, the appenders of the log,
-- removal from the hash map (which no part calls), the start of the proxy from its settings, signals and
-- their handlers, most failures of memory allocation, and the digital signatures.
pub mod Prelude
pub mod Events
pub mod Blacklist
pub mod Connections
pub mod Proxying
pub mod HashMap
pub mod Logger
pub mod Analyzer
pub mod Commands
pub mod Utils
pub mod Context
pub mod Cli
pub mod Sysconf
pub mod Database
pub mod Mysql
