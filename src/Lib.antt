-- ===== src/Lib.antt =====
-- A verification library for the plugins of pkg in this repository, and the C library kissc that they
-- stand on.
--
-- The program. kissc/ holds the containers (a double linked list, a hash table, iterators over both)
-- and helpers on texts and numbers; shared/ joins paths and arguments. The plugins use them:
-- plugins/services orders the rc.d scripts, selects the services to stop or restart after an upgrade
-- and runs `service` for them; plugins/zfs_integration takes ZFS snapshots before pkg acts and purges
-- them by a configured retention; plugins/history records what pkg did, through the wrapper of sqlite3
-- in sqlite/. The other plugins (integrity, verbose) call pkg and print.
--
-- The files and the code they model. A C function `f` is the definition `f`; its loops are
-- definitions of their own.
--   Base              shared names and helpers; `size_t` counts modulo 2 ^ 64
--   Iterator          kissc/iterator.c: a record of callbacks, and the functions over it. `Traverses`
--                     in Iterator/Traverses is the interface: the keys and the values that an iterator
--                     goes through. Array and Arrays are the iterators over arrays, Folds and
--                     Reductions the maximum, the reduction and the sum
--   Dlist             kissc/dlist.c, with iterator_reject of kissc/iterator.c in Dlist/Iterator: the
--                     elements stand in a heap (Dlist/Memory), reading a freed one is a fault;
--                     Dlist/Linked says what a well linked list is, Append, Prepend, Remove, Loops and
--                     Positions are about the functions of these names, Collection about the list as
--                     an iterator; Sort is dlist_sort, Bubbles its pass on the data, Sorted and Rounds
--                     the pass and the rounds in the heap, Sorting the whole
--   HashTable         kissc/hashtable.c, kissc/nearest_power.h: nodes at addresses, the global chain
--                     and the buckets; Chains has the invariant and Index its bound, Insertion, Reading,
--                     Deletion, Uniqueness and Lifecycle are about put, get, delete, keys and init or
--                     clear; Links has the four link fields in memory for deletion and for the global
--                     chain, Relinked, Linked and Deleted are about them;
--                     Whole has the functions on whole tables, Copied, Copy and Union are about the
--                     copy and the union, Iterator about the table as an iterator
--   Services/RcOrder  plugins/services/rcorder.c, and keep_script, visit_script_bis and
--                     services_db_rcorder_iter of services_db.c: Keep on the options, Visit on the walk,
--                     Covered and Order on the order of the calls; Relations and Roots are the relations
--                     between the scripts in services_db.c; the options use the hash table
--   Services/Monitor  plugins/services/process_monitor.c: the kernel is a list of events;
--                     Once on how often a child is reported, Reported on which data
--   Services/Selection
--                     plugins/services/services_selection.c and services_result.c, which use the
--                     monitor: Blocked on blocked services, Entries on adding
--   Services/Db       plugins/services/services_db.c: the parser of the magic comments and the tables of
--                     scripts, names and keywords; Packages the owners of the scripts and their
--                     libraries, Scan the directories. Parsing is about the tokens, Tables about what a
--                     script declares, Owned and Scanned about scripts and packages; Entries and
--                     Retrieved hold lookups after a change. The scan ends in the relations of RcOrder
--   Services/Hooks    handle_hooks of plugins/services/plugin_services.c, which joins the database, the
--                     selection and the monitor: Chosen on blocked services, Selects on the others
--   Zint/Retention    plugins/zfs_integration/retention.c and snapshot.c: Period on the parser, Filter
--                     on what is kept
--   Zint/Purge        purge_snapshots, find_backup_method and the names of the hooks of
--                     plugins/zfs_integration/plugin_zfs_integration.c, over the list and the retention;
--                     Purged is about them
--   Zint/Raw          plugins/zfs_integration/raw_zfs_method.c: the choice and the snapshots, with
--                     uzfs_snapshot and uzfs_same_pool of zfs.c; Pools is about them
--   Sqlite            sqlite/sqlite.c: the statements, the migrations, the opening; Binds the values that
--                     go to a statement and come from a row, Typed about their types; Prepared and
--                     Opened are about the first and the third
--   History           plugins/history/plugin_history.c: the hook and the queries; Options the options of
--                     the command, Asked about them; Recorded is about the hook, Queries about the types
--                     of the queries
--   History/Date      the functions of plugins/history/date.re, which date_scanner.gen.c in that folder
--                     holds: Guess on years, months and days, Calendar on valid dates
--   Text              kissc/stpcpy_sp.c, shared/path_join.c, argv_join of shared/argv.c: Copy on the first;
--                     Case is kissc/ascii_case.c with the hash functions of texts of
--                     kissc/hashtable.c, Caseless is about it
--   ParseNum          the parsers of kissc/parsenum.c, Signed those of signed numbers: Scan, Digits and
--                     Signed/Number on digits
-- The modules named Examples and Runs hold tests, and the theorems at concrete inputs.
--
-- Conventions. What malloc returns is an argument `fresh`, an address that is not in use; where NULL
-- can be returned, it is the address 0. realloc succeeds. A fault (a NULL or freed pointer that is read, an index out of bounds of a hash table) is `none` or
-- the failure of a command. Destructors and callbacks are recorded, in order. Calls of the C library,
-- of pkg and of the kernel are arguments, with the documented behaviour that a theorem needs as a
-- hypothesis.
--
-- Fuel. The loops of the list, of the iterators and of the texts take fuel, and their theorems give
-- as much as there are elements, or one or two more. The walk over the scripts takes as much fuel
-- as scripts are not visited yet. Other loops are structural: on the nodes of a chain, the events,
-- the bytes of a text. The loop over the tokens of a line takes as much fuel as bytes, and one
-- more: each round takes a byte at least, or ends it. nearest_power counts 63 steps down, for the
-- powers from 2 to 2 ^ 63, the greatest of a `size_t`.
--
-- Not modelled: the collectables; the stored links of the buckets where a node is inserted or the
-- table grows, which are chains of addresses there; iterator_filter, which repeats iterator_reject; the list of the
-- raw method, and the boot environments; the automaton of dates, which re2c generates, and the
-- parsing of the time after a date; the rows that sqlite3 answers; what the commands print; the
-- rest of what calls libzfs, libbe, sqlite3 and pkg, and the plugins that consist of it; the clock
-- of process_monitor_await, whose limit is the end of the events.
pub mod Base
pub mod Dlist
pub mod HashTable
pub mod History
pub mod Iterator
pub mod ParseNum
pub mod Services
pub mod Sqlite
pub mod Text
pub mod Zint
