-- ===== src/Lib.antt =====
-- A verification library for nginx-statshouse-module, which turns nginx requests into statistics
-- and sends them to a StatsHouse agent in UDP datagrams.
--
-- The program's parts, and the files that model them:
--
-- * A statistic (include/ngx_statshouse_stat.h, src/ngx_statshouse_stat.c): Stat.antt. The record
--   `Stat` has the fields of `ngx_statshouse_stat_t`; an array is the list of its slots beside the
--   count of those in use. Functions keep their names without the prefix `ngx_statshouse_`. Doubles
--   and 64-bit integers are their bits, and the arithmetic on doubles is a parameter.
-- * The TL serialiser (src/ngx_statshouse_tl.c): Tl.antt, one function for each of the file. The
--   buffer of nginx is Buf.antt: the bytes between `pos` and `last`, and the room up to `end`.
--   Tl/Encoding.antt says which bytes each function appends, Tl/Length.antt how many, Tl/Wire.antt is
--   a reader of the format that owes nothing to the writer, and Tl/RoundTrip.antt joins the two.
-- * The aggregate (src/ngx_statshouse_aggregate.c): Aggregate.antt, with the ring allocator in
--   Aggregate/Alloc.antt and the search tree in Aggregate/Index.antt. The memory of the ring maps an
--   address (the offset from `alloc.start`) to the statistic that lies there, the queue is the list of
--   addresses, and the tree holds addresses. Aggregate/Alloc/Layout.antt describes the live chunks of
--   the ring, Aggregate/Invariant.antt is the invariant of the whole, and the files below it are
--   about what the operations do to it.
-- * The server (src/ngx_statshouse.c up to `ngx_statshouse_send`, and
--   `ngx_statshouse_aggregate_handler`): Server.antt. Server/Refinement.antt relates the buffer and the
--   datagrams to lists of statistics, and Server/Buffering.antt follows a statistic into the buffer.
-- * The splitter of comma-separated strings (src/ngx_statshouse.c, `ngx_statshouse_stat_part`):
--   Split.antt, with pointers as offsets and a function for the bytes, since the code also looks
--   behind the end of the string. Split/Bounds.antt says what it cuts, Split/Crash.antt when it reads
--   through a `NULL`.
-- * The compilation of a configuration into statistics (src/ngx_statshouse.c,
--   `ngx_statshouse_stat_compile`): Compile.antt, with what it reads in Compile/Config.antt and its two
--   loops in Compile/Values.antt and Compile/Keys.antt. They run over the array of statistics from the
--   front; `crashed` is a read through `NULL` or a write past the end of the array. Compile/Rounds.antt, Compile/KeyRounds.antt and Compile/Bounds.antt are about the arrays that it
--   fills, Compile/NoCrash.antt and Compile/Total.antt about its crashes.
-- * What the two modules of nginx share: Text.antt (the bytes of a token, `ngx_strncmp`), Directive.antt (the
--   directives' outcomes, the draft of a metric, the configured server) and Running.antt (a server of a worker, the
--   tests of the phase and of the sample, and the loop that sends). Server/Delivery.antt and
--   Running/Delivery.antt say what a server has accepted, Running/Fresh.antt how it starts.
-- * The HTTP module (src/ngx_http_statshouse_module.c): Http/Conf.antt (its records), Http/Commands.antt (the
--   directives), Http/Slots.antt, Http/Metric.antt and Http/Target.antt (their functions), Http/Location.antt
--   (creation and merge), Http/Init.antt and Http/Start.antt (the end of the configuration) and Http/Send.antt
--   (the handler, and the functions of include/ngx_http_statshouse.h). A location points at its metrics and at
--   its server by numbers into the lists of the main configuration, since locations share them. A server there is
--   started or still unstarted, and one that is not set is the pointer -1, which the code reads through. The other files
--   below Http are about what these do.
-- * The stream module (src/ngx_stream_statshouse_module.c): the files below Stream, in the same way. Its metrics
--   are kept by value in arrays, which stand in a heap, since server blocks may share one. Stream/Twin.antt and
--   Stream/Loop.antt compare the two modules.
-- A block `statshouse_metric` is parsed by nginx, which calls the functions of the directives inside it: the
-- model takes the parser as a function from drafts to drafts, and `Step` (Http/Metric.antt) is what one directive may do.
--
-- How they interact: `send` hands a statistic to the aggregate, or, when the aggregate declines, to
-- the buffer; the aggregate calls back the server's handler, with a statistic that leaves the queue or
-- with `NULL` for a flush. In the model the aggregate takes the handler as a function and the server's
-- state as what is passed through it. A packet is made by the serialiser in the server's buffer.
--
-- Parameters. `Platform` (Aggregate.antt) is what nginx and the compiler give: the CRC-32, the size of
-- the struct, the balancing of the red-black tree, its deletion, and the addition of doubles.
-- `Lawful` (Aggregate/Laws.antt) is what the proofs need of it. `Fpu` (Stat.antt) is the arithmetic of
-- doubles. `Outside` (Compile/Config.antt) evaluates variables, reads numbers and says what
-- lies in memory behind a string. `Reply` (Server.antt) is what the operating system answers to one
-- attempt to flush.
-- `Core` (Directive.antt) is what nginx reads in the arguments of a directive, `Variables` (Http/Init.antt) are
-- the names of its variables, and `Outer` (Running.antt) is what a worker asks of the outside. The macros of nginx
-- for values that were not set are spelled out in Directive.antt, as `init_value` and `merge_value`.
--
-- Integers are natural numbers, `size_t` and `ngx_msec_t` with their wrap-around modulo 2 ^ 64. Every
-- loop runs over a list, but for those of the splitter: they move the pointer at each round, and get as
-- many rounds as there are bytes left. The loop of a flush runs once.
--
-- Not modelled: logging; the bytes inside a chunk of the ring (a statistic is a value at its address);
-- the build (config), and the module contexts of nginx, which only list the functions above. nginx's own parser
-- of the configuration, its variables, its script engine, its pool and its functions for addresses, sizes and
-- times are parameters.
pub mod Base
pub mod Buf
pub mod Stat
pub mod Nginx
pub mod Text
pub mod Directive
pub mod Running
pub mod Fixtures
pub mod Http
pub mod Stream
pub mod Tl
pub mod Split
pub mod Compile
pub mod Aggregate
pub mod Server
