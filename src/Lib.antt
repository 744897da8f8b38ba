-- ===== src/Lib.antt =====
-- libmq: a client library for message queues, as a model with proofs.
--
-- A program opens a connection by a URI (connection.c), and reads, makes and settles messages
-- on it (message.c). Both files only call the engine that made the object, through the tables of
-- functions of libmq-engine.h. An engine gets known by its URI scheme: engine.c keeps a table of
-- engines under a lock, and `mq_create_` looks the scheme of a URI up in it. Two engines are in
-- the repository: queues/random.c, whose messages hold random numbers, and queues/qpid-proton.c,
-- which speaks AMQP by way of Qpid Proton.
--
-- The modules:
-- - `Base`, `Cmd`: lists, C strings, tests, decimal numerals, cells of memory, and commands on a
--   state, which have no result where the source would read through a dangling pointer.
-- - `Libc`, `World`: the allocator, errno, the clock and random() as explicit state, the read and
--   write lock, and the globals of engine.c.
-- - `Registry` (engine.c): `mq_register` is `register`, `mq_create_` is `create`, and so on, with
--   the loops in `Registry.Slots`. `Registry.Table` is the specification, a partial function from
--   schemes to constructor and handle; `Registry.Threads` has any number of threads in engine.c,
--   step by step; the other child modules hold the proofs.
-- - `Engine` (libmq.h, libmq-engine.h): the enumerations, the tables of functions, and the macros
--   for errors and the back-off timer.
-- - `Connection` (connection.c) and `Message` (message.c): one function for each public function.
-- - `Random` (queues/random.c): `mq_random_connect_recv_` is `Random.Connections.connect_recv`,
--   `mq_random_message_accept_` is `Random.Messages.accept`, and so on.
-- - `Proton` (queues/qpid-proton.c), named alike, over the functions of Qpid Proton as a record of
--   operations on a state of any type (`Proton.Library`).
-- - `Plugin` (plugin.c): `mq_plugin_init_` is `plugin_init`. Its path buffer is a list of bytes,
--   and a write outside it has no result; `Plugin.Loading` is the specification without a buffer.
-- - `Send` (mq-send.c): `main` on what getopt and fread return, with the loop over the options as
--   `parse` and the loop that reads the input as `read_input`, in which a write outside the buffer
--   has no result.
-- - `Recv` (mq-recv.c): `main`, whose endless loop `receive` runs for a number of rounds at most,
--   and in which a read outside of a body has no result.
-- - `Send.Delivery` and `Recv.Reception`: whole runs of the two programs with the Proton engine;
--   `Proton.Granting` and `Proton.Receiving` say what the library is asked to do in them.
-- - `Engine.Contract`: what a program may rely on in an engine, as a record of laws on the two
--   tables of functions, over which `Send.Total` and `Recv.Total` take the two programs, and
--   `Client` any program that uses one connection. `Random.Contract`, `Random.Lives`,
--   `Random.Sizes`, `Random.Clients`, `Proton.Contract`, `Proton.Makes`, `Proton.Sizes`,
--   `Proton.Tables` and `Proton.Clients` fill it for the two engines.
-- - `Startup`: engine.c, plugin.c and an engine together, at the first use of the library.
-- - `Examples`: the theorems at concrete inputs.
--
-- How code is rendered: a function on one connection or message takes a frame (the state of the C
-- library, of Proton where it is used, and the object) and returns the new one; `on_mq` and
-- `on_message` run it on the object at an address. The allocator answers by an arbitrary stream, so
-- that each allocation can fail, and counts the blocks in use; which block is which is not kept. A
-- function pointer is an address, and `Build.call` the code behind it. But for `Registry.Threads`
-- there is one thread, for which taking a lock that excludes its own is stuck for ever. Numbers are
-- natural numbers; `(size_t) -1` is 2^64 - 1, random() is below 2^31, and the theorems on
-- registration ask for fewer slots than `(size_t) -1`, which no array can reach. The loops are
-- structural recursions over the array; only the digits of a numeral are made on fuel, which is 20
-- of them, enough for 64 bits. The size of a block that the allocator has granted does not wrap.
--
-- Not modelled: threads outside of engine.c, and the order in which one thread's writes reach
-- another; the messages on stderr; the build files; libcluster and Qpid Proton, which are
-- parameters.
pub mod Base
pub mod Libc
pub mod Cmd
pub mod World
pub mod Registry
pub mod Engine
pub mod Client
pub mod Connection
pub mod Message
pub mod Random
pub mod Proton
pub mod Plugin
pub mod Send
pub mod Recv
pub mod Startup
pub mod Examples
