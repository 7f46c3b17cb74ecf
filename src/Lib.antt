-- ===== src/Lib.antt =====
-- A model of ModbusTCPLogger: the data path from the registers of Modbus devices to the samples in the
-- database, the commands that configure it, and the checks at its doors.
--
-- Parts, and how they interact. A node's reading loop (ReadMaster: reader/reader_loop/reading_loop,
-- read_master_struct.rs and read_master.rs in src/) chooses the device that is due, goes over the read
-- steps of its pool and sends one device event. The pool (Pool: src/reader/reader_loop/modbus_device)
-- groups the registers of a device's values into runs and hands each step the plugins that find their
-- registers in it. A plugin (Plugins: src/reader/reader_loop/decoding_plugins) turns the words of a
-- reply into a measure. The measures go to measure_master (Measures: src/db/hasher/hash_master.rs and
-- db_measure_unit.rs), which keeps a hasher for each value and a buffer of rows. A hasher (Hasher:
-- src/db/hasher/hash_unit.rs) is a ring of samples that drops repeats, holds failures back and answers
-- queries. The coordinator of the web sockets (Live: src/api/web_sockets, web_sock_coord.rs and
-- live_socket_unit.rs) hears the same events and tells the clients what changes. The messages between
-- them go through the controller and db_master (Router: src/data_master/data_master_loop.rs,
-- src/db/worker/db_master.rs and read_loop.rs). The commands on nodes, devices and values, which the
-- API sends, are carried out by the database workers (Store: src/db/worker, node_worker.rs,
-- device_worker.rs and value_worker.rs), which tell the readers of a change. Assign is the groups of a
-- user and the values of a subgroup (src/db/worker/assign_worker.rs). Auth is login, logout and
-- the layers before the routes (src/api/router/auth.rs and middlewares.rs), Licence the key that ties
-- the program to a disk (src/minimal_copy_safe/copy_check.rs).
--
-- How the code corresponds. A struct is a record with its fields' names, an enum a data type, a method
-- a function with its name from the state to the new state and the result. A panic is `none`, or
-- `panicked` in ReadMaster. Integers are natural numbers or Common.Int.ℤ with the wrap-around of a
-- release build written out; f64 is the interface Common.Float.Floats, and Common.Sample has whole
-- numbers for the tests. HashMap is an association list. In Store a table is a list of rows, an SQL
-- statement a function on the tables that the schema's foreign and unique keys may refuse, and a
-- worker a do block over actions: a statement works, fails, or hangs until the time-out drops the
-- worker; what a transaction has done is seen outside only after its commit. In Licence a text is the
-- list of its UTF-8 bytes.
--
-- Outside the program, and so parameters: serde_json (Plugins.Serde), the database (Measures.Outcome
-- for an attempt to write, `fetch` for a query), the clients' channels (`serializes` and `accepts` in
-- Live, the deliveries in Auth), the parser of addresses and the collation of the tables (Store.Sql.Env),
-- jsonwebtoken and uuid (Auth.Env), the disk, the key file and the console (Licence.Round), and the
-- network, the clock and the controller (ReadMaster.World, asked by the number of operations done so far).
--
-- Bounds. The binary search over the ring has one round more than slots, which Hasher.Search shows to
-- be enough. The tries of a step have one round more than `retry_count`, which ReadMaster.Retry shows
-- to be enough. PoolValueRefIterator::next moves on over at most four tables (Pool.Walk). The request
-- for devices, which the code repeats without a bound, is cut off after `patience` attempts.
--
-- create_new_node makes at most five requests, and five rounds are enough (Router.Tries).
--
-- Not modelled: two workers that change the tables at the same time, and a statement whose reply is
-- lost after the database has done it (Measures has that case for its own transaction); two requests
-- to Auth at the same time; the commands on users and groups; the handlers of the HTTP API that only
-- forward (src/api); the web sockets' connections; start-up and logging.
pub mod Common
pub mod Hasher
pub mod Live
pub mod Measures
pub mod Plugins
pub mod Pool
pub mod ReadMaster
pub mod Licence
pub mod Store
pub mod Assign
pub mod Auth
pub mod Router
