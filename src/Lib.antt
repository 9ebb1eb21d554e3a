-- ===== src/Lib.antt =====
-- Verification of smartAC, the access controller agent of smartAC (C, directory src/).
--
-- The agent reads a configuration file, then runs two loops: a ping thread reports to an AC server
-- and executes the commands that come back, and the main loop takes the outputs of commands from a
-- queue and posts them. Both reach a server through the same connection code, which walks the list
-- of servers of the configuration and moves a server that fails to the end of it.
--
-- How the code ends: Outcome.antt. A definition returns `ok`, ends the process by `exits`, or is a
-- `fault` where C leaves the behaviour undefined (null pointers, freed objects, accesses outside an
-- object). Loops run on fuel, and running out is a fault too, so a theorem that excludes faults also
-- says that the fuel is enough. Fuel is the length of the input plus one for the loops over a file,
-- and the next free address plus one for the walks along lists, whose nodes have distinct addresses
-- below it.
-- Strings: a C string is the list of its bytes, a buffer a list that may hold NULs (Cstring.antt).
-- A pointer into a buffer is the rest of the buffer.
-- Lists: nodes with `next` pointers in a heap, with an address for each (Store.antt, Store/Linked).
--
-- A pointer that was never set, and memory from `malloc`, may hold anything: what they hold is a
-- parameter.
--
-- Which file models what:
--   Queue.antt, Queue/: src/smartac_resultqueue.c, each function under its name. Allocation takes
--     the next address and fails, by `exit (1)`, when the memory's room is used up.
--   Config.antt: src/smartac_config.h, and of src/smartac_config.c the defaults, the override and
--     the validation. Config/Servers: the AC server list, `mark_ac_server_bad`, and the append at the
--     end of `parse_ac_server`. Config/Keywords: `config_parse_token`. Config/Line: the pointer walks
--     over a line. Config/Popular: `parse_popular_servers`. Config/Block: `parse_ac_server`.
--     Config/Read: `config_read`.
--   Pstr.antt: the growing string of src/smartac_util.c. Fresh memory has any contents.
--   Http/Get: `http_get` of src/smartac_http.c over a list of socket events. Http/Connect:
--     `_connect_ac_server`; DNS, sockets and whether there is memory are the record of Http/Network,
--     which may answer anything.
--   Clients.antt: of src/smartac_json_util.c and .h the structs of clients and traffic, the searches,
--     the frees and `get_traffic_to_client`, over two heaps. Clients/Fields: the splitting of a line
--     with `strsep` into `seg`. Clients/Files: `init_client_list` and `init_traffic_list`, which split
--     at most 16 fields, so 17 rounds are enough. Clients/Json: the JSON text of the client list, the
--     device file and wifidog's status; Clients/Json/Report: `build_ping_json_data` and
--     `update_ac_information`. Files and commands of the host are the record `Host`.
--   Remote.antt: src/smartac_remotecmd.c, `excute_open` of src/smartac_do_command.c with the shell as
--     a parameter, and the request of src/smartac_post_result.c. Remote/Trace: sequences of the calls
--     that the ping thread and the main loop make on the queue.
--   Ping.antt: `ping` of src/smartac_ping.c and `thread_post_result`, composed of the parts above.
--     Ping/Collected: the heaps of the lists before and after the collection of the data.
--   CommandLine.antt: `parse_commandline` of src/smartac_commandline.c; CommandLine/Getopt is the C
--     library's `getopt` for the option string used.
--   Safe.antt: src/smartac_safe.c, with the results of `malloc`, `vasprintf` and `fork` as arguments.
--   Interfaces.antt: of src/smartac_util.c the queries of interfaces and `execute`, and
--     `init_excute_outdir` of src/smartac_do_command.c, with the answers of the system calls as
--     arguments; Interfaces/Route: `get_ext_iface`, on fuel for the tries, which the code does not
--     limit: here `none` says that it still tries.
--   Main.antt: `smartac_main` and `main_loop` of src/smartac.c; Main/Signals: the handlers.
--     Main/System: the loops and the posting threads as a step relation, one call after another.
--   UpdateList.antt: the program src/smartac_wdctl_update_list.c, with the results of `fork` and
--     `execv` as arguments. Debug.antt: `_debug` of src/smartac_debug.c.
--   Tests: runs of the definitions, and the theorems at concrete inputs.
--
-- How the parts meet: the start reads the command line, the configuration and the addresses of the
-- interface and sets up the queue, the signals and the ping thread (Main). `ping` collects the data
-- (Clients), sends it (Http), and executes the command that the answer carries (Remote), whose
-- output goes into the queue (Queue); the main loop takes it out and starts `thread_post_result`.
-- Calls on the queue and on the connection run under a mutex and are one step each.
--
-- Not modelled: the calls of `debug` in the other parts, which change none of their state, but for
-- the one with a missing argument in `_connect_ac_server` (a null pointer that a message prints by
-- `%s`, as the one for a missing IP address does, is taken to print `(null)`); the contents of the
-- command's id, which are only logged, while the bound of its array is checked whichever order its
-- increments take;
-- the timed waits between the rounds of the loops; the wait for a
-- restarting parent, whose number nothing sets; `get_version` and `excute_write`, which nothing
-- calls; the removal of the output's file in `excute_close`; and the shell scripts. A `sprintf`
-- into an array, and every other write, is checked against the size of the array.
pub mod Base
pub mod Outcome
pub mod Store
pub mod Cstring
pub mod Queue
pub mod Config
pub mod Pstr
pub mod Http
pub mod Clients
pub mod Remote
pub mod Ping
pub mod Safe
pub mod CommandLine
pub mod Interfaces
pub mod Main
pub mod UpdateList
pub mod Debug
mod Tests
