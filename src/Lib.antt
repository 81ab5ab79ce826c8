-- ===== src/Lib.antt =====
-- Verification of ubervisor, a daemon that starts groups of processes, restarts what ends, and
-- takes commands from clients over a local socket.
--
-- The parts of the program and the files that model them:
--
--   uvhash.c             Uvhash. The two hash tables, by number and by string. The string table
--                        stores the address of a key, so its operations take the memory, a
--                        function from addresses to texts.
--   child_config.c       Config. `ChildConfig` is struct child_config with cc_childs as a list whose
--                        elements are NULL, a process or unwritten memory; the JSON form. The insertion
--                        and lookup of groups stand in Command.
--   json-c               Json. The library's calls as a record of operations; Json.Model is one
--                        instance, for the tests.
--   process.c            Server. `Process` is struct process, the pid table is a Uvhash.
--   cmd_server.c         Server: spawn, run_fatal_cb, sigchld_cb. Command: c_spwn, c_list, c_getc,
--                        c_dump. Command.Pids: c_pids, c_kill, c_dele. Command.Update: c_updt.
--                        Command.Subs: c_subs, c_helo, c_exit and the connections. Command.Read:
--                        c_read. Command.Load: load_dump. Dispatch: the table of commands and run_server_command;
--                        Dispatch.System: the callbacks as steps. Server.Heartbeat: heartbeat_cb. Child:
--                        replace_str, the number in a log's name; Child.Ids: spawn_child_setids.
--                        Request: read_cb, which cuts requests out of a stream. Wire: send_message,
--                        which cuts replies into chunks.
--                        Registry: the names of the groups against an abstract table. Child.Exec:
--                        spawn_child. Log: slog and the texts of the notifications. Daemon: the options
--                        of the server and load_newest_dump.
--   main.c               Main: the choice of a command of the program.
--   subscription.c       Subscription, with send_notification of cmd_server.c.
--   client.c             Wire: read_reply. Request: sock_send_command.
--   cmd_start.c and other commands of the client
--                        Client.Options, Client.Commands, Client.Get, Client.Subscribe: their options, requests and
--                        exits; Client.Replies: what they print of a reply, with get_status_reply of
--                        client.c. Client: the objects that they send. Client.Delivered: the way of cmd_start
--                        and cmd_update from the arguments to the group in the server. Client.Given says
--                        field by field what their options ask for, Command.Started what the start of the
--                        instances of a group leaves, Command.Fields what an update does.
--
-- Clients send requests (Request) that read_cb hands to run_server_command (Dispatch), which chooses a
-- command (Command); that answers through send_message (Wire), acts on the groups and processes
-- (Server, Config, Uvhash) and tells subscribers of it (Subscription). SIGCHLD enters by sigchld_cb,
-- the timers by heartbeat_cb (Server). libevent runs one callback at a time, in any order.
--
-- The state of cmd_server.c is the record `Server`. Structs that the code reaches by pointers stand
-- on heaps under addresses; an address is given once. The field `forks` lists what the calls that
-- start a process are going to give, a pid or a failure; `now` is the time; `events` collects the
-- notifications, replies and dump files. A reply that send_message cannot deliver changes nothing in
-- these commands, so they emit it. waitpid is the list that sigchld_cb takes.
--
-- Fuel: read_cb, send_message and read_reply recurse on fuel. A round of read_cb that does not end it
-- takes bytes off the buffer, so one more than the length of the buffer is enough; a round of send_message takes bytes
-- off the reply; read_reply takes as much as the socket is going to deliver. `none` stands for fuel that ran out.
-- The binary search for a command has four rounds, which are enough for the twelve of the table.
--
-- Bounds: the fields of a frame are 16-bit numbers, and sock_send_command's length wraps as the
-- code's does. Counts such as cc_instances are integers that are small in the program
-- (MAX_INSTANCES), without their overflow.
--
-- The commands take the connection and the cid where they use them. An ident is cut to 16 bits as the
-- code cuts it.
--
-- What getopt_long, getenv, strtol, stat and readdir give is an argument of the definitions that use it.
--
-- A `logged` event is a line of slog in heartbeat_cb, c_kill or c_updt; such a line goes to the log file and to the
-- subscribers of the log, which Log models. The lines that the other operations log are left out.
--
-- Not modelled: cmd_proxy, which hands bytes on in a loop; the socket, the log file and
-- the daemon of cmd_server; sock_connect; the texts of the usages: input and output around the parts
-- above. libevent, json-c, fork, write, the ids of a process, the files that c_read reads and the file
-- system behind c_dump are parameters.
pub mod Command
pub mod Common
pub mod Uvhash
pub mod Wire
pub mod Log
pub mod Main
pub mod Registry
pub mod Request
pub mod Json
pub mod Config
pub mod Server
pub mod Child
pub mod Client
pub mod Daemon
pub mod Dispatch
pub mod Subscription
