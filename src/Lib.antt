-- ===== src/Lib.antt =====
-- The programs of this repository, modelled and verified.
--
-- Tema-2-PCom is a publish/subscribe service: a server that takes datagrams of publishers over UDP
-- and requests of subscribers over TCP. Tema-3-PCom is a command-line client of a library behind
-- HTTP. Tema-1-PCom is a software router.
--
-- Prelude holds the shared names: Boolean tests, lists measured by native numbers, numbers and
-- structures in an array of bytes, byte strings (`std::string` and `char *`) and decimal output.
-- Dict is `std::map<std::string, V>`: the entries in key order, with the laws of `find`, `at`,
-- `insert` and `erase`.
--
-- Pubsub models Tema-2-PCom. Pubsub/Message has the structures of proto.h, Pubsub/Client the class
-- of Client.h and Client.cpp. Pubsub/Server/State, Sessions and Topics have the functions of
-- server_funs.cpp under their own names in snake case, and Pubsub/Server/Loop the variables of
-- `main` of server.cpp (the record Server), the branches of its inner loop (handle_datagram,
-- handle_connection, handle_client), that loop (handle_fds) and one round of the outer loop
-- (round). A function returns the variables that it changes and the list of its effects: what is
-- given to `proto_send`, printed and closed, in order. What the system calls return in a round is
-- the record Env. A call of `std::map::at` without the key, a copy past the end of an object and a
-- string without an end in its object are faults, which end a run. A failing system call ends the
-- process (`DIE`); round covers the rounds in which they succeed, and Pubsub/Server/Main those in
-- which a `send` may fail, and the room of `FD_SET` (main_round).
--
-- The inner loop runs to `fdmax`, which a new connection raises, so handle_fds takes fuel; one
-- round more than the descriptors up to the greatest of `fdmax` and the accepted one is enough.
--
-- Pubsub/Setup has what the server and the subscriber do before their loops: the calls that open
-- their sockets, over the answers of the system. Pubsub/Proto has `proto_send` and `proto_recv`
-- over partial calls of `send` and `recv`: a direction of a connection is the list of the bytes
-- under way, and what each call moves at most is given by its number. Fuel above the length of the
-- buffer is enough for both loops. The server and the subscriber see whole frames.
-- Pubsub/Subscriber/Decode and Commands have the functions of subscriber_funs.cpp,
-- Pubsub/Subscriber/Loop one round of `main` of subscriber.cpp; `double` is a parameter (the
-- record Floats). Requests proves what of a typed command reaches the server, Printing what is
-- shown of a message, and Pubsub/Exchange joins the subscriber and the server.
--
-- The other files under Pubsub/Server prove the properties: Reconnection, Disconnection, Delivery,
-- Subscriptions and Forward describe single operations and their composition, Invariant and
-- Preservation the invariant and each handler, Rounds whole rounds and runs, Main/Soundness rounds
-- with sends that fail, Limits what goes wrong; Examples applies the theorems to concrete states.
--
-- Webclient models Tema-3-PCom. Webclient/Buffer has buffer.cpp, Webclient/Server server_ops.cpp,
-- Webclient/Requests requests.cpp, Webclient/Responses response_handlers.cpp, Webclient/Forms
-- forms.cpp, and Webclient/Commands commands.cpp with `command_caller` and one round of `main` of
-- client.cpp. The variables of `main` are the record Session; what the system does for one command
-- is the record World. The JSON library is a parameter, the record Json. A `size_t` that is
-- compared with 0 keeps that comparison. Buffer/Search, Server/Framing, Responses/Cookie,
-- Commands/Access, Commands/Login and Commands/Unreachable have the proofs. What the forms print
-- in front of an input is left out, and so is the freeing of memory.
--
-- Router models Tema-1-PCom. Router/Route has the order of the routing table of router_funs.c and
-- the binary search in it, with `unsigned int` as numbers below 2^32; Route/Search and
-- Route/Longest have its proofs. Fuel above the number of routes is enough. Router/Headers has the
-- packet and its headers: a header is a record that is read from the bytes of the payload and
-- written back at its offset, its 16-bit fields as `ntohs` gives them and its addresses as they
-- lie in memory. Router/Checksum has `ip_checksum` and `icmp_checksum` of skel.c; four rounds fold
-- every carry. Router/Icmp has ip_icmp.c, Router/Queue has queue.c and list.c over the memory of
-- the cells, and Router/Arp has arp.c. Router/Loop has the variables of `main` of router.c (the
-- record Router) and one round of its loop (step); what is sent is kept in order, as given to
-- `send_packet`. Router/Main has what writing these packets does, an interface outside the array
-- and a failed `write` included (write_all, round), and the loop with the packets that get_packet
-- receives into the one variable `m` (main_loop, over a list of rounds; m_after is what a round
-- leaves in it). Router/Receive has `get_packet` and `send_packet` of skel.c over the answers of
-- `select` and `read`, and Receive/Interfaces the sockets and addresses of the interfaces by their
-- names. Router/Files has `hwaddr_aton`, `read_rtable` and, in Files/ArpTables, `parse_arp_table`
-- of skel.c, whose loops get as many rounds as there are characters. Icmp/Headers, Icmp/Echo,
-- Icmp/Replies, Queue/Fifo, Queue/Runs, Arp/Delivery, Arp/Stuck, Arp/Exchange, Loop/Forwarding,
-- Loop/Replying, Loop/Saved, Loop/Resolution, Loop/Losses, Loop/Frames, Loop/Invariant,
-- Loop/Rounds, Loop/Moved, Loop/Hops, Loop/Outgoing, Loop/Sound, Main/Received, Main/Writing,
-- Main/Soundness, Receive/First, Receive/Wire, Files/Addresses, Files/Numbers, Files/Rows,
-- Files/Tables and Files/ArpTables/Rows have the proofs; Router/Examples applies them. The
-- hardware and IP addresses of the interfaces (the record Links), `malloc` and whether `realloc`
-- moves the ARP table are arguments; allocations succeed. A packet that waits is an address: that
-- of the variable `saved`, which has one place in the frame of `main`; the C standard promises
-- nothing about it behind the end of its block. An access through a pointer to nothing is a fault.
-- The loop of `search_queue` takes fuel; one round more than there are packets in the queue is
-- enough if all of them can be sent.
--
-- Not modelled: what the system calls do beyond their answers, the usage messages and the
-- prompts, freeing memory at the end of a program, and the vendored JSON library.
pub mod Prelude
pub mod Dict
pub mod Pubsub
pub mod Webclient
pub mod Router
