-- ===== src/Lib.antt =====
-- quicer: the C part of an Erlang binding of MsQuic.
--
-- The program is a library of native functions (NIFs) that Erlang processes call, and of callbacks
-- that MsQuic calls on its worker threads. Both work on contexts: one for a listener, a connection, a
-- stream, a registration, and a short-lived one for each send. A context holds MsQuic's handle, the
-- process that owns it with its receive mode, and flags; a mutex in it orders the NIFs and the
-- callbacks, so that here each of them is one step.
--
-- Which file models which part:
--   Prelude, Prelude/*   lists, tests and integers over the native numbers
--   Nif, Nif/*           what the code shares with its hosts: atoms, status codes, replies, messages
--                        (c_src/quicer_eterms.h), the hosts' calls as a record of functions, and
--                        atom_status of c_src/quicer_nif.c
--   Queue, Queue/*       c_src/quicer_queue.c: receive modes and the queue of acceptors
--   Stream, Stream/*     c_src/quicer_stream.c: recv2, the callbacks, send3, csend4, shutdown_stream3,
--                        async_start_stream2, async_accept_stream2; and the options of a stream in
--                        c_src/quicer_config.c (Stream/Options); stream_controlling_process and the
--                        callbacks of the stream's resource in c_src/quicer_nif.c (Stream/Ownership)
--   Listener, Listener/* c_src/quicer_listener.c, with the listener's context of c_src/quicer_ctx.c
--                        and the callbacks of its resource in c_src/quicer_nif.c
--   Connection, Connection/*
--                        c_src/quicer_connection.c: the handlers of events, both callbacks
--                        (Connection/Events), async_connect3 (Connection/Open, Connect), the
--                        other calls; the connection's context of c_src/quicer_ctx.c, the callbacks of
--                        its resource and connection_controlling_process of c_src/quicer_nif.c
--   Dgram, Dgram/*       c_src/quicer_dgram.c: sending, and the events of datagrams
--   Registration, Registration/*
--                        c_src/quicer_reg.c, with the context of c_src/quicer_ctx.c and the callback
--                        of its resource, and the runtime's count of references
--   Options, Options/*   getopt3 and setopt4 of c_src/quicer_config.c with all their targets and levels,
--                        encode_parm_to_eterm, parse_listen_on, and sockname1 with addr2eterm of
--                        c_src/quicer_connection.c
--   Tls, Tls/*           the readers of certificates and of `verify` in c_src/quicer_tls.c; load_alpn,
--                        str_from_map, ServerLoadConfiguration and ClientLoadConfiguration of
--                        c_src/quicer_config.c; and, in Tls/Verifying, what the flags of `verify`
--                        mean together with the event of the peer's certificate
--   Handover             controlling_process of c_src/quicer_nif.c
--   Library, Library/*   openLib, closeLib, registration, deregistration and on_unload of
--                        c_src/quicer_nif.c
--   Config, Config/*     create_settings and its readers, and load_verify, of c_src/quicer_config.c
--   Examples, Examples/* the theorems at concrete inputs
-- Functions keep their names; what stands behind a lock, a check or a successful call is a function of
-- its own, `recv_locked` for `recv2`, and is composed as the code composes it. Structures are records
-- with the source's fields. A pointer or a handle is a number, and NULL is 0.
--
-- The hosts: an Erlang term is opaque, and is read by the calls of the record `Nif`, whose laws are
-- what erl_nif documents (an atom is itself only, an `unsigned int` has 32 bits). What MsQuic, the
-- allocators and the runtime answer in one call is an argument of the definition. What the code asks
-- of them, in order, is a list of effects beside the new context, so that a theorem can count the
-- allocations and releases or replay the effects on a model of the peer (Stream/Flow) or of the
-- listening socket (Listener/System), or follow who is monitored (Connection/Holding). A failed
-- assertion, and a read through NULL or outside of a buffer, is a fault: a value of its own in the
-- result, which a theorem must exclude. Where a theorem is about the life of a resource, the runtime's
-- count of references to it, and who has them, is part of a world (Connection/Lifecycle,
-- Registration/Lifecycle), whose actions are the calls, the callbacks, and the ends of terms and
-- contexts that have a reference.
--
-- Loops are structural recursions over lists (the buffers of a receive, the acceptors of a queue, the
-- blocks of the settings), so no fuel is needed. Numbers are unbounded, and the wrap-around of a
-- 16-bit counter and of a 32-bit conversion is written out.
--
-- For the options, MsQuic's parameters are two functions of the record `Host` (Options), which has the
-- sizes of its structures, the allocators and the readers of strings and lists as well. A buffer behind
-- `GetParam` is what each cast of the code reads in it. A theorem about an option that is set and read
-- again takes two hosts, of which the later one keeps what was set.
--
-- By a comment at the error label of async_connect3, ConnectionClose calls back before it returns,
-- and the context may then be gone. Whether it does is one of MsQuic's answers (`close_reports`), and
-- where it does the label, which writes the context, faults. Two more things that the code keeps are
-- not what they were when they are used: the pointers of load_alpn's entries, of which the model has the
-- lengths only, and those into MsQuic's receive buffers, whose bytes the model has as they are while
-- an indication is outstanding.
--
-- Not modelled: open_connectionX of c_src/quicer_connection.c, which on every call reads an argument
-- that it was not given, so that a handle to reuse is an argument here; trace points, the tables of
-- atoms and functions in c_src/quicer_nif.c, the key log file (c_src/quicer_tls.c), MsQuic's text form
-- of addresses, OpenSSL, and the Erlang modules, whose processes are arbitrary callers here. MsQuic itself is a git submodule and appears only through its answers.
-- listen2 and async_connect3 take what the readers of Tls answer as arguments.
pub mod Prelude
pub mod Nif
pub mod Queue
pub mod Stream
pub mod Listener
pub mod Connection
pub mod Dgram
pub mod Registration
pub mod Handover
pub mod Options
pub mod Tls
pub mod Library
pub mod Config
pub mod Examples
