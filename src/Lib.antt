-- ===== src/Lib.antt =====
-- amper: a client and a server that share the server's non-volatile memory over RDMA, with the
-- calling conventions of several published systems side by side.
--
-- The client's API (amper/src/dhmp_client.c) queues works, which one worker thread takes and hands to
-- a handler for their kind (amper/src/dhmp_work.c). A handler talks to the server by one-sided
-- writes and reads of registered memory, or by two-sided messages (amper/src/dhmp_task.c,
-- amper/src/dhmp_transport.c). The server (amper/src/dhmp_server.c) polls the memory that the clients
-- write to, and answers in the same way. Connections are set up and torn down by the events of the
-- connection manager (amper/src/dhmp_transport.c).
--
-- The modules:
--   Prelude      names of the libraries that all share, Boolean tests, lists by native numbers
--   Memory       a process's byte memory and the C accesses to it (memcpy, uintptr_t, size_t, char)
--   Rdma         one-sided requests as a parameter with the laws of a completed one, and the ways in
--                which a handler can end: done, early return, exit, a wait that never ends
--   Rpc.L5       amper_L5_work_handler, amper_L5_request_handler, L5_run
--   Rpc.Rfp      amper_RFP_work_handler, amper_RFP_request_handler, RFP_run
--   Rpc.Batch    amper_DaRPC_work_handler and amper_FaSST_work_handler with their request and response
--                handlers of dhmp_transport.c
--   Rpc.Scale    model_7_scalable, amper_scalable_work_handler, amper_scalable_request_handler,
--                scalable_run
--   Rpc.Octo     dhmp_Octopus_work_handler, dhmp_octo_request_handler, dhmp_octo_response_handler
--   Rpc.Farm     FaRM_run, FaRM_run_client, and their steps with those of the calls over the array of
--                slots
--   Rpc.Tailwind model_6_Tailwind, amper_Tailwind_RPC_work_handler, amper_Tailwind_work_handler,
--                amper_tailwindRPC_request_handler, amper_tailwindRPC_response_handler
--   Rpc.Clover   model_1_clover, amper_clover_work_handler
--   Rpc.Send     dhmp_send with dhmp_send_work_handler, dhmp_send_request_handler and
--                dhmp_send_response_handler
--   Rpc.Send2    dhmp_send2 with dhmp_send2_work_handler, dhmp_rdma_write2 and their messages' handlers
--   Rpc.Alloc    the buffers that amper_allocspace_for_server takes
--   AddrTable    addr_info_ht: dhmp_hash_in_client, dhmp_addr_info_insert_ht,
--                dhmp_get_addr_info_from_ht, and the malloc, free, read and write work handlers
--   Transport    enum dhmp_transport_state
--   Client       the calls of dhmp_client.c, the switch of dhmp_work_handle_thread, and the
--                interleavings of both under mutex_work_list
--   Client.Slots the request slots of model_FaRM, model_herd and amper_pRDMA_write_senderactive
--   Message      dhmp_send_task_create, the reading of a message in dhmp_wc_success_handler, and
--                dhmp_post_all_recv
--   Message.Dispatch  dhmp_comp_channel_handler, the switches of dhmp_wc_success_handler and
--                dhmp_wc_recv_handler
--   Connection   on_cm_addr_resolved to dhmp_handle_ec_event, dhmp_is_exist_connection, and the
--                server's client_list, connect_trans and cur_connections
--   Setup        what dhmp_transport_create, dhmp_cq_get and dhmp_qp_create hold and release
--   Regions      dhmp_area_create, dhmp_malloc_area, the ordinary case of
--                dhmp_malloc_request_handler, dhmp_free_one_area, dhmp_free_request_handler
--   Exchange     the set-up of a calling convention: the special cases of dhmp_malloc_work_handler,
--                dhmp_malloc_request_handler, amper_allocspace_for_server and
--                dhmp_malloc_response_handler
--   Examples     runs of the theorems at concrete inputs
--
-- Lengths and addresses are taken to fit the C types that carry them, where a theorem does not say
-- so. Pointers are natural numbers, memories are functions from addresses to bytes, and a field of a
-- struct is a field of a record of the same name. What libibverbs and librdmacm give back, whether
-- an allocation succeeds, and the hash function are arguments of the definitions. A wait for the
-- other side is not run on fuel: the L5 and ScaleRPC calls are sequences of their sections and take
-- whether the client looks at the reply's byte before the server's round, in which case a byte that
-- is set already ends the call; the RFP call takes a list that says before which of the client's
-- reads the server runs a round; the DaRPC, FaSST, Octopus and set-up calls are sequences of their
-- sections, and wait forever where the flag that they wait for is not set. Where the source clears
-- memory that it did not get (nvm_malloc), the process ends. The server's arrays by node id have
-- DHMP_CLIENT_NODE_NUM entries, and the theorems take node ids below it. A batched call (Rpc.Batch,
-- Rpc.Scale) is run for a list of items, which its arrays hold and its count measures; what it does
-- is stated by the copies of that list, one after the other (put_all, copy_all).
--
-- The calls of FaRM are a step relation (Rpc.Farm.Reach): calls take slots, requests are
-- written into them, of which the step says what FaRM_run tests (the valid byte), the server's loop and the client's loop each handle what they find, in any order.
-- Tailwind's loop is recursion on the number of its entries.
--
-- Not modelled: amper_FaRM_work_handler, which uses fields that the struct of its work does not have;
-- herd_run and amper_herd_response_handler, to which no handler sends a request, and
-- pRDMA, whose handlers are empty; write2, ReqAddr1, the older writes with immediate data and Sread;
-- the extra read and the request counter that SFLUSH adds to DaRPC; the ring buffer (is_special 1);
-- the creation of a reply's address handle in the UD build; configuration, devices, the event loop
-- and logging; the earlier copy of the program in amper_beforeFaRM; and copies of other projects' code
-- (the hash function of amper/src/murmur3_hash.c, rdma_module, the headers below
-- amper/include/infiniband, json-c, libxml, linux, rdma and sys). Of the options at compile time
-- the models take `Spwrite`, `UD`, `WFLUSH` and, for FaRM, `RFLUSH` as arguments where they change
-- what is modelled, and leave RFLUSH and SFLUSH off elsewhere; only the server and the reply of
-- DaRPC take an argument that says whether one of them is on.
pub mod Prelude
pub mod Memory
pub mod Rdma
pub mod Rpc
pub mod AddrTable
pub mod Transport
pub mod Client
pub mod Message
pub mod Connection
pub mod Setup
pub mod Regions
pub mod Exchange
pub mod Examples
