-- ===== src/Lib.antt =====
-- A verification library for nccl-exts: the UNET network plugin for NCCL, its tuner plugin, and the
-- counters that both publish.
--
-- The program's parts and where they are modelled. Paths are from the repository's root.
--
--   src/unet/unet_ib.cc, the network over InfiniBand verbs: Ib.
--     Ib.Verbs      the data of libibverbs that the code fills in and reads
--     Ib.Request    struct ncclIbRequest and its table: ncclIbGetRequest (get_request),
--                   ncclIbFreeRequest, ncclIbAddEvent (add_event)
--     Ib.Comm       ncclIbNetCommBase (Base), queue pairs, fifo elements
--     Ib.Chunk      how a request is cut over the queue pairs
--     Ib.Send       ncclIbSendComm (SendComm) and ncclIbMultiSend (multi_send)
--     Ib.Isend      ncclIbIsend (isend)
--     Ib.Recv       ncclIbRecvComm (RecvComm), ncclIbPostFifo (post_fifo), ncclIbIrecv (irecv)
--     Ib.Flush      ncclIbIflush (iflush)
--     Ib.Completion ncclIbTest (test)
--     Ib.MrCache    the cache of memory regions: ncclIbRegMrDmaBufInternal (reg_mr) and
--                   ncclIbDeregMrInternal (dereg_mr),
--                   and in Ib.MrCache.Comm ncclIbRegMrDmaBuf (reg_mr_dma_buf) and ncclIbDeregMr
--                   (dereg_mrs) over the devices of a comm
--     Ib.Rendezvous the rows that a receive comm writes and a send comm waits for
--     Ib.Device     ncclIbDev (Dev), ncclIbMergedDev (Merged), the PCI paths and the merging; in
--                   Ib.Device.Speed the speed of a port, in Ib.Device.Discovery ncclIbInit (init), in
--                   Ib.Device.Support ncclIbGdrSupport, ncclIbDmaBufSupport and the properties
--     Ib.Gid        the choice of a GID: ncclIbGetGidIndex (get_gid_index)
--     Ib.Pd         protection domains: ncclIbInitCommDevBase (init_comm_dev_base) and
--                   ncclIbDestroyBase (destroy_base)
--     Ib.Meta       the metadata that the two sides exchange, and the states of a queue pair
--     Ib.Listen     ncclIbListen (listen) and ncclIbCloseListen (close_listen)
--     Ib.Connect    the set-up of a send comm in ncclIbConnect, before the exchange (connect_setup)
--                   and behind it (connect_finish)
--     Ib.Stage      the whole of ncclIbConnect (connect_call) with its stages
--     Ib.Accept     the set-up of a receive comm in ncclIbAccept (accept_setup), and in
--                   Ib.Accept.Stages the whole of it (accept_call) with its stages
--     Ib.Close      ncclIbCloseSend (close_send) and ncclIbCloseRecv (close_recv)
--     Ib.Async      ncclIbAsyncThreadMain (async_thread_main)
--   src/utuner/plugin.c, the tuner: Tuner, its tables in Tuner.Configs, its entry points in
--     Tuner.Plugin.
--   src/unet/socket.cc: Socket, the transfer of bytes and the steps of a connection, and
--     Socket.Handshake, the wait loops, ncclSocketConnect (connect) and ncclSocketAccept (accept);
--     Socket.Opening, ncclSocketInit (init), ncclSocketListen (listen) and ncclSocketTryRecv (try_recv);
--     Socket.Find, ncclFindInterfaces (find_all), ncclFindInterfaceMatchSubnet (find_match_subnet) and
--     ncclSocketGetAddrFromString (get_addr_from_string).
--   src/unet/misc.cc: Interfaces, the lists of interface names and the parameters.
--   src/ucommd/stats.cc and stats.h: Ucommd.Stat, class Stat, and Ucommd.Shm, class StatsShm.
--   src/ucommd/unet_perf.cc: Ucommd.Perf, class UnetPerfMonitor, which makes the rows that the network
--     counts in.
--   src/ucommd/gen_vtopo.cc: Ucommd.VTopo, class GenVTopo, up to the switches of the topology.
--   tools/monitor/monitor.cc: Monitor, how check_ucommd_pids_stats keeps the records of the counters.
--   src/include/nccl: result codes and NCCLCHECK in Prelude.Nccl, DIVUP in Ib.Chunk.
--
-- How they interact. A receive comm posts a row of elements (Ib.Recv) into the memory of its send
-- comm; the send comm matches its requests to the row (Ib.Isend) and posts the writes (Ib.Send);
-- both sides poll for completions (Ib.Completion), which count down the events that the requests
-- were given. Before, the sockets carry the metadata of the two comms (Ib.Stage), each of which
-- connects its queue pairs to those of the other (Ib.Connect, Ib.Accept) on the devices that were
-- found (Ib.Device). All of them allocate from the request table (Ib.Request) and count in a Stat.
--
-- How state is modelled. A call takes the record of its comm and hands it back with its result,
-- also when it fails (Action of Prelude.Nccl). Arrays are lists, and a pointer into an array is an
-- index. Numbers are natural numbers; where a machine integer can wrap, the model writes the
-- wrap-around out (% 2 ^ 64 for addresses and message numbers, % 2 ^ 32 for counters of events).
-- The sizes of requests are not negative, and the chunk arithmetic of ncclIbMultiSend stays in
-- range for them, as it does unless a size is near INT_MAX. The number of requests of a row is not
-- negative once read as an int, and it is not 0 where a row is sent.
--
-- The source keeps the queue pairs of a comm, and what the metadata say of them, in arrays of 128
-- (NCCL_IB_MAX_QPS), and the devices of the other side in arrays of two, and checks neither bound
-- where it writes them. In the definitions of Ib.Connect and Ib.Accept these are lists that grow as
-- needed; past the bounds the source writes behind its arrays and the model says nothing of it. The
-- theorems on the set-up (Ib.Connect.Joining, Ib.Stage.Handing, Ib.Accept.Stages.Handing) have the two
-- bounds as hypotheses. In the same way the table of devices in Ib.Device.Discovery may grow past the
-- 32 entries of ncclIbDevs (MAX_IB_DEVS) within the ports of one card.
--
-- What the code takes from elsewhere is a parameter: the answers of ibv_post_send and
-- ibv_post_recv, the registration of memory, and the completion queues, with the law that a poll
-- takes from a queue what it answers (CompletionQueues). The system calls of sockets are the
-- interface System, with the law that a transfer counts the bytes it answers, which are no more
-- than it was given room for. posted and recvs of a comm's Base record what was handed to the verbs
-- library, which the source does not keep.
--
-- Fuel. socketProgressOpt has one iteration more than there are bytes left, which is enough since
-- each iteration but the last moves one at least. ncclIbTest loops until a round over the devices
-- finds nothing. The model gives it one round more than there are completions in the queues, which
-- is enough since each round but the last takes one at least. The loop of ncclIbIsend that spins
-- until the other elements of a row have arrived is a result of its own (spins): with the memory as
-- it is, the call does not return. The wait loops of sockets end only when the other side answers; on
-- fuel that is used up their result is none, which stands for a call that is waiting still.
--
-- Not modelled: the text of NCCL_IB_ADDR_RANGE, which the C library reads and which comes in as a
-- prefix and its length; the tables of function pointers; the text of the topology file; what the
-- monitor tool prints. Logging has no effect on the state and is left out. The verbs wrappers are
-- glue, and their answers are parameters.
pub mod Prelude
pub mod Ucommd
pub mod Ib
pub mod Tuner
pub mod Socket
pub mod Interfaces
pub mod Monitor
