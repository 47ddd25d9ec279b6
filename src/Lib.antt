-- ===== src/Lib.antt =====
-- nstack is a user-space TCP/IP stack. The ingress thread receives frames (src/ether.c) and hands
-- them to ARP (src/arp.c) or IP (src/ip.c). IP calls ICMP (src/icmp.c), UDP (src/udp.c) or TCP
-- (src/tcp.c), which reply in the buffer of the received packet or hand the payload to a socket.
-- A socket is a piece of shared memory with one queue of datagrams for each direction
-- (include/queue_r.h, src/socket.c, src/nstack.c). A timer thread runs the TCP counters.
--
-- Which file models which part:
--   Base        numbers, tests, integers, lists; error numbers (Errno); what a run comes to (Outcome)
--   Host        the byte order functions of the C library, and how two bytes read as a word
--   RbMap       the search trees of src/tree.h as operations with laws. IsMapOn has them for keys that the
--               comparison orders only, which for a difference of addresses are those Near each other;
--               Ip.Route uses that. Elsewhere IsMap assumes a comparison that is an order
--   QueueR      include/queue_r.h: the control block with all operations. QueueR.Inv: its invariant;
--               QueueR.Fifo: the ring of blocks behind it as a bounded queue
--   Socket      addresses and datagrams; Socket.Ops: nstack_sock_dgram_input, nstack_recvfrom and
--               nstack_sendto on the queues
--   Checksum    ip_checksum and tcp_checksum over the words of a memory
--   Ip.Header   struct ip_hdr, ip_hton, ip_ntoh, ip_reply_header
--   Ip.Defer    src/ip_defer.c
--   Ip.Route    src/ip_route.c; Ip.Route.Table: its two search trees hold the same routes
--   Ip.Fragments, Ip.Send, Ip.Input, Ip.Config
--               ip_send_fragments with the pieces of a packet as its specification, ip_send,
--               ip_input and ip_config of src/ip.c; IpState is the state that these functions share.
--               Ip.Input.Ping: an echo request from ip_input through src/icmp.c and back
--   Ip.Reassembly
--               src/ip_fragment.c, with ip_input and ip_send as arguments; Buffers and Receive below
--               it: the fragments of a packet one after the other
--   Arp         the messages of src/arp.c; Arp.Cache: the cache; Arp.Resolve: arp_cache_get_haddr;
--               Arp.Input: arp_input, with ip_send and ip_defer_handler as they run from there;
--               Arp.Input.Deferred: a packet from ip_send to the reply that lets it go
--   Link        the driver's functions as the rest calls them
--   Ether       src/ether.c; Ether.Fcs: src/ether_fcs.c, and the check sequence bit by bit as its
--               specification; Ether.Linux: the frames of src/linux/ether.c; Ether.Linux.Driver: its
--               other functions, over a record of the system calls
--   Nstack      nstack_start and the rounds of the threads of src/nstack.c; Nstack.Stop: the steps of
--               the threads while nstack_stop waits; Nstack.Init: nstack_init and nstack_listen;
--               Nstack.Egress: from nstack_sendto through the egress thread to the protocol
--   Icmp        src/icmp.c; Icmp.Bytes: icmp_input on the bytes of a payload
--   Udp         src/udp.c; Udp.Receive: from udp_input to nstack_recvfrom
--   Tcp         struct tcp_hdr, struct tcp_conn_tcb, tcp_new_connection; Tcp.Wire: tcp_hton and
--               tcp_ntoh; Tcp.Options: the loops over the options; Tcp.Fsm: tcp_fsm, and in
--               Tcp.Fsm.Connect both sides of the handshake, in Tcp.Fsm.Stream of the data; Tcp.Input:
--               tcp_input and nstack_tcp_bind; Tcp.Segments: the lists of segments with
--               tcp_send_segments, tcp_ack_segments and the retransmission; Tcp.Send:
--               nstack_tcp_send; Tcp.Timer: tcp_timer and tcp_slowtimo; Tcp.Rto: tcp_rto_update
--   Tests       concrete data and examples
--
-- A function that changes an object returns the new one. Fields of fixed width are natural numbers
-- with the wrap-around written out; signed fields are integers. A memory is the list of its bytes or
-- 16-bit words, a header the record of its fields. The functions of other parts that a function
-- calls, such as ip_send, are arguments. A null pointer that is followed, a use of freed memory and
-- a mutex that is locked twice are values of Outcome.
--
-- Fuel: the loops over TCP options take a number of rounds; a header's options of n bytes need at most
-- n + 1 of them where the loop ends. The loop that adds the carries of the UDP checksum has three
-- rounds, of which two suffice for 32 bits. The handler of deferred packets needs one round for each
-- packet that waits and one more; arp_input gives it 21 for its 20 slots. The loop over the fragments
-- of a packet needs at most one round for each byte and one more.
--
-- The ARP cache's tree holds the number of a slot for each address. What RB_REMOVE makes of the links of
-- a node that belongs to another place of the tree is not modelled: removing a node that was never
-- inserted empties the tree, as its null links do, and removing one that was faults. The comparison
-- arp_cache_cmp subtracts addresses; the theorems on the cache assume that it orders those in it.
--
-- Not modelled: main, the signals by which the sides of a socket wake each other, the log.
-- System calls (open, mmap, socket, ioctl, sendto) are arguments. The handlers that the linker
-- collects are a list. The arithmetic of an int is that of the integers. Threads take turns only
-- in Nstack.Stop; elsewhere no two run at once.
pub mod Base
pub mod QueueR
pub mod Host
pub mod RbMap
pub mod Checksum
pub mod Ip
pub mod Icmp
pub mod Arp
pub mod Socket
pub mod Link
pub mod Ether
pub mod Nstack
pub mod Tcp
pub mod Udp
pub mod Tests
