-- ===== src/Lib.antt =====
-- zmap_embedded_ip: the targets, the probes and the results of ZMap.
--
-- A scan starts from a constraint, a binary tree that gives each IPv4 address a value (allowed or
-- not). It is painted for the allowed value, so that the n-th allowed address can be looked up.
-- The iterator picks a cyclic group of prime order above the number of address and port pairs and
-- a random generator, and gives each sender thread a shard, a range of exponents of the
-- generator. A shard walks through the powers and decodes each into an address index and a port.
-- A sender thread makes probes for each target, whose source ports and sequence numbers are drawn
-- from a keyed validation of the addresses. The receiver accepts the packets that fit this validation,
-- drops repetitions, and a probe module fills in a field set for each answer, which is filtered
-- and translated for the output.
--
-- The files, and the code that they model:
--   Constraint    lib/constraint.c: `Constraint`, `set_recurse`, `count_ips_recurse`,
--                 `constraint_lookup_index` and the others under their names in the source
--   Cyclic        src/cyclic.c, src/cyclic.h: `groups`, `get_group`, `find_primroot`, `make_cycle`
--   Shard         src/shard.c, src/shard.h: `shard_init`, `shard_get_next_target` and their parts
--   Iterator      src/iterator.c: `iterator_init`, `shard_complete`, the counters
--   Blocklist     lib/blocklist.c: `blocklist_init` and the parts that it reads its lists with
--   Expression    src/expression.c, src/filter.c: `validate_filter`, `evaluate_expression`
--   Fieldset      src/fieldset.c, src/fieldset.h: `fs_add_word`, `translate_fieldset` and others
--   Ports         src/ports.c, lib/pbm.c: `parse_ports`, the flat and the paged bitmap
--   Packet        src/probe_modules/packet.h, src/probe_modules/packet.c: checksums, source ports, the
--                 headers of answers, TCP options (Options), the fields of an ICMP answer (Icmp)
--   ProbeModules  src/probe_modules/probe_modules.c: the fields of the IP header and of the system
--   Synscan       src/probe_modules/module_tcp_synscan.c: `synscan_make_packet`,
--                 `synscan_validate_packet`, `parse_tcp_opts` (Parse), `synscan_process_packet` (Process)
--   Udp           src/probe_modules/module_udp.c: `udp_do_validate_packet`, `udp_process_packet`
--   Dns           src/probe_modules/module_dns.c: `domain_to_qname`, `get_name`, the types (Types), the
--                 records (Records, Process), `dns_process_packet` (Answer)
--   Queue         lib/queue.c: `push_back`, `pop_front` and the others
--   Validate      src/validate.c: `validate_gen` and the others
--   Send          src/send.c, src/send-linux.c: `send_run` and `send_batch` in IPv4 mode
--   Recv          src/recv.c: `handle_packet` in IPv4 mode
--   Scan          the sender, the module of the SYN scan and the receiver together
--   Base          lists, bits and counting on native numbers
--   Tests         the theorems at concrete inputs
-- The children of a file hold its proofs, named for what they prove.
--
-- State is passed explicitly. Machine words are natural numbers with the wrap-around written out.
-- GMP's `mpz_powm` and the address functions of the C library are parameters, and the words of
-- the random generator are arguments. The loops
-- of `find_primroot` and `shard_get_next_target` run on fuel: one round more than the number of
-- candidates below 2^22, and one more than the elements left to the end of the range, are enough.
-- The loop over TCP options has 41 rounds, one more than a header has bytes of options. The loop of
-- `send_run` runs on any fuel, and what is said of it holds for each fuel with which it ends.
-- The loop over the labels of a DNS name has one round more than the data has bytes, and pointers
-- lead down at most 11 levels of recursion, as in the code; neither ends before the name does.
-- The tree and all lists are values: freeing memory and locks have no counterpart.
--
-- The headers in a received packet are records at the offsets where the code casts a pointer; the
-- conversions of byte order, printing of addresses and times, `u8_check` of libunistring, `memcpy` on
-- overlapping bytes, `sendmmsg`, the block cipher, and the cache of the deduplication window are parameters.
--
-- Not modelled: packet input and output, IPv6, the other probe modules, option parsing, logging,
-- the delays of the sender, the cache hash, the block cipher, the freeing of field sets.
pub mod Base
pub mod Constraint
pub mod Cyclic
pub mod Shard
pub mod Fieldset
pub mod Blocklist
pub mod Expression
pub mod Iterator
pub mod Ports
pub mod Packet
pub mod ProbeModules
pub mod Synscan
pub mod Udp
pub mod Dns
pub mod Queue
pub mod Recv
pub mod Send
pub mod Validate
pub mod Scan
mod Tests
