-- ===== src/Tests/Threads.antt =====
-- src/iterator.c, src/send.c and src/recv.c at concrete inputs.
use zmap_embedded_ip.Base.{
  ℕ, ◌+◌, ◌*◌, ◌%◌, ◌^◌, ◌≡◌, refl, false, none, some, List, [], ◌∷◌, ◌++◌, ◌==◌, arith,
}
use mathlib.Core.Option.{some-injective}
use zmap_embedded_ip.Shard.{
  Shard, shard_get_cur_target, shard_get_next_target, next_loop, shard_get_next_elem, is_target,
  extract_ip, extract_port,
}
use zmap_embedded_ip.Iterator.{Iterator, Send, iterator_get_sent}
use zmap_embedded_ip.Iterator.Order.{complete_all, IsFresh, complete_all_lem}
use zmap_embedded_ip.Packet.{ByteOrder}
use zmap_embedded_ip.Send.{
  Conf, World, Sender, Probe, send_loop, send_run, is_finished, sender_init, send_start,
  send_target, send_streams, send_stream, flush_full, transmit, next_target, cleanup, get_src_ip,
}
use zmap_embedded_ip.Send.Account.{IsAccounted, IsWorld}
use zmap_embedded_ip.Send.Limits.{IsLimited, send_loop-IsAccounted}
use zmap_embedded_ip.Send.Rounds.{probes_for}
use zmap_embedded_ip.Send.First.{send_run-first}

-- A shard of the group of prime 5 that stands at 2.
abbrev shard : ℕ → Shard
shard max = record {
  state = record {
    packets_sent = 0;
    targets_scanned = 0;
    max_targets = max;
    max_packets = 0;
    packets_failed = 0;
    first_scanned = 0;
  };
  params = record { first = 2; last = 1; factor = 2; modulus = 5 };
  current = 2;
  iterations = 0;
  thread_id = 0;
  bits_for_port = 0;
}

abbrev it : Iterator
it = record {
  cycle = record {
    group = record { prime = 5; known_primroot = 2; prime_factors = 2 ∷ [] };
    generator = 2;
    order = 4;
    offset = 0;
  };
  num_threads = 2;
  thread_shards = shard 0 ∷ shard 0 ∷ [];
  complete = false ∷ false ∷ [];
  curr_threads = 2;
}

abbrev zsend : Send
zsend = record {
  packets_sent = 0;
  targets_scanned = 0;
  sendto_failures = 0;
  finish = 0;
  complete = false;
  first_scanned = 0;
}

it-IsFresh : IsFresh it zsend
it-IsFresh = record {
  few = omega arith;
  some_thread = omega arith;
  flags = refl;
  shards = refl;
  running = refl;
  unfinished = refl;
  no_sent = refl;
  no_scanned = refl;
  no_failed = refl;
}

-- The second thread ends first.
complete_all_lem_example :
    (it' : Iterator) × (zsend' : Send) × ((complete_all (λ i. 100 + i) (1 ∷ 0 ∷ []) it zsend
        ≡ some (it', zsend'))
      × (zsend'.complete ≡ (2 == 2))
      × (it'.curr_threads + 2 ≡ 2)
      × (◌≡◌ {A = ℕ} 2 2 → zsend'.packets_sent ≡ iterator_get_sent it))
complete_all_lem_example =
    complete_all_lem (λ i. 100 + i) (1 ∷ 0 ∷ []) it zsend it-IsFresh (refl, (refl, tt))

abbrev order : ByteOrder
order = record {
  word = λ a b. a * 256 + b;
  htons = λ x. x;
  ntohs = λ x. x;
  htonl = λ x. x;
  ntohl = λ x. x % 2 ^ 32;
}

-- Two probes for each target, in batches of three.
abbrev conf : Conf
conf = record {
  order = order;
  source_ip_addresses = 77 ∷ [];
  packet_streams = 2;
  retries = 0;
  capacity = 3;
  scan = record { max_index = 4; port_count = 1; ports = 80 ∷ []; lookup_index = λ i. i + 100 };
  fuel = 10;
  list_of_ips = none;
}

-- A network that sends all.
abbrev world : World
world = record { sendmmsg = λ k attempts at n. some n; ended = λ k. false }

world-IsWorld : IsWorld world
world-IsWorld k attempts at n rv h = omega (arith, some-injective n rv h)

start-IsAccounted : IsAccounted conf (sender_init conf (shard 1))
unfolding sender_init
start-IsAccounted = record { room = omega arith; sent = refl; kept = refl }

start-IsLimited : IsLimited 1 (sender_init conf (shard 1))
unfolding sender_init
start-IsLimited = record { limit = refl; within = omega arith }

-- The thread with a limit of one target, after its only round.
abbrev after : Sender
after = record {
  shard = record (shard 1) {
    state = record (shard 1).state { packets_sent = 2; targets_scanned = 1 };
    current = 4;
    iterations = 1;
  };
  current = record { ip = 103; port = 80; status = 1 };
  current_ip = 103;
  current_port = 80;
  batch =
      record { src_ip = 77; ip = 0; port = 0; stream = 0 }
      ∷ record { src_ip = 77; ip = 0; port = 0; stream = 1 }
      ∷ [];
  made =
      record { src_ip = 77; ip = 0; port = 0; stream = 0 }
      ∷ record { src_ip = 77; ip = 0; port = 0; stream = 1 }
      ∷ [];
  transmitted = [];
  batches = 0;
}

after-run : send_loop conf world 3 0 (sender_init conf (shard 1)) ≡ some after
unfolding send_loop sender_init is_finished next_target send_target send_streams send_stream
    flush_full transmit get_src_ip shard_get_cur_target shard_get_next_target next_loop
    shard_get_next_elem is_target extract_ip extract_port
after-run = refl

send_loop-IsAccounted_example : IsAccounted conf after
send_loop-IsAccounted_example =
    send_loop-IsAccounted conf world 3 0 (sender_init conf (shard 1)) after (omega arith)
      world-IsWorld start-IsAccounted after-run

start-goes_on : is_finished world 0 (sender_init conf (shard 1)) ≡ false
unfolding is_finished sender_init shard_get_cur_target
start-goes_on = refl

run-ends : send_run conf world 3 (shard 1) ≡ some (cleanup conf world after)
unfolding send_run send_start cleanup transmit
run-ends = rw (send_run, send_start, after-run) refl

send_run-first_example :
    (more : List Probe) × ((cleanup conf world after).made ≡ probes_for conf 0 0 0 2 ++ more)
send_run-first_example =
    send_run-first conf world 3 (shard 1) (cleanup conf world after) refl start-goes_on run-ends
