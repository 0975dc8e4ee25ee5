-- ===== src/Proxying/Tests.antt =====
-- src/proxying.c: a client that is let in, sends three bytes, and leaves.
use tcp_proxy.Prelude.{
  ◌⊎◌, ℕ, ◌/◌, ◌≡◌, refl, true, false, none, some, List, [], ◌∷◌, arith, if◌then◌else◌, leb,
}
use tcp_proxy.Prelude.Int.{◌≤ℤ◌, ℤ, pos, negsuc, eqb_ℤ, int_laws}
use tcp_proxy.Blacklist.{Blacklist, IpAccessEntry, new_auto_blacklist_service}
use tcp_proxy.Blacklist.Service.{new-Models}
use tcp_proxy.Events.{new_event_loop, count}
use tcp_proxy.Events.Accounting.{IsValid, new_event_loop-IsValid}
use tcp_proxy.Connections.{allocate_connection_info}
use tcp_proxy.Connections.Segments.{Outside}
use tcp_proxy.Connections.Pool.{Partition, open_connection}
use tcp_proxy.Connections.Idle.{count_idle}
use tcp_proxy.Proxying.Sweep.{clean_idle, idle_at}
use tcp_proxy.Proxying.Swept.{Swept, clean_idle-Partition}
use tcp_proxy.Proxying.{
  ProxyRequest, ConnectionInfo, Proxy, Written, write_from, do_proxying, end_connection,
}
use tcp_proxy.Proxying.Relay.{Fits, Relayed, write_from-Relayed}
use tcp_proxy.Proxying.Ending.{Ended, Unwatched, end_connection-Unwatched}
use tcp_proxy.Proxying.Outcome.{Outcome, stamped, do_proxying-Outcome}
use tcp_proxy.Proxying.Admission.{
  check_remote_ip_in_whitelist, Config, Database, Peer, Verdict, judge, htonl,
}
use tcp_proxy.Proxying.Admission.Judgement.{Admits, Answer, judge-Answer}
use tcp_proxy.Proxying.Admission.Arrival.{Front, Answers, establish, accepting_request}
use tcp_proxy.Proxying.Admission.Safety.{judge-Admits}
use tcp_proxy.Proxying.Admission.Arrived.{Arrived, accepting_request-Arrived}
use tcp_proxy.Proxying.Admission.Lifecycle.{
  Established, establish-Established, Watched, establish-Watched, end_connection-establish,
}
use tcp_proxy.Proxying.Admission.Channels.{Configured}

-- A peer that takes two bytes at a time.
abbrev two_at_a_time : ℕ → ℕ → ℤ
two_at_a_time k n = if leb 2 n then pos 2 else pos n

two_at_a_time-Fits : Fits two_at_a_time
two_at_a_time-Fits k n = ground arith

write_from-Relayed_example :
    (w : Written) × (write_from two_at_a_time 3 0 (1 ∷ 2 ∷ 3 ∷ []) 0 3 ≡ some w)
    × Relayed two_at_a_time (1 ∷ 2 ∷ 3 ∷ []) 0 w
write_from-Relayed_example =
    write_from-Relayed two_at_a_time 3 0 0 3 (1 ∷ 2 ∷ 3 ∷ []) two_at_a_time-Fits (omega arith) refl

abbrev no_info : ConnectionInfo
no_info = record {
  client_fd = pos 0;
  server_fd = pos 0;
  client_handle = pos 0;
  server_handle = pos 0;
  request_count = 0;
  response_count = 0;
  insert_id = 0;
  nth_user = 0;
  bytes_sent = 0;
  bytes_received = 0;
  recent = 0;
  request_in_db = none;
  remote_ip = [];
  attempts = pos 0;
}

abbrev at_start : Proxy
at_start = record {
  memory = record {
    node = λ _. record { next = none; prev = none; in_chain = false };
    infos = none;
    pool = none;
    number_of_entries = pos 0;
    number_of_allocation = 0;
  };
  ev = new_event_loop;
  info = λ _. no_info;
  user_counter = 0;
  trace = [];
}

at_start-Partition : Partition at_start.memory [] []
at_start-Partition = record {
  attached = record { linked = refl; distinct = tt; counted = refl };
  free = refl;
  distinct = tt;
  disjoint = tt;
}

abbrev answers : Answers
answers = record {
  connect_host = λ i. pos 8;
  client_added = true;
  server_added = true;
  fresh = 4;
  insert_id = pos 1;
}

abbrev opened : Proxy
opened = establish at_start answers (pos 7) (pos 8) (58 ∷ 58 ∷ []) none (pos 1) 4000000000

opened-Established : Established at_start (pos 7) (pos 8) 4 [] [] opened
opened-Established =
    establish-Established at_start answers (pos 7) (pos 8) (58 ∷ 58 ∷ []) none (pos 1) 4000000000 []
      [] at_start-Partition tt

opened-Watched : Watched at_start opened 4
unfolding new_event_loop open_connection allocate_connection_info
opened-Watched =
    establish-Watched at_start answers (pos 7) (pos 8) (58 ∷ 58 ∷ []) none (pos 1) 4000000000
      new_event_loop-IsValid (omega int_laws) (omega arith) (omega arith) refl refl

first_inside : ¬ Outside 4 (4 ∷ [])
first_inside o = o.0 refl

end_connection-Unwatched_example :
    (s' : Proxy) × (end_connection opened 4 ≡ some s')
    × Ended opened 4 (4 ∷ []) [] s'
    × Unwatched opened.ev s'.ev opened-Watched.client_slot opened-Watched.server_slot
end_connection-Unwatched_example =
    end_connection-Unwatched opened 4 opened-Watched.client_slot opened-Watched.server_slot (4 ∷ [])
      [] opened-Established.partition first_inside opened-Watched.valid opened-Watched.both

do_proxying-Outcome_example :
    (s' : Proxy) × (do_proxying
        (pos 6)
        two_at_a_time
        (1 ∷ 2 ∷ 3 ∷ [])
        4000000009
        (pos 7)
        (pos 8)
        4
        opened
      ≡ some s')
    × Outcome
        (pos 6)
        two_at_a_time
        (1 ∷ 2 ∷ 3 ∷ [])
        (eqb_ℤ (opened.info 4).client_fd (pos 7))
        (pos 8)
        4
        (4 ∷ [])
        []
        (stamped opened 4 4000000009)
        s'
do_proxying-Outcome_example =
    do_proxying-Outcome (pos 6) two_at_a_time (1 ∷ 2 ∷ 3 ∷ []) 4000000009 (pos 7) (pos 8) 4 (4 ∷ [])
      [] opened two_at_a_time-Fits opened-Established.partition first_inside

end_connection-establish_example :
    (s' : Proxy) × (end_connection opened 4 ≡ some s')
    × Partition s'.memory [] (4 ∷ [])
    × IsValid s'.ev
    × (count s'.ev ≡ count at_start.ev)
unfolding new_event_loop
end_connection-establish_example =
    end_connection-establish at_start answers (pos 7) (pos 8) (58 ∷ 58 ∷ []) none (pos 1) 4000000000
      [] [] at_start-Partition tt new_event_loop-IsValid (omega int_laws) (omega arith)
      (omega arith) refl refl

abbrev config : Config
config = record {
  servers = (49 ∷ [], pos 80) ∷ (50 ∷ [], pos 81) ∷ [];
  default_server = pos 0;
  on_failed_channel = pos 1;
  connection_threshold = pos 5;
  persist_threshold = pos 100;
  max_persistent_time = pos 86400;
  white_list = (58 ∷ 58 ∷ []) ∷ [];
}

abbrev db : Database
db = record {
  check_available = λ ip. none;
  connection_blacklisted = λ ip. pos 0;
  fail_guessing = λ ip. false;
  check_vip = λ ip. pos 0;
}

abbrev peer : Peer
peer = record { is_inet6 = true; word0 = 0; word1 = 0; word2 = 0xffff0000; word3 = 67305985 }

abbrev inet_ntop : Peer → List ℕ
inet_ntop p = 58 ∷ 58 ∷ 102 ∷ []

abbrev garbage : IpAccessEntry ℕ
garbage = record {
  ipaddr = 0;
  access_count = λ k. record { counter = 9; slot_index = pos 0 };
  counter = pos 9;
  success_counter = pos 9;
  log_time = 0;
}

abbrev service : Blacklist ℕ
service = new_auto_blacklist_service 16 3600

judge-Answer_example :
    Answer config db
      (58 ∷ 58 ∷ 102 ∷ [])
      (λ _. [])
      (4000000000 / 1000000 / service.frequency_in_seconds)
      (htonl peer.word3)
      (judge config db (58 ∷ 58 ∷ 102 ∷ []) peer 4000000000 garbage service)
unfolding new_auto_blacklist_service judge
judge-Answer_example =
    judge-Answer config db (58 ∷ 58 ∷ 102 ∷ []) peer 4000000000 garbage (λ _. []) 11 service
      (record { default_nonneg = omega arith; fallback_nonneg = omega arith }) refl refl refl
      (new-Models 16 3600 11 (omega arith) (omega arith) (omega arith)) (ground arith)
      (ground arith)

abbrev verdict : Verdict
verdict = record {
  channel = pos 0;
  blacklisted = false;
  auto_blacklisted = false;
  access_counter = pos 0;
  entry = none;
  service = service;
  calls = [];
}

-- A client over IPv6 is let in by the white list.
abbrev guest : Peer
guest = record peer { word0 = 1 }

the_verdict : judge config db (58 ∷ 58 ∷ 102 ∷ []) guest 4000000000 garbage service ≡ some verdict
unfolding judge
the_verdict = refl

abbrev front : Front
front = record { proxy = at_start; service = service }

accepting_request-Arrived_example :
    (s' : Front) × (accepting_request config db inet_ntop answers garbage 4000000000
        (some guest)
        (pos 7)
        front
      ≡ some s')
    × Arrived config answers verdict (pos 7) (58 ∷ 58 ∷ 102 ∷ []) [] [] front s'
accepting_request-Arrived_example =
    accepting_request-Arrived config db inet_ntop answers garbage 4000000000 guest (pos 7) front
      verdict [] [] (omega arith) the_verdict at_start-Partition tt

config-Configured : Configured config
config-Configured = record {
  default_in_range = (omega arith, omega arith);
  fallback_in_range = (omega arith, omega arith);
}

guest_admitted : Admits verdict
guest_admitted = omega arith

judge-Admits_example :
    ((r : ProxyRequest) × (db.check_available (58 ∷ 58 ∷ 102 ∷ []) ≡ some r))
    ⊎ ((check_remote_ip_in_whitelist config.white_list (58 ∷ 58 ∷ 102 ∷ []) ≡ true)
        × (db.connection_blacklisted (58 ∷ 58 ∷ 102 ∷ []) ≤ℤ pos 0))
judge-Admits_example =
    judge-Admits config db (58 ∷ 58 ∷ 102 ∷ []) guest 4000000000 garbage service verdict the_verdict
      guest_admitted

clean_idle-Partition_example :
    (t : Proxy) × (clean_idle 9000000000 (negsuc 999999) opened
      ≡ some (t, count_idle (idle_at 9000000000 (negsuc 999999) opened) (4 ∷ [])))
    × Swept (idle_at 9000000000 (negsuc 999999) opened) opened.info opened [] (4 ∷ []) [] t
clean_idle-Partition_example =
    clean_idle-Partition 9000000000 (negsuc 999999) opened (4 ∷ []) [] opened-Established.partition
