-- ===== src/Connections/Tests.antt =====
-- src/proxying.c: the connection list on two connections.
use tcp_proxy.Prelude.{◌≡◌, refl, false, none, some, [], ◌∷◌, arith, ◌==◌}
use tcp_proxy.Prelude.Int.{pos}
use tcp_proxy.Connections.{Node, Memory, detach_connection_info_entry}
use tcp_proxy.Connections.Segments.{Outside}
use tcp_proxy.Connections.Removal.{remove}
use tcp_proxy.Connections.Detached.{Detached, detach-Detached}
use tcp_proxy.Connections.Pool.{
  Partition, open_connection, open_connection-Partition, close_connection,
  close_connection-Partition,
}
use tcp_proxy.Connections.Idle.{survivors}

abbrev idle_node : Node
idle_node = record { next = none; prev = none; in_chain = false }

abbrev at_start : Memory
at_start = record {
  node = λ _. idle_node;
  infos = none;
  pool = none;
  number_of_entries = pos 0;
  number_of_allocation = 0;
}

at_start-Partition : Partition at_start [] []
at_start-Partition = record {
  attached = record { linked = refl; distinct = tt; counted = refl };
  free = refl;
  distinct = tt;
  disjoint = tt;
}

abbrev one_client : Memory
one_client = (open_connection at_start 4).1

one_client-Partition : Partition one_client (4 ∷ []) []
one_client-Partition = (open_connection-Partition at_start [] [] 4 at_start-Partition tt).1

abbrev two_clients : Memory
two_clients = (open_connection one_client 6).1

two_clients-Partition : Partition two_clients (6 ∷ 4 ∷ []) []
two_clients-Partition =
    (open_connection-Partition one_client (4 ∷ []) [] 6 one_client-Partition
      ((λ e. absurd (ground (arith, e))), tt)).1

open_connection-Partition_example :
    ((open_connection one_client 6).0 ≡ 6)
    × Partition (open_connection one_client 6).1 (6 ∷ 4 ∷ []) []
open_connection-Partition_example =
    open_connection-Partition one_client (4 ∷ []) [] 6 one_client-Partition
      ((λ e. absurd (ground (arith, e))), tt)

second_inside : ¬ Outside 4 (6 ∷ 4 ∷ [])
second_inside o = o.1.0 refl

detach-Detached_example :
    (m' : Memory) × (detach_connection_info_entry two_clients 4 ≡ some m')
    × Detached two_clients (6 ∷ 4 ∷ []) 4 m'
detach-Detached_example =
    detach-Detached two_clients 4 (6 ∷ 4 ∷ []) two_clients-Partition.attached second_inside

close_connection-Partition_example :
    (m' : Memory) × (close_connection two_clients 4 ≡ some m')
    × Partition m' (remove 4 (6 ∷ 4 ∷ [])) (4 ∷ [])
close_connection-Partition_example =
    close_connection-Partition two_clients 4 (6 ∷ 4 ∷ []) [] two_clients-Partition second_inside

after_the_sweep : survivors (λ x. x == 6) (6 ∷ 4 ∷ []) ≡ 4 ∷ []
unfolding survivors
after_the_sweep = refl
