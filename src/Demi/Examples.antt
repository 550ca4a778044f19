-- ===== src/Demi/Examples.antt =====
-- The theorem on demi/relay.cpp at a concrete input.
use urn.Prelude.{◌≡◌, refl, List, [], ◌∷◌, true, some, ok, Address, arith, length}
use urn.Relay.Packet.{get_session_id, read_le}
use urn.Relay.Sessions.{find, try_emplace}
use urn.Relay.Statistics.{update_io_statistics}
use urn.Relay.Logic.{
  init, count_in, count_out, update_entry, update_this_thread, find_session, try_register_session,
  restart_peer, restart_client, register, on_client_received, on_peer_received,
}
use urn.Demi.Worker.{
  Sga, St, Demikernel, peer_ready, client_ready, Calls, io_worker_init, io_worker_begin_frame,
  packet_of, start_send, receive, turn, turns,
}
use urn.Demi.Worker.Echoes.{AllEchoed, turns-echoed}

abbrev alice : Address
alice = record { sin_addr = 1; sin_port = 3478 }

abbrev bob : Address
bob = record { sin_addr = 2; sin_port = 3479 }

abbrev kernel : Demikernel
kernel = record { pushto = λ pushed push. some (length pushed); wait = λ pushed qt. true }

abbrev registration : Sga
registration = record {
  sga_addr = alice;
  sgaseg_buf = 0;
  bytes = 7 ∷ 0 ∷ 0 ∷ 0 ∷ 0 ∷ 0 ∷ 0 ∷ 0 ∷ [];
}

abbrev payload : Sga
payload = record { sga_addr = bob; sgaseg_buf = 0; bytes = 7 ∷ 0 ∷ 0 ∷ 0 ∷ 0 ∷ 0 ∷ 0 ∷ 0 ∷ 5 ∷ [] }

abbrev history : List Calls
history =
    record { pop_client = some 0; pop_peer = some 1; wait_any = some (client_ready registration) }
    ∷ record { pop_client = some 2; pop_peer = some 3; wait_any = some (peer_ready payload) }
    ∷ []

-- Bob's datagram names Alice's session, and Alice's own registration is sent.
abbrev after : St
after = record {
  relay = record {
    sessions = (7, record { client_endpoint = alice }) ∷ [];
    per_thread_statistics =
        record {
          ingress = record { packets = 2; bytes = 17 };
          egress = record { packets = 1; bytes = 9 };
        }
        ∷ [];
  };
  world = record {
    tx_length = 1;
    clients_res = some registration;
    clients_token = some 2;
    peers_res = some payload;
    peers_token = some 3;
    worker_index = 0;
    pushed = record { to = alice; sga = registration } ∷ [];
  };
}

history-after :
    turns kernel (some 0) history (record { relay = init 1; world = io_worker_init 0 }) ≡ ok after
unfolding turns turn io_worker_begin_frame io_worker_init init receive packet_of start_send
    on_client_received register on_peer_received update_this_thread update_entry count_in count_out
    find_session try_register_session try_emplace find restart_peer restart_client get_session_id
    read_le update_io_statistics
history-after = refl

turns-echoed_example : AllEchoed (λ sga. sga.sga_addr ≡ alice) after.world.pushed
unfolding init
turns-echoed_example =
    turns-echoed kernel (λ sga. sga.sga_addr ≡ alice) 0 0 history (init 1) after
      (record { is_set = refl; in_range = omega arith }) (refl, (tt, tt)) history-after
