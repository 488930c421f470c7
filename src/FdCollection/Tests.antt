-- ===== src/FdCollection/Tests.antt =====
-- Descriptor 3 gets two sockets one after the other, and the first waits for its end.
use libvma.Prelude.{◌≤◌, ◌≡◌, refl, true, false, List, [], ◌∷◌, ltb}
use libvma.Prelude.Store.{null}
use libvma.Prelude.Int.{pos}
use libvma.FdCollection.{
  FdCollection, fd_collection, Asked, sock_stream, addsocket, handle_close, del_sockfd,
  wait_for_close, clean_obj, close_each, handle_timer_expired, create_offloaded_sockets,
}
use libvma.FdCollection.Owned.{one_if, times, owned}
use libvma.FdCollection.Steps.{Op, add, close, expiry, run, run-owned}
use libvma.FdCollection.Waiting.{handle_close-forgotten}

abbrev tcp_socket : Asked
tcp_socket = record {
  domain_inet = true;
  sock_type = sock_stream;
  check_offload = true;
  thread = 7;
  udp_to_os = false;
  tcp_to_os = false;
  throws = false;
}

abbrev calls : List Op
calls =
    add true true tcp_socket (pos 3)
    ∷ close false true (pos 3)
    ∷ add true true tcp_socket (pos 3)
    ∷ expiry (λ p. true)
    ∷ []

run-owned_example :
    owned 1 (run calls (fd_collection 5 true))
    ≡ one_if (ltb 1 (run calls (fd_collection 5 true)).next_object)
run-owned_example = run-owned 5 true calls 1 refl

first_cleaned : (run calls (fd_collection 5 true)).cleaned ≡ 1 ∷ []
unfolding run fd_collection addsocket create_offloaded_sockets handle_close del_sockfd
    wait_for_close handle_timer_expired close_each clean_obj
first_cleaned = refl

abbrev one_socket : FdCollection
one_socket = record {
  sockfd_map = null ∷ 1 ∷ null ∷ [];
  pending_to_remove = [];
  timer = false;
  cleaned = [];
  next_object = 2;
  offloaded_sockets = true;
  offload_thread_rule = [];
}

abbrev one_more : List Op
one_more = add true true tcp_socket (pos 0) ∷ []

abbrev timer_round : List Op
timer_round = expiry (λ p. true) ∷ []

handle_close-forgotten_example :
    let later = run one_more (handle_close false false (pos 1) one_socket) in
    let last = run timer_round (handle_close false true (pos 0) later) in
    (last.timer ≡ false)
    × (1 ≤ times 1 last.pending_to_remove)
    × (1 ≤ times 2 last.pending_to_remove)
unfolding run addsocket create_offloaded_sockets handle_close del_sockfd wait_for_close
handle_close-forgotten_example =
    handle_close-forgotten one_more timer_round (pos 1) (pos 0) true one_socket refl refl refl refl
