-- ===== src/FdCollection.antt =====
-- src/vma/sock/fd_collection.cpp and fd_collection.h, the sockets behind the file descriptors. A closed
-- socket that is not ready goes to a list that a timer looks at. What prepare_to_close and is_closable
-- of a socket return, whether a timer can be registered and how the rules of the configuration decide are
-- arguments. `new` gives addresses that were not used before.
pub mod Owned
pub mod Steps
pub mod Waiting
mod Tests
use libvma.Prelude.{
  ℕ, zero, suc, Bool, true, false, ◌&&◌, ◌||◌, not, List, [], ◌∷◌, ◌++◌, ◌==◌, ltb, length, get_or,
  set, if◌then◌else◌,
}
use libvma.Prelude.Store.{Ptr, null}
use libvma.Prelude.Int.{ℤ, pos, negsuc}

pub record FdCollection : Type 0 where
  pub sockfd_map : List Ptr
  pub pending_to_remove : List Ptr
  pub timer : Bool
  pub cleaned : List Ptr
  pub next_object : Ptr
  pub offloaded_sockets : Bool
  pub offload_thread_rule : List ℕ

abbrev pub nulls : ℕ → List Ptr
nulls zero = []
nulls (suc n) = null ∷ nulls n

unfoldable pub fd_collection : (fd_map_size : ℕ) (offloaded : Bool) → FdCollection
fd_collection n offloaded = record {
  sockfd_map = nulls n;
  pending_to_remove = [];
  timer = false;
  cleaned = [];
  next_object = 1;
  offloaded_sockets = offloaded;
  offload_thread_rule = [];
}

abbrev pub is_valid_fd : ℤ → FdCollection → Bool
is_valid_fd (pos i) m = ltb i (length m.sockfd_map)
is_valid_fd (negsuc i) m = false

abbrev pub get_sockfd : ℤ → FdCollection → Ptr
get_sockfd (pos i) m = get_or m.sockfd_map i null
get_sockfd (negsuc i) m = null

abbrev pub write_sockfd : ℤ → Ptr → FdCollection → FdCollection
write_sockfd (pos i) p m = record m { sockfd_map = set m.sockfd_map i p }
write_sockfd (negsuc i) p m = m

-- `clean_obj` destroys the socket.
unfoldable pub clean_obj : Ptr → FdCollection → FdCollection
clean_obj p m = record m { cleaned = p ∷ m.cleaned }

unfoldable pub del : ℤ → FdCollection → ℤ × FdCollection
del fd m =
    if is_valid_fd fd m && not (get_sockfd fd m == null)
    then (pos 0, clean_obj (get_sockfd fd m) (write_sockfd fd null m))
    else (negsuc 0, m)

abbrev pub start_timer : (registered : Bool) → FdCollection → ℤ × FdCollection
start_timer registered m =
    if length m.pending_to_remove == 1
    then if registered then (pos 0, record m { timer = true }) else (negsuc 0, m)
    else (pos 0, m)

unfoldable pub wait_for_close : (registered : Bool) → ℤ → FdCollection → ℤ × FdCollection
wait_for_close registered fd m =
    let p = get_sockfd fd m in
    let w = write_sockfd fd null m in
    start_timer registered (record w { pending_to_remove = p ∷ w.pending_to_remove })

unfoldable pub del_sockfd : (closable registered : Bool) → ℤ → FdCollection → ℤ × FdCollection
del_sockfd closable registered fd m =
    if get_sockfd fd m == null
    then (negsuc 0, m)
    else if closable
    then del fd m
    else wait_for_close registered fd m

-- The part of it that is about sockets.
unfoldable pub handle_close : (closable registered : Bool) → ℤ → FdCollection → FdCollection
handle_close closable registered fd m =
    if get_sockfd fd m == null then m else (del_sockfd closable registered fd m).1

abbrev pub none_left : List Ptr → Bool
none_left [] = true
none_left (p ∷ ps) = false

abbrev pub close_pending : Ptr → (left : List Ptr) → FdCollection → FdCollection
close_pending p left m =
    let c = clean_obj p (record m { pending_to_remove = left }) in
    if none_left left then record c { timer = false } else c

-- The loop over the waiting sockets, of which `before` are the ones that it has passed.
unfoldable pub close_each : (Ptr → Bool) → (before after : List Ptr) → FdCollection → FdCollection
close_each closable before [] m = m
close_each closable before (p ∷ after) m =
    let gone = close_each closable before after (close_pending p (before ++ after) m) in
    let stays = close_each closable (before ++ (p ∷ [])) after m in
    if closable p then gone else stays

unfoldable pub handle_timer_expired : (Ptr → Bool) → FdCollection → FdCollection
handle_timer_expired closable m = close_each closable [] m.pending_to_remove m

abbrev pub has : ℕ → List ℕ → Bool
has t [] = false
has t (u ∷ us) = (u == t) || has t us

abbrev pub without_thread : ℕ → List ℕ → List ℕ
without_thread t [] = []
without_thread t (u ∷ us) = if u == t then without_thread t us else u ∷ without_thread t us

unfoldable pub create_offloaded_sockets : (thread : ℕ) → FdCollection → Bool
create_offloaded_sockets t m =
    if has t m.offload_thread_rule then not m.offloaded_sockets else m.offloaded_sockets

abbrev pub same : Bool → Bool → Bool
same true b = b
same false b = not b

unfoldable pub offloading_rule_change_thread : Bool → (thread : ℕ) → FdCollection → FdCollection
offloading_rule_change_thread offloaded t m =
    if same offloaded m.offloaded_sockets
    then record m { offload_thread_rule = without_thread t m.offload_thread_rule }
    else record m { offload_thread_rule = t ∷ without_thread t m.offload_thread_rule }

pub data SockType : Type 0 where
  sock_dgram sock_stream other_type : SockType

abbrev pub store_socket : ℤ → FdCollection → ℤ × FdCollection
store_socket fd m =
    let w = write_sockfd fd m.next_object m in (fd, record w { next_object = suc w.next_object })

-- `to_os`: what __vma_match_by_program leaves to the operating system; `throws`: whether the
-- constructor of the socket does.
abbrev pub new_socket :
    SockType → (udp_to_os tcp_to_os throws : Bool) → ℤ → FdCollection → ℤ × FdCollection
new_socket sock_dgram udp tcp throws fd m =
    if udp || throws then (negsuc 0, m) else store_socket fd m
new_socket sock_stream udp tcp throws fd m =
    if tcp || throws then (negsuc 0, m) else store_socket fd m
new_socket other_type udp tcp throws fd m = (negsuc 0, m)

pub record Asked : Type 0 where
  pub domain_inet : Bool
  pub sock_type : SockType
  pub check_offload : Bool
  pub thread : ℕ
  pub udp_to_os : Bool
  pub tcp_to_os : Bool
  pub throws : Bool

-- `closable` and `registered` are about an old socket at the descriptor.
unfoldable pub addsocket :
    (closable registered : Bool) → Asked → ℤ → FdCollection → ℤ × FdCollection
addsocket closable registered a fd m =
    if (a.check_offload && not (create_offloaded_sockets a.thread m))
      || not a.domain_inet
      || not (is_valid_fd fd m)
    then (negsuc 0, m)
    else new_socket a.sock_type a.udp_to_os a.tcp_to_os a.throws fd
        (handle_close closable registered fd m)
