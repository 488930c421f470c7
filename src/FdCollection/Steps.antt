-- ===== src/FdCollection/Steps.antt =====
-- The calls of src/vma/sock/fd_collection.cpp in any order.
use libvma.Prelude.{
  ℕ, zero, suc, ◌+◌, ◌≤◌, ◌≡◌, refl, sym, ap, ◌∙◌, Bool, true, false, ◌&&◌, ◌||◌, not, List, [],
  ◌∷◌, ◌==◌, ltb, length, get_or, set, if◌then◌else◌, arith, if_cases, if_elim,
}
use libvma.Prelude.Store.{Ptr, null}
use libvma.Prelude.Int.{ℤ, pos, negsuc}
use libvma.FdCollection.{
  FdCollection, fd_collection, nulls, is_valid_fd, get_sockfd, write_sockfd, clean_obj, del,
  start_timer, wait_for_close, del_sockfd, handle_close, handle_timer_expired,
  create_offloaded_sockets, offloading_rule_change_thread, same, Asked, SockType, sock_dgram,
  sock_stream, other_type, store_socket, new_socket, addsocket, without_thread,
}
use libvma.FdCollection.Owned.{
  one_if, times, owned, get_sockfd-valid, times-write_sockfd, write_sockfd-rest, Hands,
  handle_close-Hands, handle_timer_expired-Hands,
}

-- The timer calls as long as it is registered.
pub data Op : Type 0 where
  add : (closable registered : Bool) → Asked → ℤ → Op
  close : (closable registered : Bool) → ℤ → Op
  expiry : (closable : Ptr → Bool) → Op
  change_rule : Bool → ℕ → Op

abbrev pub expired : (Ptr → Bool) → FdCollection → FdCollection
expired closable m = if m.timer then handle_timer_expired closable m else m

unfoldable pub run : List Op → FdCollection → FdCollection
run [] m = m
run (add c r a fd ∷ ops) m = run ops (addsocket c r a fd m).1
run (close c r fd ∷ ops) m = run ops (handle_close c r fd m)
run (expiry c ∷ ops) m = run ops (expired c m)
run (change_rule o t ∷ ops) m = run ops (offloading_rule_change_thread o t m)

get_or-set-null : (ps : List Ptr) (i : ℕ) → get_or (set ps i null) i null ≡ null
get_or-set-null [] i = refl
get_or-set-null (x ∷ ps) zero = refl
get_or-set-null (x ∷ ps) (suc i) = get_or-set-null ps i

write_sockfd-emptied : (fd : ℤ) (m : FdCollection) → get_sockfd fd (write_sockfd fd null m) ≡ null
write_sockfd-emptied (pos i) m = get_or-set-null m.sockfd_map i
write_sockfd-emptied (negsuc i) m = refl

-- The map decides.
get_sockfd-map :
    (fd : ℤ) (m n : FdCollection) → n.sockfd_map ≡ m.sockfd_map → get_sockfd fd n ≡ get_sockfd fd m
get_sockfd-map (pos i) m n e = ap (λ l. get_or l i null) e
get_sockfd-map (negsuc i) m n e = refl

start_timer-map :
    (registered : Bool) (m : FdCollection) → (start_timer registered m).1.sockfd_map ≡ m.sockfd_map
start_timer-map registered m = ground arith

abbrev Free : ℤ → ℤ × FdCollection → Type 0
Free fd r = get_sockfd fd r.1 ≡ null

del-Free : (fd : ℤ) (m : FdCollection) → (get_sockfd fd m == null) ≡ false → Free fd (del fd m)
unfolding del clean_obj
del-Free fd m e =
    let v = get_sockfd-valid fd m e in
    let w = write_sockfd fd null m in
    let P : ℤ × FdCollection → Type 0 = λ r. Free fd r in
    if_cases P (is_valid_fd fd m && not (get_sockfd fd m == null)) _ _
      (λ g. get_sockfd-map fd w (clean_obj (get_sockfd fd m) w) refl ∙ write_sockfd-emptied fd m)
      (λ g. absurd (ground arith))

wait_for_close-Free :
    (registered : Bool) (fd : ℤ) (m : FdCollection) → Free fd (wait_for_close registered fd m)
unfolding wait_for_close
wait_for_close-Free registered fd m =
    let w = write_sockfd fd null m in
    let l : FdCollection = record w { pending_to_remove = get_sockfd fd m ∷ w.pending_to_remove } in
    get_sockfd-map fd w (start_timer registered l).1 (start_timer-map registered l)
    ∙ write_sockfd-emptied fd m

-- A closed descriptor is free.
handle_close-emptied :
    (closable registered : Bool) (fd : ℤ) (m : FdCollection)
    → get_sockfd fd (handle_close closable registered fd m) ≡ null
unfolding handle_close del_sockfd
handle_close-emptied closable registered fd m =
    let P : FdCollection → Type 0 = λ r. get_sockfd fd r ≡ null in
    let Q : ℤ × FdCollection → Type 0 = λ r. Free fd r in
    if_cases P (get_sockfd fd m == null) _ _ (λ e. ground arith)
      (λ e.
        if_cases Q (get_sockfd fd m == null) _ _ (λ f. ground arith)
          (λ f. if_elim Q closable _ _ (del-Free fd m e) (wait_for_close-Free registered fd m)))

pub record Exact (m : FdCollection) : Type 0 where
  pub exact : (p : Ptr) → (null == p) ≡ false → owned p m ≡ one_if (ltb p m.next_object)
  pub started : 1 ≤ m.next_object

Hands-Exact : (m n : FdCollection) → Hands m n → Exact m → Exact n
Hands-Exact m n h x = record {
  exact = λ p e. h.same_owned p e ∙ x.exact p e ∙ ap (λ k. one_if (ltb p k)) (sym h.same_next);
  started = omega (arith, x.started, h.same_next);
}

next_owned : (p n : ℕ) → one_if (ltb p n) + one_if (n == p) ≡ one_if (ltb p (suc n))
next_owned p n = ground arith

not_null : (p q : Ptr) → q ≡ null → (null == p) ≡ false → one_if (q == p) ≡ 0
not_null p q e n = ground arith

store_socket-Exact :
    (fd : ℤ) (m : FdCollection)
    → is_valid_fd fd m ≡ true
    → get_sockfd fd m ≡ null
    → Exact m
    → Exact (store_socket fd m).1
store_socket-Exact fd m v g x =
    let n = m.next_object in
    let w = write_sockfd-rest fd n m in
    record {
      exact = λ p e.
          let t = times-write_sockfd p fd n m v in
          let z = not_null p (get_sockfd fd m) g e in
          let a = ap (λ l. times p l) w.pending in
          let b = ap (λ l. times p l) w.cleaned in
          let h : owned p (write_sockfd fd n m) ≡ one_if (ltb p (suc n)) =
            omega (arith, t, z, a, b, x.exact p e, next_owned p n) in
          h ∙ ap (λ k. one_if (ltb p (suc k))) (sym w.next);
      started = omega (arith, x.started, w.next);
    }

new_socket-Exact :
    (t : SockType) (udp tcp throws : Bool) (fd : ℤ) (m : FdCollection)
    → is_valid_fd fd m ≡ true
    → get_sockfd fd m ≡ null
    → Exact m
    → Exact (new_socket t udp tcp throws fd m).1
new_socket-Exact sock_dgram udp tcp throws fd m v g x =
    let P : ℤ × FdCollection → Type 0 = λ r. Exact r.1 in
    if_elim P (udp || throws) _ _ x (store_socket-Exact fd m v g x)
new_socket-Exact sock_stream udp tcp throws fd m v g x =
    let P : ℤ × FdCollection → Type 0 = λ r. Exact r.1 in
    if_elim P (tcp || throws) _ _ x (store_socket-Exact fd m v g x)
new_socket-Exact other_type udp tcp throws fd m v g x = x

valid_stays :
    (fd : ℤ) (m n : FdCollection)
    → length n.sockfd_map ≡ length m.sockfd_map
    → is_valid_fd fd m ≡ true
    → is_valid_fd fd n ≡ true
valid_stays (pos i) m n e v = ground arith
valid_stays (negsuc i) m n e v = v

addsocket-Exact :
    (c r : Bool) (a : Asked) (fd : ℤ) (m : FdCollection) → Exact m → Exact (addsocket c r a fd m).1
unfolding addsocket
addsocket-Exact c r a fd m x =
    let P : ℤ × FdCollection → Type 0 = λ r. Exact r.1 in
    let h = handle_close-Hands c r fd m in
    let n = handle_close c r fd m in
    if_cases P
      ((a.check_offload && not (create_offloaded_sockets a.thread m))
        || not a.domain_inet
        || not (is_valid_fd fd m))
      _ _ (λ e. x)
      (λ e.
        let v : is_valid_fd fd m ≡ true = ground (arith, e) in
        new_socket-Exact a.sock_type a.udp_to_os a.tcp_to_os a.throws fd n
          (valid_stays fd m n h.same_size v) (handle_close-emptied c r fd m) (Hands-Exact m n h x))

change_rule-Exact :
    (o : Bool) (t : ℕ) (m : FdCollection) → Exact m → Exact (offloading_rule_change_thread o t m)
unfolding offloading_rule_change_thread
change_rule-Exact o t m x =
    let P : FdCollection → Type 0 = Exact in
    let y = λ (us : List ℕ).
      let z : Exact (record m { offload_thread_rule = us }) = record {
        exact = x.exact;
        started = x.started;
      } in
      z in
    if_elim P (same o m.offloaded_sockets) _ _ (y (without_thread t m.offload_thread_rule))
      (y (t ∷ without_thread t m.offload_thread_rule))

expired-Exact : (c : Ptr → Bool) (m : FdCollection) → Exact m → Exact (expired c m)
expired-Exact c m x =
    let P : FdCollection → Type 0 = Exact in
    if_elim P m.timer _ _ (Hands-Exact m _ (handle_timer_expired-Hands c m) x) x

run-Exact : (ops : List Op) (m : FdCollection) → Exact m → Exact (run ops m)
unfolding run
run-Exact [] m x = x
run-Exact (add c r a fd ∷ ops) m x = run-Exact ops _ (addsocket-Exact c r a fd m x)
run-Exact (close c r fd ∷ ops) m x =
    run-Exact ops _ (Hands-Exact m _ (handle_close-Hands c r fd m) x)
run-Exact (expiry c ∷ ops) m x = run-Exact ops _ (expired-Exact c m x)
run-Exact (change_rule o t ∷ ops) m x = run-Exact ops _ (change_rule-Exact o t m x)

times-nulls : (n : ℕ) (p : Ptr) → (null == p) ≡ false → times p (nulls n) ≡ 0
unfolding times
times-nulls zero p e = refl
times-nulls (suc n) p e = omega (arith, times-nulls n p e, not_null p null refl e)

fd_collection-Exact : (n : ℕ) (offloaded : Bool) → Exact (fd_collection n offloaded)
unfolding fd_collection times
fd_collection-Exact n offloaded = record {
  exact = λ p e. let t = times-nulls n p e in ground (arith, t, e);
  started = omega arith;
}

-- From the constructor on, over any sockets that are added, closed and looked at by the timer, in any
-- order, every socket that was made is in exactly one place and there once: in the map, among those that
-- wait for the end of their connection, or cleaned up. None is lost and none is cleaned up twice; no
-- other address is in any place.
pub run-owned :
    (n : ℕ) (offloaded : Bool) (ops : List Op) (p : Ptr)
    → (null == p) ≡ false
    → owned p (run ops (fd_collection n offloaded))
      ≡ one_if (ltb p (run ops (fd_collection n offloaded)).next_object)
run-owned n offloaded ops p e =
    let x = run-Exact ops _ (fd_collection-Exact n offloaded) in x.exact p e
