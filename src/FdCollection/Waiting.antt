-- ===== src/FdCollection/Waiting.antt =====
-- A socket of src/vma/sock/fd_collection.cpp that waits and for which no timer could be registered.
use libvma.Prelude.{
  ℕ, suc, ◌≤◌, ◌≡◌, sym, ap, subst, ◌∙◌, Bool, false, ◌&&◌, ◌||◌, not, List, [], ◌∷◌, ◌==◌, length,
  arith, if_cases, if_elim,
}
use libvma.Prelude.Store.{Ptr, null}
use libvma.Prelude.Int.{ℤ}
use libvma.FdCollection.{
  FdCollection, is_valid_fd, get_sockfd, write_sockfd, clean_obj, del, wait_for_close, del_sockfd,
  handle_close, create_offloaded_sockets, offloading_rule_change_thread, same, Asked, SockType,
  sock_dgram, sock_stream, other_type, new_socket, store_socket, addsocket,
}
use libvma.FdCollection.Owned.{one_if, times, write_sockfd-rest}
use libvma.FdCollection.Steps.{Op, add, close, expiry, change_rule, run, expired}

-- No timer, and the socket waits.
pub record Stuck (p : Ptr) (m : FdCollection) : Type 0 where
  pub timer : m.timer ≡ false
  pub waits : 1 ≤ times p m.pending_to_remove

some_left : (p : Ptr) (ps : List Ptr) → 1 ≤ times p ps → 1 ≤ length ps
unfolding times
some_left p [] h = absurd (omega arith)
some_left p (q ∷ ps) h = omega arith

times_head : (p : Ptr) (ps : List Ptr) → 1 ≤ times p (p ∷ ps)
unfolding times
times_head p ps = let z : one_if (p == p) ≡ 1 = ground arith in omega (arith, z)

module _ (p : Ptr) where
  rest-Stuck :
      (m n : FdCollection)
      → n.timer ≡ m.timer
      → n.pending_to_remove ≡ m.pending_to_remove
      → Stuck p m
      → Stuck p n
  rest-Stuck m n t l s = record {
    timer = t ∙ s.timer;
    waits = subst (λ ps. 1 ≤ times p ps) (sym l) s.waits;
  }

  write-Stuck : (fd : ℤ) (q : Ptr) (m : FdCollection) → Stuck p m → Stuck p (write_sockfd fd q m)
  write-Stuck fd q m s =
      let w = write_sockfd-rest fd q m in rest-Stuck m (write_sockfd fd q m) w.timer w.pending s

  del-Stuck : (fd : ℤ) (m : FdCollection) → Stuck p m → Stuck p (del fd m).1
  unfolding del clean_obj
  del-Stuck fd m s =
      let P : ℤ × FdCollection → Type 0 = λ r. Stuck p r.1 in
      let w = write-Stuck fd null m s in
      if_elim P (is_valid_fd fd m && not (get_sockfd fd m == null)) _ _
        (record { timer = w.timer; waits = w.waits }) s

  wait_for_close-Stuck :
      (r : Bool) (fd : ℤ) (m : FdCollection) → Stuck p m → Stuck p (wait_for_close r fd m).1
  unfolding wait_for_close times
  wait_for_close-Stuck r fd m s =
      let P : ℤ × FdCollection → Type 0 = λ z. Stuck p z.1 in
      let v = write_sockfd fd null m in
      let w = write-Stuck fd null m s in
      let l = some_left p v.pending_to_remove w.waits in
      let o : Stuck p (record v { pending_to_remove = get_sockfd fd m ∷ v.pending_to_remove }) =
        record { timer = w.timer; waits = omega (arith, w.waits) } in
      if_cases P (suc (length v.pending_to_remove) == 1) _ _ (λ e. absurd (ground arith)) (λ e. o)

  handle_close-Stuck :
      (c r : Bool) (fd : ℤ) (m : FdCollection) → Stuck p m → Stuck p (handle_close c r fd m)
  unfolding handle_close del_sockfd
  handle_close-Stuck c r fd m s =
      let P : FdCollection → Type 0 = Stuck p in
      let Q : ℤ × FdCollection → Type 0 = λ z. Stuck p z.1 in
      if_elim P (get_sockfd fd m == null) _ _ s (
        if_elim Q (get_sockfd fd m == null) _ _ s
          (if_elim Q c _ _ (del-Stuck fd m s) (wait_for_close-Stuck r fd m s)))

  store_socket-Stuck : (fd : ℤ) (m : FdCollection) → Stuck p m → Stuck p (store_socket fd m).1
  store_socket-Stuck fd m s =
      let w = write-Stuck fd m.next_object m s in record { timer = w.timer; waits = w.waits }

  new_socket-Stuck :
      (t : SockType) (udp tcp throws : Bool) (fd : ℤ) (m : FdCollection)
      → Stuck p m
      → Stuck p (new_socket t udp tcp throws fd m).1
  new_socket-Stuck sock_dgram udp tcp throws fd m s =
      let Q : ℤ × FdCollection → Type 0 = λ z. Stuck p z.1 in
      if_elim Q (udp || throws) _ _ s (store_socket-Stuck fd m s)
  new_socket-Stuck sock_stream udp tcp throws fd m s =
      let Q : ℤ × FdCollection → Type 0 = λ z. Stuck p z.1 in
      if_elim Q (tcp || throws) _ _ s (store_socket-Stuck fd m s)
  new_socket-Stuck other_type udp tcp throws fd m s = s

  addsocket-Stuck :
      (c r : Bool) (a : Asked) (fd : ℤ) (m : FdCollection)
      → Stuck p m
      → Stuck p (addsocket c r a fd m).1
  unfolding addsocket
  addsocket-Stuck c r a fd m s =
      let Q : ℤ × FdCollection → Type 0 = λ z. Stuck p z.1 in
      if_elim Q
        ((a.check_offload && not (create_offloaded_sockets a.thread m))
          || not a.domain_inet
          || not (is_valid_fd fd m))
        _ _ s
        (new_socket-Stuck a.sock_type a.udp_to_os a.tcp_to_os a.throws fd (handle_close c r fd m)
          (handle_close-Stuck c r fd m s))

  change_rule-Stuck :
      (o : Bool) (t : ℕ) (m : FdCollection)
      → Stuck p m
      → Stuck p (offloading_rule_change_thread o t m)
  unfolding offloading_rule_change_thread
  change_rule-Stuck o t m s =
      let P : FdCollection → Type 0 = Stuck p in
      if_elim P (same o m.offloaded_sockets) _ _ (record { timer = s.timer; waits = s.waits })
        (record { timer = s.timer; waits = s.waits })

  expired-Stuck : (c : Ptr → Bool) (m : FdCollection) → Stuck p m → Stuck p (expired c m)
  expired-Stuck c m s =
      let P : FdCollection → Type 0 = Stuck p in
      if_cases P m.timer _ _ (λ e. absurd (ground (arith, e, s.timer))) (λ e. s)

  run-Stuck : (ops : List Op) (m : FdCollection) → Stuck p m → Stuck p (run ops m)
  unfolding run
  run-Stuck [] m s = s
  run-Stuck (add c r a fd ∷ ops) m s = run-Stuck ops _ (addsocket-Stuck c r a fd m s)
  run-Stuck (close c r fd ∷ ops) m s = run-Stuck ops _ (handle_close-Stuck c r fd m s)
  run-Stuck (expiry c ∷ ops) m s = run-Stuck ops _ (expired-Stuck c m s)
  run-Stuck (change_rule o t ∷ ops) m s = run-Stuck ops _ (change_rule-Stuck o t m s)

and_false : (b : Bool) → (b && false) ≡ false
and_false b = ground arith

-- A socket that is not ready joins those that wait.
joins-Stuck :
    (r : Bool) (fd : ℤ) (m : FdCollection)
    → m.timer ≡ false
    → (get_sockfd fd m == null) ≡ false
    → ((length m.pending_to_remove == 0) && r) ≡ false
    → Stuck (get_sockfd fd m) (handle_close false r fd m)
unfolding handle_close del_sockfd wait_for_close
joins-Stuck r fd m t n a =
    let p = get_sockfd fd m in
    let w = write_sockfd-rest fd null m in
    let v = write_sockfd fd null m in
    let P : FdCollection → Type 0 = Stuck p in
    let Q : ℤ × FdCollection → Type 0 = λ z. Stuck p z.1 in
    let o : Stuck p (record v { pending_to_remove = p ∷ v.pending_to_remove }) = record {
      timer = w.timer ∙ t;
      waits = times_head p v.pending_to_remove;
    } in
    let one = ap length w.pending in
    if_cases P (p == null) _ _ (λ f. absurd (ground (arith, f, n)))
      (λ f.
        if_cases Q (p == null) _ _ (λ g. absurd (ground (arith, g, n)))
          (λ g.
            if_cases Q (suc (length v.pending_to_remove) == 1) _ _
              (λ b. if_cases Q r _ _ (λ c. absurd (ground (arith, a, b, c, one))) (λ c. o))
              (λ b. o)))

-- If a socket that is not ready is closed while none waits, and the timer cannot be registered, then
-- whatever sockets are added and closed later, no timer is registered any more, although that would
-- succeed again: this socket waits for ever, and so does every one that is closed later and not ready.
pub handle_close-forgotten :
    (ops more : List Op) (fd fd' : ℤ) (registered : Bool) (m : FdCollection)
    → m.pending_to_remove ≡ []
    → m.timer ≡ false
    → (get_sockfd fd m == null) ≡ false
    → (get_sockfd fd' (run ops (handle_close false false fd m)) == null) ≡ false
    → let later = run ops (handle_close false false fd m) in
      let last = run more (handle_close false registered fd' later) in
      (last.timer ≡ false)
      × (1 ≤ times (get_sockfd fd m) last.pending_to_remove)
      × (1 ≤ times (get_sockfd fd' later) last.pending_to_remove)
handle_close-forgotten ops more fd fd' registered m e t n n' =
    let p = get_sockfd fd m in
    let later = run ops (handle_close false false fd m) in
    let q = get_sockfd fd' later in
    let s =
      run-Stuck p ops _
        (joins-Stuck false fd m t n (and_false (length m.pending_to_remove == 0))) in
    let some = some_left p later.pending_to_remove s.waits in
    let z = run-Stuck p more _ (handle_close-Stuck p false registered fd' later s) in
    let y =
      run-Stuck q more _ (joins-Stuck registered fd' later s.timer n' (ground (arith, some))) in
    (z.timer, z.waits, y.waits)
