-- ===== src/FdCollection/Owned.antt =====
-- How often a socket of src/vma/sock/fd_collection.cpp is held or was cleaned up.
use libvma.Prelude.{
  ℕ, zero, suc, ◌+◌, ◌<◌, ◌≡◌, refl, Bool, true, false, ◌&&◌, not, List, [], ◌∷◌, ◌++◌, ◌==◌, ltb,
  length, get_or, set, if◌then◌else◌, arith, if_cases, if_elim, ◌∙◌, length-set, ap, sym,
}
use libvma.Prelude.Store.{Ptr, null}
use libvma.Prelude.Int.{ℤ, pos, negsuc}
use mathlib.Core.List.{append_assoc}
use libvma.FdCollection.{
  FdCollection, is_valid_fd, get_sockfd, write_sockfd, clean_obj, del, start_timer, wait_for_close,
  del_sockfd, handle_close, none_left, close_pending, close_each, handle_timer_expired,
}

abbrev pub one_if : Bool → ℕ
one_if b = if b then 1 else 0

unfoldable pub times : Ptr → List Ptr → ℕ
times p [] = 0
times p (q ∷ qs) = one_if (q == p) + times p qs

-- In the map, among those that wait, and cleaned up.
abbrev pub owned : Ptr → FdCollection → ℕ
owned p m = times p m.sockfd_map + times p m.pending_to_remove + times p m.cleaned

pub times-append : (p : Ptr) (ps qs : List Ptr) → times p (ps ++ qs) ≡ times p ps + times p qs
unfolding times
times-append p [] qs = omega arith
times-append p (q ∷ ps) qs = omega (arith, times-append p ps qs)

pub times-set :
    (p : Ptr) (ps : List Ptr) (i : ℕ) (q : Ptr)
    → i < length ps
    → times p (set ps i q) + one_if (get_or ps i null == p) ≡ times p ps + one_if (q == p)
unfolding times
times-set p [] i q h = absurd (omega arith)
times-set p (x ∷ ps) zero q h = omega arith
times-set p (x ∷ ps) (suc i) q h = omega (arith, times-set p ps i q (omega arith))

get_or-null : (ps : List Ptr) (i : ℕ) → ltb i (length ps) ≡ false → get_or ps i null ≡ null
get_or-null [] i h = refl
get_or-null (x ∷ ps) zero h = absurd (ground arith)
get_or-null (x ∷ ps) (suc i) h = get_or-null ps i (ground arith)

-- A descriptor that holds a socket is in range.
pub get_sockfd-valid :
    (fd : ℤ) (m : FdCollection) → (get_sockfd fd m == null) ≡ false → is_valid_fd fd m ≡ true
get_sockfd-valid (pos i) m h = ground (arith, get_or-null m.sockfd_map i)
get_sockfd-valid (negsuc i) m h = absurd (ground arith)

pub times-write_sockfd :
    (p : Ptr) (fd : ℤ) (q : Ptr) (m : FdCollection)
    → is_valid_fd fd m ≡ true
    → times p (write_sockfd fd q m).sockfd_map + one_if (get_sockfd fd m == p)
      ≡ times p m.sockfd_map + one_if (q == p)
times-write_sockfd p (pos i) q m h = times-set p m.sockfd_map i q (ground arith)
times-write_sockfd p (negsuc i) q m h = absurd (ground arith)

-- All but the map, whose size stays.
pub record SameRest (m m' : FdCollection) : Type 0 where
  pub pending : m'.pending_to_remove ≡ m.pending_to_remove
  pub cleaned : m'.cleaned ≡ m.cleaned
  pub next : m'.next_object ≡ m.next_object
  pub timer : m'.timer ≡ m.timer
  pub size : length m'.sockfd_map ≡ length m.sockfd_map

pub write_sockfd-rest : (fd : ℤ) (q : Ptr) (m : FdCollection) → SameRest m (write_sockfd fd q m)
write_sockfd-rest (pos i) q m = record {
  pending = refl;
  cleaned = refl;
  next = refl;
  timer = refl;
  size = length-set m.sockfd_map i q;
}
write_sockfd-rest (negsuc i) q m = record {
  pending = refl;
  cleaned = refl;
  next = refl;
  timer = refl;
  size = refl;
}

-- A call that hands sockets on but makes and loses none.
pub record Hands (m m' : FdCollection) : Type 0 where
  pub same_owned : (p : Ptr) → (null == p) ≡ false → owned p m' ≡ owned p m
  pub same_next : m'.next_object ≡ m.next_object
  pub same_size : length m'.sockfd_map ≡ length m.sockfd_map

pub Hands-refl : (m : FdCollection) → Hands m m
Hands-refl m = record { same_owned = λ p n. refl; same_next = refl; same_size = refl }

pub Hands-trans : (m n l : FdCollection) → Hands m n → Hands n l → Hands m l
Hands-trans m n l h g = record {
  same_owned = λ p e. g.same_owned p e ∙ h.same_owned p e;
  same_next = g.same_next ∙ h.same_next;
  same_size = g.same_size ∙ h.same_size;
}

-- A socket that is taken out of the map.
taken :
    (p : Ptr) (fd : ℤ) (m : FdCollection)
    → (null == p) ≡ false
    → is_valid_fd fd m ≡ true
    → times p (write_sockfd fd null m).sockfd_map + one_if (get_sockfd fd m == p)
      ≡ times p m.sockfd_map
taken p fd m n v =
    let t = times-write_sockfd p fd null m v in
    let z : one_if (null == p) ≡ 0 = ground (arith, n) in omega (arith, t, z)

del-Hands : (fd : ℤ) (m : FdCollection) → Hands m (del fd m).1
unfolding del clean_obj times
del-Hands fd m =
    let P : ℤ × FdCollection → Type 0 = λ r. Hands m r.1 in
    let w = write_sockfd-rest fd null m in
    if_cases P (is_valid_fd fd m && not (get_sockfd fd m == null)) _ _
      (λ e.
        let v : is_valid_fd fd m ≡ true = ground (arith, e) in
        record {
          same_owned = λ p n. omega (
            arith,
            taken p fd m n v,
            ap (λ l. times p l) w.pending,
            ap (λ l. times p l) w.cleaned,
          );
          same_next = w.next;
          same_size = w.size;
        })
      (λ e. Hands-refl m)

start_timer-Hands : (registered : Bool) (m : FdCollection) → Hands m (start_timer registered m).1
start_timer-Hands registered m =
    let P : ℤ × FdCollection → Type 0 = λ r. Hands m r.1 in
    let on : FdCollection = record m { timer = true } in
    if_elim P (length m.pending_to_remove == 1) _ _
      (if_elim P registered _ _
        (record { same_owned = λ p n. refl; same_next = refl; same_size = refl }) (Hands-refl m))
      (Hands-refl m)

wait_for_close-Hands :
    (registered : Bool) (fd : ℤ) (m : FdCollection)
    → is_valid_fd fd m ≡ true
    → Hands m (wait_for_close registered fd m).1
unfolding wait_for_close times
wait_for_close-Hands registered fd m v =
    let w = write_sockfd fd null m in
    let r = write_sockfd-rest fd null m in
    let l : FdCollection = record w { pending_to_remove = get_sockfd fd m ∷ w.pending_to_remove } in
    let h : Hands m l = record {
      same_owned = λ p n.
          omega
            (arith, taken p fd m n v, ap (λ l. times p l) r.pending, ap (λ l. times p l) r.cleaned);
      same_next = r.next;
      same_size = r.size;
    } in
    Hands-trans m l (start_timer registered l).1 h (start_timer-Hands registered l)

pub del_sockfd-Hands :
    (closable registered : Bool) (fd : ℤ) (m : FdCollection)
    → Hands m (del_sockfd closable registered fd m).1
unfolding del_sockfd
del_sockfd-Hands closable registered fd m =
    let P : ℤ × FdCollection → Type 0 = λ r. Hands m r.1 in
    if_cases P (get_sockfd fd m == null) _ _ (λ e. Hands-refl m)
      (λ e.
        if_elim P closable _ _ (del-Hands fd m)
          (wait_for_close-Hands registered fd m (get_sockfd-valid fd m e)))

pub handle_close-Hands :
    (closable registered : Bool) (fd : ℤ) (m : FdCollection)
    → Hands m (handle_close closable registered fd m)
unfolding handle_close
handle_close-Hands closable registered fd m =
    let P : FdCollection → Type 0 = λ r. Hands m r in
    if_elim P (get_sockfd fd m == null) _ _ (Hands-refl m)
      (del_sockfd-Hands closable registered fd m)

close_pending-Hands :
    (p : Ptr) (before after : List Ptr) (m : FdCollection)
    → m.pending_to_remove ≡ before ++ (p ∷ after)
    → Hands m (close_pending p (before ++ after) m)
unfolding clean_obj times
close_pending-Hands p before after m e =
    let P : FdCollection → Type 0 = λ r. Hands m r in
    let h = λ (q : Ptr).
      let a = ap (λ l. times q l) e in
      let b = times-append q before (p ∷ after) in
      let c = times-append q before after in
      let g : times q (before ++ after) + one_if (p == q) ≡ times q m.pending_to_remove =
        omega (arith, a, b, c) in
      g in
    if_elim P (none_left (before ++ after)) _ _
      (record { same_owned = λ q n. omega (arith, h q); same_next = refl; same_size = refl })
      (record { same_owned = λ q n. omega (arith, h q); same_next = refl; same_size = refl })

close_pending-left :
    (p : Ptr) (left : List Ptr) (m : FdCollection)
    → (close_pending p left m).pending_to_remove ≡ left
unfolding clean_obj
close_pending-left p left m = ground arith

pub close_each-Hands :
    (closable : Ptr → Bool) (before after : List Ptr) (m : FdCollection)
    → m.pending_to_remove ≡ before ++ after
    → Hands m (close_each closable before after m)
unfolding close_each
close_each-Hands closable before [] m e = Hands-refl m
close_each-Hands closable before (p ∷ after) m e =
    let P : FdCollection → Type 0 = λ r. Hands m r in
    let c = close_pending p (before ++ after) m in
    let ih = close_each-Hands closable before after c (close_pending-left p (before ++ after) m) in
    if_elim P (closable p) _ _ (Hands-trans m c _ (close_pending-Hands p before after m e) ih) (
      close_each-Hands closable (before ++ (p ∷ [])) after m
        (e ∙ sym (append_assoc before (p ∷ []) after)))

pub handle_timer_expired-Hands :
    (closable : Ptr → Bool) (m : FdCollection) → Hands m (handle_timer_expired closable m)
unfolding handle_timer_expired
handle_timer_expired-Hands closable m = close_each-Hands closable [] m.pending_to_remove m refl
