-- ===== src/Timer/Nodes/Calls.antt =====
-- What the callers of src/vma/event/delta_timer.cpp get: `add_new_timer`, `wakeup_timer`, `remove_timer`
-- and `remove_all_timers` on a valid list.
use libvma.Prelude.{
  ℕ, ◌<◌, ◌^◌, ◌≡◌, refl, ap, ◌∙◌, subst, inl, inr, false, ◌||◌, Option, none, some, List, [], ◌∷◌,
  arith, leb, ◌==◌, if◌then◌else◌, Bool-cases, All, ==_iff,
}
use libvma.Prelude.Word.{sub32}
use libvma.Timer.Nodes.{
  Ptr, null, ReqType, Node, with_delta, insert_at, insert_to_list, remove_from_list, add_new_timer,
  wakeup_timer, remove_timer, remove_node, wakeup_node, set_orig, find, find_handler,
  is_node_invalid, is_invalid_type,
}
use libvma.Timer.Nodes.Due.{
  Schedule, due, place, unschedule, due-insert_at, due-insert_to_list, due-remove_from_list,
}
use libvma.Timer.Nodes.Valid.{
  Fresh, IsSound, IsValid, insert_at-IsValid, insert_to_list-IsValid, remove_from_list-IsValid,
  Fresh-remove_from_list,
}

abbrev pub new_node : ℕ → Ptr → Ptr → Ptr → ReqType → Node
new_node timeout_msec id handler user_data req_type = record {
  id = id;
  delta_time_msec = 0;
  orig_time_msec = timeout_msec;
  handler = handler;
  user_data = user_data;
  req_type = req_type;
}

-- A timer with a handler and a valid type is scheduled at its timeout, behind those that are due no
-- later; one without leaves the list as it is. The list stays valid. Conditions: the memory of the
-- new node is not in the list, and the timeout is an unsigned int.
pub add_new_timer_lem :
    (timeout_msec : ℕ) (id handler user_data : Ptr) (req_type : ReqType) (l : List Node)
    → IsValid l
    → Fresh id l
    → timeout_msec < 2 ^ 32
    → IsValid (add_new_timer timeout_msec id handler user_data req_type l)
      × (due (add_new_timer timeout_msec id handler user_data req_type l) ≡ (
          if handler == null || is_invalid_type req_type
          then due l
          else place timeout_msec (new_node timeout_msec id handler user_data req_type) (due l)))
unfolding add_new_timer
add_new_timer_lem timeout_msec id handler user_data req_type l v f h =
    elim (Bool-cases (handler == null || is_invalid_type req_type)) [
      | inl e ↦ rw e (v, refl)
      | inr e ↦
          let n = new_node timeout_msec id handler user_data req_type in
          rw e (insert_to_list-IsValid n l (e, h) f v, due-insert_to_list n l h v.fits)
    ]

pub find-id : (id : Ptr) (l : List Node) (n : Node) → find id l ≡ some n → n.id ≡ id
find-id id [] n h = absurd (ground arith)
find-id id (m ∷ ms) n h = ground (arith, find-id id ms n)

pub All-find :
    (P : Node → Type 0) (id : Ptr) (l : List Node) (n : Node) → All P l → find id l ≡ some n → P n
All-find P id [] n a h = absurd (ground arith)
All-find P id (m ∷ ms) n a h = elim (Bool-cases (m.id == id)) [
  | inl e ↦ let p : m ≡ n = ground arith in subst P p a.0
  | inr e ↦ All-find P id ms n a.1 (ground arith)
]

set_orig-Fresh : (id : Ptr) (orig : ℕ) (l : List Node) → Fresh id l → set_orig id orig l ≡ l
set_orig-Fresh id orig [] f = refl
set_orig-Fresh id orig (m ∷ ms) f =
    let p : (m.id == id) ≡ false = ground (arith, f.0) in
    rw p (ap (λ (x : List Node). m ∷ x) (set_orig-Fresh id orig ms f.1))

-- Giving its time back to a node that was inserted with another is to insert it with its own.
set_orig-insert_at :
    (t k : ℕ) (n : Node) (l : List Node)
    → Fresh n.id l
    → set_orig n.id n.orig_time_msec (insert_at t (record n { orig_time_msec = k }) l)
      ≡ insert_at t n l
unfolding insert_at
set_orig-insert_at t k n [] f = rw ((==_iff n.id n.id).1 refl)
set_orig-insert_at t k n (m ∷ ms) f = elim (Bool-cases (leb m.delta_time_msec t)) [
  | inl e ↦
      let p : (m.id == n.id) ≡ false = ground (arith, f.0) in
      rw (e, p)
        (ap (λ (x : List Node). m ∷ x) (set_orig-insert_at (sub32 t m.delta_time_msec) k n ms f.1))
  | inr e ↦
      rw (e, (==_iff n.id n.id).1 refl)
        (ap (λ (x : List Node). with_delta t n ∷ x)
          (set_orig-Fresh n.id n.orig_time_msec (with_delta (sub32 m.delta_time_msec t) m ∷ ms)
            (f.0, f.1)))
]

wakeup_timer-eq :
    (id : Ptr) (l : List Node) (n : Node)
    → IsValid l
    → find id l ≡ some n
    → wakeup_timer id l ≡ insert_at 0 n (remove_from_list id l)
unfolding wakeup_timer insert_to_list
wakeup_timer-eq id l n v h =
    let ok : is_node_invalid n ≡ false = (All-find IsSound id l n v.sound h).0 in
    let p = find-id id l n h in
    ap (λ o. wakeup_node id o l) h
    ∙ rw (ok, ← p)
        (set_orig-insert_at 0 0 n (remove_from_list n.id l)
          (rw p (Fresh-remove_from_list id l v.distinct)))

-- A node that is woken up is due at once, behind those that are due already; no other node moves and
-- the node keeps its timeout.
pub wakeup_timer_lem :
    (id : Ptr) (l : List Node) (n : Node)
    → IsValid l
    → find id l ≡ some n
    → IsValid (wakeup_timer id l) × (due (wakeup_timer id l) ≡ place 0 n (unschedule id (due l)))
wakeup_timer_lem id l n v h =
    let v' = remove_from_list-IsValid id l v in
    let p = find-id id l n h in
    rw (wakeup_timer-eq id l n v h) (
      insert_at-IsValid 0 n (remove_from_list id l) (omega arith)
          (All-find IsSound id l n v.sound h) (rw p (Fresh-remove_from_list id l v.distinct)) v',
      due-insert_at 0 0 n (remove_from_list id l) (omega arith) v'.fits
          ∙ ap (place 0 n) (due-remove_from_list id l v.fits),
    )

-- The node that `remove_timer` is about.
abbrev pub target : Option Ptr → Ptr → List Node → Option Node
target none handler l = find_handler handler l
target (some id) handler l = find id l

-- What is left of the schedule without the node, if it is the handler's.
abbrev pub dropped : Option Node → Ptr → Schedule → Schedule
dropped none handler s = s
dropped (some n) handler s = if n.handler == handler then unschedule n.id s else s

remove_node_lem :
    (handler : Ptr) (o : Option Node) (l : List Node)
    → IsValid l
    → ((n : Node) → o ≡ some n → IsSound n)
    → IsValid (remove_node handler o l)
      × (due (remove_node handler o l) ≡ dropped o handler (due l))
remove_node_lem handler none l v s = (v, refl)
remove_node_lem handler (some n) l v s = elim (Bool-cases (n.handler == handler)) [
  | inl e ↦
      let ok = (s n refl).0 in
      rw (ok, e) (remove_from_list-IsValid n.id l v, due-remove_from_list n.id l v.fits)
  | inr e ↦ let ok = (s n refl).0 in rw (ok, e) (v, refl)
]

All-find_handler :
    (P : Node → Type 0) (handler : Ptr) (l : List Node) (n : Node)
    → All P l
    → find_handler handler l ≡ some n
    → P n
All-find_handler P handler [] n a h = absurd (ground arith)
All-find_handler P handler (m ∷ ms) n a h = elim (Bool-cases (m.handler == handler)) [
  | inl e ↦ let p : m ≡ n = ground arith in subst P p a.0
  | inr e ↦ All-find_handler P handler ms n a.1 (ground arith)
]

-- `remove_timer` takes out the node that it is given, or the first one of the handler if it is given
-- none, but only if the node's handler is the one given; no other node moves.
pub remove_timer_lem :
    (node : Option Ptr) (handler : Ptr) (l : List Node)
    → IsValid l
    → IsValid (remove_timer node handler l)
      × (due (remove_timer node handler l) ≡ dropped (target node handler l) handler (due l))
unfolding remove_timer
remove_timer_lem none handler l v =
    remove_node_lem handler (find_handler handler l) l v
      (λ n e. All-find_handler IsSound handler l n v.sound e)
remove_timer_lem (some id) handler l v =
    remove_node_lem handler (find id l) l v (λ n e. All-find IsSound id l n v.sound e)

-- The schedule without the handler's nodes.
abbrev pub without : Ptr → Schedule → Schedule
without handler [] = []
without handler ((t, n) ∷ s) =
    if n.handler == handler then without handler s else (t, n) ∷ without handler s
