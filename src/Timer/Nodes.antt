-- ===== src/Timer/Nodes.antt =====
-- src/vma/event/delta_timer.h and delta_timer.cpp: the list of timer nodes and the operations on it.
-- The doubly linked chain from `m_list_head` is a list, and a node is known by its address `id`: the
-- `prev` and `next` pointers of a node in the list are its neighbours there. A `timer_node_t*`
-- argument points to a node of the list; at an address that is not in it the list stays as it is.
pub mod Due
pub mod Valid
pub mod Calls
pub mod RemoveAll
use libvma.Prelude.{
  ℕ, ◌+◌, ◌-◌, ◌≤◌, Bool, true, false, not, ◌&&◌, ◌||◌, Option, none, some, List, [], ◌∷◌, map, leb,
  ltb, ◌==◌, if◌then◌else◌,
}
use libvma.Prelude.Word.{add32, sub32}

abbrev pub Ptr : Type 0
Ptr = ℕ

abbrev pub null : Ptr
null = 0

-- `timer_req_type_t`
pub data ReqType : Type 0 where
  periodic_timer one_shot_timer invalid_timer : ReqType

pub record Node : Type 0 where
  pub id : Ptr
  pub delta_time_msec : ℕ
  pub orig_time_msec : ℕ
  pub handler : Ptr
  pub user_data : Ptr
  pub req_type : ReqType

abbrev pub is_invalid_type : ReqType → Bool
is_invalid_type invalid_timer = true
is_invalid_type periodic_timer = false
is_invalid_type one_shot_timer = false

-- IS_NODE_INVALID, of a pointer that is not NULL
abbrev pub is_node_invalid : Node → Bool
is_node_invalid n = n.handler == null || is_invalid_type n.req_type

abbrev pub with_delta : ℕ → Node → Node
with_delta d n = record n { delta_time_msec = d }

-- The walk of `insert_to_list` to the node's place. `tmp_delta` is what is left of its time there.
unfoldable pub insert_at : ℕ → Node → List Node → List Node
insert_at tmp_delta new [] = with_delta tmp_delta new ∷ []
insert_at tmp_delta new (n ∷ ns) =
    if leb n.delta_time_msec tmp_delta
    then n ∷ insert_at (sub32 tmp_delta n.delta_time_msec) new ns
    else with_delta tmp_delta new ∷ with_delta (sub32 n.delta_time_msec tmp_delta) n ∷ ns

unfoldable pub insert_to_list : Node → List Node → List Node
unfolding insert_at
insert_to_list new l = insert_at new.orig_time_msec new l

-- The time of a node that goes passes to the one behind it.
abbrev pub add_to_next : ℕ → List Node → List Node
add_to_next d [] = []
add_to_next d (n ∷ ns) = with_delta (add32 n.delta_time_msec d) n ∷ ns

unfoldable pub remove_from_list : Ptr → List Node → List Node
remove_from_list id [] = []
remove_from_list id (n ∷ ns) =
    if n.id == id then add_to_next n.delta_time_msec ns else n ∷ remove_from_list id ns

abbrev pub find : Ptr → List Node → Option Node
find id [] = none
find id (n ∷ ns) = if n.id == id then some n else find id ns

abbrev pub head_id : List Node → Option Ptr
head_id [] = none
head_id (n ∷ ns) = some n.id

-- `node->next`
abbrev pub next_id : Ptr → List Node → Option Ptr
next_id id [] = none
next_id id (n ∷ ns) = if n.id == id then head_id ns else next_id id ns

-- The memory at `id` is free to hold the node; an invalid one is freed again.
unfoldable pub add_new_timer : ℕ → Ptr → Ptr → Ptr → ReqType → List Node → List Node
unfolding insert_to_list
add_new_timer timeout_msec id handler user_data req_type l =
    let node : Node = record {
      id = id;
      delta_time_msec = 0;
      orig_time_msec = timeout_msec;
      handler = handler;
      user_data = user_data;
      req_type = req_type;
    } in
    if is_node_invalid node then l else insert_to_list node l

abbrev pub set_orig : Ptr → ℕ → List Node → List Node
set_orig id orig = map (λ n. if n.id == id then record n { orig_time_msec = orig } else n)

-- The node goes to where a node of time 0 goes, and gets its time back.
abbrev pub wakeup_node : Ptr → Option Node → List Node → List Node
wakeup_node id none l = l
wakeup_node id (some node) l =
    if is_node_invalid node
    then l
    else set_orig id node.orig_time_msec
        (insert_to_list (record node { orig_time_msec = 0 }) (remove_from_list id l))

unfoldable pub wakeup_timer : Ptr → List Node → List Node
unfolding insert_to_list remove_from_list
wakeup_timer id l = wakeup_node id (find id l) l

abbrev pub find_handler : Ptr → List Node → Option Node
find_handler handler [] = none
find_handler handler (n ∷ ns) = if n.handler == handler then some n else find_handler handler ns

abbrev pub remove_node : Ptr → Option Node → List Node → List Node
remove_node handler none l = l
remove_node handler (some n) l =
    if is_node_invalid n || not (n.handler == handler) then l else remove_from_list n.id l

-- With no node given, the first one of the handler.
unfoldable pub remove_timer : Option Ptr → Ptr → List Node → List Node
unfolding remove_from_list
remove_timer none handler l = remove_node handler (find_handler handler l) l
remove_timer (some id) handler l = remove_node handler (find id l) l

-- The nodes are visited as they stood at the start: what is removed is the node just visited, when
-- its `next` has been read.
visit_all : Ptr → List Node → List Node → List Node
visit_all handler [] l = l
visit_all handler (n ∷ ns) l =
    visit_all handler ns
      (if n.handler == handler && not (is_node_invalid n) then remove_from_list n.id l else l)

unfoldable pub remove_all_timers : Ptr → List Node → List Node
unfolding visit_all remove_from_list
remove_all_timers handler l = visit_all handler l l
