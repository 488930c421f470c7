-- ===== src/Timer/Update.antt =====
-- src/vma/event/delta_timer.cpp: the passing of time, and the run of the timers that are due.
-- The clock is an argument. A handler's `handle_timer_expired` is recorded and does not touch the
-- list: handlers reach it only through the action queue of `event_handler_manager`. The model is of
-- the build without DEFINED_SOCKETXTREME.
pub mod Elapse
pub mod Round
pub mod Expire
use mathlib.Core.Option
use libvma.Prelude.{
  ℕ, zero, suc, ◌+◌, ◌-◌, Bool, true, false, Option, none, some, List, [], ◌∷◌, leb, ltb, ◌==◌,
  if◌then◌else◌,
}
use libvma.Prelude.Int.{ℤ, pos, negsuc, ltb_ℤ, pos_part}
use libvma.Prelude.Word.{sub32, to_signed, to_int32}
use libvma.Timer.Clock.{Timespec, ts_sub, ts_to_msec}
use libvma.Timer.Nodes.{
  Ptr, ReqType, periodic_timer, one_shot_timer, invalid_timer, Node, with_delta, insert_to_list,
  remove_from_list, remove_timer, find, head_id, next_id,
}

pub record Timer : Type 0 where
  pub nodes : List Node
  pub ts_last : Timespec

abbrev pub infinite_timeout : ℤ
infinite_timeout = negsuc 0

-- The loop of `update_timeout`. A `delta_msec` that is not positive ends it, and is 0 here.
unfoldable pub elapse : ℕ → List Node → List Node
elapse zero l = l
elapse (suc d) [] = []
elapse (suc d) (n ∷ ns) =
    let rest = elapse (pos_part (to_signed (sub32 (suc d) n.delta_time_msec))) ns in
    if ltb_ℤ (pos (suc d)) (to_signed n.delta_time_msec)
    then with_delta (sub32 n.delta_time_msec (suc d)) n ∷ ns
    else with_delta 0 n ∷ rest

abbrev pub head_timeout : List Node → ℤ
head_timeout [] = infinite_timeout
head_timeout (n ∷ ns) = to_signed n.delta_time_msec

-- `now` is what `gettime` gave.
unfoldable pub update_timeout : Timespec → Timer → ℤ × Timer
update_timeout now t =
    let delta_msec = to_int32 (ts_to_msec (ts_sub now t.ts_last)) in
    let last = if ltb_ℤ (pos 0) delta_msec then now else t.ts_last in
    let nodes = elapse (pos_part delta_msec) t.nodes in
    (head_timeout nodes, record { nodes = nodes; ts_last = last })

-- The switch on the type of the node `n` after its handler has run.
abbrev pub reinsert_as : ReqType → Node → List Node → List Node
reinsert_as periodic_timer n l = insert_to_list n (remove_from_list n.id l)
reinsert_as one_shot_timer n l = remove_timer (some n.id) n.handler l
reinsert_as invalid_timer n l = l

unfoldable pub reinsert : Node → List Node → List Node
unfolding insert_to_list remove_from_list remove_timer
reinsert n l = reinsert_as n.req_type n l

abbrev pub Calls : Type 0
Calls = List (Ptr × Ptr)

abbrev pub and_call : Ptr × Ptr → Option (List Node × Calls) → Option (List Node × Calls)
and_call c none = none
and_call c (some (l, cs)) = some (l, c ∷ cs)

abbrev pub reinsert_found : Option Node → List Node → List Node
reinsert_found none l = l
reinsert_found (some n) l = reinsert n l

-- The test of the loop, at the node that `iter` points to, with the rounds that follow.
abbrev pub run_if_due :
    Option Node → List Node → Option (List Node × Calls) → Option (List Node × Calls)
run_if_due none l rest = some (l, [])
run_if_due (some n) l rest =
    if n.delta_time_msec == 0 then and_call (n.handler, n.user_data) rest else some (l, [])

-- The loop of `process_registered_timers` from the node `iter` on: the list that it leaves, and the
-- calls of `handle_timer_expired` in their order. `none` means that the fuel ran out.
pub process_from : ℕ → Option Ptr → List Node → Option (List Node × Calls)
process_from zero iter l = none
process_from (suc fuel) none l = some (l, [])
process_from (suc fuel) (some id) l =
    let rest = process_from fuel (next_id id l) (reinsert_found (find id l) l) in
    run_if_due (find id l) l rest

unfoldable pub process_registered_timers : ℕ → List Node → Option (List Node × Calls)
unfolding process_from reinsert
process_registered_timers fuel l = process_from fuel (head_id l) l
