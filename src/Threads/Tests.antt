-- ===== src/Threads/Tests.antt =====
-- The theorems about threads in a kernel where the thread 300 runs, 400 is ready, and 100 and 200
-- wait at the semaphore 50 for two tokens and for three; the semaphore 60 is closed.
use os1_proj.Prelude.{
  ◌≡◌, refl, true, false, ◌&&◌, List, [], ◌∷◌, arith, ◌==◌, if◌then◌else◌, length,
}
use os1_proj.Threads.{null, Kernel, Tcb, regular, yield, Mode}
use os1_proj.Threads.Sync.{
  returns, wait, timed_wait, try_wait, signal, signal_all, close, err_sem_dead,
}
use os1_proj.Threads.Chains.{member, last}
use os1_proj.Threads.Ready.{IsQueue}
use os1_proj.Threads.Switch.{Switches, can_run, enqueue, yield-Switches}
use os1_proj.Threads.Waiting.{waiter, threads_of, IsWaiting, Waiter}
use os1_proj.Threads.Tokens.{AllOutside}
use os1_proj.Threads.Signal.{Signals, signal-Signals}
use os1_proj.Threads.Blocking.{take_blocked}
use os1_proj.Threads.Removal.Waiters.{drop_waiter, take_blocked-IsWaiting}
use os1_proj.Threads.Wait.{Waits, wait-Waits}
use os1_proj.Threads.Counts.{get_blocked_count, get_tokens_needed, needed, counts_waiting}
use os1_proj.Threads.Wakeup.{Closes, close-Closes, close_refuses}

abbrev pub fresh : Tcb
fresh = record {
  thread_id = 0;
  mode = Mode.user;
  parent = null;
  next_tcb = null;
  system_level_counter = 0;
  user_stack = null;
  system_stack = null;
  user_sp = null;
  system_sp = null;
  body = null;
  arg = 0;
  finished = false;
  exit_status = 0;
  next_ready = null;
  sem_join = null;
  sem_join_all = null;
  num_of_active_children = 0;
  time_slice = 2;
  sleeps = false;
  time_sleep_relative = 0;
  next_sleep = null;
  tokens_needed = 0;
  blocked_at_sem = null;
  next_sem_blocked = null;
  unblock_manner = regular;
  sem_send = null;
  sem_receive = null;
  message = [];
}

abbrev pub two_waiting : Kernel
two_waiting = record {
  tcb = λ x.
      if x == 100
      then record fresh { blocked_at_sem = 50; tokens_needed = 2; next_sem_blocked = 200 }
      else if x == 200
      then record fresh { blocked_at_sem = 50; tokens_needed = 3 }
      else fresh;
  sem = λ x.
      if x == 50
      then record {
        sem_id = 0;
        creator = null;
        next_sem = null;
        value = 0;
        blocked_head = 100;
        blocked_tail = 200;
        active = true;
      }
      else record {
        sem_id = 0;
        creator = null;
        next_sem = null;
        value = 0;
        blocked_head = null;
        blocked_tail = null;
        active = false;
      };
  running = 300;
  time_slice_counter = 1;
  ready_head = 400;
  ready_tail = 400;
  idle = 10;
  sleep_head = null;
  threads = 5;
  tcbs_head = null;
  tcbs_tail = null;
  sems_head = null;
  sems_tail = null;
  next_thread_id = 0;
  next_sem_id = 0;
}

abbrev waiters : List Waiter
waiters = waiter 100 2 ∷ waiter 200 3 ∷ []

ready_one : IsQueue two_waiting (400 ∷ [])
unfolding last member
ready_one = record { chain = (refl, ground arith, refl); at_tail = refl; distinct = (refl, tt) }

both_wait : IsWaiting two_waiting 50 waiters
unfolding last member threads_of
both_wait = record {
  chain = (refl, ground arith, (refl, ground arith, refl));
  at_tail = refl;
  distinct = (refl, (refl, tt));
  blocked = (refl, refl, (refl, refl, tt));
}

outside_both : AllOutside 10 (400 ∷ []) waiters
unfolding member
outside_both = (ground arith, refl, (ground arith, refl, tt))

signal-Signals_example : Signals two_waiting 50 4 waiters (400 ∷ []) (signal two_waiting 50 4)
signal-Signals_example =
    signal-Signals two_waiting 50 4 waiters (400 ∷ []) refl (omega arith) outside_both both_wait
      ready_one

close-Closes_example : Closes 50 waiters (400 ∷ []) (close two_waiting 50)
close-Closes_example =
    close-Closes two_waiting 50 waiters (400 ∷ []) refl (omega arith) outside_both both_wait
      ready_one

close_refuses_example :
    let g = (close two_waiting 50).0 in
    (wait g 50 1 ≡ (g, returns err_sem_dead))
    × (timed_wait g 50 7 1 ≡ (g, returns err_sem_dead))
    × (try_wait g 50 1 ≡ (g, err_sem_dead))
    × (signal g 50 1 ≡ (g, err_sem_dead))
    × (signal_all g 50 1 true ≡ (g, err_sem_dead))
    × (close g 50 ≡ (g, err_sem_dead))
close_refuses_example = close_refuses two_waiting 50 1 7 true

yield-Switches_example :
    Switches
      (yield two_waiting true)
      10
      (if can_run two_waiting && true then enqueue 10 300 (400 ∷ []) else 400 ∷ [])
unfolding member
yield-Switches_example = yield-Switches two_waiting true (400 ∷ []) refl ready_one

wait-Waits_example : Waits two_waiting 50 1 waiters (400 ∷ []) (wait two_waiting 50 1)
unfolding member threads_of
wait-Waits_example =
    wait-Waits two_waiting 50 1 waiters (400 ∷ []) refl (omega arith) (omega arith) refl refl
      both_wait ready_one

counts_waiting_example :
    (get_blocked_count two_waiting 50 ≡ length waiters)
    × (get_tokens_needed two_waiting 50 ≡ needed waiters)
unfolding needed
counts_waiting_example =
    counts_waiting two_waiting 50 waiters both_wait (omega arith) (omega arith) (omega arith)

take_blocked-IsWaiting_example :
    let (g, r) = take_blocked two_waiting 50 100 in
    (r ≡ 100) × IsWaiting g 50 (drop_waiter 100 waiters)
unfolding member threads_of
take_blocked-IsWaiting_example =
    take_blocked-IsWaiting two_waiting 50 100 waiters (omega arith) refl refl (omega arith)
      both_wait
