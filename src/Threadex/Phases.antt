-- ===== src/Threadex/Phases.antt =====
-- src/threadex.c: the situations that a thread and its owner can be in.
use ylib.Base.{Bool, true, false, List, [], ◌∷◌, ◌≡◌, sym, arith}
use ylib.Threadex
use ylib.Threadex.{
  Reply, accepted, eperm, out_of_memory, failed, State, ready, started, cancelling, cancelled,
  terminated, terminated_cancelled, Message, on_started, on_done, on_cancelled, on_cancelling,
  Worker, absent, created, running, cleaning, exited, posting, System, start, start_post,
  start_sync, cancel, work, handle, own, Internal, post_step, work_step, own_step, Step,
  internal_step, start_step, sync_step, cancel_step, Reachable, here, later,
}

abbrev pub system : State → Bool → Worker → (log queue : List Message) → System
system st locked w log queue = record {
  state = st;
  holds_lock = locked;
  worker = w;
  log = log;
  queue = queue;
}

-- `thread_main` has not come to the change of the state in `thread_main_cleanup`
pub data IsBusy : Worker → Type 0 where
  busy_created : IsBusy created
  busy_running : IsBusy running
  busy_cleaning : IsBusy cleaning

-- By the state, the lock, the thread, the messages that are handled, and those that are to come.
pub data IsPhase : System → Type 0 where
  at_ready : IsPhase (system ready false absent ([]) ([]))
  at_starting : {w : Worker} → IsBusy w → IsPhase (system started true w ([]) ([]))
  at_started0 : {w : Worker} → IsBusy w → IsPhase (system started false w ([]) (on_started ∷ []))
  at_started1 : {w : Worker} → IsBusy w → IsPhase (system started false w (on_started ∷ []) ([]))
  at_cancelling0 :
      {w : Worker}
      → IsBusy w
      → IsPhase (system cancelling false w ([]) (on_started ∷ (on_cancelling true) ∷ []))
  at_cancelling1 :
      {w : Worker}
      → IsBusy w
      → IsPhase (system cancelling false w (on_started ∷ []) ((on_cancelling true) ∷ []))
  at_cancelling2 :
      {w : Worker}
      → IsBusy w
      → IsPhase (system cancelling false w (on_started ∷ (on_cancelling true) ∷ []) ([]))
  at_cancel_post0 :
      IsPhase (system cancelled false (posting true) ([]) (on_started ∷ (on_cancelling true) ∷ []))
  at_cancel_post1 :
      IsPhase (system cancelled false (posting true) (on_started ∷ []) ((on_cancelling true) ∷ []))
  at_cancel_post2 :
      IsPhase (system cancelled false (posting true) (on_started ∷ (on_cancelling true) ∷ []) ([]))
  at_cancelled0 :
      IsPhase
        (system cancelled false exited ([]) (on_started ∷ (on_cancelling true) ∷ on_cancelled ∷ []))
  at_cancelled1 :
      IsPhase
        (system cancelled false exited (on_started ∷ []) ((on_cancelling true) ∷ on_cancelled ∷ []))
  at_cancelled2 :
      IsPhase
        (system cancelled false exited (on_started ∷ (on_cancelling true) ∷ []) (on_cancelled ∷ []))
  at_end_cancelled : IsPhase (
      system terminated_cancelled false exited
        (on_started ∷ (on_cancelling true) ∷ on_cancelled ∷ [])
        ([]))
  at_done_post0 : IsPhase (system Threadex.done false (posting false) ([]) (on_started ∷ []))
  at_done_post1 : IsPhase (system Threadex.done false (posting false) (on_started ∷ []) ([]))
  at_done0 : IsPhase (system Threadex.done false exited ([]) (on_started ∷ on_done ∷ []))
  at_done1 : IsPhase (system Threadex.done false exited (on_started ∷ []) (on_done ∷ []))
  at_end : IsPhase (system terminated false exited (on_started ∷ on_done ∷ []) ([]))
  at_unstarted0 : IsPhase (system cancelling false absent ([]) ((on_cancelling false) ∷ []))
  at_unstarted1 :
      IsPhase (system cancelled false absent ((on_cancelling false) ∷ []) (on_cancelled ∷ []))
  at_end_unstarted :
      IsPhase
        (system terminated_cancelled false absent ((on_cancelling false) ∷ on_cancelled ∷ []) ([]))

pub no-lock : true ≡ false → ⊥
no-lock e = ground (arith, e)

-- the start
pub start-IsPhase :
    (r : Reply) (s : System) → s.holds_lock ≡ false → IsPhase s → IsPhase (start r s).1
unfolding start
start-IsPhase accepted _ e at_ready = at_starting busy_created
start-IsPhase out_of_memory _ e at_ready = at_ready
start-IsPhase failed _ e at_ready = at_ready
start-IsPhase eperm _ e at_ready = at_ready
start-IsPhase r _ e (at_starting b) = absurd (no-lock e)
start-IsPhase r _ e (at_started0 b) = at_started0 b
start-IsPhase r _ e (at_started1 b) = at_started1 b
start-IsPhase r _ e (at_cancelling0 b) = at_cancelling0 b
start-IsPhase r _ e (at_cancelling1 b) = at_cancelling1 b
start-IsPhase r _ e (at_cancelling2 b) = at_cancelling2 b
start-IsPhase r _ e at_cancel_post0 = at_cancel_post0
start-IsPhase r _ e at_cancel_post1 = at_cancel_post1
start-IsPhase r _ e at_cancel_post2 = at_cancel_post2
start-IsPhase r _ e at_cancelled0 = at_cancelled0
start-IsPhase r _ e at_cancelled1 = at_cancelled1
start-IsPhase r _ e at_cancelled2 = at_cancelled2
start-IsPhase r _ e at_end_cancelled = at_end_cancelled
start-IsPhase r _ e at_done_post0 = at_done_post0
start-IsPhase r _ e at_done_post1 = at_done_post1
start-IsPhase r _ e at_done0 = at_done0
start-IsPhase r _ e at_done1 = at_done1
start-IsPhase r _ e at_end = at_end
start-IsPhase r _ e at_unstarted0 = at_unstarted0
start-IsPhase r _ e at_unstarted1 = at_unstarted1
start-IsPhase r _ e at_end_unstarted = at_end_unstarted

pub start_post-IsPhase : (s : System) → s.holds_lock ≡ true → IsPhase s → IsPhase (start_post s)
unfolding start_post
start_post-IsPhase _ e at_ready = absurd (no-lock (sym e))
start_post-IsPhase _ e (at_starting b) = at_started0 b
start_post-IsPhase _ e (at_started0 _) = absurd (no-lock (sym e))
start_post-IsPhase _ e (at_started1 _) = absurd (no-lock (sym e))
start_post-IsPhase _ e (at_cancelling0 _) = absurd (no-lock (sym e))
start_post-IsPhase _ e (at_cancelling1 _) = absurd (no-lock (sym e))
start_post-IsPhase _ e (at_cancelling2 _) = absurd (no-lock (sym e))
start_post-IsPhase _ e at_cancel_post0 = absurd (no-lock (sym e))
start_post-IsPhase _ e at_cancel_post1 = absurd (no-lock (sym e))
start_post-IsPhase _ e at_cancel_post2 = absurd (no-lock (sym e))
start_post-IsPhase _ e at_cancelled0 = absurd (no-lock (sym e))
start_post-IsPhase _ e at_cancelled1 = absurd (no-lock (sym e))
start_post-IsPhase _ e at_cancelled2 = absurd (no-lock (sym e))
start_post-IsPhase _ e at_end_cancelled = absurd (no-lock (sym e))
start_post-IsPhase _ e at_done_post0 = absurd (no-lock (sym e))
start_post-IsPhase _ e at_done_post1 = absurd (no-lock (sym e))
start_post-IsPhase _ e at_done0 = absurd (no-lock (sym e))
start_post-IsPhase _ e at_done1 = absurd (no-lock (sym e))
start_post-IsPhase _ e at_end = absurd (no-lock (sym e))
start_post-IsPhase _ e at_unstarted0 = absurd (no-lock (sym e))
start_post-IsPhase _ e at_unstarted1 = absurd (no-lock (sym e))
start_post-IsPhase _ e at_end_unstarted = absurd (no-lock (sym e))

pub start_sync-IsPhase : (s : System) → s.holds_lock ≡ false → IsPhase s → IsPhase (start_sync s).1
unfolding start_sync
start_sync-IsPhase _ e at_ready = at_started0 busy_created
start_sync-IsPhase _ e (at_starting b) = absurd (no-lock e)
start_sync-IsPhase _ e (at_started0 b) = at_started0 b
start_sync-IsPhase _ e (at_started1 b) = at_started1 b
start_sync-IsPhase _ e (at_cancelling0 b) = at_cancelling0 b
start_sync-IsPhase _ e (at_cancelling1 b) = at_cancelling1 b
start_sync-IsPhase _ e (at_cancelling2 b) = at_cancelling2 b
start_sync-IsPhase _ e at_cancel_post0 = at_cancel_post0
start_sync-IsPhase _ e at_cancel_post1 = at_cancel_post1
start_sync-IsPhase _ e at_cancel_post2 = at_cancel_post2
start_sync-IsPhase _ e at_cancelled0 = at_cancelled0
start_sync-IsPhase _ e at_cancelled1 = at_cancelled1
start_sync-IsPhase _ e at_cancelled2 = at_cancelled2
start_sync-IsPhase _ e at_end_cancelled = at_end_cancelled
start_sync-IsPhase _ e at_done_post0 = at_done_post0
start_sync-IsPhase _ e at_done_post1 = at_done_post1
start_sync-IsPhase _ e at_done0 = at_done0
start_sync-IsPhase _ e at_done1 = at_done1
start_sync-IsPhase _ e at_end = at_end
start_sync-IsPhase _ e at_unstarted0 = at_unstarted0
start_sync-IsPhase _ e at_unstarted1 = at_unstarted1
start_sync-IsPhase _ e at_end_unstarted = at_end_unstarted

pub cancel-IsPhase :
    (granted : Bool) (s : System) → s.holds_lock ≡ false → IsPhase s → IsPhase (cancel granted s).1
unfolding cancel
cancel-IsPhase false s e v = v
cancel-IsPhase true _ e at_ready = at_unstarted0
cancel-IsPhase true _ e (at_starting b) = absurd (no-lock e)
cancel-IsPhase true _ e (at_started0 b) = at_cancelling0 b
cancel-IsPhase true _ e (at_started1 b) = at_cancelling1 b
cancel-IsPhase true _ e (at_cancelling0 b) = at_cancelling0 b
cancel-IsPhase true _ e (at_cancelling1 b) = at_cancelling1 b
cancel-IsPhase true _ e (at_cancelling2 b) = at_cancelling2 b
cancel-IsPhase true _ e at_cancel_post0 = at_cancel_post0
cancel-IsPhase true _ e at_cancel_post1 = at_cancel_post1
cancel-IsPhase true _ e at_cancel_post2 = at_cancel_post2
cancel-IsPhase true _ e at_cancelled0 = at_cancelled0
cancel-IsPhase true _ e at_cancelled1 = at_cancelled1
cancel-IsPhase true _ e at_cancelled2 = at_cancelled2
cancel-IsPhase true _ e at_end_cancelled = at_end_cancelled
cancel-IsPhase true _ e at_done_post0 = at_done_post0
cancel-IsPhase true _ e at_done_post1 = at_done_post1
cancel-IsPhase true _ e at_done0 = at_done0
cancel-IsPhase true _ e at_done1 = at_done1
cancel-IsPhase true _ e at_end = at_end
cancel-IsPhase true _ e at_unstarted0 = at_unstarted0
cancel-IsPhase true _ e at_unstarted1 = at_unstarted1
cancel-IsPhase true _ e at_end_unstarted = at_end_unstarted
