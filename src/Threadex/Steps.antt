-- ===== src/Threadex/Steps.antt =====
-- src/threadex.c: the steps of the thread and of its owner, from one situation to the next.
use mathlib.Core.Option.{some-injective, some-ne-none}
use ylib.Base.{Bool, true, false, Option, none, some, ◌≡◌, ap, sym, subst}
use ylib.Base.Run.{Run, fault}
use ylib.Threadex.{
  System, work, handle, own, Internal, post_step, unlock_step, work_step, own_step, Step, Shared,
  internal_step, start_step, sync_step, cancel_step, Reachable, here, later,
}
use ylib.Threadex.Phases.{
  busy_created, busy_running, busy_cleaning, IsPhase, at_ready, at_starting, at_started0,
  at_started1, at_cancelling0, at_cancelling1, at_cancelling2, at_cancel_post0, at_cancel_post1,
  at_cancel_post2, at_cancelled0, at_cancelled1, at_cancelled2, at_end_cancelled, at_done_post0,
  at_done_post1, at_done0, at_done1, at_end, at_unstarted0, at_unstarted1, at_end_unstarted,
  start-IsPhase, start_post-IsPhase, start_sync-IsPhase, cancel-IsPhase, no-lock,
}

unfoldable pub value_of : System → Run System → System
value_of s (Run.done t) = t
value_of s _ = s

-- the next system is the one that the step gives
next-IsPhase : {s t : System} → some (Run.done s) ≡ some (Run.done t) → IsPhase s → IsPhase t
unfolding value_of
next-IsPhase {s} {t} e v =
    subst IsPhase (ap (value_of s) (some-injective (Run.done s) (Run.done t) e)) v

none-IsPhase : {t : System} → none ≡ some (Run.done t) → IsPhase t
none-IsPhase e = absurd (some-ne-none _ (sym e))

work-IsPhase : (s t : System) → work s ≡ some (Run.done t) → IsPhase s → IsPhase t
unfolding work
work-IsPhase _ t e at_ready = none-IsPhase e
work-IsPhase _ t e (at_starting busy_created) = next-IsPhase e (at_starting busy_running)
work-IsPhase _ t e (at_starting busy_running) = next-IsPhase e (at_starting busy_cleaning)
work-IsPhase _ t e (at_starting busy_cleaning) = none-IsPhase e
work-IsPhase _ t e (at_started0 busy_created) = next-IsPhase e (at_started0 busy_running)
work-IsPhase _ t e (at_started0 busy_running) = next-IsPhase e (at_started0 busy_cleaning)
work-IsPhase _ t e (at_started0 busy_cleaning) = next-IsPhase e at_done_post0
work-IsPhase _ t e (at_started1 busy_created) = next-IsPhase e (at_started1 busy_running)
work-IsPhase _ t e (at_started1 busy_running) = next-IsPhase e (at_started1 busy_cleaning)
work-IsPhase _ t e (at_started1 busy_cleaning) = next-IsPhase e at_done_post1
work-IsPhase _ t e (at_cancelling0 busy_created) = next-IsPhase e (at_cancelling0 busy_cleaning)
work-IsPhase _ t e (at_cancelling0 busy_running) = next-IsPhase e (at_cancelling0 busy_cleaning)
work-IsPhase _ t e (at_cancelling0 busy_cleaning) = next-IsPhase e at_cancel_post0
work-IsPhase _ t e (at_cancelling1 busy_created) = next-IsPhase e (at_cancelling1 busy_cleaning)
work-IsPhase _ t e (at_cancelling1 busy_running) = next-IsPhase e (at_cancelling1 busy_cleaning)
work-IsPhase _ t e (at_cancelling1 busy_cleaning) = next-IsPhase e at_cancel_post1
work-IsPhase _ t e (at_cancelling2 busy_created) = next-IsPhase e (at_cancelling2 busy_cleaning)
work-IsPhase _ t e (at_cancelling2 busy_running) = next-IsPhase e (at_cancelling2 busy_cleaning)
work-IsPhase _ t e (at_cancelling2 busy_cleaning) = next-IsPhase e at_cancel_post2
work-IsPhase _ t e at_cancel_post0 = next-IsPhase e at_cancelled0
work-IsPhase _ t e at_cancel_post1 = next-IsPhase e at_cancelled1
work-IsPhase _ t e at_cancel_post2 = next-IsPhase e at_cancelled2
work-IsPhase _ t e at_cancelled0 = none-IsPhase e
work-IsPhase _ t e at_cancelled1 = none-IsPhase e
work-IsPhase _ t e at_cancelled2 = none-IsPhase e
work-IsPhase _ t e at_end_cancelled = none-IsPhase e
work-IsPhase _ t e at_done_post0 = next-IsPhase e at_done0
work-IsPhase _ t e at_done_post1 = next-IsPhase e at_done1
work-IsPhase _ t e at_done0 = none-IsPhase e
work-IsPhase _ t e at_done1 = none-IsPhase e
work-IsPhase _ t e at_end = none-IsPhase e
work-IsPhase _ t e at_unstarted0 = none-IsPhase e
work-IsPhase _ t e at_unstarted1 = none-IsPhase e
work-IsPhase _ t e at_end_unstarted = none-IsPhase e

has_faulted : Option (Run System) → Bool
has_faulted (some fault) = true
has_faulted _ = false

-- no assertion of `thread_main` fails
pub work-no_fault : (s : System) → IsPhase s → work s ≡ some fault → ⊥
unfolding work has_faulted
work-no_fault _ at_ready e = no-lock (sym (ap has_faulted e))
work-no_fault _ (at_starting busy_created) e = no-lock (sym (ap has_faulted e))
work-no_fault _ (at_starting busy_running) e = no-lock (sym (ap has_faulted e))
work-no_fault _ (at_starting busy_cleaning) e = no-lock (sym (ap has_faulted e))
work-no_fault _ (at_started0 busy_created) e = no-lock (sym (ap has_faulted e))
work-no_fault _ (at_started0 busy_running) e = no-lock (sym (ap has_faulted e))
work-no_fault _ (at_started0 busy_cleaning) e = no-lock (sym (ap has_faulted e))
work-no_fault _ (at_started1 busy_created) e = no-lock (sym (ap has_faulted e))
work-no_fault _ (at_started1 busy_running) e = no-lock (sym (ap has_faulted e))
work-no_fault _ (at_started1 busy_cleaning) e = no-lock (sym (ap has_faulted e))
work-no_fault _ (at_cancelling0 busy_created) e = no-lock (sym (ap has_faulted e))
work-no_fault _ (at_cancelling0 busy_running) e = no-lock (sym (ap has_faulted e))
work-no_fault _ (at_cancelling0 busy_cleaning) e = no-lock (sym (ap has_faulted e))
work-no_fault _ (at_cancelling1 busy_created) e = no-lock (sym (ap has_faulted e))
work-no_fault _ (at_cancelling1 busy_running) e = no-lock (sym (ap has_faulted e))
work-no_fault _ (at_cancelling1 busy_cleaning) e = no-lock (sym (ap has_faulted e))
work-no_fault _ (at_cancelling2 busy_created) e = no-lock (sym (ap has_faulted e))
work-no_fault _ (at_cancelling2 busy_running) e = no-lock (sym (ap has_faulted e))
work-no_fault _ (at_cancelling2 busy_cleaning) e = no-lock (sym (ap has_faulted e))
work-no_fault _ at_cancel_post0 e = no-lock (sym (ap has_faulted e))
work-no_fault _ at_cancel_post1 e = no-lock (sym (ap has_faulted e))
work-no_fault _ at_cancel_post2 e = no-lock (sym (ap has_faulted e))
work-no_fault _ at_cancelled0 e = no-lock (sym (ap has_faulted e))
work-no_fault _ at_cancelled1 e = no-lock (sym (ap has_faulted e))
work-no_fault _ at_cancelled2 e = no-lock (sym (ap has_faulted e))
work-no_fault _ at_end_cancelled e = no-lock (sym (ap has_faulted e))
work-no_fault _ at_done_post0 e = no-lock (sym (ap has_faulted e))
work-no_fault _ at_done_post1 e = no-lock (sym (ap has_faulted e))
work-no_fault _ at_done0 e = no-lock (sym (ap has_faulted e))
work-no_fault _ at_done1 e = no-lock (sym (ap has_faulted e))
work-no_fault _ at_end e = no-lock (sym (ap has_faulted e))
work-no_fault _ at_unstarted0 e = no-lock (sym (ap has_faulted e))
work-no_fault _ at_unstarted1 e = no-lock (sym (ap has_faulted e))
work-no_fault _ at_end_unstarted e = no-lock (sym (ap has_faulted e))

moved-IsPhase : {s t : System} → some s ≡ some t → IsPhase s → IsPhase t
moved-IsPhase {s} {t} e v = subst IsPhase (some-injective s t e) v

own-IsPhase : (s t : System) → own s ≡ some t → IsPhase s → IsPhase t
unfolding own handle
own-IsPhase _ t e at_ready = absurd (some-ne-none t (sym e))
own-IsPhase _ t e (at_starting _) = absurd (some-ne-none t (sym e))
own-IsPhase _ t e (at_started0 b) = moved-IsPhase e (at_started1 b)
own-IsPhase _ t e (at_started1 _) = absurd (some-ne-none t (sym e))
own-IsPhase _ t e (at_cancelling0 b) = moved-IsPhase e (at_cancelling1 b)
own-IsPhase _ t e (at_cancelling1 b) = moved-IsPhase e (at_cancelling2 b)
own-IsPhase _ t e (at_cancelling2 _) = absurd (some-ne-none t (sym e))
own-IsPhase _ t e at_cancel_post0 = moved-IsPhase e at_cancel_post1
own-IsPhase _ t e at_cancel_post1 = moved-IsPhase e at_cancel_post2
own-IsPhase _ t e at_cancel_post2 = absurd (some-ne-none t (sym e))
own-IsPhase _ t e at_cancelled0 = moved-IsPhase e at_cancelled1
own-IsPhase _ t e at_cancelled1 = moved-IsPhase e at_cancelled2
own-IsPhase _ t e at_cancelled2 = moved-IsPhase e at_end_cancelled
own-IsPhase _ t e at_end_cancelled = absurd (some-ne-none t (sym e))
own-IsPhase _ t e at_done_post0 = moved-IsPhase e at_done_post1
own-IsPhase _ t e at_done_post1 = absurd (some-ne-none t (sym e))
own-IsPhase _ t e at_done0 = moved-IsPhase e at_done1
own-IsPhase _ t e at_done1 = moved-IsPhase e at_end
own-IsPhase _ t e at_end = absurd (some-ne-none t (sym e))
own-IsPhase _ t e at_unstarted0 = moved-IsPhase e at_unstarted1
own-IsPhase _ t e at_unstarted1 = moved-IsPhase e at_end_unstarted
own-IsPhase _ t e at_end_unstarted = absurd (some-ne-none t (sym e))

pub Internal-IsPhase : {h k : Shared} → Internal h k → IsPhase h.sys → IsPhase k.sys
Internal-IsPhase (post_step e) v = start_post-IsPhase _ e v
Internal-IsPhase unlock_step v = v
Internal-IsPhase (work_step e _) v = work-IsPhase _ _ e v
Internal-IsPhase (own_step e) v = own-IsPhase _ _ e v

Step-IsPhase : {h k : Shared} → Step h k → IsPhase h.sys → IsPhase k.sys
Step-IsPhase (internal_step i) v = Internal-IsPhase i v
Step-IsPhase (start_step r e) v = start-IsPhase r _ e v
Step-IsPhase (sync_step e) v = start_sync-IsPhase _ e v
Step-IsPhase (cancel_step granted e) v = cancel-IsPhase granted _ e v

pub Reachable-IsPhase : {h : Shared} → Reachable h → IsPhase h.sys
Reachable-IsPhase here = at_ready
Reachable-IsPhase (later past last) = Step-IsPhase last (Reachable-IsPhase past)
