-- ===== src/Threadex/Tests.antt =====
-- src/threadex.c: a thread that is started, and cancelled while it runs.
use ylib.Base.{◌≡◌, true, false, some, [], ◌∷◌, ◌≢◌, ◌≤◌, refl, ap, arith}
use ylib.Base.Run.{fault}
use ylib.Threadex.{
  Shared, shared, unlock_step, terminated_cancelled, absent, on_cancelled, destroy, accepted, ready,
  cancelling, created, on_started, on_cancelling, start, start_post, cancel, work, internal_step,
  start_step, cancel_step, post_step, own_step, Reachable, here, later, own, handle,
}
use ylib.Threadex.Phases.{system}
use ylib.Threadex.Order.{IsOrderly, IsUnlocked, Reachable-IsOrderly}
use ylib.Threadex.Begun.{is_ready}
use ylib.Threadex.Ends.{Runs, stop, go, GoesOn, Runs-end}

-- it was cancelled before the owner handled the first message, and the call has yet to unlock
abbrev cancelled_early : Shared
cancelled_early =
    shared (system cancelling false created [] (on_started ∷ on_cancelling true ∷ [])) true

cancelled_early-Reachable : Reachable cancelled_early
unfolding start start_post cancel
cancelled_early-Reachable =
    later
      (later (later (later here (start_step accepted refl)) (internal_step (post_step refl)))
        (internal_step unlock_step))
      (cancel_step true refl)

Reachable-IsOrderly_example :
    (work cancelled_early.sys ≢ some fault)
    × IsOrderly cancelled_early.sys
    × IsUnlocked cancelled_early
Reachable-IsOrderly_example = Reachable-IsOrderly cancelled_early cancelled_early-Reachable

-- the owner handles both messages
abbrev both_handled : Shared
both_handled =
    shared (system cancelling false created (on_started ∷ on_cancelling true ∷ []) []) true

two_steps : Runs 2 cancelled_early both_handled
unfolding own handle
two_steps = go (own_step refl) (go (own_step refl) stop)

not_ready : cancelling ≢ ready
not_ready e = ground (arith, ap is_ready e)

Runs-end_example : (2 ≤ 8) × GoesOn both_handled
Runs-end_example =
    Runs-end 2 cancelled_early both_handled cancelled_early-Reachable not_ready two_steps

-- a thread that is cancelled before it is started, and that its owner can free while
-- `ythreadex_cancel` still holds its lock
abbrev freed_early : Shared
freed_early =
    shared (system terminated_cancelled false absent (on_cancelling false ∷ on_cancelled ∷ []) [])
      true

freed_early-Reachable : Reachable freed_early × (destroy freed_early.sys ≡ accepted)
unfolding cancel own handle
freed_early-Reachable = (
  later (later (later here (cancel_step true refl)) (internal_step (own_step refl)))
      (internal_step (own_step refl)),
  refl,
)
