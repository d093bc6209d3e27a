-- ===== src/Threadex/Order.antt =====
-- src/ythreadex.h: the order of the callbacks, and what is left when `ythreadex_destroy` frees a thread.
use ylib.Base.{if◌then◌else◌, Bool, true, false, some, List, [], ◌∷◌, ◌≡◌, ◌≢◌, refl, ap, sym}
use ylib.Base.Run.{fault}
use ylib.Threadex
use ylib.Threadex.Unlocks.{Reachable-IsUnlocking, IsUnlocking-unstarted}
use ylib.Threadex.{
  Shared, State, ready, started, cancelling, cancelled, terminated, terminated_cancelled,
  is_terminated, Reply, accepted, eperm, Message, on_started, on_done, on_cancelled, on_cancelling,
  Worker, absent, exited, System, work, destroy, Reachable,
}
use ylib.Threadex.Phases.{
  IsPhase, at_ready, at_starting, at_started0, at_started1, at_cancelling0, at_cancelling1,
  at_cancelling2, at_cancel_post0, at_cancel_post1, at_cancel_post2, at_cancelled0, at_cancelled1,
  at_cancelled2, at_end_cancelled, at_done_post0, at_done_post1, at_done0, at_done1, at_end,
  at_unstarted0, at_unstarted1, at_end_unstarted, no-lock,
}
use ylib.Threadex.Steps.{Reachable-IsPhase, work-no_fault}

-- the sequences of callbacks that are whole
pub is_whole : List Message → Bool
is_whole (on_started ∷ on_done ∷ []) = true
is_whole (on_started ∷ on_cancelling true ∷ on_cancelled ∷ []) = true
is_whole (on_cancelling false ∷ on_cancelled ∷ []) = true
is_whole _ = false

-- the beginnings of those
pub is_begun : List Message → Bool
is_begun [] = true
is_begun (on_started ∷ []) = true
is_begun (on_started ∷ on_done ∷ []) = true
is_begun (on_started ∷ on_cancelling true ∷ []) = true
is_begun (on_started ∷ on_cancelling true ∷ on_cancelled ∷ []) = true
is_begun (on_cancelling false ∷ []) = true
is_begun (on_cancelling false ∷ on_cancelled ∷ []) = true
is_begun _ = false

-- `thread_main` does not run: it has not been started, or it has posted its last message
abbrev pub is_gone : Worker → Bool
is_gone absent = true
is_gone exited = true
is_gone _ = false

-- what the thread, its owner and `ythreadex_start` have done when the thread is freed
abbrev pub IsUnused : System → Type 0
IsUnused s =
    (s.queue ≡ []) × (is_gone s.worker ≡ true) × (s.holds_lock ≡ false) × (is_whole s.log ≡ true)

abbrev pub IsOrderly : System → Type 0
IsOrderly s = (is_begun s.log ≡ true) × (destroy s ≡ accepted → IsUnused s)

is_freed : Reply → Bool
is_freed accepted = true
is_freed _ = false

not_freed : eperm ≡ accepted → ⊥
unfolding is_freed
not_freed e = no-lock (sym (ap is_freed e))

IsPhase-IsOrderly : (s : System) → IsPhase s → IsOrderly s
unfolding is_whole is_begun
IsPhase-IsOrderly _ at_ready = (refl, λ e. absurd (not_freed e))
IsPhase-IsOrderly _ (at_starting _) = (refl, λ e. absurd (not_freed e))
IsPhase-IsOrderly _ (at_started0 _) = (refl, λ e. absurd (not_freed e))
IsPhase-IsOrderly _ (at_started1 _) = (refl, λ e. absurd (not_freed e))
IsPhase-IsOrderly _ (at_cancelling0 _) = (refl, λ e. absurd (not_freed e))
IsPhase-IsOrderly _ (at_cancelling1 _) = (refl, λ e. absurd (not_freed e))
IsPhase-IsOrderly _ (at_cancelling2 _) = (refl, λ e. absurd (not_freed e))
IsPhase-IsOrderly _ at_cancel_post0 = (refl, λ e. absurd (not_freed e))
IsPhase-IsOrderly _ at_cancel_post1 = (refl, λ e. absurd (not_freed e))
IsPhase-IsOrderly _ at_cancel_post2 = (refl, λ e. absurd (not_freed e))
IsPhase-IsOrderly _ at_cancelled0 = (refl, λ e. absurd (not_freed e))
IsPhase-IsOrderly _ at_cancelled1 = (refl, λ e. absurd (not_freed e))
IsPhase-IsOrderly _ at_cancelled2 = (refl, λ e. absurd (not_freed e))
IsPhase-IsOrderly _ at_end_cancelled = (refl, λ _. (refl, refl, refl, refl))
IsPhase-IsOrderly _ at_done_post0 = (refl, λ e. absurd (not_freed e))
IsPhase-IsOrderly _ at_done_post1 = (refl, λ e. absurd (not_freed e))
IsPhase-IsOrderly _ at_done0 = (refl, λ e. absurd (not_freed e))
IsPhase-IsOrderly _ at_done1 = (refl, λ e. absurd (not_freed e))
IsPhase-IsOrderly _ at_end = (refl, λ _. (refl, refl, refl, refl))
IsPhase-IsOrderly _ at_unstarted0 = (refl, λ e. absurd (not_freed e))
IsPhase-IsOrderly _ at_unstarted1 = (refl, λ e. absurd (not_freed e))
IsPhase-IsOrderly _ at_end_unstarted = (refl, λ _. (refl, refl, refl, refl))

-- what holds of the calls, too: a call may only be in the way of the freed thread if it cancelled one that was not started
abbrev pub IsUnlocked : Shared → Type 0
IsUnlocked h =
    h.unlocking ≡ true
    → destroy h.sys ≡ accepted
    → h.sys.log ≡ on_cancelling false ∷ on_cancelled ∷ []

freed-terminated :
    (st : State)
    → (if is_terminated st then accepted else eperm) ≡ accepted
    → is_terminated st ≡ true
freed-terminated ready e = absurd (not_freed e)
freed-terminated started e = absurd (not_freed e)
freed-terminated cancelling e = absurd (not_freed e)
freed-terminated cancelled e = absurd (not_freed e)
freed-terminated Threadex.done e = absurd (not_freed e)
freed-terminated terminated e = refl
freed-terminated terminated_cancelled e = refl

Reachable-IsUnlocked : (h : Shared) → Reachable h → IsUnlocked h
Reachable-IsUnlocked h r u f =
    IsUnlocking-unstarted h.sys (Reachable-IsUnlocking h r u) (freed-terminated h.sys.state f)

-- Whatever calls of `ythreadex_start`, `ythreadex_start_sync` and `ythreadex_cancel` come at any time, and however
-- the calls, the thread and its owner run between each other: no assertion of `thread_main` fails; the callbacks
-- come in one of the three orders of src/ythreadex.h, as far as they have come; when
-- `ythreadex_destroy` would free the thread, that order is whole, no message is to come, `thread_main` does
-- not run, and `ythreadex_start` is not before its message; and a call that has posted its message
-- and still holds the lock can then only be a `ythreadex_cancel` of a thread that was never started.
pub Reachable-IsOrderly :
    (h : Shared) → Reachable h → (work h.sys ≢ some fault) × IsOrderly h.sys × IsUnlocked h
Reachable-IsOrderly h r =
    let v = Reachable-IsPhase r in
    ((λ e. work-no_fault h.sys v e), IsPhase-IsOrderly h.sys v, Reachable-IsUnlocked h r)
