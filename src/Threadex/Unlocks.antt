-- ===== src/Threadex/Unlocks.antt =====
-- src/threadex.c: the situations in which a call has posted its message, and still holds the lock.
use mathlib.Core.Option.{some-injective, some-ne-none}
use ylib.Base.{Bool, true, false, some, [], ◌∷◌, ◌≡◌, ◌∙◌, refl, ap, sym, subst}
use ylib.Base.Run.{Run}
use ylib.Threadex.{
  is_terminated, is_ok, started, cancelling, cancelled, terminated_cancelled, on_started,
  on_cancelled, on_cancelling, Worker, absent, System, Shared, start_post, cancel, work, handle,
  own, Internal, post_step, unlock_step, work_step, own_step, internal_step, start_step, sync_step,
  cancel_step, Reachable, here, later, cleaning,
}
use ylib.Threadex.Phases.{
  system, IsBusy, busy_created, busy_running, busy_cleaning, IsPhase, at_ready, at_starting,
  at_started0, at_started1, at_cancelling0, at_cancelling1, at_cancelling2, at_cancel_post0,
  at_cancel_post1, at_cancel_post2, at_cancelled0, at_cancelled1, at_cancelled2, at_end_cancelled,
  at_done_post0, at_done_post1, at_done0, at_done1, at_end, at_unstarted0, at_unstarted1,
  at_end_unstarted, no-lock,
}
use ylib.Threadex.Steps.{value_of, Reachable-IsPhase}

-- The thread cannot have left `thread_main_cleanup`; the owner may have handled everything, if it was not started.
pub data IsUnlocking : System → Type 0 where
  un_started0 :
      {w : Worker} → IsBusy w → IsUnlocking (system started false w ([]) (on_started ∷ []))
  un_started1 :
      {w : Worker} → IsBusy w → IsUnlocking (system started false w (on_started ∷ []) ([]))
  un_cancelling0 :
      {w : Worker}
      → IsBusy w
      → IsUnlocking (system cancelling false w ([]) (on_started ∷ (on_cancelling true) ∷ []))
  un_cancelling1 :
      {w : Worker}
      → IsBusy w
      → IsUnlocking (system cancelling false w (on_started ∷ []) ((on_cancelling true) ∷ []))
  un_cancelling2 :
      {w : Worker}
      → IsBusy w
      → IsUnlocking (system cancelling false w (on_started ∷ (on_cancelling true) ∷ []) ([]))
  un_unstarted0 : IsUnlocking (system cancelling false absent ([]) ((on_cancelling false) ∷ []))
  un_unstarted1 :
      IsUnlocking (system cancelled false absent ((on_cancelling false) ∷ []) (on_cancelled ∷ []))
  un_end :
      IsUnlocking
        (system terminated_cancelled false absent ((on_cancelling false) ∷ on_cancelled ∷ []) ([]))

next-IsUnlocking :
    {s t : System} → some (Run.done s) ≡ some (Run.done t) → IsUnlocking s → IsUnlocking t
unfolding value_of
next-IsUnlocking {s} {t} e v =
    subst IsUnlocking (ap (value_of s) (some-injective (Run.done s) (Run.done t) e)) v

moved-IsUnlocking : {s t : System} → some s ≡ some t → IsUnlocking s → IsUnlocking t
moved-IsUnlocking {s} {t} e v = subst IsUnlocking (some-injective s t e) v

-- `thread_main_cleanup` waits
work-IsUnlocking :
    (s t : System)
    → work s ≡ some (Run.done t)
    → (s.worker ≡ cleaning → true ≡ false)
    → IsUnlocking s
    → IsUnlocking t
unfolding work
work-IsUnlocking _ t e c (un_started0 busy_created) = next-IsUnlocking e (un_started0 busy_running)
work-IsUnlocking _ t e c (un_started0 busy_running) = next-IsUnlocking e (un_started0 busy_cleaning)
work-IsUnlocking _ t e c (un_started0 busy_cleaning) = absurd (no-lock (c refl))
work-IsUnlocking _ t e c (un_started1 busy_created) = next-IsUnlocking e (un_started1 busy_running)
work-IsUnlocking _ t e c (un_started1 busy_running) = next-IsUnlocking e (un_started1 busy_cleaning)
work-IsUnlocking _ t e c (un_started1 busy_cleaning) = absurd (no-lock (c refl))
work-IsUnlocking _ t e c (un_cancelling0 busy_created) =
    next-IsUnlocking e (un_cancelling0 busy_cleaning)
work-IsUnlocking _ t e c (un_cancelling0 busy_running) =
    next-IsUnlocking e (un_cancelling0 busy_cleaning)
work-IsUnlocking _ t e c (un_cancelling0 busy_cleaning) = absurd (no-lock (c refl))
work-IsUnlocking _ t e c (un_cancelling1 busy_created) =
    next-IsUnlocking e (un_cancelling1 busy_cleaning)
work-IsUnlocking _ t e c (un_cancelling1 busy_running) =
    next-IsUnlocking e (un_cancelling1 busy_cleaning)
work-IsUnlocking _ t e c (un_cancelling1 busy_cleaning) = absurd (no-lock (c refl))
work-IsUnlocking _ t e c (un_cancelling2 busy_created) =
    next-IsUnlocking e (un_cancelling2 busy_cleaning)
work-IsUnlocking _ t e c (un_cancelling2 busy_running) =
    next-IsUnlocking e (un_cancelling2 busy_cleaning)
work-IsUnlocking _ t e c (un_cancelling2 busy_cleaning) = absurd (no-lock (c refl))
work-IsUnlocking _ t e c un_unstarted0 = absurd (some-ne-none _ (sym e))
work-IsUnlocking _ t e c un_unstarted1 = absurd (some-ne-none _ (sym e))
work-IsUnlocking _ t e c un_end = absurd (some-ne-none _ (sym e))

own-IsUnlocking : (s t : System) → own s ≡ some t → IsUnlocking s → IsUnlocking t
unfolding own handle
own-IsUnlocking _ t e (un_started0 b) = moved-IsUnlocking e (un_started1 b)
own-IsUnlocking _ t e (un_started1 _) = absurd (some-ne-none t (sym e))
own-IsUnlocking _ t e (un_cancelling0 b) = moved-IsUnlocking e (un_cancelling1 b)
own-IsUnlocking _ t e (un_cancelling1 b) = moved-IsUnlocking e (un_cancelling2 b)
own-IsUnlocking _ t e (un_cancelling2 _) = absurd (some-ne-none t (sym e))
own-IsUnlocking _ t e un_unstarted0 = moved-IsUnlocking e un_unstarted1
own-IsUnlocking _ t e un_unstarted1 = moved-IsUnlocking e un_end
own-IsUnlocking _ t e un_end = absurd (some-ne-none t (sym e))

post-IsUnlocking : (s : System) → s.holds_lock ≡ true → IsPhase s → IsUnlocking (start_post s)
unfolding start_post
post-IsUnlocking _ e at_ready = absurd (no-lock (sym e))
post-IsUnlocking _ e (at_starting b) = un_started0 b
post-IsUnlocking _ e (at_started0 _) = absurd (no-lock (sym e))
post-IsUnlocking _ e (at_started1 _) = absurd (no-lock (sym e))
post-IsUnlocking _ e (at_cancelling0 _) = absurd (no-lock (sym e))
post-IsUnlocking _ e (at_cancelling1 _) = absurd (no-lock (sym e))
post-IsUnlocking _ e (at_cancelling2 _) = absurd (no-lock (sym e))
post-IsUnlocking _ e at_cancel_post0 = absurd (no-lock (sym e))
post-IsUnlocking _ e at_cancel_post1 = absurd (no-lock (sym e))
post-IsUnlocking _ e at_cancel_post2 = absurd (no-lock (sym e))
post-IsUnlocking _ e at_cancelled0 = absurd (no-lock (sym e))
post-IsUnlocking _ e at_cancelled1 = absurd (no-lock (sym e))
post-IsUnlocking _ e at_cancelled2 = absurd (no-lock (sym e))
post-IsUnlocking _ e at_end_cancelled = absurd (no-lock (sym e))
post-IsUnlocking _ e at_done_post0 = absurd (no-lock (sym e))
post-IsUnlocking _ e at_done_post1 = absurd (no-lock (sym e))
post-IsUnlocking _ e at_done0 = absurd (no-lock (sym e))
post-IsUnlocking _ e at_done1 = absurd (no-lock (sym e))
post-IsUnlocking _ e at_end = absurd (no-lock (sym e))
post-IsUnlocking _ e at_unstarted0 = absurd (no-lock (sym e))
post-IsUnlocking _ e at_unstarted1 = absurd (no-lock (sym e))
post-IsUnlocking _ e at_end_unstarted = absurd (no-lock (sym e))

cancel-IsUnlocking :
    (granted : Bool) (s : System)
    → s.holds_lock ≡ false
    → IsPhase s
    → is_ok (cancel granted s).0 ≡ true
    → IsUnlocking (cancel granted s).1
unfolding cancel
cancel-IsUnlocking false s e v g = absurd (no-lock (sym g))
cancel-IsUnlocking true _ e at_ready g = un_unstarted0
cancel-IsUnlocking true _ e (at_starting b) g = absurd (no-lock e)
cancel-IsUnlocking true _ e (at_started0 b) g = un_cancelling0 b
cancel-IsUnlocking true _ e (at_started1 b) g = un_cancelling1 b
cancel-IsUnlocking true _ e (at_cancelling0 _) g = absurd (no-lock (sym g))
cancel-IsUnlocking true _ e (at_cancelling1 _) g = absurd (no-lock (sym g))
cancel-IsUnlocking true _ e (at_cancelling2 _) g = absurd (no-lock (sym g))
cancel-IsUnlocking true _ e at_cancel_post0 g = absurd (no-lock (sym g))
cancel-IsUnlocking true _ e at_cancel_post1 g = absurd (no-lock (sym g))
cancel-IsUnlocking true _ e at_cancel_post2 g = absurd (no-lock (sym g))
cancel-IsUnlocking true _ e at_cancelled0 g = absurd (no-lock (sym g))
cancel-IsUnlocking true _ e at_cancelled1 g = absurd (no-lock (sym g))
cancel-IsUnlocking true _ e at_cancelled2 g = absurd (no-lock (sym g))
cancel-IsUnlocking true _ e at_end_cancelled g = absurd (no-lock (sym g))
cancel-IsUnlocking true _ e at_done_post0 g = absurd (no-lock (sym g))
cancel-IsUnlocking true _ e at_done_post1 g = absurd (no-lock (sym g))
cancel-IsUnlocking true _ e at_done0 g = absurd (no-lock (sym g))
cancel-IsUnlocking true _ e at_done1 g = absurd (no-lock (sym g))
cancel-IsUnlocking true _ e at_end g = absurd (no-lock (sym g))
cancel-IsUnlocking true _ e at_unstarted0 g = absurd (no-lock (sym g))
cancel-IsUnlocking true _ e at_unstarted1 g = absurd (no-lock (sym g))
cancel-IsUnlocking true _ e at_end_unstarted g = absurd (no-lock (sym g))

Internal-IsUnlocking :
    {h k : Shared}
    → Internal h k
    → IsPhase h.sys
    → (h.unlocking ≡ true → IsUnlocking h.sys)
    → k.unlocking ≡ true
    → IsUnlocking k.sys
Internal-IsUnlocking (post_step e) v f g = post-IsUnlocking _ e v
Internal-IsUnlocking unlock_step v f g = absurd (no-lock (sym g))
Internal-IsUnlocking (work_step e c) v f g = work-IsUnlocking _ _ e (λ w. sym g ∙ c w) (f g)
Internal-IsUnlocking (own_step e) v f g = own-IsUnlocking _ _ e (f g)

pub Reachable-IsUnlocking : (h : Shared) → Reachable h → h.unlocking ≡ true → IsUnlocking h.sys
Reachable-IsUnlocking _ here g = absurd (no-lock (sym g))
Reachable-IsUnlocking _ (later past (internal_step i)) g =
    Internal-IsUnlocking i (Reachable-IsPhase past) (Reachable-IsUnlocking _ past) g
Reachable-IsUnlocking _ (later past (start_step r e)) g = absurd (no-lock (sym g))
Reachable-IsUnlocking _ (later past (sync_step e)) g = absurd (no-lock (sym g))
Reachable-IsUnlocking _ (later past (cancel_step granted e)) g =
    cancel-IsUnlocking granted _ e (Reachable-IsPhase past) g

-- the call is that of a thread that was not started, if it still holds the lock of a thread that is freed
pub IsUnlocking-unstarted :
    (s : System)
    → IsUnlocking s
    → is_terminated s.state ≡ true
    → s.log ≡ on_cancelling false ∷ on_cancelled ∷ []
IsUnlocking-unstarted _ (un_started0 _) e = absurd (no-lock (sym e))
IsUnlocking-unstarted _ (un_started1 _) e = absurd (no-lock (sym e))
IsUnlocking-unstarted _ (un_cancelling0 _) e = absurd (no-lock (sym e))
IsUnlocking-unstarted _ (un_cancelling1 _) e = absurd (no-lock (sym e))
IsUnlocking-unstarted _ (un_cancelling2 _) e = absurd (no-lock (sym e))
IsUnlocking-unstarted _ un_unstarted0 e = absurd (no-lock (sym e))
IsUnlocking-unstarted _ un_unstarted1 e = absurd (no-lock (sym e))
IsUnlocking-unstarted _ un_end e = refl
