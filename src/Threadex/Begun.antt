-- ===== src/Threadex/Begun.antt =====
-- src/threadex.c: no step of the thread or its owner leads back to YTHREADEX_READY.
use mathlib.Core.Option.{some-injective, some-ne-none}
use ylib.Base.{refl, Bool, true, false, none, some, ◌≡◌, ap, sym, subst}
use ylib.Base.Run.{Run}
use ylib.Threadex.{
  State, ready, System, start_post, work, handle, own, Internal, post_step, unlock_step, work_step,
  own_step, Shared,
}
use ylib.Threadex.Phases.{
  busy_created, busy_running, busy_cleaning, IsPhase, at_ready, at_starting, at_started0,
  at_started1, at_cancelling0, at_cancelling1, at_cancelling2, at_cancel_post0, at_cancel_post1,
  at_cancel_post2, at_cancelled0, at_cancelled1, at_cancelled2, at_end_cancelled, at_done_post0,
  at_done_post1, at_done0, at_done1, at_end, at_unstarted0, at_unstarted1, at_end_unstarted,
  no-lock,
}
use ylib.Threadex.Steps.{value_of}

abbrev pub is_ready : State → Bool
is_ready ready = true
is_ready _ = false

next-begun :
    {s t : System}
    → some (Run.done s) ≡ some (Run.done t)
    → is_ready s.state ≡ false
    → is_ready t.state ≡ false
unfolding value_of
next-begun {s} {t} e l =
    subst (λ (u : System). is_ready u.state ≡ false)
      (ap (value_of s) (some-injective (Run.done s) (Run.done t) e)) l

none-begun : {t : System} → none ≡ some (Run.done t) → is_ready t.state ≡ false
none-begun e = absurd (some-ne-none _ (sym e))

moved-begun : {s t : System} → some s ≡ some t → is_ready s.state ≡ false → is_ready t.state ≡ false
moved-begun {s} {t} e l = subst (λ (u : System). is_ready u.state ≡ false) (some-injective s t e) l

work-begun : (s t : System) → work s ≡ some (Run.done t) → IsPhase s → is_ready t.state ≡ false
unfolding work
work-begun _ t e at_ready = none-begun e
work-begun _ t e (at_starting busy_created) = next-begun e refl
work-begun _ t e (at_starting busy_running) = next-begun e refl
work-begun _ t e (at_starting busy_cleaning) = none-begun e
work-begun _ t e (at_started0 busy_created) = next-begun e refl
work-begun _ t e (at_started0 busy_running) = next-begun e refl
work-begun _ t e (at_started0 busy_cleaning) = next-begun e refl
work-begun _ t e (at_started1 busy_created) = next-begun e refl
work-begun _ t e (at_started1 busy_running) = next-begun e refl
work-begun _ t e (at_started1 busy_cleaning) = next-begun e refl
work-begun _ t e (at_cancelling0 busy_created) = next-begun e refl
work-begun _ t e (at_cancelling0 busy_running) = next-begun e refl
work-begun _ t e (at_cancelling0 busy_cleaning) = next-begun e refl
work-begun _ t e (at_cancelling1 busy_created) = next-begun e refl
work-begun _ t e (at_cancelling1 busy_running) = next-begun e refl
work-begun _ t e (at_cancelling1 busy_cleaning) = next-begun e refl
work-begun _ t e (at_cancelling2 busy_created) = next-begun e refl
work-begun _ t e (at_cancelling2 busy_running) = next-begun e refl
work-begun _ t e (at_cancelling2 busy_cleaning) = next-begun e refl
work-begun _ t e at_cancel_post0 = next-begun e refl
work-begun _ t e at_cancel_post1 = next-begun e refl
work-begun _ t e at_cancel_post2 = next-begun e refl
work-begun _ t e at_cancelled0 = none-begun e
work-begun _ t e at_cancelled1 = none-begun e
work-begun _ t e at_cancelled2 = none-begun e
work-begun _ t e at_end_cancelled = none-begun e
work-begun _ t e at_done_post0 = next-begun e refl
work-begun _ t e at_done_post1 = next-begun e refl
work-begun _ t e at_done0 = none-begun e
work-begun _ t e at_done1 = none-begun e
work-begun _ t e at_end = none-begun e
work-begun _ t e at_unstarted0 = none-begun e
work-begun _ t e at_unstarted1 = none-begun e
work-begun _ t e at_end_unstarted = none-begun e

own-begun : (s t : System) → own s ≡ some t → IsPhase s → is_ready t.state ≡ false
unfolding own handle
own-begun _ t e at_ready = absurd (some-ne-none t (sym e))
own-begun _ t e (at_starting _) = absurd (some-ne-none t (sym e))
own-begun _ t e (at_started0 _) = moved-begun e refl
own-begun _ t e (at_started1 _) = absurd (some-ne-none t (sym e))
own-begun _ t e (at_cancelling0 _) = moved-begun e refl
own-begun _ t e (at_cancelling1 _) = moved-begun e refl
own-begun _ t e (at_cancelling2 _) = absurd (some-ne-none t (sym e))
own-begun _ t e at_cancel_post0 = moved-begun e refl
own-begun _ t e at_cancel_post1 = moved-begun e refl
own-begun _ t e at_cancel_post2 = absurd (some-ne-none t (sym e))
own-begun _ t e at_cancelled0 = moved-begun e refl
own-begun _ t e at_cancelled1 = moved-begun e refl
own-begun _ t e at_cancelled2 = moved-begun e refl
own-begun _ t e at_end_cancelled = absurd (some-ne-none t (sym e))
own-begun _ t e at_done_post0 = moved-begun e refl
own-begun _ t e at_done_post1 = absurd (some-ne-none t (sym e))
own-begun _ t e at_done0 = moved-begun e refl
own-begun _ t e at_done1 = moved-begun e refl
own-begun _ t e at_end = absurd (some-ne-none t (sym e))
own-begun _ t e at_unstarted0 = moved-begun e refl
own-begun _ t e at_unstarted1 = moved-begun e refl
own-begun _ t e at_end_unstarted = absurd (some-ne-none t (sym e))

post-begun : (s : System) → s.holds_lock ≡ true → IsPhase s → is_ready (start_post s).state ≡ false
unfolding start_post
post-begun _ e at_ready = absurd (no-lock (sym e))
post-begun _ e (at_starting b) = refl
post-begun _ e (at_started0 _) = absurd (no-lock (sym e))
post-begun _ e (at_started1 _) = absurd (no-lock (sym e))
post-begun _ e (at_cancelling0 _) = absurd (no-lock (sym e))
post-begun _ e (at_cancelling1 _) = absurd (no-lock (sym e))
post-begun _ e (at_cancelling2 _) = absurd (no-lock (sym e))
post-begun _ e at_cancel_post0 = absurd (no-lock (sym e))
post-begun _ e at_cancel_post1 = absurd (no-lock (sym e))
post-begun _ e at_cancel_post2 = absurd (no-lock (sym e))
post-begun _ e at_cancelled0 = absurd (no-lock (sym e))
post-begun _ e at_cancelled1 = absurd (no-lock (sym e))
post-begun _ e at_cancelled2 = absurd (no-lock (sym e))
post-begun _ e at_end_cancelled = absurd (no-lock (sym e))
post-begun _ e at_done_post0 = absurd (no-lock (sym e))
post-begun _ e at_done_post1 = absurd (no-lock (sym e))
post-begun _ e at_done0 = absurd (no-lock (sym e))
post-begun _ e at_done1 = absurd (no-lock (sym e))
post-begun _ e at_end = absurd (no-lock (sym e))
post-begun _ e at_unstarted0 = absurd (no-lock (sym e))
post-begun _ e at_unstarted1 = absurd (no-lock (sym e))
post-begun _ e at_end_unstarted = absurd (no-lock (sym e))

pub Internal-begun :
    {h k : Shared}
    → Internal h k
    → IsPhase h.sys
    → is_ready h.sys.state ≡ false
    → is_ready k.sys.state ≡ false
Internal-begun (post_step e) v _ = post-begun _ e v
Internal-begun unlock_step v g = g
Internal-begun (work_step e _) v _ = work-begun _ _ e v
Internal-begun (own_step e) v _ = own-begun _ _ e v
