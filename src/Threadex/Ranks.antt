-- ===== src/Threadex/Ranks.antt =====
-- src/threadex.c: how many steps of the thread and its owner are left.
use mathlib.Core.Option.{some-injective, some-ne-none}
use ylib.Base.{
  ℕ, ◌+◌, ◌<◌, ◌≤◌, if◌then◌else◌, true, false, none, some, List, [], ◌∷◌, ◌≡◌, ap, sym, subst,
  arith,
}
use ylib.Base.Run.{Run}
use ylib.Threadex.{
  Message, on_cancelling, Worker, created, running, cleaning, posting, System, start_post, work,
  handle, own, Internal, post_step, unlock_step, work_step, own_step, Shared,
}
use ylib.Threadex.Phases.{
  busy_created, busy_running, busy_cleaning, IsPhase, at_ready, at_starting, at_started0,
  at_started1, at_cancelling0, at_cancelling1, at_cancelling2, at_cancel_post0, at_cancel_post1,
  at_cancel_post2, at_cancelled0, at_cancelled1, at_cancelled2, at_end_cancelled, at_done_post0,
  at_done_post1, at_done0, at_done1, at_end, at_unstarted0, at_unstarted1, at_end_unstarted,
  no-lock,
}
use ylib.Threadex.Steps.{value_of}

abbrev message_rank : Message → ℕ
message_rank (on_cancelling false) = 2
message_rank _ = 1

abbrev queue_rank : List Message → ℕ
queue_rank [] = 0
queue_rank (m ∷ ms) = message_rank m + queue_rank ms

abbrev worker_rank : Worker → ℕ
worker_rank created = 5
worker_rank running = 4
worker_rank cleaning = 3
worker_rank (posting _) = 2
worker_rank _ = 0

-- the steps that are left
unfoldable pub rank : System → ℕ
rank s = worker_rank s.worker + (queue_rank s.queue + (if s.holds_lock then 3 else 0))

next-lt : {s t : System} (k : ℕ) → some (Run.done s) ≡ some (Run.done t) → rank s < k → rank t < k
unfolding value_of
next-lt {s} {t} k e l =
    subst (λ (u : System). rank u < k)
      (ap (value_of s) (some-injective (Run.done s) (Run.done t) e)) l

none-lt : {t : System} (k : ℕ) → none ≡ some (Run.done t) → rank t < k
none-lt k e = absurd (some-ne-none _ (sym e))

moved-lt : {s t : System} (k : ℕ) → some s ≡ some t → rank s < k → rank t < k
moved-lt {s} {t} k e l = subst (λ (u : System). rank u < k) (some-injective s t e) l

work-lt : (s t : System) → work s ≡ some (Run.done t) → IsPhase s → rank t < rank s
unfolding work rank
work-lt _ t e at_ready = none-lt _ e
work-lt _ t e (at_starting busy_created) = next-lt _ e (omega arith)
work-lt _ t e (at_starting busy_running) = next-lt _ e (omega arith)
work-lt _ t e (at_starting busy_cleaning) = none-lt _ e
work-lt _ t e (at_started0 busy_created) = next-lt _ e (omega arith)
work-lt _ t e (at_started0 busy_running) = next-lt _ e (omega arith)
work-lt _ t e (at_started0 busy_cleaning) = next-lt _ e (omega arith)
work-lt _ t e (at_started1 busy_created) = next-lt _ e (omega arith)
work-lt _ t e (at_started1 busy_running) = next-lt _ e (omega arith)
work-lt _ t e (at_started1 busy_cleaning) = next-lt _ e (omega arith)
work-lt _ t e (at_cancelling0 busy_created) = next-lt _ e (omega arith)
work-lt _ t e (at_cancelling0 busy_running) = next-lt _ e (omega arith)
work-lt _ t e (at_cancelling0 busy_cleaning) = next-lt _ e (omega arith)
work-lt _ t e (at_cancelling1 busy_created) = next-lt _ e (omega arith)
work-lt _ t e (at_cancelling1 busy_running) = next-lt _ e (omega arith)
work-lt _ t e (at_cancelling1 busy_cleaning) = next-lt _ e (omega arith)
work-lt _ t e (at_cancelling2 busy_created) = next-lt _ e (omega arith)
work-lt _ t e (at_cancelling2 busy_running) = next-lt _ e (omega arith)
work-lt _ t e (at_cancelling2 busy_cleaning) = next-lt _ e (omega arith)
work-lt _ t e at_cancel_post0 = next-lt _ e (omega arith)
work-lt _ t e at_cancel_post1 = next-lt _ e (omega arith)
work-lt _ t e at_cancel_post2 = next-lt _ e (omega arith)
work-lt _ t e at_cancelled0 = none-lt _ e
work-lt _ t e at_cancelled1 = none-lt _ e
work-lt _ t e at_cancelled2 = none-lt _ e
work-lt _ t e at_end_cancelled = none-lt _ e
work-lt _ t e at_done_post0 = next-lt _ e (omega arith)
work-lt _ t e at_done_post1 = next-lt _ e (omega arith)
work-lt _ t e at_done0 = none-lt _ e
work-lt _ t e at_done1 = none-lt _ e
work-lt _ t e at_end = none-lt _ e
work-lt _ t e at_unstarted0 = none-lt _ e
work-lt _ t e at_unstarted1 = none-lt _ e
work-lt _ t e at_end_unstarted = none-lt _ e

own-lt : (s t : System) → own s ≡ some t → IsPhase s → rank t < rank s
unfolding own handle rank
own-lt _ t e at_ready = absurd (some-ne-none t (sym e))
own-lt _ t e (at_starting _) = absurd (some-ne-none t (sym e))
own-lt _ t e (at_started0 _) = moved-lt _ e (omega arith)
own-lt _ t e (at_started1 _) = absurd (some-ne-none t (sym e))
own-lt _ t e (at_cancelling0 _) = moved-lt _ e (omega arith)
own-lt _ t e (at_cancelling1 _) = moved-lt _ e (omega arith)
own-lt _ t e (at_cancelling2 _) = absurd (some-ne-none t (sym e))
own-lt _ t e at_cancel_post0 = moved-lt _ e (omega arith)
own-lt _ t e at_cancel_post1 = moved-lt _ e (omega arith)
own-lt _ t e at_cancel_post2 = absurd (some-ne-none t (sym e))
own-lt _ t e at_cancelled0 = moved-lt _ e (omega arith)
own-lt _ t e at_cancelled1 = moved-lt _ e (omega arith)
own-lt _ t e at_cancelled2 = moved-lt _ e (omega arith)
own-lt _ t e at_end_cancelled = absurd (some-ne-none t (sym e))
own-lt _ t e at_done_post0 = moved-lt _ e (omega arith)
own-lt _ t e at_done_post1 = absurd (some-ne-none t (sym e))
own-lt _ t e at_done0 = moved-lt _ e (omega arith)
own-lt _ t e at_done1 = moved-lt _ e (omega arith)
own-lt _ t e at_end = absurd (some-ne-none t (sym e))
own-lt _ t e at_unstarted0 = moved-lt _ e (omega arith)
own-lt _ t e at_unstarted1 = moved-lt _ e (omega arith)
own-lt _ t e at_end_unstarted = absurd (some-ne-none t (sym e))

post-lt : (s : System) → s.holds_lock ≡ true → IsPhase s → rank (start_post s) + 1 < rank s
unfolding start_post rank
post-lt _ e at_ready = absurd (no-lock (sym e))
post-lt _ e (at_starting b) = omega arith
post-lt _ e (at_started0 _) = absurd (no-lock (sym e))
post-lt _ e (at_started1 _) = absurd (no-lock (sym e))
post-lt _ e (at_cancelling0 _) = absurd (no-lock (sym e))
post-lt _ e (at_cancelling1 _) = absurd (no-lock (sym e))
post-lt _ e (at_cancelling2 _) = absurd (no-lock (sym e))
post-lt _ e at_cancel_post0 = absurd (no-lock (sym e))
post-lt _ e at_cancel_post1 = absurd (no-lock (sym e))
post-lt _ e at_cancel_post2 = absurd (no-lock (sym e))
post-lt _ e at_cancelled0 = absurd (no-lock (sym e))
post-lt _ e at_cancelled1 = absurd (no-lock (sym e))
post-lt _ e at_cancelled2 = absurd (no-lock (sym e))
post-lt _ e at_end_cancelled = absurd (no-lock (sym e))
post-lt _ e at_done_post0 = absurd (no-lock (sym e))
post-lt _ e at_done_post1 = absurd (no-lock (sym e))
post-lt _ e at_done0 = absurd (no-lock (sym e))
post-lt _ e at_done1 = absurd (no-lock (sym e))
post-lt _ e at_end = absurd (no-lock (sym e))
post-lt _ e at_unstarted0 = absurd (no-lock (sym e))
post-lt _ e at_unstarted1 = absurd (no-lock (sym e))
post-lt _ e at_end_unstarted = absurd (no-lock (sym e))

-- those of a call that has only to unlock, too
unfoldable pub shared_rank : Shared → ℕ
shared_rank h = rank h.sys + (if h.unlocking then 1 else 0)

pub Internal-lt : {h k : Shared} → Internal h k → IsPhase h.sys → shared_rank k < shared_rank h
unfolding shared_rank
Internal-lt (post_step e) v = omega (arith, post-lt _ e v)
Internal-lt unlock_step v = omega arith
Internal-lt (work_step e _) v = omega (arith, work-lt _ _ e v)
Internal-lt (own_step e) v = omega (arith, own-lt _ _ e v)

pub rank-le : (s : System) → IsPhase s → rank s ≤ 8
unfolding rank
rank-le _ (at_starting busy_created) = omega arith
rank-le _ (at_starting busy_running) = omega arith
rank-le _ (at_starting busy_cleaning) = omega arith
rank-le _ (at_started0 busy_created) = omega arith
rank-le _ (at_started0 busy_running) = omega arith
rank-le _ (at_started0 busy_cleaning) = omega arith
rank-le _ (at_started1 busy_created) = omega arith
rank-le _ (at_started1 busy_running) = omega arith
rank-le _ (at_started1 busy_cleaning) = omega arith
rank-le _ (at_cancelling0 busy_created) = omega arith
rank-le _ (at_cancelling0 busy_running) = omega arith
rank-le _ (at_cancelling0 busy_cleaning) = omega arith
rank-le _ (at_cancelling1 busy_created) = omega arith
rank-le _ (at_cancelling1 busy_running) = omega arith
rank-le _ (at_cancelling1 busy_cleaning) = omega arith
rank-le _ (at_cancelling2 busy_created) = omega arith
rank-le _ (at_cancelling2 busy_running) = omega arith
rank-le _ (at_cancelling2 busy_cleaning) = omega arith
rank-le _ at_ready = omega arith
rank-le _ at_cancel_post0 = omega arith
rank-le _ at_cancel_post1 = omega arith
rank-le _ at_cancel_post2 = omega arith
rank-le _ at_cancelled0 = omega arith
rank-le _ at_cancelled1 = omega arith
rank-le _ at_cancelled2 = omega arith
rank-le _ at_end_cancelled = omega arith
rank-le _ at_done_post0 = omega arith
rank-le _ at_done_post1 = omega arith
rank-le _ at_done0 = omega arith
rank-le _ at_done1 = omega arith
rank-le _ at_end = omega arith
rank-le _ at_unstarted0 = omega arith
rank-le _ at_unstarted1 = omega arith
rank-le _ at_end_unstarted = omega arith
