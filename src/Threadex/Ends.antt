-- ===== src/Threadex/Ends.antt =====
-- src/threadex.c: that a thread that is started or cancelled comes to an end.
use ylib.Base.{Bool, ◌+◌, true, ℕ, zero, suc, ◌≤◌, ◌⊎◌, inl, inr, refl, false, ◌≡◌, ◌≢◌, arith}
use ylib.Threadex
use ylib.Threadex.{
  Reply, accepted, eperm, out_of_memory, failed, State, ready, started, cancelling, cancelled,
  terminated, terminated_cancelled, Message, on_started, on_done, on_cancelled, on_cancelling,
  Worker, absent, created, running, cleaning, exited, posting, System, start, start_post,
  start_sync, cancel, work, handle, own, destroy, Internal, post_step, unlock_step, work_step,
  own_step, Shared, shared, Step, internal_step, start_step, sync_step, cancel_step, Reachable,
  here, later,
}
use ylib.Threadex.Phases.{
  busy_created, busy_running, busy_cleaning, IsPhase, at_ready, at_starting, at_started0,
  at_started1, at_cancelling0, at_cancelling1, at_cancelling2, at_cancel_post0, at_cancel_post1,
  at_cancel_post2, at_cancelled0, at_cancelled1, at_cancelled2, at_end_cancelled, at_done_post0,
  at_done_post1, at_done0, at_done1, at_end, at_unstarted0, at_unstarted1, at_end_unstarted,
  no-lock,
}
use ylib.Threadex.Steps.{Internal-IsPhase, Reachable-IsPhase}
use ylib.Threadex.Ranks.{rank, rank-le, shared_rank, Internal-lt}
use ylib.Threadex.Unlocks.{
  IsUnlocking, un_started0, un_started1, un_cancelling0, un_cancelling1, un_cancelling2,
  un_unstarted0, un_unstarted1, un_end, Reachable-IsUnlocking,
}
use ylib.Threadex.Begun.{is_ready, Internal-begun}

-- the thread has ended, or goes on
abbrev pub GoesOn : Shared → Type 0
GoesOn h = (destroy h.sys ≡ accepted) ⊎ ((k : Shared) × Internal h k)

IsPhase-GoesOn : (s : System) → is_ready s.state ≡ false → IsPhase s → GoesOn (shared s false)
unfolding work own handle
IsPhase-GoesOn _ g at_ready = absurd (no-lock g)
IsPhase-GoesOn _ g (at_starting _) = inr (_, post_step refl)
IsPhase-GoesOn _ g (at_started0 _) = inr (_, own_step refl)
IsPhase-GoesOn _ g (at_started1 busy_created) = inr (_, work_step refl (λ _. refl))
IsPhase-GoesOn _ g (at_started1 busy_running) = inr (_, work_step refl (λ _. refl))
IsPhase-GoesOn _ g (at_started1 busy_cleaning) = inr (_, work_step refl (λ _. refl))
IsPhase-GoesOn _ g (at_cancelling0 _) = inr (_, own_step refl)
IsPhase-GoesOn _ g (at_cancelling1 _) = inr (_, own_step refl)
IsPhase-GoesOn _ g (at_cancelling2 busy_created) = inr (_, work_step refl (λ _. refl))
IsPhase-GoesOn _ g (at_cancelling2 busy_running) = inr (_, work_step refl (λ _. refl))
IsPhase-GoesOn _ g (at_cancelling2 busy_cleaning) = inr (_, work_step refl (λ _. refl))
IsPhase-GoesOn _ g at_cancel_post0 = inr (_, own_step refl)
IsPhase-GoesOn _ g at_cancel_post1 = inr (_, own_step refl)
IsPhase-GoesOn _ g at_cancel_post2 = inr (_, work_step refl (λ _. refl))
IsPhase-GoesOn _ g at_cancelled0 = inr (_, own_step refl)
IsPhase-GoesOn _ g at_cancelled1 = inr (_, own_step refl)
IsPhase-GoesOn _ g at_cancelled2 = inr (_, own_step refl)
IsPhase-GoesOn _ g at_end_cancelled = inl refl
IsPhase-GoesOn _ g at_done_post0 = inr (_, own_step refl)
IsPhase-GoesOn _ g at_done_post1 = inr (_, work_step refl (λ _. refl))
IsPhase-GoesOn _ g at_done0 = inr (_, own_step refl)
IsPhase-GoesOn _ g at_done1 = inr (_, own_step refl)
IsPhase-GoesOn _ g at_end = inl refl
IsPhase-GoesOn _ g at_unstarted0 = inr (_, own_step refl)
IsPhase-GoesOn _ g at_unstarted1 = inr (_, own_step refl)
IsPhase-GoesOn _ g at_end_unstarted = inl refl

shared-GoesOn : (s : System) (u : Bool) → is_ready s.state ≡ false → IsPhase s → GoesOn (shared s u)
shared-GoesOn s true g v = inr (shared s false, unlock_step)
shared-GoesOn s false g v = IsPhase-GoesOn s g v

-- a number of internal steps, without a call of a user between them
pub data Runs : ℕ → Shared → Shared → Type 0 where
  stop : {h : Shared} → Runs zero h h
  go : {n : ℕ} {h k l : Shared} → Internal h k → Runs n k l → Runs (suc n) h l

Runs-le : {n : ℕ} {h k : Shared} → Runs n h k → IsPhase h.sys → n ≤ shared_rank h
Runs-le stop v = omega arith
Runs-le (go i r) v = omega (arith, Internal-lt i v, Runs-le r (Internal-IsPhase i v))

Runs-GoesOn :
    {n : ℕ} {h k : Shared} → Runs n h k → IsPhase h.sys → is_ready h.sys.state ≡ false → GoesOn k
Runs-GoesOn {h = h} stop v g = shared-GoesOn h.sys h.unlocking g v
Runs-GoesOn (go i r) v g = Runs-GoesOn r (Internal-IsPhase i v) (Internal-begun i v g)

unlocking-le : (s : System) → IsUnlocking s → rank s + 1 ≤ 8
unfolding rank
unlocking-le _ (un_started0 busy_created) = omega arith
unlocking-le _ (un_started0 busy_running) = omega arith
unlocking-le _ (un_started0 busy_cleaning) = omega arith
unlocking-le _ (un_started1 busy_created) = omega arith
unlocking-le _ (un_started1 busy_running) = omega arith
unlocking-le _ (un_started1 busy_cleaning) = omega arith
unlocking-le _ (un_cancelling0 busy_created) = omega arith
unlocking-le _ (un_cancelling0 busy_running) = omega arith
unlocking-le _ (un_cancelling0 busy_cleaning) = omega arith
unlocking-le _ (un_cancelling1 busy_created) = omega arith
unlocking-le _ (un_cancelling1 busy_running) = omega arith
unlocking-le _ (un_cancelling1 busy_cleaning) = omega arith
unlocking-le _ (un_cancelling2 busy_created) = omega arith
unlocking-le _ (un_cancelling2 busy_running) = omega arith
unlocking-le _ (un_cancelling2 busy_cleaning) = omega arith
unlocking-le _ un_unstarted0 = omega arith
unlocking-le _ un_unstarted1 = omega arith
unlocking-le _ un_end = omega arith

shared_rank-le :
    (s : System) (u : Bool) → IsPhase s → (u ≡ true → IsUnlocking s) → shared_rank (shared s u) ≤ 8
unfolding shared_rank
shared_rank-le s true v f = omega (arith, unlocking-le s (f refl))
shared_rank-le s false v f = omega (arith, rank-le s v)

not_ready : (st : State) → st ≢ ready → is_ready st ≡ false
not_ready ready d = absurd (d refl)
not_ready started d = refl
not_ready cancelling d = refl
not_ready cancelled d = refl
not_ready Threadex.done d = refl
not_ready terminated d = refl
not_ready terminated_cancelled d = refl

-- A thread that was started or cancelled comes to an end, if no one calls it any more, in whatever order the thread,
-- its owner and a call that has yet to unlock run: after at most eight steps, none of them can go on, and none of
-- them stops before `ythreadex_destroy` would free the thread. That `run` returns is taken for granted.
pub Runs-end :
    (n : ℕ) (h k : Shared) → Reachable h → h.sys.state ≢ ready → Runs n h k → (n ≤ 8) × GoesOn k
Runs-end n h k r d x =
    let v = Reachable-IsPhase r in
    (
      omega (arith, shared_rank-le h.sys h.unlocking v (Reachable-IsUnlocking h r), Runs-le x v),
      Runs-GoesOn x v (not_ready h.sys.state d),
    )
