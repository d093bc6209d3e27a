-- ===== src/Threadex.antt =====
-- src/threadex.c and src/ythreadex.h: a thread with its states, the messages that it sends to its owner, and the
-- calls that start and cancel it. Each step is one that no other thread can come
-- between: a section under the state lock, a read of the state, or the handling of a message.
-- Progress messages, and what the listener and `run` do, are left out.
pub mod Phases
pub mod Steps
pub mod Unlocks
pub mod Order
pub mod Ranks
pub mod Begun
pub mod Ends
mod Tests
use ylib.Base.{ℕ, Bool, true, false, Option, none, some, List, [], ◌∷◌, ◌++◌, ◌≡◌, if◌then◌else◌}
use ylib.Base.Run
use ylib.Base.Run.{Run, fault}

-- 0, -EPERM, -ENOMEM, and what another error number stands for
pub data Reply : Type 0 where
  accepted eperm out_of_memory failed : Reply

abbrev pub is_ok : Reply → Bool
is_ok accepted = true
is_ok _ = false

-- `enum ythreadex_state`
pub data State : Type 0 where
  ready started cancelling cancelled done terminated terminated_cancelled : State

-- what is posted to the owner: the handlers `on_started`, `on_done`, `on_cancelled` and `on_cancelling`,
-- the last with the flag that says whether the thread was started
pub data Message : Type 0 where
  on_started on_done on_cancelled : Message
  on_cancelling : Bool → Message

-- where `thread_main` is: before it reads the state, in `run`, before `thread_main_cleanup`, and
-- in it before it posts, with the flag `cancel`
pub data Worker : Type 0 where
  absent created running cleaning exited : Worker
  posting : Bool → Worker

-- `holds_lock` says that `ythreadex_start` has created the thread and still holds the lock;
-- `queue` are the messages to come, and `log` those that the owner has handled
pub record System : Type 0 where
  pub state : State
  pub holds_lock : Bool
  pub worker : Worker
  pub log : List Message
  pub queue : List Message

-- `threadex_init`
abbrev pub initial : System
initial = record {
  state = State.ready;
  holds_lock = false;
  worker = Worker.absent;
  log = [];
  queue = [];
}

abbrev pub post : System → Message → System
post s m = record s { queue = s.queue ++ (m ∷ []) }

-- `ythreadex_start` up to the message; `r` is what `pthread_create` returns
unfoldable pub start : (r : Reply) → System → Reply × System
start r s = elim s.state [
  | State.ready ↦
      if is_ok r
      then (
        accepted,
        record s { state = State.started; holds_lock = true; worker = Worker.created },
      )
      else (r, s)
  | _ ↦ (eperm, s)
]

-- up to the unlocking, the rest of it
unfoldable pub start_post : System → System
start_post s = post (record s { holds_lock = false }) Message.on_started

-- the caller goes on with `thread_main`
unfoldable pub start_sync : System → Reply × System
start_sync s = elim s.state [
  | State.ready ↦ (
    accepted,
    post (record s { state = State.started; worker = Worker.created }) Message.on_started,
  )
  | _ ↦ (eperm, s)
]

-- up to the unlocking; the flag says whether there is memory for the message
unfoldable pub cancel : (granted : Bool) → System → Reply × System
cancel granted s =
    if granted
    then elim s.state [
      | State.ready ↦
          (accepted, post (record s { state = State.cancelling }) (Message.on_cancelling false))
      | State.started ↦
          (accepted, post (record s { state = State.cancelling }) (Message.on_cancelling true))
      | _ ↦ (eperm, s)
    ]
    else (out_of_memory, s)

-- the next step of `thread_main`, if it can go on: `thread_main_cleanup` waits for the lock
unfoldable pub work : System → Option (Run System)
work s = elim s.worker [
  | Worker.created ↦ some (elim s.state [
    | State.started ↦ Run.done (record s { worker = Worker.running })
    | State.cancelling ↦ Run.done (record s { worker = Worker.cleaning })
    | _ ↦ fault
  ])
  | Worker.running ↦ some (Run.done (record s { worker = Worker.cleaning }))
  | Worker.cleaning ↦
      if s.holds_lock
      then none
      else some (elim s.state [
        | State.cancelling ↦
            Run.done (record s { state = State.cancelled; worker = Worker.posting true })
        | State.started ↦ Run.done (record s { state = State.done; worker = Worker.posting false })
        | _ ↦ fault
      ])
  | Worker.posting is_cancel ↦ some (
      Run.done (
        post (record s { worker = Worker.exited })
          (if is_cancel then Message.on_cancelled else Message.on_done)))
  | _ ↦ none
]

-- what the handler of a message does after the listener has returned
unfoldable pub handle : Message → System → System
handle Message.on_started s = s
handle Message.on_done s = record s { state = State.terminated }
handle Message.on_cancelled s = record s { state = State.terminated_cancelled }
handle (Message.on_cancelling true) s = s
handle (Message.on_cancelling false) s =
    post (record s { state = State.cancelled }) Message.on_cancelled

-- the owner takes the first message, if there is one
unfoldable pub own : System → Option System
unfolding handle
own s = elim s.queue [
  | [] ↦ none
  | m ∷ ms ↦ some (handle m (record s { log = s.log ++ (m ∷ []); queue = ms }))
]

-- `ythreadex_is_terminated`
abbrev pub is_terminated : State → Bool
is_terminated State.terminated = true
is_terminated State.terminated_cancelled = true
is_terminated _ = false

-- does `ythreadex_destroy` free the thread?
abbrev pub destroy : System → Reply
destroy s = if is_terminated s.state then accepted else eperm

-- `unlocking` says that a call of a user has posted its message, and has only to unlock the state
pub record Shared : Type 0 where
  pub sys : System
  pub unlocking : Bool

abbrev pub shared : System → Bool → Shared
shared s u = record { sys = s; unlocking = u }

-- The steps of the thread and the owner, and those of a call that has begun. Only
-- `thread_main_cleanup` waits for the lock: the read of the state in `thread_main`, the handlers of
-- the owner and `ythreadex_destroy` do not.
pub data Internal : Shared → Shared → Type 0 where
  post_step :
      {s : System} → s.holds_lock ≡ true → Internal (shared s false) (shared (start_post s) true)
  unlock_step : {s : System} → Internal (shared s true) (shared s false)
  work_step :
      {s t : System} {u : Bool}
      → work s ≡ some (Run.done t)
      → (s.worker ≡ Worker.cleaning → u ≡ false)
      → Internal (shared s u) (shared t u)
  own_step : {s t : System} {u : Bool} → own s ≡ some t → Internal (shared s u) (shared t u)

-- Those, and the calls of a user, which wait for the lock. A call that is refused, and
-- `ythreadex_start_sync`, whose own thread goes on with `thread_main`, unlock in the same step.
pub data Step : Shared → Shared → Type 0 where
  internal_step : {h k : Shared} → Internal h k → Step h k
  start_step :
      {s : System}
      → (r : Reply) → s.holds_lock ≡ false
      → Step (shared s false) (shared (start r s).1 false)
  sync_step :
      {s : System} → s.holds_lock ≡ false → Step (shared s false) (shared (start_sync s).1 false)
  cancel_step :
      {s : System}
      → (granted : Bool) → s.holds_lock ≡ false
      → Step (shared s false) (shared (cancel granted s).1 (is_ok (cancel granted s).0))

-- what can be reached by any number of steps
pub data Reachable : Shared → Type 0 where
  here : Reachable (shared initial false)
  later : {h k : Shared} → Reachable h → Step h k → Reachable k
