-- ===== src/Pool/Tests.antt =====
-- src/pool.c: a pool of two links.
use ylib.Base.{◌≡◌, refl, List, [], ◌∷◌, arith, true, false}
use ylib.Base.Run.{Returns}
use ylib.Listl.{Memory}
use ylib.Pool.{Call, Answer, calls}
use ylib.Pool.Queue.{
  created, created-Represents, Implements, AreLegal, calls-Represents, calls_queue, call_queue,
}

abbrev blank : Memory
blank = record { next = λ _. 0; prev = λ _. 0 }

-- a third link is refused, and the first one comes first
abbrev six_calls : List Call
six_calls =
    Call.put_call 5
    ∷ Call.put_call 6
    ∷ Call.put_call 7
    ∷ Call.get_call
    ∷ Call.get_call
    ∷ Call.get_call
    ∷ []

six_calls_queue :
    (calls_queue 2 [] six_calls).0
    ≡ Answer.taken true
      ∷ Answer.taken true
      ∷ Answer.taken false
      ∷ Answer.link 5
      ∷ Answer.link 6
      ∷ Answer.link 0
      ∷ []
unfolding calls_queue call_queue
six_calls_queue = refl

six_calls-AreLegal : AreLegal 1 2 [] six_calls
unfolding AreLegal call_queue
six_calls-AreLegal = ground arith

calls-Represents_example : Returns (Implements 2 [] six_calls) (calls (created blank 1 2) six_calls)
calls-Represents_example =
    calls-Represents (created blank 1 2) [] six_calls (created-Represents blank 1 2).1
      six_calls-AreLegal
