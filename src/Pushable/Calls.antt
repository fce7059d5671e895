-- ===== src/Pushable/Calls.antt =====
-- Sequences of calls on the iterator.
use peerbit.Base.Fifo.{Fifo}
use peerbit.Base.Int.{ℤ}
use peerbit.Base.Outcome.{Outcome, throws, returns}
use peerbit.Base.{ℕ, Option, List, [], ◌∷◌}
use peerbit.Lanes.{Next}
use peerbit.Pushable.{Turn, Pushable, wait_next, push, end_stream, return_stream, throw_stream}

-- A call on the iterator
pub data Call (E : Type 0) : Type 0 where
  call_push : ℕ → ℕ → ℤ → Call E
  call_next : Call E
  call_end : Option E → Call E
  call_return : Call E
  call_throw : E → Call E

module _ {E : Type 0} (fifo : Fifo (Next E)) where
  -- The state that a push leaves, also when it throws
  unfoldable pub after_push :
      Pushable fifo → Outcome ℕ (Pushable fifo × Option (Turn E)) → Pushable fifo
  after_push s (throws size) = s
  after_push s (returns (s', turn)) = s'

  unfoldable pub run_call : Call E → Pushable fifo → Pushable fifo
  run_call (call_push name size lane) s = after_push s (push fifo name size lane s)
  run_call call_next s = (wait_next fifo s).0
  run_call (call_end err) s = (end_stream fifo err s).0
  run_call call_return s = (return_stream fifo s).0
  run_call (call_throw e) s = (throw_stream fifo e s).0

  unfoldable pub run_calls : List (Call E) → Pushable fifo → Pushable fifo
  run_calls [] s = s
  run_calls (c ∷ l) s = run_calls l (run_call c s)
