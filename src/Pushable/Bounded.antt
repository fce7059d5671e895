-- ===== src/Pushable/Bounded.antt =====
-- The bytes that are buffered stay within `maxBufferedBytes`.
use peerbit.Base.Fifo.{Fifo}
use peerbit.Base.Int.{ℤ, pos}
use peerbit.Base.Outcome.{Outcome, throws, returns}
use peerbit.Base.{
  ℕ, ◌+◌, ◌≡◌, ◌<◌, ◌≤◌, inl, inr, refl, sym, ap, subst, ◌∙◌, true, false, not, ◌&&◌, Option, none,
  some, List, [], ◌∷◌, ltb, if_true, if_false, arith, Bool-cases,
}
use peerbit.Lanes.{Next, bytes, value, done, error}
use peerbit.Pushable.Sizes.{bytes_in}
use peerbit.Pushable.Calls.{
  Call, call_push, call_next, call_end, call_return, call_throw, after_push, run_call, run_calls,
}
use peerbit.Pushable.Held.{
  IsCounted, held, held-counted, buffer_push-IsCounted, buffer_push-size, buffer_shift-size,
}
use peerbit.Pushable.{
  OverflowPolicy, throw_error, drop_newest, Turn, Pushable, buffer_push, buffer_empty,
  buffered_bytes, new_buffer, notify_waiters, get_next, wait_next, buffer_next, buffer_error,
  overflows, push, deliver_end, end_stream, return_stream, throw_stream,
}

module _ {E : Type 0} (fifo : Fifo (Next E)) where
  open fifo use {contents_empty}

  -- The sizes are right, and no more bytes are held than the bound allows.
  abbrev pub IsWithin : ℕ → Pushable fifo → Type 0
  IsWithin m s = (s.max_bytes ≡ some m) × IsCounted fifo s.buffer × (held fifo s.buffer ≤ m)

  -- The same of the sizes
  abbrev IsBelow : ℕ → Pushable fifo → Type 0
  IsBelow m s =
      (s.max_bytes ≡ some m) × IsCounted fifo s.buffer × (buffered_bytes fifo s.buffer ≤ m)

  get_next-IsBelow : (m : ℕ) (s : Pushable fifo) → IsBelow m s → IsBelow m (get_next fifo s).0
  unfolding get_next notify_waiters
  get_next-IsBelow m s (e, c, h) =
      let (c', less) = buffer_shift-size fifo s.buffer c in (e, c', omega arith)

  buffer_next-IsBelow :
      (m : ℕ) (v : Next E) (lane : ℤ) (s : Pushable fifo)
      → s.max_bytes ≡ some m
      → IsCounted fifo s.buffer
      → buffered_bytes fifo s.buffer + bytes v ≤ m
      → IsBelow m (buffer_next fifo v lane s).0
  unfolding buffer_next
  buffer_next-IsBelow m v lane s e c h =
      let more = buffer_push-size fifo v lane s.buffer in
      let s' : Pushable fifo = record s {
        buffer = buffer_push fifo v lane s.buffer;
        waiting = false;
      } in
      let within : IsBelow m s' = (e, buffer_push-IsCounted fifo v lane s.buffer c, omega arith) in
      elim (Bool-cases s.waiting) [
        | inl w ↦
            subst (λ (r : Pushable fifo × Option (Turn E)). IsBelow m r.0) (sym (if_true _ w))
              (get_next-IsBelow m s' within)
        | inr w ↦
            subst (λ (r : Pushable fifo × Option (Turn E)). IsBelow m r.0) (sym (if_false _ w))
              within
      ]

  wait_next-IsBelow : (m : ℕ) (s : Pushable fifo) → IsBelow m s → IsBelow m (wait_next fifo s).0
  unfolding wait_next notify_waiters
  wait_next-IsBelow m s within = elim (Bool-cases (not (buffer_empty fifo s.buffer))) [
    | inl b ↦ rw (b, wait_next) (get_next-IsBelow m s within)
    | inr b ↦ elim (Bool-cases s.ended) [
      | inl b' ↦
          subst (λ (r : Pushable fifo × Option (Turn E)). IsBelow m r.0)
            (sym (if_false _ b ∙ if_true _ b')) within
      | inr b' ↦
          subst (λ (r : Pushable fifo × Option (Turn E)). IsBelow m r.0)
            (sym (if_false _ b ∙ if_false _ b')) within
    ]
  ]

  new-IsCounted : IsCounted fifo (new_buffer fifo)
  new-IsCounted = let e = ap (bytes_in fifo) contents_empty in omega arith

  -- A new queue holds nothing, so an error and the end fit.
  buffer_error-IsBelow :
      (m : ℕ) (e : E) (s : Pushable fifo)
      → s.max_bytes ≡ some m
      → IsBelow m (buffer_error fifo e s).0
  unfolding buffer_error notify_waiters buffered_bytes
  buffer_error-IsBelow m e s h =
      buffer_next-IsBelow m (error e) (pos 0)
        (notify_waiters fifo (record s { buffer = new_buffer fifo })) h new-IsCounted (omega arith)

  deliver_end-IsBelow :
      (m : ℕ) (err : Option E) (s : Pushable fifo)
      → IsBelow m s
      → IsBelow m (deliver_end fifo err s).0
  unfolding deliver_end
  deliver_end-IsBelow m none s (e, c, h) = buffer_next-IsBelow m done (pos 0) s e c (omega arith)
  deliver_end-IsBelow m (some x) s (e, c, h) = buffer_error-IsBelow m x s e

  end_stream-IsBelow :
      (m : ℕ) (err : Option E) (s : Pushable fifo)
      → IsBelow m s
      → IsBelow m (end_stream fifo err s).0
  unfolding end_stream
  end_stream-IsBelow m err s within = elim (Bool-cases s.ended) [
    | inl b ↦
        subst (λ (r : Pushable fifo × Option (Turn E)). IsBelow m r.0) (sym (if_true _ b)) within
    | inr b ↦
        subst (λ (r : Pushable fifo × Option (Turn E)). IsBelow m r.0) (sym (if_false _ b))
          (deliver_end-IsBelow m err (record s { ended = true; waiters = [] }) within)
  ]

  return_stream-IsBelow :
      (m : ℕ) (s : Pushable fifo) → IsBelow m s → IsBelow m (return_stream fifo s).0
  unfolding return_stream notify_waiters buffered_bytes
  return_stream-IsBelow m s (e, c, h) =
      end_stream-IsBelow m none (notify_waiters fifo (record s { buffer = new_buffer fifo }))
        (e, new-IsCounted, omega arith)

  overflows-room :
      (m size : ℕ) (s : Pushable fifo)
      → 0 < m
      → s.max_bytes ≡ some m
      → overflows fifo size s ≡ false
      → buffered_bytes fifo s.buffer + size ≤ m
  unfolding overflows
  overflows-room m size s positive e h =
      let same : overflows fifo size s ≡ (ltb 0 m && ltb m (buffered_bytes fifo s.buffer + size)) =
        rw (e, overflows) refl in
      ground arith

  -- A value that does not fit changes nothing.
  refused :
      (policy : OverflowPolicy) (size : ℕ) (s : Pushable fifo)
      → after_push fifo s
          (elim policy [ drop_newest ↦ returns (s, none) | throw_error ↦ throws size ])
        ≡ s
  unfolding after_push
  refused throw_error size s = refl
  refused drop_newest size s = refl

  push-IsBelow :
      (m name size : ℕ) (lane : ℤ) (s : Pushable fifo)
      → 0 < m
      → IsBelow m s
      → IsBelow m (after_push fifo s (push fifo name size lane s))
  unfolding push after_push
  push-IsBelow m name size lane s positive (e, c, h) =
      let keeps : Outcome ℕ (Pushable fifo × Option (Turn E)) → Type 0 =
        λ r. IsBelow m (after_push fifo s r) in
      elim (Bool-cases s.ended) [
        | inl b ↦ subst keeps (sym (if_true _ b)) (e, c, h)
        | inr b ↦ elim (Bool-cases (overflows fifo size s)) [
          | inl full ↦ subst keeps (sym (if_false _ b ∙ if_true _ full)) (
              subst (IsBelow m) (sym (refused s.overflow (buffered_bytes fifo s.buffer + size) s))
                (e, c, h))
          | inr room ↦ subst keeps (sym (if_false _ b ∙ if_false _ room)) (
              buffer_next-IsBelow m (value name size) lane s e c
                (overflows-room m size s positive e room))
        ]
      ]

  run_call-IsBelow :
      (m : ℕ) (c : Call E) (s : Pushable fifo) → 0 < m → IsBelow m s → IsBelow m (run_call fifo c s)
  unfolding run_call throw_stream
  run_call-IsBelow m (call_push name size lane) s positive within =
      push-IsBelow m name size lane s positive within
  run_call-IsBelow m call_next s positive within = wait_next-IsBelow m s within
  run_call-IsBelow m (call_end err) s positive within = end_stream-IsBelow m err s within
  run_call-IsBelow m call_return s positive within = return_stream-IsBelow m s within
  run_call-IsBelow m (call_throw e) s positive within = end_stream-IsBelow m (some e) s within

  run_calls-IsBelow :
      (m : ℕ) (calls : List (Call E)) (s : Pushable fifo)
      → 0 < m
      → IsBelow m s
      → IsBelow m (run_calls fifo calls s)
  unfolding run_calls
  run_calls-IsBelow m [] s positive within = within
  run_calls-IsBelow m (c ∷ l) s positive within =
      run_calls-IsBelow m l (run_call fifo c s) positive (run_call-IsBelow m c s positive within)

  -- Of an iterator with a positive `maxBufferedBytes`, whose size counters are those of the values in its
  -- queues and whose values have no more bytes than the bound: any sequence of calls (pushes to any
  -- lane, reads, ends, returns and errors, under both overflow policies) keeps the counters right, and
  -- the values in the queues have no more bytes than the bound.
  pub run_calls-IsWithin :
      (m : ℕ) (calls : List (Call E)) (s : Pushable fifo)
      → 0 < m
      → IsWithin m s
      → IsWithin m (run_calls fifo calls s)
  run_calls-IsWithin m calls s positive (e, c, h) =
      let before = held-counted fifo s.buffer c in
      let (e', c', h') = run_calls-IsBelow m calls s positive (e, c, omega arith) in
      let after = held-counted fifo (run_calls fifo calls s).buffer c' in (e', c', omega arith)
