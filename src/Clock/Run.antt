-- ===== src/Clock/Run.antt =====
-- A clock over a whole run of local events and received timestamps.
use peerbit.Base.Outcome.{returns, ◌>>=◌, returns-bind}
use peerbit.Base.{ℕ, ◌≡◌, ap, subst, List, [], ◌∷◌, arith}
use peerbit.Clock.{Timestamp, Hlc, Result, update, now}
use peerbit.Clock.Order.{Before}
use peerbit.Clock.Update.{update-Before}

-- What a peer does with its clock, each with the wall time that is read then.
pub data Event : Type 0 where
  -- `now()`
  tick : ℕ → Event
  -- `update(t)`, for a timestamp of another peer
  receive : Timestamp → ℕ → Event

unfoldable pub apply : Hlc → Event → Result (Hlc × Timestamp)
apply h (tick wall) = now h wall
apply h (receive t wall) = update h t wall

-- The timestamps of a run; the first throw ends it.
unfoldable pub run : Hlc → List Event → Result (Hlc × List Timestamp)
run h [] = returns (h, [])
run h (e ∷ es) = do (h', t) ← apply h e; (h'', ts) ← run h' es; returns (h'', t ∷ ts)

-- Each timestamp is later than the one before it, the first than `t`.
abbrev pub Increases : Timestamp → List Timestamp → Type 0
Increases t [] = Unit
Increases t (s ∷ ss) = Before t s × Increases s ss

-- There is one timestamp for each event, and that of a receipt is later than the one received.
abbrev pub Follows : List Event → List Timestamp → Type 0
Follows [] [] = Unit
Follows [] (s ∷ ss) = ⊥
Follows (e ∷ es) [] = ⊥
Follows (tick _ ∷ es) (s ∷ ss) = Follows es ss
Follows (receive t _ ∷ es) (s ∷ ss) = Before t s × Follows es ss

-- What an event asks of its own timestamp.
abbrev Answers : Event → Timestamp → Type 0
Answers (tick _) s = Unit
Answers (receive t _) s = Before t s

apply-Before :
    (h h' : Hlc) (e : Event) (t : Timestamp)
    → apply h e ≡ returns (h', t)
    → Before h.last t × (h'.last ≡ t) × Answers e t
unfolding apply now
apply-Before h h' (tick wall) t p =
    let (_, later, next, _, _, _) = update-Before h h' h.last t wall p in
    (later, ap (λ r. r.last) next, tt)
apply-Before h h' (receive s wall) t p =
    let (after, later, next, _, _, _) = update-Before h h' s t wall p in
    (later, ap (λ r. r.last) next, after)

Follows-cons :
    (e : Event) (es : List Event) (s : Timestamp) (ss : List Timestamp)
    → Answers e s
    → Follows es ss
    → Follows (e ∷ es) (s ∷ ss)
Follows-cons (tick _) es s ss a f = f
Follows-cons (receive _ _) es s ss a f = (a, f)

-- A run that does not throw, taken apart at its first event.
run-cons :
    (h h'' : Hlc) (e : Event) (es : List Event) (ts : List Timestamp)
    → run h (e ∷ es) ≡ returns (h'', ts)
    → (h' : Hlc) × (t : Timestamp) × (ss : List Timestamp) × (apply h e ≡ returns (h', t))
      × (run h' es ≡ returns (h'', ss))
      × (ts ≡ t ∷ ss)
unfolding run
run-cons h h'' e es ts p =
    let ((h', t), applied, rest) = returns-bind (apply h e) _ p in
    let ((h3, ss), ran, done) = returns-bind (run h' es) _ rest in
    (h', t, ss, applied, ground arith, ground arith)

-- Over any run that does not throw, there is one timestamp for each event; they increase strictly
-- from the clock's last one on, and each one that answers a receipt is later than what was received.
pub run-Increases :
    (h h' : Hlc) (es : List Event) (ts : List Timestamp)
    → run h es ≡ returns (h', ts)
    → Increases h.last ts × Follows es ts
unfolding run
run-Increases h h' [] [] p = (tt, tt)
run-Increases h h' [] (t ∷ ts) p = cc
run-Increases h h'' (e ∷ es) ts p =
    let (h', t, ss, applied, ran, split) = run-cons h h'' e es ts p in
    let (later, next, answers) = apply-Before h h' e t applied in
    let (increases, follows) = run-Increases h' h'' es ss ran in
    rw split
      ((later, subst (λ u. Increases u ss) next increases), Follows-cons e es t ss answers follows)
