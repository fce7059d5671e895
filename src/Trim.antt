-- ===== src/Trim.antt =====
-- packages/log/src/trim.ts: the trimming of a log to a length, a size or an age.
-- The log and its index are an interface; calls of `trim` wait for each other, so none overlap. The
-- body of the loop runs on fuel.
pub mod Rounds
pub mod Ended
pub mod Listed
pub mod Oldest
pub mod Whole
pub mod Sorted
pub mod Times
pub mod Ties
pub mod Filtered
mod Tests
use peerbit.Base.Table.{Table, get, put}
use peerbit.Base.{
  ℕ, zero, suc, ◌+◌, ◌*◌, ◌≡◌, ◌<◌, ◌≤◌, Bool, true, false, not, ◌&&◌, ◌||◌, Option, none, some,
  List, [], ◌∷◌, ◌++◌, ◌==◌, ltb, leb, if◌then◌else◌, ite,
}
use peerbit.Clock.{Timestamp}
use peerbit.EntryIndex.{EntryCache}
use peerbit.TrimOptions.{
  Node, Filter, TrimCondition, to_length, to_bytelength, to_age, TrimOptions, from_or_to,
  limit_from, same_number, same_filter, same_condition, trim_options_equal, stricter_limits,
  stricter_condition, trim_options_stricter,
}

-- What `Trim` needs of its log. The laws are about its index, whatever `getLength` says: a node has some
-- entries later than it, no more than the index has; `getAfter` gives a node that has fewer of them, and
-- a deletion adds none. What a deletion returns is the node's entry.
pub record Log (K : Type 0) : Type 1 where
  pub State : Type 0
  pub get_length : State → ℕ
  pub memory_usage : State → ℕ
  pub get_oldest : State → Option (Node K)
  pub get_newest : State → Option (Node K)
  pub get_after : Node K → State → Option (Node K)
  pub get_before : Node K → State → Option (Node K)
  pub delete_node : Node K → State → State × Option (Node K)
  pub count_entries : State → ℕ
  pub later : Node K → State → ℕ
  pub later_bound : (n : Node K) (s : State) → later n s ≤ count_entries s
  pub later_after : (n m : Node K) (s : State) → get_after n s ≡ some m → later m s < later n s
  pub deleted_node : (n m : Node K) (s : State) → (delete_node n s).1 ≡ some m → m ≡ n
  pub later_delete : (n m : Node K) (s : State) → later m (delete_node n s).0 ≤ later m s

module _ {K : Type 0} (dec : Discrete K) (host : Log K) (marks : EntryCache K) where
  open host use {
    State, get_length, memory_usage, get_oldest, get_newest, get_after, get_before, delete_node,
  }

  -- The state of `Trim`, with that of its log
  pub record Trim : Type 0 where
    pub last_node : Option (Node K)
    pub last_head : Option (Node K)
    pub last_tail : Option (Node K)
    pub last_length : ℕ
    pub last_options : Option (TrimOptions K)
    pub last_seed : Option ℕ
    pub breakpoints : marks.Store
    pub log : State

  -- The nodes have one hash, or both are missing.
  unfoldable pub same_hash : Option (Node K) → Option (Node K) → Bool
  same_hash none none = true
  same_hash none (some m) = false
  same_hash (some n) none = false
  same_hash (some n) (some m) = ite (dec n.hash m.hash) true false

  -- `deleteFromCache`
  unfoldable pub delete_from_cache : K → Trim → Trim
  delete_from_cache k t = elim t.last_node [
    | none ↦ t
    | some n ↦ ite (dec n.hash k) (record t { last_node = get_after n t.log }) t
  ]

  -- The log is too small to be trimmed.
  unfoldable pub below_from : TrimCondition → State → Bool
  below_from (to_length to from) s = ltb (get_length s) (from_or_to from to)
  below_from (to_bytelength to from) s = ltb (memory_usage s) (from_or_to from to)
  below_from (to_age age) s = false

  -- `done`, at the time `s0`: the nanoseconds that `+new Date() * 1e6` gives, rounded as JavaScript does.
  -- An age is in milliseconds, few enough (below 9 * 10^9) that its own product by 1e6 is exact.
  unfoldable pub is_done : ℕ → TrimCondition → State → Bool
  is_done now (to_length to from) s = leb (get_length s) to
  is_done now (to_bytelength to from) s = leb (memory_usage s) to
  is_done now (to_age age) s = elim (get_oldest s) [
    | none ↦ true
    | some n ↦ ltb now (n.timestamp.wall_time + age * 1000000)
  ]

  -- The variables of the loop
  pub record Sweep : Type 0 where
    pub node : Option (Node K)
    pub last : Option (Node K)
    pub looped : Bool
    pub by_gid : Table K Bool
    pub removed : List (Node K)
    pub breaks : marks.Store
    pub view : State

  -- What the loop does not change
  pub record Task : Type 0 where
    pub now : ℕ
    pub options : TrimOptions K
    pub seeded : Bool
    pub changed : Bool
    pub start : Option (Node K)
    pub tail : Option (Node K)

  -- The condition of the loop
  unfoldable pub goes_on : Task → Sweep → Bool
  goes_on task w = elim w.node [
    | none ↦ false
    | some n ↦
        not (is_done task.now task.options.condition w.view)
        && ltb 0 (get_length w.view)
        && (not w.looped || not (same_hash (some n) task.start))
  ]

  -- Whether the filter lets a node go: it is asked once for each gid.
  unfoldable pub ask_filter : Task → Node K → Sweep → Sweep × Bool
  ask_filter task n w = elim task.options.filter [
    | none ↦ (w, true)
    | some f ↦
        let known = get dec n.gid w.by_gid in
        let answer : Bool = elim known [ none ↦ f.can_trim n | some b ↦ b ] in
        let by_gid = put dec n.gid answer w.by_gid in
        let breaks : marks.Store =
          if not answer && task.seeded then marks.add n.hash true w.breaks else w.breaks in
        (record w { by_gid = by_gid; breaks = breaks }, answer)
  ]

  unfoldable pub or_else : Option (Node K) → Option (Node K) → Option (Node K)
  or_else none b = b
  or_else (some n) b = some n

  unfoldable pub with_removed : Option (Node K) → List (Node K) → List (Node K)
  with_removed none l = l
  with_removed (some n) l = l ++ n ∷ []

  -- A node is deleted or passed over.
  unfoldable pub visit : Node K → Bool → Sweep → Sweep
  visit n true w =
      let prev = get_after n w.view in
      let next = get_before n w.view in
      let (view, entry) = delete_node n w.view in
      record w {
        view = view;
        removed = with_removed entry w.removed;
        node = prev;
        last = or_else prev next;
      }
  visit n false w = record w { last = some n; node = get_after n w.view }

  -- At the end, back to the tail once
  unfoldable pub turn : Task → Sweep → Sweep
  turn task w = elim w.node [
    | some n ↦ w
    | none ↦
        if not w.looped && task.changed && not task.seeded
        then record w { node = task.tail; looped = true }
        else w
  ]

  -- The body of the loop
  unfoldable pub sweep_step : Task → Sweep → Sweep
  sweep_step task w = elim w.node [
    | none ↦ w
    | some n ↦ let (w', answer) = ask_filter task n w in turn task (visit n answer w')
  ]

  -- The loop; `none` is out of fuel.
  unfoldable pub sweep : ℕ → Task → Sweep → Option Sweep
  sweep zero task w = none
  sweep (suc fuel) task w =
      let rest = sweep fuel task (sweep_step task w) in if goes_on task w then rest else some w

  -- Something changed since the last trim.
  unfoldable pub has_changed : TrimOptions K → Trim → Bool
  has_changed options t =
      let options_changed : Bool = elim t.last_options [
        | none ↦ true
        | some o ↦ not (trim_options_equal o options)
      ] in
      not (same_hash t.last_head (get_newest t.log))
      || not (same_hash t.last_tail (get_oldest t.log))
      || not (t.last_length == get_length t.log)
      || options_changed

  -- What is remembered after a trim
  unfoldable pub remember : TrimOptions K → Option ℕ → Sweep → Trim
  remember options seed w = record {
    last_node = or_else w.node w.last;
    last_head = get_newest w.view;
    last_tail = get_oldest w.view;
    last_length = get_length w.view;
    last_options = some options;
    last_seed = seed;
    breakpoints = w.breaks;
    log = w.view;
  }

  -- The start of the loop: where the last trim stopped, or the tail
  abbrev pub first_node : Trim → Option (Node K)
  first_node t = or_else t.last_node (get_oldest t.log)

  abbrev pub start_task : ℕ → TrimOptions K → Bool → Trim → Task
  start_task now options seeded t = record {
    now = now;
    options = options;
    seeded = seeded;
    changed = true;
    start = first_node t;
    tail = get_oldest t.log;
  }

  abbrev pub start_sweep : Trim → Sweep
  start_sweep t = record {
    node = first_node t;
    last = first_node t;
    looped = false;
    by_gid = [];
    removed = [];
    breaks = t.breakpoints;
    view = t.log;
  }

  unfoldable pub finish : TrimOptions K → Option ℕ → Option Sweep → Option (Trim × List (Node K))
  finish options seed none = none
  finish options seed (some w) = some (remember options seed w, w.removed)

  unfoldable pub run_sweep :
      ℕ → TrimOptions K → Option ℕ → Bool → Trim → Option (Trim × List (Node K))
  run_sweep now options seed seeded t =
      finish options seed
        (sweep (2 + host.count_entries t.log) (start_task now options seeded t) (start_sweep t))

  -- `cacheId`, if there is one
  unfoldable pub seed_of : TrimOptions K → Option ℕ
  seed_of options = elim options.filter [ none ↦ none | some f ↦ f.cache_id ]

  unfoldable pub is_seeded : Option ℕ → Bool
  is_seeded none = false
  is_seeded (some n) = true

  -- Options that are less strict than those of the last trim clear the breakpoints.
  unfoldable pub loosen : TrimOptions K → Trim → Trim
  loosen options t =
      let stricter : Bool = elim t.last_options [
        | none ↦ false
        | some o ↦ trim_options_stricter o options
      ] in
      if stricter then record t { breakpoints = marks.empty } else t

  abbrev pub reset : Trim → Trim
  reset t = record t { breakpoints = marks.empty; last_node = none }

  -- `trimTask` with the deleted nodes; `none` is out of fuel.
  unfoldable pub trim_task : ℕ → Option (TrimOptions K) → Trim → Option (Trim × List (Node K))
  trim_task now none t = some (t, [])
  trim_task now (some options) t =
      let t' = loosen options t in
      let seed = seed_of options in
      if below_from options.condition t.log
      then some (t, [])
      else if not (is_seeded seed) || not (same_number seed t'.last_seed)
      then run_sweep now options seed (is_seeded seed) (reset t')
      else if has_changed options t'
      then run_sweep now options seed (is_seeded seed) t'
      else some (t', [])
