-- ===== src/Runtime/Bindings.antt =====
-- `BotRuntime`: one loop for each binding, reconciled against the controls.
use robo_trade.Base.{
  String, ◌≡◌, ◌∙◌, refl, Bool, true, false, not, ◌&&◌, Option, none, some, List, [], ◌∷◌, arith,
  if◌then◌else◌, get_or_else, eq_iff, str_eq,
}
use robo_trade.Base.Dict.{
  Dict, lookup, insert, erase, keys, has_key, lookup-insert, lookup-erase, mem_name, mem_name-keys,
}
use robo_trade.Runtime.{Loop, fresh_loop}

-- What the runtime asks of a loop's thread.
pub data Signal : Type 0 where
  start stop : String → Signal

pub record Bot : Type 0 where
  pub loops : Dict Loop
  pub started : Bool
  pub signals : List Signal

-- One turn of the first loop of `reconcile`: an unwanted loop is stopped and dropped.
pub retire_one : List String → String → Bot → Bot
retire_one wanted id b =
    if mem_name id wanted
    then b
    else record b { loops = erase id b.loops; signals = stop id ∷ b.signals }

-- That loop, over the ids that are left.
pub retire : List String → List String → Bot → Bot
unfolding retire_one
retire wanted [] b = b
retire wanted (id ∷ ids) b = retire wanted ids (retire_one wanted id b)

-- A new loop for an id, started if the runtime is.
abbrev add_loop : String → Bot → Bot
add_loop id b = record b {
  loops = insert id fresh_loop b.loops;
  signals = if b.started then start id ∷ b.signals else b.signals;
}

-- One turn of the second loop of `reconcile`.
pub adopt_one : String → Bot → Bot
adopt_one id b = if has_key id b.loops then b else add_loop id b

-- That loop, over the wanted ids that are left.
pub adopt : List String → Bot → Bot
unfolding adopt_one
adopt [] b = b
adopt (id ∷ ids) b = adopt ids (adopt_one id b)

-- `BotRuntime.reconcile`; `none` is a `load_controls` that raises.
unfoldable pub reconcile : Option (List String) → Bot → Bot
unfolding retire adopt
reconcile none b = b
reconcile (some wanted) b = adopt wanted (retire wanted (keys b.loops) b)

abbrev signal_all : (String → Signal) → List String → List Signal → List Signal
signal_all f [] done = done
signal_all f (id ∷ ids) done = signal_all f ids (f id ∷ done)

-- `BotRuntime.start` and `BotRuntime.stop`.
unfoldable pub start_all : Option (List String) → Bot → Bot
unfolding reconcile
start_all wanted b =
    let b' : Bot = reconcile wanted (record b { started = true }) in
    record b' { signals = signal_all start (keys b'.loops) b'.signals }

abbrev pub stop_all : Bot → Bot
stop_all b = record b { started = false; signals = signal_all stop (keys b.loops) b.signals }

module _ (k : String) where
  loops_if :
      (test : Bool) (b c : Bot)
      → lookup k (if test then b else c).loops
        ≡ (if test then lookup k b.loops else lookup k c.loops)
  loops_if true b c = refl
  loops_if false b c = refl

  lookup-retire_one :
      (wanted : List String) (id : String) (b : Bot)
      → lookup k (retire_one wanted id b).loops
        ≡ (if str_eq id k && not (mem_name k wanted) then none else lookup k b.loops)
  unfolding retire_one
  lookup-retire_one wanted id b =
      loops_if (mem_name id wanted) b _ ∙ ground (arith, lookup-erase id k b.loops, eq_iff id k)

  lookup-retire :
      (wanted ids : List String) (b : Bot)
      → lookup k (retire wanted ids b).loops
        ≡ (if mem_name k ids && not (mem_name k wanted) then none else lookup k b.loops)
  unfolding retire
  lookup-retire wanted [] b = refl
  lookup-retire wanted (id ∷ ids) b =
      lookup-retire wanted ids (retire_one wanted id b)
      ∙ ground (arith, lookup-retire_one wanted id b)

abbrev old_or_new : Option Loop → Bool → Option Loop
old_or_new (some l) wanted = some l
old_or_new none true = some fresh_loop
old_or_new none false = none

module _ (k : String) where
  lookup-adopt_one :
      (id : String) (b : Bot)
      → lookup k (adopt_one id b).loops ≡ old_or_new (lookup k b.loops) (str_eq id k)
  unfolding adopt_one
  lookup-adopt_one id b =
      loops_if k (has_key id b.loops) b _
      ∙ ground (arith, lookup-insert id k fresh_loop b.loops, eq_iff id k)

  lookup-adopt :
      (ids : List String) (b : Bot)
      → lookup k (adopt ids b).loops ≡ old_or_new (lookup k b.loops) (mem_name k ids)
  unfolding adopt
  lookup-adopt [] b = ground arith
  lookup-adopt (id ∷ ids) b =
      lookup-adopt ids (adopt_one id b) ∙ ground (arith, lookup-adopt_one id b)

-- After a reconciliation there is a loop for exactly the wanted bindings: one that was there before is
-- kept as it was, and a new binding gets a fresh loop. Where the controls cannot be read, all stays.
pub lookup-reconcile :
    (wanted : List String) (k : String) (b : Bot)
    → (lookup k (reconcile (some wanted) b).loops
        ≡ (if mem_name k wanted then some (get_or_else (lookup k b.loops) fresh_loop) else none))
      × (reconcile none b ≡ b)
unfolding reconcile
lookup-reconcile wanted k b = (
  ground (
    arith,
    lookup-adopt k wanted (retire wanted (keys b.loops) b),
    lookup-retire k wanted (keys b.loops) b,
    mem_name-keys k b.loops,
  ),
  refl,
)
