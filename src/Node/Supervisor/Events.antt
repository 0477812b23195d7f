-- ===== src/Node/Supervisor/Events.antt =====
-- What can happen to a supervisor: the callers' methods, the steps of the worker and the two steps of
-- `close`, in any order. `submit` is two steps, its test of `_closed` and its put, since no lock keeps
-- other threads out between them; another method is one, since it makes one call of the queue at most.
use coldwatch.Base.{ℕ, zero, suc, Bool, Option, List, [], ◌∷◌, ltb, if◌then◌else◌}
use coldwatch.Base.Integers.{ℤ}
use coldwatch.Node.Rpc.{Reply}
use coldwatch.Node.Supervisor.{Supervisor, put_request, cancel}
use coldwatch.Node.Supervisor.Worker.{work, start, close_begin, close_end}

pub data Event : Type 0 where
  -- A call of `submit` makes its test, or a caller past it makes its put.
  enters : Event
  puts : List ℕ → Event
  -- The caller that holds this future cancels it.
  cancels : ℕ → Event
  starts : Reply → Event
  closes : Reply → Event
  drains : Event
  works : Bool → Reply → Event

-- The test of `submit`: where it passes, one caller more is on the way to its put.
unfoldable pub enter : Supervisor → Supervisor
enter s = if s.closed then s else record s { entering = suc s.entering }

-- The put of one of these callers, if there is one.
unfoldable pub proceed : ℕ → List ℕ → Supervisor → Supervisor
proceed zero spk s = s
proceed (suc others) spk s = (put_request spk (record s { entering = others })).1

module _ (read_int : List ℕ → Option ℤ) where
  unfoldable pub after : Event → Supervisor → Supervisor
  after enters s = enter s
  after (puts spk) s = proceed s.entering spk s
  after (cancels i) s = if ltb i s.issued then cancel i s else s
  after (starts reply) s = (start read_int reply s).1
  after (closes reply) s = (close_begin read_int reply s).1
  after drains s = close_end s
  after (works expired reply) s = work read_int expired reply s

  unfoldable pub after_all : List Event → Supervisor → Supervisor
  after_all [] s = s
  after_all (event ∷ events) s = after_all events (after event s)
