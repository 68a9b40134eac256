-- ===== src/Worker.antt =====
-- vcs/workers/consumer_worker.py: the thread that drains a mailbox into a consumer.
pub mod Shutdown
use context_os.Base.{Bool, true, false, Option, none, some, List, [], ◌∷◌}
use context_os.Bus.Queue.{Message, stop, LocalQueue}
use context_os.Bus.Queue

-- `handle` of a consumer with state `S`: the flag is set where it raises. What it wrote before
-- that stays written.
abbrev pub Handler : Type 0 → Type 0
Handler S = Message → S → Bool × S

-- The loop ends at a STOP, or waits in `consume` for the next message.
pub data Progress (S : Type 0) : Type 0 where
  finished : S → List Message → Progress S
  waits : S → Progress S

-- What a run leaves: the consumer, if it was built, and the mailbox.
pub record Run (S : Type 0) : Type 0 where
  pub consumer : Option S
  pub mailbox : LocalQueue
  pub is_running : Bool

module _ {S : Type 0} where
  -- The loop of `run` over what the mailbox holds. An exception of the handler is logged and the
  -- loop goes on.
  unfoldable pub loop : Handler S → List Message → S → Progress S
  loop handle [] s = Progress.waits s
  loop handle (stop ∷ rest) s = Progress.finished s rest
  loop handle (Message.event e ∷ rest) s = loop handle rest (handle (Message.event e) s).1
  loop handle (Message.other ∷ rest) s = loop handle rest (handle Message.other s).1

  after_loop : Progress S → LocalQueue → Run S
  unfolding Queue.close
  after_loop (Progress.finished s rest) q = record {
    consumer = some s;
    mailbox = Queue.close (record q { items = rest });
    is_running = false;
  }
  after_loop (Progress.waits s) q = record {
    consumer = some s;
    mailbox = record q { items = [] };
    is_running = true;
  }

  -- `none` where building or configuring the consumer raises: the thread ends at once, and
  -- neither reads nor closes its mailbox.
  unfoldable pub run : Handler S → Option S → LocalQueue → Run S
  unfolding loop after_loop
  run handle none q = record { consumer = none; mailbox = q; is_running = false }
  run handle (some s) q = after_loop (loop handle q.items s) q
