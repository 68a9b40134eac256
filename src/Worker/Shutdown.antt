-- ===== src/Worker/Shutdown.antt =====
-- A worker handles all that came before the first STOP, whatever raises, and then ends; so closing
-- the bus ends every worker on one of its mailboxes.
use context_os.Base.{ℕ, suc, ◌<◌, true, false, some, List, [], ◌∷◌, ◌++◌, ◌≡◌, refl, ◌∙◌, ap}
use context_os.Base.Lists.{length, All}
use context_os.Bus.Queue.{Message, event, stop, LocalQueue}
use context_os.Bus.Fanout.{LocalEventBus, close}
use context_os.Bus.Fanout.Delivery.{waiting, times, bound, close_broadcasts}
use context_os.Worker.{Handler, Progress, loop, run}

abbrev pub IsEvent : Message → Type 0
IsEvent stop = ⊥
IsEvent _ = Unit

module _ {S : Type 0} (handle : Handler S) where
  -- The consumer's state after each of the messages has been handled in turn.
  abbrev pub handle_all : List Message → S → S
  handle_all [] s = s
  handle_all (m ∷ ms) s = handle_all ms (handle m s).1

  loop-until_stop :
      (ms rest : List Message) (s : S)
      → All IsEvent ms
      → loop handle (ms ++ stop ∷ rest) s ≡ Progress.finished (handle_all ms s) rest
  unfolding loop
  loop-until_stop [] rest s h = refl
  loop-until_stop (event e ∷ ms) rest s h = loop-until_stop ms rest (handle (event e) s).1 h.1
  loop-until_stop (Message.other ∷ ms) rest s h =
      loop-until_stop ms rest (handle Message.other s).1 h.1
  loop-until_stop (stop ∷ ms) rest s h = absurd h.0

  -- A started worker whose mailbox holds a STOP ends. It has handled exactly the messages before
  -- the first STOP, in order and whichever of them raised, has left the rest, and has closed
  -- the mailbox.
  pub run-until_stop :
      (q : LocalQueue) (ms rest : List Message) (s : S)
      → q.items ≡ ms ++ stop ∷ rest
      → All IsEvent ms
      → run handle (some s) q ≡ record {
        consumer = some (handle_all ms s);
        mailbox = record { items = rest; closed = true };
        is_running = false;
      }
  unfolding run
  run-until_stop q ms rest s e h = rw e (rw (loop-until_stop ms rest s h))

  -- After the bus is closed, a worker on a mailbox with at least one subscription ends, having
  -- handled all that waited there; the STOPs of further subscriptions of that mailbox are left
  -- for their own workers.
  pub close_ends_worker :
      {T : Type 0} (bus : LocalEventBus T) (q n : ℕ) (s : S)
      → bus.closed ≡ false
      → q < length bus.mailboxes
      → bound q bus.subscriptions ≡ suc n
      → All IsEvent (waiting q bus.mailboxes)
      → loop handle (waiting q (close bus).mailboxes) s
        ≡ Progress.finished (handle_all (waiting q bus.mailboxes) s) (times n stop)
  close_ends_worker bus q n s o h b v =
      ap (λ ms. loop handle ms s)
        ((close_broadcasts bus q o h).0 ∙ ap (λ k. waiting q bus.mailboxes ++ times k stop) b)
      ∙ loop-until_stop (waiting q bus.mailboxes) (times n stop) s v
