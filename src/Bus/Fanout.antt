-- ===== src/Bus/Fanout.antt =====
-- vcs/workers/bus.py: `Subscription` and `LocalEventBus`. A subscription holds its mailbox by
-- reference, so the mailboxes are a store and two subscriptions may share one.
pub mod Delivery
use context_os.Base.{
  ℕ, zero, suc, Bool, true, false, Option, none, some, List, [], ◌∷◌, ◌++◌, if◌then◌else◌,
}
use context_os.Base.Lists.{length}
use context_os.Base.Text.{Str}
use context_os.Event.{Event, topic_for}
use context_os.Bus.Topic.{topic_matches}
use context_os.Bus.Queue.{Message, event, stop, LocalQueue, empty}
use context_os.Bus.Queue

-- A predicate may read and write the state `S` of its owner; `none` is a raised exception.
abbrev pub Predicate : Type 0 → Type 0
Predicate S = Event → S → Option Bool × S

pub record Subscription (S : Type 0) : Type 0 where
  pub pattern : Str
  pub queue : ℕ
  pub condition : Option (Predicate S)

pub record LocalEventBus (S : Type 0) : Type 0 where
  pub subscriptions : List (Subscription S)
  pub closed : Bool
  pub mailboxes : List LocalQueue

abbrev pub init : {S : Type 0} → LocalEventBus S
init = record { subscriptions = []; closed = false; mailboxes = [] }

-- `mailbox.publish(m)` through a reference.
unfoldable pub put : ℕ → Message → List LocalQueue → List LocalQueue
put i m [] = []
put zero m (q ∷ qs) = Queue.publish m q ∷ qs
put (suc i) m (q ∷ qs) = q ∷ put i m qs

-- The answer of a predicate: only a plain yes enqueues, and a raise drops the event.
unfoldable pub enqueue : Option Bool → ℕ → Event → List LocalQueue → List LocalQueue
unfolding put
enqueue (some true) q e boxes = put q (event e) boxes
enqueue _ q e boxes = boxes

module _ {S : Type 0} where
  unfoldable pub accepts : Subscription S → Str → Event → S → Option Bool × S
  accepts sub topic e s =
      if topic_matches sub.pattern topic
      then elim sub.condition [ none ↦ (some true, s) | some test ↦ test e s ]
      else (some false, s)

  -- A subscription with no queue given gets a new mailbox.
  unfoldable pub subscribe :
      Str → Option ℕ → Option (Predicate S) → LocalEventBus S → Subscription S × LocalEventBus S
  subscribe pattern (some q) condition bus =
      let sub : Subscription S = record { pattern = pattern; queue = q; condition = condition } in
      (sub, record bus { subscriptions = bus.subscriptions ++ sub ∷ [] })
  subscribe pattern none condition bus =
      let sub : Subscription S = record {
        pattern = pattern;
        queue = length bus.mailboxes;
        condition = condition;
      } in
      (
        sub,
        record bus {
          subscriptions = bus.subscriptions ++ sub ∷ [];
          mailboxes = bus.mailboxes ++ empty ∷ [];
        },
      )

  unfoldable pub fan_out :
      List (Subscription S) → Str → Event → S → List LocalQueue → S × List LocalQueue
  unfolding accepts enqueue
  fan_out [] topic e s boxes = (s, boxes)
  fan_out (sub ∷ subs) topic e s boxes =
      let (accepted, s') = accepts sub topic e s in
      fan_out subs topic e s' (enqueue accepted sub.queue e boxes)

  unfoldable pub publish : Event → LocalEventBus S → S → LocalEventBus S × S
  unfolding fan_out topic_for
  publish e bus s =
      let (s', boxes) = fan_out bus.subscriptions (topic_for e) e s bus.mailboxes in
      (record bus { mailboxes = boxes }, s')

  unfoldable pub stop_all : List (Subscription S) → List LocalQueue → List LocalQueue
  unfolding put
  stop_all [] boxes = boxes
  stop_all (sub ∷ subs) boxes = stop_all subs (put sub.queue stop boxes)

  unfoldable pub close : LocalEventBus S → LocalEventBus S
  unfolding stop_all
  close bus =
      if bus.closed
      then bus
      else record bus { closed = true; mailboxes = stop_all bus.subscriptions bus.mailboxes }
