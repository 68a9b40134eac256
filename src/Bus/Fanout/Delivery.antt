-- ===== src/Bus/Fanout/Delivery.antt =====
-- What the bus has put into each mailbox after `publish` and after `close`.
use context_os.Base.{
  ℕ, zero, suc, ◌<◌, Bool, true, false, Option, some, List, [], ◌∷◌, ◌++◌, if◌then◌else◌, ◌≡◌, refl,
  ◌∙◌, ap, sym, arith, ◌==◌, nat_eq, Bool-cases, inl, inr,
}
use mathlib.Core.List.{append-nil, append_assoc}
use context_os.Base.Lists.{length}
use context_os.Base.Text.{Str}
use context_os.Event.{Event, topic_for}
use context_os.Bus.Queue
use context_os.Bus.Queue.{Message, event, stop, LocalQueue}
use context_os.Bus.Fanout.{
  Subscription, LocalEventBus, put, accepts, enqueue, fan_out, publish, stop_all, close,
}

-- The messages that wait in mailbox `q`.
abbrev pub waiting : ℕ → List LocalQueue → List Message
waiting q [] = []
waiting zero (b ∷ boxes) = b.items
waiting (suc q) (b ∷ boxes) = waiting q boxes

abbrev pub times : ℕ → Message → List Message
times zero m = []
times (suc n) m = m ∷ times n m

-- A message that `LocalQueue.publish` puts.
abbrev pub IsPut : Message → Type 0
IsPut Message.other = ⊥
IsPut _ = Unit

-- One more message, if the mailbox is the one.
waiting-put :
    (p q : ℕ) (m : Message) (boxes : List LocalQueue)
    → IsPut m
    → q < length boxes
    → waiting q (put p m boxes) ≡ waiting q boxes ++ (if p == q then m ∷ [] else [])
unfolding put Queue.publish
waiting-put p q m [] k h = absurd (omega arith)
waiting-put zero zero (event e) (b ∷ boxes) k h = refl
waiting-put zero zero stop (b ∷ boxes) k h = refl
waiting-put zero zero Message.other (b ∷ boxes) k h = absurd k
waiting-put zero (suc q) m (b ∷ boxes) k h = ground (arith, append-nil (waiting q boxes))
waiting-put (suc p) zero m (b ∷ boxes) k h = ground (arith, append-nil b.items)
waiting-put (suc p) (suc q) m (b ∷ boxes) k h =
    ground (arith, waiting-put p q m boxes k (omega arith))

length-put : (p : ℕ) (m : Message) (boxes : List LocalQueue) → length (put p m boxes) ≡ length boxes
unfolding put
length-put p m [] = refl
length-put zero m (b ∷ boxes) = refl
length-put (suc p) m (b ∷ boxes) = ap suc (length-put p m boxes)

-- Puts two additions to a list together.
regroup :
    {ms ns : List Message} (xs ys zs : List Message)
    → ms ≡ xs ++ ys
    → ns ≡ ys ++ zs
    → ms ++ zs ≡ xs ++ ns
regroup xs ys zs p q = rw (p, q) (append_assoc xs ys zs)

-- How many of the subscriptions of mailbox `q` have the answer yes.
abbrev pub takes : Option Bool → ℕ → ℕ → Bool
takes (some true) p q = p == q
takes _ p q = false

waiting-enqueue :
    (answer : Option Bool) (p q : ℕ) (e : Event) (boxes : List LocalQueue)
    → q < length boxes
    → waiting q (enqueue answer p e boxes)
      ≡ waiting q boxes ++ (if takes answer p q then event e ∷ [] else [])
unfolding enqueue
waiting-enqueue (some true) p q e boxes h = waiting-put p q (event e) boxes tt h
waiting-enqueue _ p q e boxes h = sym (append-nil (waiting q boxes))

length-enqueue :
    (answer : Option Bool) (p : ℕ) (e : Event) (boxes : List LocalQueue)
    → length (enqueue answer p e boxes) ≡ length boxes
unfolding enqueue
length-enqueue (some true) p e boxes = length-put p (event e) boxes
length-enqueue _ p e boxes = refl

times-if :
    (b : Bool) (n : ℕ) (m : Message)
    → times (if b then suc n else n) m ≡ (if b then m ∷ [] else []) ++ times n m
times-if true n m = refl
times-if false n m = refl

module _ {S : Type 0} where
  abbrev pub takers : (Subscription S → Option Bool) → ℕ → List (Subscription S) → ℕ
  takers answer q [] = 0
  takers answer q (sub ∷ subs) =
      let rest = takers answer q subs in if takes (answer sub) sub.queue q then suc rest else rest

  abbrev pub bound : ℕ → List (Subscription S) → ℕ
  bound q subs = takers (λ _. some true) q subs

  times-takers :
      (answer : Subscription S → Option Bool) (q : ℕ) (m : Message) (sub : Subscription S)
      (subs : List (Subscription S))
      → times (takers answer q (sub ∷ subs)) m
        ≡ (if takes (answer sub) sub.queue q then m ∷ [] else []) ++ times (takers answer q subs) m
  times-takers answer q m sub subs = elim (Bool-cases (takes (answer sub) sub.queue q)) [
    | inl e ↦ rw e
    | inr e ↦ rw e
  ]

  waiting-stop_all :
      (q : ℕ) (subs : List (Subscription S)) (boxes : List LocalQueue)
      → q < length boxes
      → waiting q (stop_all subs boxes) ≡ waiting q boxes ++ times (bound q subs) stop
  unfolding stop_all
  waiting-stop_all q [] boxes h = sym (append-nil (waiting q boxes))
  waiting-stop_all q (sub ∷ subs) boxes h =
      waiting-stop_all q subs (put sub.queue stop boxes) (rw length-put h)
      ∙ regroup (waiting q boxes) _ (times (bound q subs) stop)
          (waiting-put sub.queue q stop boxes tt h) (times-takers (λ _. some true) q stop sub subs)

  -- Closing an open bus puts one STOP for each subscription into that subscription's mailbox,
  -- behind what waits there; and closing it again changes nothing.
  pub close_broadcasts :
      (bus : LocalEventBus S) (q : ℕ)
      → bus.closed ≡ false
      → q < length bus.mailboxes
      → (waiting q (close bus).mailboxes
          ≡ waiting q bus.mailboxes ++ times (bound q bus.subscriptions) stop)
        × (close (close bus) ≡ close bus)
  unfolding close
  close_broadcasts bus q o h =
      (ground (arith, waiting-stop_all q bus.subscriptions bus.mailboxes h), ground arith)

  -- How many subscriptions of mailbox `q` accept the event, each predicate meeting the state
  -- that the ones before it left.
  abbrev pub accepted : ℕ → Str → Event → List (Subscription S) → S → ℕ
  accepted q topic e [] s = 0
  accepted q topic e (sub ∷ subs) s =
      let (answer, s') = accepts sub topic e s in
      let rest = accepted q topic e subs s' in if takes answer sub.queue q then suc rest else rest

  waiting-fan_out :
      (topic : Str) (e : Event) (q : ℕ) (subs : List (Subscription S)) (s : S)
      (boxes : List LocalQueue)
      → q < length boxes
      → waiting q (fan_out subs topic e s boxes).1
        ≡ waiting q boxes ++ times (accepted q topic e subs s) (event e)
  unfolding fan_out
  waiting-fan_out topic e q [] s boxes h = sym (append-nil (waiting q boxes))
  waiting-fan_out topic e q (sub ∷ subs) s boxes h =
      let (answer, s') = accepts sub topic e s in
      waiting-fan_out topic e q subs s' (enqueue answer sub.queue e boxes) (rw length-enqueue h)
      ∙ regroup (waiting q boxes) _ (times (accepted q topic e subs s') (event e))
          (waiting-enqueue answer sub.queue q e boxes h)
          (times-if (takes answer sub.queue q) (accepted q topic e subs s') (event e))

  -- Publishing puts, behind what waits in a mailbox of the bus, one copy of the event for each
  -- subscription of that mailbox that accepts it, and nothing else; each predicate is asked in
  -- the state that those before it left. A predicate that raises or says no costs the other
  -- subscriptions nothing but what it does to the state that they share.
  pub publish_delivers :
      (e : Event) (bus : LocalEventBus S) (s : S) (q : ℕ)
      → q < length bus.mailboxes
      → waiting q (publish e bus s).0.mailboxes
        ≡ waiting q bus.mailboxes
          ++ times (accepted q (topic_for e) e bus.subscriptions s) (event e)
  unfolding publish
  publish_delivers e bus s q h =
      waiting-fan_out (topic_for e) e q bus.subscriptions s bus.mailboxes h
