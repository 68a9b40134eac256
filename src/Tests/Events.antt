-- ===== src/Tests/Events.antt =====
-- The theorems on events, the bus and the workers at concrete inputs.
use context_os.Base.{
  ℕ, suc, true, false, none, some, [], ◌∷◌, ◌++◌, ◌≡◌, ◌↔◌, refl, nat_eq, list_eq, ◌==◌,
  if◌then◌else◌, list_beq, arith,
}
use context_os.Base.Text.{str, split}
use context_os.Event.{Event, IsWellFormed, is_moved, topic_for, created_event}
use context_os.Event.Wire.{
  Wire, event_to_dict, event_from_dict, class_of_wire, class_name, ok, event_from_dict-to_dict,
}
use context_os.Bus.Topic.{topic_matches}
use context_os.Bus.Topic.Correct.{Matches, topic_matches_iff}
use context_os.Bus.Queue.{event, stop, LocalQueue, empty}
use context_os.Bus.Fanout.{Subscription, LocalEventBus, publish, close}
use context_os.Bus.Fanout.Delivery.{
  waiting, times, accepted, bound, close_broadcasts, publish_delivers,
}
use context_os.Worker.{Handler, Progress, loop}
use context_os.Worker.Shutdown.{handle_all, close_ends_worker}
use context_os.Tests.Worlds.{plan}

topic_matches_iff_example :
    (topic_matches (str "source.*.#") (str "source.created") ≡ true)
    ↔ Matches (split b'.' (str "source.*.#")) (split b'.' (str "source.created"))
topic_matches_iff_example = topic_matches_iff (str "source.*.#") (str "source.created")

abbrev created_plan : Event
created_plan = created_event plan none

created_plan-IsWellFormed : IsWellFormed created_plan
unfolding is_moved
created_plan-IsWellFormed = record { has_dst = λ h. cc; no_dst = λ h. refl }

abbrev plan_wire : Wire
plan_wire = record {
  event = some (str "source.created");
  src = some plan;
  provider = some (str "local");
  is_dir = some false;
  actor = some none;
  dst = none;
}

plan_written : event_to_dict created_plan ≡ ok plan_wire
unfolding event_to_dict class_name
plan_written = refl

plan_read : event_from_dict plan_wire ≡ ok created_plan
unfolding event_from_dict class_of_wire list_beq
plan_read = refl

plan_name : class_name created_plan.cls ≡ some (str "source.created")
unfolding class_name
plan_name = refl

event_from_dict-to_dict_example : event_from_dict plan_wire ≡ ok created_plan
event_from_dict-to_dict_example =
    event_from_dict-to_dict created_plan plan_wire created_plan-IsWellFormed plan_written

-- A move that does not say where to.
abbrev lost_move : Wire
lost_move = record {
  event = some (str "source.moved");
  src = some plan;
  provider = none;
  is_dir = none;
  actor = none;
  dst = none;
}

-- Two subscriptions that share mailbox 0, and one with a mailbox of its own. The state counts
-- the events that were tested, and the last predicate raises at the first one.
abbrev sub_all : Subscription ℕ
sub_all = record { pattern = str "#"; queue = 0; condition = none }

abbrev sub_source : Subscription ℕ
sub_source = record {
  pattern = str "source.#";
  queue = 0;
  condition = some (λ e s. (some true, suc s));
}

abbrev sub_raising : Subscription ℕ
sub_raising = record {
  pattern = str "source";
  queue = 1;
  condition = some (λ e s. (if s == 1 then none else some true, s));
}

abbrev three_subs : LocalEventBus ℕ
three_subs = record {
  subscriptions = sub_all ∷ sub_source ∷ sub_raising ∷ [];
  closed = false;
  mailboxes = record { items = event created_plan ∷ []; closed = false } ∷ empty ∷ [];
}

publish_delivers_example :
    waiting 0 (publish created_plan three_subs 0).0.mailboxes
    ≡ waiting 0 three_subs.mailboxes
      ++ times
          (accepted 0 (topic_for created_plan) created_plan three_subs.subscriptions 0)
          (event created_plan)
publish_delivers_example = publish_delivers created_plan three_subs 0 0 (omega arith)

close_broadcasts_example :
    (waiting 0 (close three_subs).mailboxes
      ≡ waiting 0 three_subs.mailboxes ++ times (bound 0 three_subs.subscriptions) stop)
    × (close (close three_subs) ≡ close three_subs)
close_broadcasts_example = close_broadcasts three_subs 0 refl (omega arith)

-- A consumer that counts what it is given, and raises each time.
abbrev counter : Handler ℕ
counter m n = (true, suc n)

close_ends_worker_example :
    loop counter (waiting 0 (close three_subs).mailboxes) 0
    ≡ Progress.finished (handle_all counter (waiting 0 three_subs.mailboxes) 0) (times 1 stop)
close_ends_worker_example =
    close_ends_worker counter three_subs 0 1 0 refl (omega arith) refl (tt, tt)

abbrev busy : LocalQueue
busy = record { items = event created_plan ∷ stop ∷ stop ∷ []; closed = false }
