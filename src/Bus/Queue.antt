-- ===== src/Bus/Queue.antt =====
-- vcs/workers/local/local_queue.py: the mailbox of a subscription, and its messages.
use context_os.Base.{Bool, true, false, Option, none, some, List, [], ◌∷◌, ◌++◌}
use context_os.Event.{Event}

-- What `publish` may be handed: an event, the STOP object, or anything else.
pub data Message : Type 0 where
  event : Event → Message
  stop : Message
  other : Message

pub record LocalQueue : Type 0 where
  pub items : List Message
  pub closed : Bool

abbrev pub empty : LocalQueue
empty = record { items = []; closed = false }

-- Only events and STOP are put.
unfoldable pub publish : Message → LocalQueue → LocalQueue
publish Message.other q = q
publish m q = record q { items = q.items ++ m ∷ [] }

-- `none` where `get` blocks.
unfoldable pub consume : LocalQueue → Option (Message × LocalQueue)
consume q = elim q.items [ [] ↦ none | m ∷ rest ↦ some (m, record q { items = rest }) ]

unfoldable pub close : LocalQueue → LocalQueue
close q = record q { closed = true }
