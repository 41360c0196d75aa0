-- ===== src/EventQueue.antt =====
-- include/event_queue.hpp and src/event_queue.cpp. An event carries no data.
use nxos_dhcp6_exporter.Prelude.{List, ◌∷◌}
use nxos_dhcp6_exporter.Outcome.{Outcome, fault, no_return}

-- EventItem
pub data EventItem : Type 0 where
  event : EventItem

-- The deque of EventQueue, its front first.
abbrev pub EventQueue : Type 0
EventQueue = List EventItem

-- pushEvent(const EventItem&)
unfoldable pub push_event_copy : EventItem → EventQueue → EventQueue
push_event_copy e items = e ∷ items

-- pushEvent(EventItem&&) takes the lock and does nothing else.
unfoldable pub push_event_move : EventItem → EventQueue → EventQueue
push_event_move e items = items

-- popEvent takes the lock and ends with no return statement.
unfoldable pub pop_event : EventQueue → Outcome (EventItem × EventQueue)
pop_event items = fault no_return
