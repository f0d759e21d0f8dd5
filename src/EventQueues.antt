-- ===== src/EventQueues.antt =====
-- The two event rings: kernel_rs/src/events.rs, which drops a new event when it is full, and
-- kernel_rs/src/input_queue.rs, which drops the oldest. Each call is one step.
pub mod Kernel
pub mod Input
mod Tests
use agentic_os.Base.{
  ℕ, ◌+◌, ◌-◌, ◌%◌, ◌^◌, List, Bool, true, false, Option, none, some, get_or, set, replicate, leb,
  ◌==◌, if◌then◌else◌, u64, bit_and,
}

abbrev pub capacity : ℕ
capacity = 256

pub data Event : Type 0 where
  tick : ℕ → Event

-- `RingBuffer`
pub record RingBuffer : Type 0 where
  pub slots : List (Option Event)
  pub head : ℕ
  pub tail : ℕ

-- `QUEUE` at boot.
abbrev pub empty_ring : RingBuffer
empty_ring = record { slots = replicate capacity none; head = 0; tail = 0 }

-- `events::push`
unfoldable pub push : RingBuffer → Event → RingBuffer
push q event =
    let next = (q.head + 1) % capacity in
    if next == q.tail then q else record q { slots = set q.slots q.head (some event); head = next }

-- `events::pop`
unfoldable pub pop : RingBuffer → RingBuffer × Option Event
pop q = if q.tail == q.head then (q, none) else (
  record q { slots = set q.slots q.tail none; tail = (q.tail + 1) % capacity },
  get_or q.slots q.tail none,
)

abbrev pub input_queue_capacity : ℕ
input_queue_capacity = 128

-- The distances of a motion are i32 and only passed on: here their bits.
pub data InputEventKind : Type 0 where
  mouse_motion : (dx dy : ℕ) (left_down : Bool) → InputEventKind
  mouse_button : (button : ℕ) (down : Bool) → InputEventKind
  key : (scancode : ℕ) → InputEventKind

pub record InputEvent : Type 0 where
  pub kind : InputEventKind
  pub timestamp_tsc : ℕ

-- `InputEvent::default()`
abbrev pub default_event : InputEvent
default_event = record { kind = mouse_motion 0 0 false; timestamp_tsc = 0 }

pub record InputQueue : Type 0 where
  pub buffer : List InputEvent
  pub head : ℕ
  pub tail : ℕ
  pub has_events : Bool

-- `enqueue` at a given time stamp: `head.wrapping_sub(tail)` is written out on 64 bits.
unfoldable pub enqueue : InputQueue → InputEventKind → ℕ → InputQueue
enqueue q kind timestamp_tsc = record {
  buffer =
      set q.buffer (bit_and q.head 127) (record { kind = kind; timestamp_tsc = timestamp_tsc });
  head = u64 (q.head + 1);
  tail =
      if leb input_queue_capacity (u64 (q.head + 2 ^ 64 - q.tail))
      then u64 (q.tail + 1)
      else q.tail;
  has_events = true;
}

-- `dequeue`
unfoldable pub dequeue : InputQueue → InputQueue × Option InputEvent
dequeue q = if q.tail == q.head then (record q { has_events = false }, none) else (
  record q {
    tail = u64 (q.tail + 1);
    has_events = if u64 (q.tail + 1) == q.head then false else q.has_events;
  },
  some (get_or q.buffer (bit_and q.tail 127) default_event),
)

-- `pending_event_count`
unfoldable pub pending_event_count : InputQueue → ℕ
pending_event_count q = u64 (q.head + 2 ^ 64 - q.tail)

-- `clear_queue`
unfoldable pub clear_queue : InputQueue → InputQueue
clear_queue q = record q { tail = q.head; has_events = false }
