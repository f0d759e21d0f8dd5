-- ===== src/EventQueues/Tests.antt =====
-- The theorems on the event rings at concrete inputs.
use agentic_os.Base.{◌≡◌, refl, [], ◌∷◌, ◌++◌, true, replicate, arith}
use agentic_os.EventQueues.{InputQueue, key, default_event, input_queue_capacity, enqueue}
use agentic_os.EventQueues.Input.{newest_kept, enqueue_lem}
use agentic_os.EventQueues.Input

-- One event waits, at the end of the range of positions.
abbrev wrapping_queue : InputQueue
wrapping_queue = record {
  buffer = replicate input_queue_capacity default_event;
  head = 0;
  tail = 18446744073709551615;
  has_events = true;
}

wrapping_queue-IsValid : Input.IsValid wrapping_queue
wrapping_queue-IsValid = record {
  buffer_size = refl;
  head_fits = omega arith;
  tail_fits = omega arith;
  at_most = omega arith;
  flag = refl;
}

enqueue_example :
    Input.IsValid (enqueue wrapping_queue (key 30) 7)
    × (Input.waiting (enqueue wrapping_queue (key 30) 7)
        ≡ newest_kept (Input.waiting wrapping_queue)
          ++ record { kind = key 30; timestamp_tsc = 7 } ∷ [])
enqueue_example = enqueue_lem wrapping_queue (key 30) 7 wrapping_queue-IsValid
