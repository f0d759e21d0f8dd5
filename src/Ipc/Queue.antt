-- ===== src/Ipc/Queue.antt =====
-- The queue of an endpoint, kernel_rs/src/ipc.rs: a ring of 32 messages that behaves as a bounded
-- first-in first-out list.
use agentic_os.Base.{
  ◌+◌, ◌-◌, ◌%◌, ◌≤◌, ◌<◌, ◌≡◌, refl, ap, ◌∙◌, List, [], ◌∷◌, ◌++◌, Bool, true, false, Option, none,
  some, arith, length, length-set, leb, if◌then◌else◌, u8,
}
use agentic_os.Base.Ring.{
  IsModulus, ring_list, length-ring_list, ring_list_mod, ring_list-snoc, ring_list-uncons,
}
use agentic_os.Ipc.{Message, empty_message, Endpoint, queue_depth, enqueue, dequeue, new_endpoint}

depth_mod : IsModulus queue_depth
depth_mod = record {
  below = λ h. omega arith;
  apart = λ h k lt e. omega arith;
  next = λ h h' e. omega arith;
}

-- The representation invariant of an endpoint's queue.
pub record IsValid (e : Endpoint) : Type 0 where
  pub slots : length e.q_slots ≡ queue_depth
  pub head_in : e.q_head < queue_depth
  pub tail_in : e.q_tail < queue_depth
  pub len_in : e.q_len ≤ queue_depth
  pub head_at : e.q_head ≡ (e.q_tail + e.q_len) % queue_depth

-- The messages that wait, oldest first.
abbrev pub waiting : Endpoint → List Message
waiting e = ring_list empty_message queue_depth e.q_slots e.q_tail e.q_len

pub length-waiting : (e : Endpoint) → length (waiting e) ≡ e.q_len
length-waiting e = length-ring_list empty_message queue_depth depth_mod e.q_slots e.q_tail e.q_len

-- A queue of at most `queue_depth` messages.
abbrev pub bounded_push : List Message → Message → List Message × Bool
bounded_push q m = if leb queue_depth (length q) then (q, false) else (q ++ m ∷ [], true)

abbrev pub bounded_pop : List Message → List Message × Option Message
bounded_pop [] = ([], none)
bounded_pop (m ∷ q) = (q, some m)

pub new_endpoint-IsValid : IsValid new_endpoint × (waiting new_endpoint ≡ [])
new_endpoint-IsValid = (omega (arith), refl)

pub enqueue-IsValid : (e : Endpoint) (m : Message) → IsValid e → IsValid (enqueue e m).0
unfolding enqueue
enqueue-IsValid e m v = ground (arith, length-set e.q_slots e.q_head m)

pub dequeue-IsValid : (e : Endpoint) → IsValid e → IsValid (dequeue e).0
unfolding dequeue
dequeue-IsValid e v = ground arith

-- Sending to a valid endpoint refines the bounded push: the same answer and the same waiting list.
pub enqueue_refines :
    (e : Endpoint) (m : Message)
    → IsValid e
    → let (e', sent) = enqueue e m in (waiting e', sent) ≡ bounded_push (waiting e) m
unfolding enqueue
enqueue_refines e m v = ground (
  arith,
  length-waiting e,
  ring_list-snoc empty_message queue_depth depth_mod e.q_slots e.q_tail e.q_len e.q_head m,
)

-- Receiving from a valid endpoint refines the pop of the oldest message.
pub dequeue_refines :
    (e : Endpoint)
    → IsValid e
    → let (e', out) = dequeue e in (waiting e', out) ≡ bounded_pop (waiting e)
unfolding dequeue
dequeue_refines e v = ground (
  arith,
  ring_list-uncons empty_message queue_depth depth_mod e.q_slots e.q_tail e.q_len,
  ring_list_mod empty_message queue_depth depth_mod e.q_slots (e.q_tail + 1)
      (u8 ((e.q_tail + 1) % queue_depth)) (e.q_len - 1),
)

-- A client's calls on one endpoint's queue, in order, with the answers.
pub data Call : Type 0 where
  sends : Message → Call
  receives : Call

pub data Answer : Type 0 where
  sent : Bool → Answer
  received : Option Message → Answer

unfoldable pub run_queue : Endpoint → List Call → List Answer
run_queue e [] = []
run_queue e (sends m ∷ cs) = let (e', b) = enqueue e m in sent b ∷ run_queue e' cs
run_queue e (receives ∷ cs) = let (e', out) = dequeue e in received out ∷ run_queue e' cs

unfoldable pub run_bounded : List Message → List Call → List Answer
run_bounded q [] = []
run_bounded q (sends m ∷ cs) = let (q', b) = bounded_push q m in sent b ∷ run_bounded q' cs
run_bounded q (receives ∷ cs) = let (q', out) = bounded_pop q in received out ∷ run_bounded q' cs

-- No sequence of sends and receives tells a valid endpoint from the bounded first-in first-out
-- queue of the messages that wait in it.
pub run_queue_refines :
    (e : Endpoint) (cs : List Call) → IsValid e → run_queue e cs ≡ run_bounded (waiting e) cs
unfolding run_queue run_bounded
run_queue_refines e [] v = refl
run_queue_refines e (sends m ∷ cs) v =
    ap (λ rest. sent (enqueue e m).1 ∷ rest)
      (run_queue_refines (enqueue e m).0 cs (enqueue-IsValid e m v))
    ∙ ap (λ (r : List Message × Bool). sent r.1 ∷ run_bounded r.0 cs) (enqueue_refines e m v)
run_queue_refines e (receives ∷ cs) v =
    ap (λ rest. received (dequeue e).1 ∷ rest)
      (run_queue_refines (dequeue e).0 cs (dequeue-IsValid e v))
    ∙ ap (λ (r : List Message × Option Message). received r.1 ∷ run_bounded r.0 cs)
        (dequeue_refines e v)
