-- ===== src/EventQueues/Input.antt =====
-- The queue of kernel_rs/src/input_queue.rs as a list that forgets its oldest events.
use agentic_os.Base.{
  ℕ, suc, ◌+◌, ◌-◌, ◌%◌, ◌^◌, ◌≤◌, ◌<◌, ◌≡◌, refl, ap, ◌∙◌, ◌⊎◌, List, [], ◌∷◌, ◌++◌, true, false,
  none, some, inl, inr, Bool-cases, length, length-set, get_or, set, ◌≢◌, drop, leb, ◌==◌,
  if◌then◌else◌, u64, bit_and, arith,
}
use agentic_os.Base.Bits.{bit_and-ones}
use agentic_os.Base.Ring.{
  IsModulus, ring_list, length-ring_list, ring_list_mod, ring_list-snoc, ring_list-uncons,
}
use agentic_os.EventQueues.{
  InputQueue, InputEvent, InputEventKind, default_event, input_queue_capacity, enqueue, dequeue,
}

slot_mod : IsModulus input_queue_capacity
slot_mod = record {
  below = λ h. omega arith;
  apart = λ h k lt e. omega arith;
  next = λ h h' e. omega arith;
}

-- The positions are u64, at most 128 events wait, and the flag says whether one does.
pub record IsValid (q : InputQueue) : Type 0 where
  pub buffer_size : length q.buffer ≡ input_queue_capacity
  pub head_fits : q.head < 2 ^ 64
  pub tail_fits : q.tail < 2 ^ 64
  pub at_most : u64 (q.head + 2 ^ 64 - q.tail) ≤ input_queue_capacity
  pub flag : q.has_events ≡ (if q.tail == q.head then false else true)

-- The events that wait, oldest first.
abbrev pub waiting : InputQueue → List InputEvent
waiting q =
    ring_list default_event input_queue_capacity q.buffer q.tail (u64 (q.head + 2 ^ 64 - q.tail))

abbrev pub newest_kept : List InputEvent → List InputEvent
newest_kept q = if leb input_queue_capacity (length q) then drop 1 q else q

enqueue-IsValid :
    (q : InputQueue) (kind : InputEventKind) (now : ℕ) → IsValid q → IsValid (enqueue q kind now)
unfolding enqueue
enqueue-IsValid q kind now v = record {
  buffer_size = length-set q.buffer _ _ ∙ v.buffer_size;
  head_fits = omega arith;
  tail_fits = ground (arith, v.tail_fits);
  at_most = ground (arith, v.at_most, v.head_fits, v.tail_fits);
  flag = ground (arith, v.at_most, v.head_fits, v.tail_fits);
}

dequeue-IsValid : (q : InputQueue) → IsValid q → IsValid (dequeue q).0
unfolding dequeue
dequeue-IsValid q v = ground (arith, v.buffer_size, v.at_most, v.head_fits, v.tail_fits, v.flag)

abbrev listed : List InputEvent → ℕ → ℕ → List InputEvent
listed = ring_list default_event input_queue_capacity

listed-room :
    (buffer : List InputEvent) (tail n n' i : ℕ) (e : InputEvent)
    → length buffer ≡ input_queue_capacity
    → n < input_queue_capacity
    → n' ≡ suc n
    → i ≡ (tail + n) % input_queue_capacity
    → listed (set buffer i e) tail n' ≡ listed buffer tail n ++ e ∷ []
listed-room buffer tail n n' i e size room count at =
    ap (listed (set buffer i e) tail) count
    ∙ ring_list-snoc default_event input_queue_capacity slot_mod buffer tail n i e (omega arith)
        room at

listed-full :
    (buffer : List InputEvent) (tail tail' n n' i : ℕ) (e : InputEvent)
    → length buffer ≡ input_queue_capacity
    → n ≡ 128
    → n' ≡ 128
    → tail' % input_queue_capacity ≡ (tail + 1) % input_queue_capacity
    → i ≡ (tail + 1 + 127) % input_queue_capacity
    → listed (set buffer i e) tail' n' ≡ drop 1 (listed buffer tail n) ++ e ∷ []
listed-full buffer tail tail' n n' i e size full count next at =
    rw (full, count)
      (ring_list_mod default_event input_queue_capacity slot_mod (set buffer i e) tail' (tail + 1)
          128 next
        ∙ ring_list-snoc default_event input_queue_capacity slot_mod buffer (tail + 1) 127 i e
            (omega arith) (omega arith) at)

length-waiting : (q : InputQueue) → length (waiting q) ≡ u64 (q.head + 2 ^ 64 - q.tail)
length-waiting q = length-ring_list default_event input_queue_capacity slot_mod q.buffer q.tail _

-- From a valid queue, an event is always taken in: behind those that wait, of which the oldest is
-- dropped if 128 wait. The queue stays valid.
pub enqueue_lem :
    (q : InputQueue) (kind : InputEventKind) (now : ℕ)
    → IsValid q
    → IsValid (enqueue q kind now)
      × (waiting (enqueue q kind now)
          ≡ newest_kept (waiting q) ++ record { kind = kind; timestamp_tsc = now } ∷ [])
unfolding enqueue
enqueue_lem q kind now v = (
  enqueue-IsValid q kind now v,
  (elim (Bool-cases (leb input_queue_capacity (u64 (q.head + 2 ^ 64 - q.tail)))) [
    | inl full ↦ rw (length-waiting q) (
        rw full (
          listed-full q.buffer q.tail (u64 (q.tail + 1)) _ _ (bit_and q.head 127) _ v.buffer_size
            (ground (arith, v.at_most)) (ground (arith, v.at_most, v.head_fits, v.tail_fits))
            (omega arith)
            (ground (arith, bit_and-ones 7 q.head, v.head_fits, v.tail_fits, v.at_most))))
    | inr room ↦ rw (length-waiting q) (
        rw room (
          listed-room q.buffer q.tail _ _ (bit_and q.head 127) _ v.buffer_size (ground arith)
            (ground (arith, v.at_most, v.head_fits, v.tail_fits))
            (ground (arith, bit_and-ones 7 q.head, v.head_fits, v.tail_fits, v.at_most))))
  ]),
)

no_events : (q : InputQueue) → u64 (q.head + 2 ^ 64 - q.tail) ≡ 0 → waiting q ≡ []
no_events q h = rw h refl

first_event :
    (q : InputQueue)
    → IsValid q
    → q.tail ≢ q.head
    → waiting q
      ≡ get_or q.buffer (bit_and q.tail 127) default_event
        ∷ listed q.buffer (u64 (q.tail + 1)) (u64 (q.head + 2 ^ 64 - u64 (q.tail + 1)))
first_event q v apart =
    ring_list-uncons default_event input_queue_capacity slot_mod q.buffer q.tail _
      (ground (arith, v.head_fits, v.tail_fits))
    ∙ λ i. get_or q.buffer (slot i) default_event ∷ rest i
  where
    slot : q.tail % 128 ≡ bit_and q.tail 127
    slot = omega (arith, bit_and-ones 7 q.tail)

    count : u64 (q.head + 2 ^ 64 - q.tail) - 1 ≡ u64 (q.head + 2 ^ 64 - u64 (q.tail + 1))
    count = ground (arith, v.head_fits, v.tail_fits)

    rest :
        listed q.buffer (q.tail + 1) (u64 (q.head + 2 ^ 64 - q.tail) - 1)
        ≡ listed q.buffer (u64 (q.tail + 1)) (u64 (q.head + 2 ^ 64 - u64 (q.tail + 1)))
    rest =
        ring_list_mod default_event input_queue_capacity slot_mod q.buffer (q.tail + 1)
          (u64 (q.tail + 1)) _ (omega arith)
        ∙ ap (listed q.buffer (u64 (q.tail + 1))) count

-- From a valid queue, the oldest event is handed out, if one waits, and the others wait on. The
-- queue stays valid.
pub dequeue_lem :
    (q : InputQueue)
    → IsValid q
    → let (after, out) = dequeue q in
      IsValid after
      × (((waiting q ≡ []) × (out ≡ none) × (waiting after ≡ []))
          ⊎ ((e : InputEvent) × (waiting q ≡ e ∷ waiting after) × (out ≡ some e)))
unfolding dequeue
dequeue_lem q v = (
  dequeue-IsValid q v,
  elim (Bool-cases (q.tail == q.head)) [
    | inl same ↦ rw same (
        inl (
          no_events q (ground (arith, v.head_fits)),
          refl,
          no_events q (ground (arith, v.head_fits)),
        ))
    | inr apart ↦ rw apart (
        inr (
          get_or q.buffer (bit_and q.tail 127) default_event,
          first_event q v (ground arith),
          refl,
        ))
  ],
)
