-- ===== src/Ipc/Rendezvous.antt =====
-- The blocking `send` and `receive` of kernel_rs/src/ipc.rs. They take no lock, so each access to the
-- endpoint is a step of its own: a poll of the state, the write or the read of the message, a store of
-- the state.
use agentic_os.Base.{◌≡◌, refl, List, [], ◌∷◌, ◌++◌, arith, ◌⊎◌, inl, inr}
use mathlib.Core.List.{append-nil}
use agentic_os.Ipc.{Message, Endpoint, EndpointState, idle, message_pending, message_taken}

-- Where a thread is in `send`: the poll of the first loop, the message write, the store that makes
-- it pending, the poll of the second loop, the store that makes the endpoint idle.
pub data Sender : Type 0 where
  outside : Sender
  awaits_idle writes : Message → Sender
  publishes awaits_taken resets : Sender

-- Where a thread is in `receive`: the poll of its loop, the read of the message, the store that takes it.
pub data Receiver : Type 0 where
  outside awaits_pending reads : Receiver
  takes : Message → Receiver

-- A poll of the first loop of `send`.
pub admit : EndpointState → Message → Sender
admit idle m = Sender.writes m
admit message_pending m = Sender.awaits_idle m
admit message_taken m = Sender.awaits_idle m

-- A poll of the second loop of `send`.
pub acknowledge : EndpointState → Sender
acknowledge message_taken = Sender.resets
acknowledge idle = Sender.awaits_taken
acknowledge message_pending = Sender.awaits_taken

-- The next access of a thread in `send`.
unfoldable pub send_step : Endpoint → Sender → Endpoint × Sender
unfolding admit acknowledge
send_step e Sender.outside = (e, Sender.outside)
send_step e (Sender.awaits_idle m) = (e, admit e.state m)
send_step e (Sender.writes m) = (record e { message = m }, Sender.publishes)
send_step e Sender.publishes = (record e { state = message_pending }, Sender.awaits_taken)
send_step e Sender.awaits_taken = (e, acknowledge e.state)
send_step e Sender.resets = (record e { state = idle }, Sender.outside)

-- A poll of the loop of `receive`.
pub notice : EndpointState → Receiver
notice message_pending = Receiver.reads
notice idle = Receiver.awaits_pending
notice message_taken = Receiver.awaits_pending

-- The next access of a thread in `receive`, and the message with which it returns.
unfoldable pub receive_step : Endpoint → Receiver → Endpoint × Receiver × List Message
unfolding notice
receive_step e Receiver.outside = (e, Receiver.outside, [])
receive_step e Receiver.awaits_pending = (e, notice e.state, [])
receive_step e Receiver.reads = (e, Receiver.takes e.message, [])
receive_step e (Receiver.takes m) = (record e { state = message_taken }, Receiver.outside, m ∷ [])

-- An endpoint with one sending and one receiving thread: `sent` are the messages of the calls of
-- `send` so far, `received` those that calls of `receive` returned.
pub record Exchange : Type 0 where
  pub endpoint : Endpoint
  pub sender : Sender
  pub receiver : Receiver
  pub sent : List Message
  pub received : List Message

abbrev sender_moved : Exchange → Endpoint × Sender → Exchange
sender_moved x (e, s) = record x { endpoint = e; sender = s }

abbrev receiver_moved : Exchange → Endpoint × Receiver × List Message → Exchange
receiver_moved x (e, r, got) = record x { endpoint = e; receiver = r; received = x.received ++ got }

-- What happens next: a thread outside a call starts one, or a thread makes its next access.
pub data Turn : Type 0 where
  send_called : Message → Turn
  receive_called sender_runs receiver_runs : Turn

start_send : Exchange → Sender → Message → Exchange
start_send x Sender.outside m = record x { sender = Sender.awaits_idle m; sent = x.sent ++ m ∷ [] }
start_send x (Sender.awaits_idle n) m = x
start_send x (Sender.writes n) m = x
start_send x Sender.publishes m = x
start_send x Sender.awaits_taken m = x
start_send x Sender.resets m = x

start_receive : Exchange → Receiver → Exchange
start_receive x Receiver.outside = record x { receiver = Receiver.awaits_pending }
start_receive x Receiver.awaits_pending = x
start_receive x Receiver.reads = x
start_receive x (Receiver.takes m) = x

unfoldable pub take_turn : Exchange → Turn → Exchange
unfolding start_send start_receive
take_turn x (Turn.send_called m) = start_send x x.sender m
take_turn x Turn.receive_called = start_receive x x.receiver
take_turn x Turn.sender_runs = sender_moved x (send_step x.endpoint x.sender)
take_turn x Turn.receiver_runs = receiver_moved x (receive_step x.endpoint x.receiver)

unfoldable pub run_turns : Exchange → List Turn → Exchange
run_turns x [] = x
run_turns x (t ∷ ts) = run_turns (take_turn x t) ts

-- Both threads are outside a call.
abbrev pub fresh_on : Endpoint → Exchange
fresh_on e = record {
  endpoint = e;
  sender = Sender.outside;
  receiver = Receiver.outside;
  sent = [];
  received = [];
}

-- A receiver that has not noticed a pending message.
abbrev Unaware : Receiver → Type 0
Unaware Receiver.outside = Unit
Unaware Receiver.awaits_pending = Unit
Unaware Receiver.reads = ⊥
Unaware (Receiver.takes m) = ⊥

-- What a receiver that has read the message holds.
abbrev Holds : Message → Receiver → Type 0
Holds m Receiver.outside = Unit
Holds m Receiver.awaits_pending = Unit
Holds m Receiver.reads = Unit
Holds m (Receiver.takes n) = n ≡ m

-- A published message, until and after it is taken.
abbrev Published : EndpointState → Exchange → Type 0
Published idle x = ⊥
Published message_pending x =
    Holds x.endpoint.message x.receiver × (x.sent ≡ x.received ++ x.endpoint.message ∷ [])
Published message_taken x = Unaware x.receiver × (x.sent ≡ x.received)

abbrev Agrees : Sender → Exchange → Type 0
Agrees Sender.outside x = (x.endpoint.state ≡ idle) × Unaware x.receiver × (x.sent ≡ x.received)
Agrees (Sender.awaits_idle m) x =
    (x.endpoint.state ≡ idle) × Unaware x.receiver × (x.sent ≡ x.received ++ m ∷ [])
Agrees (Sender.writes m) x =
    (x.endpoint.state ≡ idle) × Unaware x.receiver × (x.sent ≡ x.received ++ m ∷ [])
Agrees Sender.publishes x =
    (x.endpoint.state ≡ idle)
    × Unaware x.receiver
    × (x.sent ≡ x.received ++ x.endpoint.message ∷ [])
Agrees Sender.awaits_taken x = Published x.endpoint.state x
Agrees Sender.resets x =
    (x.endpoint.state ≡ message_taken) × Unaware x.receiver × (x.sent ≡ x.received)

abbrev IsExchange : Exchange → Type 0
IsExchange x = Agrees x.sender x

send_called-IsExchange :
    (x : Exchange) (m : Message) → IsExchange x → IsExchange (take_turn x (Turn.send_called m))
unfolding take_turn
send_called-IsExchange x m a = ground arith

receive_called-IsExchange :
    (x : Exchange) → IsExchange x → IsExchange (take_turn x Turn.receive_called)
unfolding take_turn
receive_called-IsExchange x a = ground arith

sender_runs-IsExchange : (x : Exchange) → IsExchange x → IsExchange (take_turn x Turn.sender_runs)
unfolding take_turn send_step
sender_runs-IsExchange x a = ground arith

receiver_runs-IsExchange :
    (x : Exchange) → IsExchange x → IsExchange (take_turn x Turn.receiver_runs)
unfolding take_turn receive_step
receiver_runs-IsExchange x a = ground (arith, append-nil x.received)

take_turn-IsExchange : (x : Exchange) (t : Turn) → IsExchange x → IsExchange (take_turn x t)
take_turn-IsExchange x (Turn.send_called m) a = send_called-IsExchange x m a
take_turn-IsExchange x Turn.receive_called a = receive_called-IsExchange x a
take_turn-IsExchange x Turn.sender_runs a = sender_runs-IsExchange x a
take_turn-IsExchange x Turn.receiver_runs a = receiver_runs-IsExchange x a

run_turns-IsExchange : (x : Exchange) (ts : List Turn) → IsExchange x → IsExchange (run_turns x ts)
unfolding run_turns
run_turns-IsExchange x [] a = a
run_turns-IsExchange x (t ∷ ts) a =
    run_turns-IsExchange (take_turn x t) ts (take_turn-IsExchange x t a)

-- The message of the call of `send` that is under way.
abbrev in_flight : Sender → Endpoint → Message
in_flight (Sender.awaits_idle m) e = m
in_flight (Sender.writes m) e = m
in_flight Sender.outside e = e.message
in_flight Sender.publishes e = e.message
in_flight Sender.awaits_taken e = e.message
in_flight Sender.resets e = e.message

but_for_one :
    (x : Exchange)
    → IsExchange x
    → ((x.sent ≡ x.received) ⊎ (x.sent ≡ x.received ++ in_flight x.sender x.endpoint ∷ []))
      × (x.sender ≡ Sender.outside → x.sent ≡ x.received)
but_for_one x a = ground arith

-- On an endpoint with one sending and one receiving thread, from its idle state and over every
-- interleaving of their single accesses to it: the messages that `receive` returned are those that
-- `send` was called with, in order and each once, but for at most the last, whose call has not
-- returned. When no call of `send` is under way, all of them have been returned.
pub rendezvous_order :
    (e : Endpoint) (turns : List Turn)
    → e.state ≡ idle
    → let x = run_turns (fresh_on e) turns in
      ((x.sent ≡ x.received) ⊎ ((m : Message) × (x.sent ≡ x.received ++ m ∷ [])))
      × (x.sender ≡ Sender.outside → x.sent ≡ x.received)
rendezvous_order e turns h =
    agreed (run_turns (fresh_on e) turns) (run_turns-IsExchange (fresh_on e) turns (h, tt, refl))
  where
    agreed :
        (x : Exchange)
        → IsExchange x
        → ((x.sent ≡ x.received) ⊎ ((m : Message) × (x.sent ≡ x.received ++ m ∷ [])))
          × (x.sender ≡ Sender.outside → x.sent ≡ x.received)
    agreed x a =
        let (most, all) = but_for_one x a in
        (elim most [ inl e ↦ inl e | inr e ↦ inr (in_flight x.sender x.endpoint, e) ], all)
