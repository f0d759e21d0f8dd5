-- ===== src/Ipc/Tests.antt =====
-- The theorems on endpoints at concrete inputs.
use agentic_os.Base.{List, ◌≡◌, ◌⊎◌, refl, [], ◌∷◌, ◌++◌}
use agentic_os.Ipc.{Message, new_endpoint}
use agentic_os.Ipc.Queue.{
  waiting, new_endpoint-IsValid, sends, receives, run_queue, run_bounded, run_queue_refines,
}
use agentic_os.Ipc.Rendezvous.{
  Sender, Turn, take_turn, run_turns, send_step, receive_step, fresh_on, rendezvous_order,
}

abbrev greeting : Message
greeting = (1, 2, 3, 4)

run_queue_refines_example :
    run_queue new_endpoint (sends greeting ∷ receives ∷ receives ∷ [])
    ≡ run_bounded (waiting new_endpoint) (sends greeting ∷ receives ∷ receives ∷ [])
run_queue_refines_example =
    run_queue_refines new_endpoint (sends greeting ∷ receives ∷ receives ∷ [])
      (new_endpoint-IsValid.0)

-- A call of `receive` that comes first, one of `send`, and every access of both up to the return.
abbrev one_exchange : List Turn
one_exchange =
    Turn.receive_called
    ∷ Turn.receiver_runs
    ∷ Turn.send_called greeting
    ∷ Turn.sender_runs
    ∷ Turn.sender_runs
    ∷ Turn.receiver_runs
    ∷ Turn.sender_runs
    ∷ Turn.receiver_runs
    ∷ Turn.sender_runs
    ∷ Turn.receiver_runs
    ∷ Turn.receiver_runs
    ∷ Turn.sender_runs
    ∷ Turn.sender_runs
    ∷ []

one_exchange_test : (run_turns (fresh_on new_endpoint) one_exchange).received ≡ greeting ∷ []
unfolding run_turns take_turn send_step receive_step
one_exchange_test = refl

rendezvous_order_example :
    let x = run_turns (fresh_on new_endpoint) one_exchange in
    ((x.sent ≡ x.received) ⊎ ((m : Message) × (x.sent ≡ x.received ++ m ∷ [])))
    × (x.sender ≡ Sender.outside → x.sent ≡ x.received)
rendezvous_order_example = rendezvous_order new_endpoint one_exchange refl
