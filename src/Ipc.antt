-- ===== src/Ipc.antt =====
-- IPC endpoints, kernel_rs/src/ipc.rs: the bounded queue of `try_send` and `try_receive`, and the
-- state of the blocking rendezvous of `send` and `receive`.
pub mod Queue
pub mod Rendezvous
mod Tests
use agentic_os.Base.{
  ℕ, ◌+◌, ◌-◌, ◌%◌, List, [], ◌∷◌, ◌++◌, Bool, true, false, Option, none, some, Result, ok, err,
  length, get_or, set, replicate, leb, ◌==◌, u8, if◌then◌else◌,
}
use agentic_os.Audit.{AuditEvent}
use agentic_os.Capability.RightsMask.{Rights, send_right, receive_right}
use agentic_os.Capability.{
  Kernel, KernelObjectKind, Capability, CapabilityTable, CapError, create_object, grant, resolve,
  audited,
}

-- `Message`: four words.
abbrev pub Message : Type 0
Message = ℕ × ℕ × ℕ × ℕ

abbrev pub empty_message : Message
empty_message = (0, 0, 0, 0)

-- STATE_IDLE, STATE_MESSAGE_PENDING, STATE_MESSAGE_TAKEN.
pub data EndpointState : Type 0 where
  idle message_pending message_taken : EndpointState

abbrev pub queue_depth : ℕ
queue_depth = 32

pub record Endpoint : Type 0 where
  pub state : EndpointState
  pub message : Message
  pub q_head : ℕ
  pub q_tail : ℕ
  pub q_len : ℕ
  pub q_slots : List Message

pub record EndpointSlot : Type 0 where
  pub object_id : ℕ
  pub endpoint : Endpoint

pub record System : Type 0 where
  pub kernel : Kernel
  pub endpoints : List EndpointSlot

pub data IpcError : Type 0 where
  cap : CapError → IpcError
  endpoint_not_found : IpcError

abbrev pub new_endpoint : Endpoint
new_endpoint = record {
  state = idle;
  message = empty_message;
  q_head = 0;
  q_tail = 0;
  q_len = 0;
  q_slots = replicate queue_depth empty_message;
}

-- `find_endpoint_mut`: the first slot of the object.
unfoldable pub find_endpoint : List EndpointSlot → ℕ → Option Endpoint
find_endpoint [] id = none
find_endpoint (s ∷ ss) id = if s.object_id == id then some s.endpoint else find_endpoint ss id

-- The write through the reference that `find_endpoint_mut` returns.
unfoldable pub put_endpoint : List EndpointSlot → ℕ → Endpoint → List EndpointSlot
put_endpoint [] id e = []
put_endpoint (s ∷ ss) id e =
    if s.object_id == id then record s { endpoint = e } ∷ ss else s ∷ put_endpoint ss id e

-- `create_endpoint`
pub create_endpoint : System → CapabilityTable → Rights → System × CapabilityTable × ℕ
create_endpoint sys table rights =
    let (k, id) = create_object sys.kernel KernelObjectKind.ipc_endpoint in
    let (k', table', cap_id) = grant k table id rights in
    let slot : EndpointSlot = record { object_id = id; endpoint = new_endpoint } in
    (record { kernel = k'; endpoints = sys.endpoints ++ slot ∷ [] }, table', cap_id)

-- The queue part of `try_send`: `false` when it is full.
unfoldable pub enqueue : Endpoint → Message → Endpoint × Bool
enqueue e msg = if leb queue_depth e.q_len then (e, false) else (pushed, true)
  where
    pushed : Endpoint
    pushed = record e {
      q_slots = set e.q_slots e.q_head msg;
      q_head = u8 ((e.q_head + 1) % queue_depth);
      q_len = u8 (e.q_len + 1);
    }

-- The queue part of `try_receive_on_object`; `fetch_sub` runs at a length that is not 0.
unfoldable pub dequeue : Endpoint → Endpoint × Option Message
dequeue e =
    if e.q_len == 0 then (e, none) else (popped, some (get_or e.q_slots e.q_tail empty_message))
  where
    popped : Endpoint
    popped = record e { q_tail = u8 ((e.q_tail + 1) % queue_depth); q_len = e.q_len - 1 }

abbrev audited_if : Bool → Kernel → AuditEvent → Kernel
audited_if b k event = if b then audited k event else k

send_found : System → ℕ → Message → Option Endpoint → System × Result IpcError Bool
send_found sys id msg none = (sys, err endpoint_not_found)
send_found sys id msg (some e) =
    let (e', sent) = enqueue e msg in
    (
      record {
        kernel = audited_if sent sys.kernel (AuditEvent.ipc_send id);
        endpoints = put_endpoint sys.endpoints id e';
      },
      ok sent,
    )

send_resolved :
    System → Message → Kernel × Result CapError Capability → System × Result IpcError Bool
send_resolved sys msg (k, err e) = (record sys { kernel = k }, err (cap e))
send_resolved sys msg (k, ok c) =
    send_found (record sys { kernel = k }) c.object_id msg (find_endpoint sys.endpoints c.object_id)

-- `try_send`
unfoldable pub try_send : System → CapabilityTable → ℕ → Message → System × Result IpcError Bool
unfolding send_resolved send_found
try_send sys table id msg = send_resolved sys msg (resolve sys.kernel table id send_right)

receive_taken : System → ℕ → Endpoint × Option Message → System × Option Message
receive_taken sys id (e, none) = (sys, none)
receive_taken sys id (e, some m) = (
  record {
    kernel = audited sys.kernel (AuditEvent.ipc_receive id);
    endpoints = put_endpoint sys.endpoints id e;
  },
  some m,
)

receive_found : System → ℕ → Option Endpoint → System × Option Message
receive_found sys id none = (sys, none)
receive_found sys id (some e) = receive_taken sys id (dequeue e)

-- `try_receive_on_object`
unfoldable pub try_receive_on_object : System → ℕ → System × Option Message
unfolding receive_found receive_taken
try_receive_on_object sys id = receive_found sys id (find_endpoint sys.endpoints id)

receive_resolved :
    System → Kernel × Result CapError Capability → System × Result IpcError (Option Message)
receive_resolved sys (k, err e) = (record sys { kernel = k }, err (cap e))
receive_resolved sys (k, ok c) =
    let (sys', m) = try_receive_on_object (record sys { kernel = k }) c.object_id in (sys', ok m)

-- `try_receive`
unfoldable pub try_receive :
    System → CapabilityTable → ℕ → System × Result IpcError (Option Message)
unfolding receive_resolved
try_receive sys table id = receive_resolved sys (resolve sys.kernel table id receive_right)
