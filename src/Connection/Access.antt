-- ===== src/Connection/Access.antt =====
-- The context and the callbacks of a connection, and the name of its state for the log.
use solar_net.Base.{ℕ, Bool, Option, List, codes}
use solar_net.Connection.{Connection, State, connecting, connected, disconnecting, disconnected}

-- `SetContext` and `GetContext`, which lock `m_context_mutex` on other threads
pub set_context : Connection → Option ℕ → Connection
set_context c value = record c { context = value }

pub get_context : Connection → Option ℕ
get_context c = c.context

-- `SetConnectionCallback`, `SetMessageCallback`, `SetCloseCallback` and `SetWriteCompleteCallback`
pub set_connection_callback : Connection → Bool → Connection
set_connection_callback c cb = record c { callbacks = record c.callbacks { on_connection = cb } }

pub set_message_callback : Connection → Bool → Connection
set_message_callback c cb = record c { callbacks = record c.callbacks { on_message = cb } }

pub set_close_callback : Connection → Bool → Connection
set_close_callback c cb = record c { callbacks = record c.callbacks { on_closed = cb } }

pub set_write_complete_callback : Connection → Bool → Connection
set_write_complete_callback c cb = record c {
  callbacks = record c.callbacks { on_write_complete = cb };
}

-- `StateToString`
pub state_to_string : State → List ℕ
state_to_string connecting = codes "connecting"
state_to_string connected = codes "connected"
state_to_string disconnecting = codes "disconnecting"
state_to_string disconnected = codes "disconnected"
