-- ===== src/Util/Broadcaster.antt =====
-- `Broadcaster` and its listeners (cucumber_cpp/library/util/Broadcaster.cpp). A listener is known by
-- its address; what it does with an envelope is a list of what it has been called with.
pub mod Laws
use amp_cucumber_cpp_runner.Prelude.{ℕ, Bool, true, false, List, [], ◌∷◌, ◌++◌, ◌==◌, if◌then◌else◌}
use amp_cucumber_cpp_runner.Messages.{Envelope}

pub record Listener : Type 0 where
  pub address : ℕ
  -- whether its function is not empty
  pub on_event : Bool

pub record Broadcaster : Type 0 where
  pub archive : List Envelope
  pub listeners : List Listener
  -- the calls of the listeners' functions, oldest first
  pub calls : List (ℕ × Envelope)

unfoldable pub erase_listener : ℕ → List Listener → List Listener
erase_listener address [] = []
erase_listener address (l ∷ ls) =
    if l.address == address then erase_listener address ls else l ∷ erase_listener address ls

-- `Listener::Invoke`
abbrev pub invoke : Envelope → Listener → List (ℕ × Envelope) → List (ℕ × Envelope)
invoke e l calls = if l.on_event then calls ++ ((l.address, e) ∷ []) else calls

-- The loop of `Dispatch`
unfoldable pub invoke_all : Envelope → List Listener → List (ℕ × Envelope) → List (ℕ × Envelope)
invoke_all e [] calls = calls
invoke_all e (l ∷ ls) calls = invoke_all e ls (invoke e l calls)

-- `AddListener`, in the constructor of a listener
unfoldable pub add_listener : Listener → Broadcaster → Broadcaster
add_listener l b = record b { listeners = b.listeners ++ (l ∷ []) }

-- `RemoveListener`, in the destructor of a listener
unfoldable pub remove_listener : ℕ → Broadcaster → Broadcaster
remove_listener address b = record b { listeners = erase_listener address b.listeners }

-- `BroadcastEvent`, of a populated envelope
unfoldable pub broadcast_event : Envelope → Broadcaster → Broadcaster
broadcast_event e b = record b {
  archive = b.archive ++ (e ∷ []);
  calls = invoke_all e b.listeners b.calls;
}

-- What happens to a broadcaster
pub data Event : Type 0 where
  sent : Envelope → Event
  added : Listener → Event
  removed : (address : ℕ) → Event

unfoldable pub happen : Event → Broadcaster → Broadcaster
unfolding broadcast_event add_listener remove_listener
happen (sent e) b = broadcast_event e b
happen (added l) b = add_listener l b
happen (removed address) b = remove_listener address b

unfoldable pub happen_all : List Event → Broadcaster → Broadcaster
unfolding happen
happen_all [] b = b
happen_all (event ∷ events) b = happen_all events (happen event b)
