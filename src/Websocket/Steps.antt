-- ===== src/Websocket/Steps.antt =====
-- The threads of the web socket server: the callbacks run on one thread, `process_messages` on a
-- second, and Lua threads call the rest. A step is what one of them does while it holds a lock or
-- between two waits. An exception that leaves a callback ends the process, so that the callbacks step
-- only where they return.
use janosh.Common.{ℕ, suc, ◌+◌, ◌-◌, ◌%◌, ◌^◌, ◌<◌, ◌≡◌, List, ◌∷◌, Bytes}
use janosh.Result.{ok}
use janosh.Websocket.Auth.{Crypto}
use janosh.Websocket.Server
use janosh.Websocket.Server.{
  Server, Action, Registration, Hub, idle, waiting, permitted, starting, on_open, on_close,
  on_message, deliver, process, accept, reject, broadcast, user_data_of, user_name_of,
}

-- The message that `receiveLimit.wait()` held back may go on.
unfoldable pub pass : ℕ → Bytes → Server → Server
pass c payload s = record s { permits = s.permits - 1; hub = permitted c payload }

-- `receive` up to its call of `notify`, with the queue that is left.
unfoldable pub receive : List (ℕ × Bytes) → Server → Server
receive rest s = record s { received = rest; popped = s.popped + 1 }

-- The end of `receive`.
unfoldable pub notify : Server → Server
notify s = record s { popped = s.popped - 1; permits = (s.permits + 1) % 2 ^ 64 }

module _ (crypto : Crypto) where
  pub data Step (s : Server) : Server → Type 0 where
    opens : (c : ℕ) → s.hub ≡ idle → Step s (on_open c s)
    closes : (c : ℕ) → s.hub ≡ idle → Step s (on_close c s)
    messages :
        {t : Server} (c : ℕ) (payload key drawn : Bytes)
        → s.hub ≡ idle
        → on_message crypto c payload key drawn s ≡ (ok tt, t)
        → Step s t
    passes :
        (c : ℕ) (payload : Bytes)
        → s.hub ≡ waiting c payload
        → 0 < s.permits
        → Step s (pass c payload s)
    delivers :
        {t : Server} (c : ℕ) (payload : Bytes)
        → s.hub ≡ permitted c payload
        → deliver c payload s ≡ (ok tt, t)
        → Step s t
    processes :
        (a : Action) (rest : List Action)
        → s.actions ≡ a ∷ rest
        → Step s (process a (record s { actions = rest })).1
    receives :
        (m : ℕ × Bytes) (rest : List (ℕ × Bytes)) → s.received ≡ m ∷ rest → Step s (receive rest s)
    notifies : 0 < s.popped → Step s (notify s)
    registers :
        (r : Registration) (rest : List Registration)
        → s.validations ≡ r ∷ rest
        → Step s (record s { validations = rest })
    accepts :
        (h : ℕ) (username password user_data key drawn : Bytes)
        → Step s (accept crypto h username password user_data key drawn s).1
    rejects : (h : ℕ) (reason : Bytes) → Step s (reject h reason s).1
    sends : (l : ℕ) (text : Bytes) → Step s (Server.send l text s)
    broadcasts : (text : Bytes) → Step s (broadcast text s)
    reads_data : (l : ℕ) → Step s (user_data_of l s).1
    reads_name : (l : ℕ) → Step s (user_name_of l s).1

  -- The states after a number of steps from the start, with the users that were read.
  pub data Reach (first : Server) : ℕ → Server → Type 0 where
    start : Reach first 0 first
    next : {n : ℕ} {s t : Server} → Reach first n s → Step s t → Reach first (suc n) t
