-- ===== src/Client/Threads.antt =====
-- The two threads of base/cf.cpp and the mutex between them: the main thread from `simulateMachine`
-- on, and the one that runs `st_run`. Each step is one action that the other thread can come before or
-- behind: a call of the mutex, of the condition variable, or of the system's `send` or `recv`.
pub mod Order
pub mod Ready
pub mod Bytes
pub mod Calls
pub mod Apart
pub mod Whole
mod Tests
use resilient_overlay_networ.Base.{
  ℕ, ◌-◌, ◌^◌, ◌≤◌, ◌<◌, ◌≡◌, List, [], ◌∷◌, ◌++◌, Option, none, some, Bool, true, false, ltb,
  if◌then◌else◌, length, drop,
}
use resilient_overlay_networ.Client.Transfer.{Socket}
use resilient_overlay_networ.Client.Messages.{frame_header, change_message}

-- What one call of `sendFrame` or of a notification hands to `sendOrReceive`, one buffer after the
-- other. A frame of another length is refused under the mutex, and nothing of it is sent.
pub data IsMessage : List (List ℕ) → Type 0 where
  of_frame :
      (frame : List ℕ) (iface_index : ℕ)
      → 14 ≤ length frame
      → length frame < 2 ^ 16 - 4
      → IsMessage (frame_header (length frame) iface_index ∷ frame ∷ [])
  of_refused_frame : IsMessage []
  of_change :
      (command iface_index new_value : ℕ)
      → IsMessage (change_message command iface_index new_value ∷ [])

-- Where a thread stands in such a call: outside of any, in front of `pthread_mutex_lock`, behind it
-- with the buffers of the message and those that are left of it, or behind a failed `send`.
pub data Job : Type 0 where
  idle : Job
  waits : List (List ℕ) → Job
  holds : List (List ℕ) → List (List ℕ) → Job
  gives_up : Job

-- What a call of `send` leaves of the buffers.
unfoldable pub left : ℕ → List ℕ → List (List ℕ) → List (List ℕ)
left count buf rest = if ltb count (length buf) then drop count buf ∷ rest else rest

-- What a call of `sendFrame` or of a notification does next: the mutex, the socket, and the messages
-- that were ended on it. These last are for the proofs only.
pub data Move {S : Type 0} (socket : Socket S) (mutex : Bool) (sfd : S) (log : List (List (List ℕ)))
    (job : Job) : Bool → S → List (List (List ℕ)) → Job → Type 0 where
  call :
      (buffers : List (List ℕ))
      → IsMessage buffers
      → job ≡ idle
      → Move socket mutex sfd log job mutex sfd log (waits buffers)
  lock :
      (buffers : List (List ℕ))
      → job ≡ waits buffers
      → mutex ≡ false
      → Move socket mutex sfd log job true sfd log (holds buffers buffers)
  send :
      (message rest : List (List ℕ)) (buf : List ℕ) (count : ℕ) (sfd' : S)
      → job ≡ holds message (buf ∷ rest)
      → socket.send sfd buf ≡ some (count, sfd')
      → Move socket mutex sfd log job mutex sfd' log (holds message (left count buf rest))
  error :
      (message rest : List (List ℕ)) (buf : List ℕ)
      → job ≡ holds message (buf ∷ rest)
      → socket.send sfd buf ≡ none
      → Move socket mutex sfd log job mutex sfd log gives_up
  unlock :
      (message : List (List ℕ))
      → job ≡ holds message []
      → Move socket mutex sfd log job false sfd (log ++ message ∷ []) idle
  release : job ≡ gives_up → Move socket mutex sfd log job false sfd log idle

-- `simulateMachine`: in front of `pthread_create`, in front of the first lock, at the test of
-- `initialized`, in `pthread_cond_wait`, woken there and in front of its lock, behind the loop; then in
-- `simulationEventLoop`, where `processFrame` may send; in `recoverSimulation` with the mutex, or
-- behind it.
pub data Main : Type 0 where
  creating at_lock testing blocked woken tested : Main
  looping : Job → Main
  recovering ended : Main

-- `st_run`: not yet started, in `initialize`, in front of the lock, behind it, behind the assignment,
-- in front of the signal, and in `run`, which may send.
pub data Simulator : Type 0 where
  unborn initializing at_mutex setting set signalling : Simulator
  running : Job → Simulator

-- What the negotiations sent on the connection, and the messages behind that, are for the proofs only.
pub record Threads (S : Type 0) : Type 0 where
  pub mutex : Bool
  pub initialized : Bool
  pub sfd : S
  pub opening : List ℕ
  pub log : List (List (List ℕ))
  pub main : Main
  pub simulator : Simulator

-- What `pthread_cond_signal` does to the main thread.
abbrev pub signalled : Main → Main
signalled blocked = woken
signalled creating = creating
signalled at_lock = at_lock
signalled testing = testing
signalled woken = woken
signalled tested = tested
signalled (looping job) = looping job
signalled recovering = recovering
signalled ended = ended

pub data Step {S : Type 0} (socket : Socket S) (t : Threads S) : Threads S → Type 0 where
  create : t.main ≡ creating → Step socket t (record t { main = at_lock; simulator = initializing })
  main_lock :
      t.main ≡ at_lock → t.mutex ≡ false → Step socket t (record t { main = testing; mutex = true })
  main_wait :
      t.main ≡ testing
      → t.initialized ≡ false
      → Step socket t (record t { main = blocked; mutex = false })
  -- The system may wake a thread without a signal.
  main_wake : t.main ≡ blocked → Step socket t (record t { main = woken })
  main_return :
      t.main ≡ woken → t.mutex ≡ false → Step socket t (record t { main = testing; mutex = true })
  main_leave : t.main ≡ testing → t.initialized ≡ true → Step socket t (record t { main = tested })
  main_unlock : t.main ≡ tested → Step socket t (record t { main = looping idle; mutex = false })
  -- The loop reads from the socket outside of the mutex.
  main_receive :
      (size : ℕ) (bytes : List ℕ) (sfd' : S)
      → t.main ≡ looping idle
      → socket.recv t.sfd size ≡ some (bytes, sfd')
      → Step socket t (record t { sfd = sfd' })
  main_job :
      (job job' : Job) (mutex' : Bool) (sfd' : S) (log' : List (List (List ℕ)))
      → t.main ≡ looping job
      → Move socket t.mutex t.sfd t.log job mutex' sfd' log' job'
      → Step socket t (record t { mutex = mutex'; sfd = sfd'; log = log'; main = looping job' })
  -- The loop has ended: a new connection is made under the mutex, on which the negotiations send some
  -- bytes, and the loop starts again if they succeed.
  recover_lock :
      t.main ≡ looping idle
      → t.mutex ≡ false
      → Step socket t (record t { main = recovering; mutex = true })
  recover_unlock :
      (sfd' : S) (success : Bool)
      → t.main ≡ recovering
      → Step socket t (record t {
        mutex = false;
        sfd = sfd';
        opening = socket.outgoing sfd';
        log = [];
        main = if success then looping idle else ended;
      })
  simulator_initialize :
      t.simulator ≡ initializing → Step socket t (record t { simulator = at_mutex })
  simulator_lock :
      t.simulator ≡ at_mutex
      → t.mutex ≡ false
      → Step socket t (record t { simulator = setting; mutex = true })
  simulator_set :
      t.simulator ≡ setting → Step socket t (record t { simulator = set; initialized = true })
  simulator_unlock :
      t.simulator ≡ set → Step socket t (record t { simulator = signalling; mutex = false })
  simulator_signal :
      t.simulator ≡ signalling
      → Step socket t (record t { simulator = running idle; main = signalled t.main })
  simulator_job :
      (job job' : Job) (mutex' : Bool) (sfd' : S) (log' : List (List (List ℕ)))
      → t.simulator ≡ running job
      → Move socket t.mutex t.sfd t.log job mutex' sfd' log' job'
      → Step socket t
          (record t { mutex = mutex'; sfd = sfd'; log = log'; simulator = running job' })

-- `simulateMachine` is entered with a connected socket, on which the negotiations have sent some bytes.
abbrev pub start : {S : Type 0} → Socket S → S → Threads S
start socket sfd = record {
  mutex = false;
  initialized = false;
  sfd = sfd;
  opening = socket.outgoing sfd;
  log = [];
  main = creating;
  simulator = unborn;
}

pub data Reach {S : Type 0} (socket : Socket S) (sfd : S) : Threads S → Type 0 where
  here : Reach socket sfd (start socket sfd)
  next : {t u : Threads S} → Reach socket sfd t → Step socket t u → Reach socket sfd u
