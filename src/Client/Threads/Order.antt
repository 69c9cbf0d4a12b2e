-- ===== src/Client/Threads/Order.antt =====
-- The invariant of the two threads: who holds the mutex, and how far each is in the start.
use resilient_overlay_networ.Base.{ℕ, ◌+◌, ◌≡◌, List, Bool, true, false, not, ◌&&◌, arith}
use resilient_overlay_networ.Client.Transfer.{Socket}
use resilient_overlay_networ.Client.Threads.{
  Job, idle, waits, holds, gives_up, Move, call, lock, send, error, unlock, release, Main, creating,
  at_lock, testing, blocked, woken, tested, looping, recovering, ended, Simulator, unborn,
  initializing, at_mutex, setting, set, signalling, running, Threads, Step, create, main_lock,
  main_wait, main_wake, main_return, main_leave, main_unlock, main_receive, main_job, recover_lock,
  recover_unlock, simulator_initialize, simulator_lock, simulator_set, simulator_unlock,
  simulator_signal, simulator_job, Reach, here, next,
}

abbrev pub job_holds : Job → ℕ
job_holds idle = 0
job_holds (waits buffers) = 0
job_holds (holds message rest) = 1
job_holds gives_up = 1

-- How often a thread holds the mutex.
abbrev pub main_holds : Main → ℕ
main_holds creating = 0
main_holds at_lock = 0
main_holds testing = 1
main_holds blocked = 0
main_holds woken = 0
main_holds tested = 1
main_holds (looping job) = job_holds job
main_holds recovering = 1
main_holds ended = 0

abbrev pub simulator_holds : Simulator → ℕ
simulator_holds unborn = 0
simulator_holds initializing = 0
simulator_holds at_mutex = 0
simulator_holds setting = 1
simulator_holds set = 1
simulator_holds signalling = 0
simulator_holds (running job) = job_holds job

abbrev pub taken : Bool → ℕ
taken true = 1
taken false = 0

-- The main thread is behind its loop on `initialized`.
abbrev pub is_past : Main → Bool
is_past tested = true
is_past (looping job) = true
is_past recovering = true
is_past ended = true
is_past creating = false
is_past at_lock = false
is_past testing = false
is_past blocked = false
is_past woken = false

abbrev pub is_blocked : Main → Bool
is_blocked blocked = true
is_blocked creating = false
is_blocked at_lock = false
is_blocked testing = false
is_blocked woken = false
is_blocked tested = false
is_blocked (looping job) = false
is_blocked recovering = false
is_blocked ended = false

abbrev pub is_creating : Main → Bool
is_creating creating = true
is_creating at_lock = false
is_creating testing = false
is_creating blocked = false
is_creating woken = false
is_creating tested = false
is_creating (looping job) = false
is_creating recovering = false
is_creating ended = false

-- The other thread has done `initialized = true`; it has signalled.
abbrev pub has_set : Simulator → Bool
has_set unborn = false
has_set initializing = false
has_set at_mutex = false
has_set setting = false
has_set set = true
has_set signalling = true
has_set (running job) = true

abbrev pub has_signalled : Simulator → Bool
has_signalled unborn = false
has_signalled initializing = false
has_signalled at_mutex = false
has_signalled setting = false
has_signalled set = false
has_signalled signalling = false
has_signalled (running job) = true

abbrev pub is_unborn : Simulator → Bool
is_unborn unborn = true
is_unborn initializing = false
is_unborn at_mutex = false
is_unborn setting = false
is_unborn set = false
is_unborn signalling = false
is_unborn (running job) = false

pub record Order {S : Type 0} (t : Threads S) : Type 0 where
  pub one_holder : main_holds t.main + simulator_holds t.simulator ≡ taken t.mutex
  pub set_when : t.initialized ≡ has_set t.simulator
  pub past_when : (is_past t.main && not t.initialized) ≡ false
  pub blocked_when : (is_blocked t.main && has_signalled t.simulator) ≡ false
  pub unborn_when : is_creating t.main ≡ is_unborn t.simulator

module _ {S : Type 0} (socket : Socket S) where
  -- The thread that moves keeps count of the mutex.
  Move-holds :
      (other : ℕ) {mutex mutex' : Bool} {sfd sfd' : S} {log log' : List (List (List ℕ))}
      {job job' : Job}
      → Move socket mutex sfd log job mutex' sfd' log' job'
      → job_holds job + other ≡ taken mutex
      → job_holds job' + other ≡ taken mutex'
  Move-holds other (call buffers m e) h = ground arith
  Move-holds other (lock buffers e f) h = ground arith
  Move-holds other (send message rest buf count sfd' e f) h = ground arith
  Move-holds other (error message rest buf e f) h = ground arith
  Move-holds other (unlock message e) h = ground arith
  Move-holds other (release e) h = ground arith

  pub Step-Order : {t u : Threads S} → Step socket t u → Order t → Order u
  Step-Order (create e) o = ground arith
  Step-Order (main_lock e f) o = ground arith
  Step-Order (main_wait e f) o = ground arith
  Step-Order (main_wake e) o = ground arith
  Step-Order (main_return e f) o = ground arith
  Step-Order (main_leave e f) o = ground arith
  Step-Order (main_unlock e) o = ground arith
  Step-Order (main_receive size bytes sfd' e f) o = ground arith
  Step-Order {t} (main_job job job' mutex' sfd' log' e m) o =
      ground (arith, Move-holds (simulator_holds t.simulator) m)
  Step-Order (recover_lock e f) o = ground arith
  Step-Order (recover_unlock sfd' success e) o = ground arith
  Step-Order (simulator_initialize e) o = ground arith
  Step-Order (simulator_lock e f) o = ground arith
  Step-Order (simulator_set e) o = ground arith
  Step-Order (simulator_unlock e) o = ground arith
  Step-Order (simulator_signal e) o = ground arith
  Step-Order {t} (simulator_job job job' mutex' sfd' log' e m) o =
      ground (arith, Move-holds (main_holds t.main) m)

  pub Reach-Order : {sfd : S} {t : Threads S} → Reach socket sfd t → Order t
  Reach-Order here = ground arith
  Reach-Order (next r step) = Step-Order step (Reach-Order r)
