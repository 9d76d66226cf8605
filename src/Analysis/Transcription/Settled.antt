-- ===== src/Analysis/Transcription/Settled.antt =====
-- What a transcription that was queued comes to.
use vparser.Prelude.{◌≡◌, Bool, true, false, arith}
use vparser.Redis.{up, executed}
use vparser.Errors.{Error}
use vparser.Model.{State, Status}
use vparser.Mq.Effects.{Answer, answer, error}
use vparser.Analysis.Transcription.{World, Calls, run, reject_queued, status}

abbrev state_of : Answer Status → State
state_of (error e) = State.not_started
state_of (answer s) = s.state

abbrev pub is_settled : State → Bool
is_settled State.completed = true
is_settled State.failed = true
is_settled s = false

abbrev pub shown : World → State
shown w = state_of (status up up w)

-- Redis executes what is asked of it: a transcription whose media is found, or that the pool rejected,
-- is shown as completed or failed at its end. One whose media cannot be looked up is given up without
-- a word: its state is left as it was, queued, and nothing is published. In every case the marker is
-- gone, so the media can be queued again.
pub run_settles :
    (c : Calls) (w : World)
    → executed c.finish ≡ true
    → executed c.clear ≡ true
    → (c.found ≡ answer true → is_settled (shown (run c w)) ≡ true)
      × (is_settled (shown (reject_queued c w)) ≡ true)
      × ((e : Error)
          → c.found ≡ error e
          → ((run c w).state ≡ w.state) × ((run c w).published ≡ w.published))
      × ((run c w).active ≡ false)
      × ((reject_queued c w).active ≡ false)
unfolding run reject_queued status
run_settles c w finished cleared = (
  λ found. ground (arith, finished, cleared, found),
  ground (arith, finished, cleared),
  λ e lost. (ground (arith, cleared, lost), ground (arith, cleared, lost)),
  ground (arith, finished, cleared),
  ground (arith, finished, cleared),
)
