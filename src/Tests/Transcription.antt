-- ===== src/Tests/Transcription.antt =====
-- server-go/internal/analysis/transcription.go at concrete inputs.
use vparser.Prelude.{◌≡◌, refl, true, false, none, []}
use vparser.Redis.{up}
use vparser.Go.Bytes.{lit}
use vparser.Errors.{Error, Kind, of_kind}
use vparser.Model.{State}
use vparser.Mq.Effects.{answer, error}
use vparser.Analysis.Transcription.{World, Calls, queue, run, reject_queued}
use vparser.Analysis.Transcription.Settled.{is_settled, shown, run_settles}

abbrev fresh : World
fresh = record { active = false; state = none; transcript = none; published = [] }

abbrev no_database : Error
no_database = of_kind Kind.transient (lit "database") []

abbrev calls : Calls
calls = record {
  mark = up;
  begin = up;
  finish = up;
  clear = up;
  found = error no_database;
  source = none;
  text = answer (lit "hello");
  update = up;
}

abbrev queued : World
queued = (queue calls fresh).1

run_settles_example :
    (calls.found ≡ answer true → is_settled (shown (run calls queued)) ≡ true)
    × (is_settled (shown (reject_queued calls queued)) ≡ true)
    × ((e : Error)
        → calls.found ≡ error e
        → ((run calls queued).state ≡ queued.state)
          × ((run calls queued).published ≡ queued.published))
    × ((run calls queued).active ≡ false)
    × ((reject_queued calls queued).active ≡ false)
run_settles_example = run_settles calls queued refl refl

-- The task that was given up is shown as queued.
still_queued : shown (run calls queued) ≡ State.queued
unfolding vparser.Analysis.Transcription.status run queue
still_queued = refl
