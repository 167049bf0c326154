-- ===== src/Roles/SummaryReporter.antt =====
-- internal/roles/summary_reporter.go. The registry is shared, so a tick comes with the registry as it is
-- then, and the instant.
use healthd.Common.{◌≡◌, refl, ap, ◌∙◌, Bool, true, false, List, [], ◌∷◌, ◌++◌, Option, none, some}
use healthd.Common.Int.{ℤ}
use healthd.Platform.{Platform}
use healthd.Monitor.Registry.{Registry}
use healthd.Monitor.Registry.Summary.{LogLine, log_summary}

module _ (go : Platform) where
  open go use {Time}

  pub record SummaryReporter : Type 0 where
    pub interval : ℤ

  abbrev pub new_summary_reporter : ℤ → SummaryReporter
  new_summary_reporter interval = record { interval = interval }

  -- What the `select` of the loop takes.
  pub data Wake : Type 0 where
    ctx_done : Wake
    ticked : Option (Registry go) → Time → Wake

  abbrev pub logged : Option (LogLine go) → List (LogLine go) × Bool → List (LogLine go) × Bool
  logged none rest = rest
  logged (some l) (ls, returned) = (l ∷ ls, returned)

  -- The lines that Run logs, and whether it has returned.
  unfoldable pub run : List Wake → List (LogLine go) × Bool
  unfolding log_summary
  run [] = ([], false)
  run (ctx_done ∷ wakes) = ([], true)
  run (ticked r now ∷ wakes) = logged (log_summary go r now) (run wakes)

  -- A series of ticks, and the summaries of the registry at each.
  abbrev pub ticks : List (Option (Registry go) × Time) → List Wake
  ticks [] = []
  ticks ((r, now) ∷ ts) = ticked r now ∷ ticks ts

  abbrev line_of : Option (LogLine go) → List (LogLine go)
  line_of none = []
  line_of (some l) = l ∷ []

  abbrev pub summaries : List (Option (Registry go) × Time) → List (LogLine go)
  summaries [] = []
  summaries ((r, now) ∷ ts) = line_of (log_summary go r now) ++ summaries ts

  logged-line_of :
      (o : Option (LogLine go)) (ls : List (LogLine go)) (b : Bool)
      → logged o (ls, b) ≡ (line_of o ++ ls, b)
  logged-line_of none ls b = refl
  logged-line_of (some l) ls b = refl

  -- Each tick logs the summary of the registry as it is then, and once the loop has seen the
  -- cancellation it has returned and logs no more.
  pub run-ticks :
      (ts : List (Option (Registry go) × Time)) (later : List Wake)
      → (run (ticks ts) ≡ (summaries ts, false))
        × (run (ticks ts ++ ctx_done ∷ later) ≡ (summaries ts, true))
  unfolding run
  run-ticks [] later = (refl, refl)
  run-ticks ((r, now) ∷ ts) later =
      let (open_still, closed) = run-ticks ts later in
      (
        ap (logged (log_summary go r now)) open_still
            ∙ logged-line_of (log_summary go r now) (summaries ts) false,
        ap (logged (log_summary go r now)) closed
            ∙ logged-line_of (log_summary go r now) (summaries ts) true,
      )
