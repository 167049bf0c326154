-- ===== src/Notify.antt =====
-- Package notify (internal/notify): service.go, the channels, and the dispatcher that calls them.
pub mod Dispatcher
pub mod Email
pub mod Http
pub mod Console
use healthd.Common.{String, List, [], ◌∷◌, ◌<>◌}
use healthd.Common.Int.{ℤ}
use healthd.Platform.{Platform}

-- The alert that a channel gets.
pub record Alert (go : Platform) : Type 0 where
  pub role : String
  pub state : String
  pub timestamp : go.Time
  pub detail : String
  pub consecutive_failures : ℤ

-- What a channel takes from packages fmt and time: an integer in `%d`, and a time in the layouts
-- time.RFC1123Z and time.RFC3339.
pub record Format (go : Platform) : Type 0 where
  pub format_int : ℤ → String
  pub rfc1123z : go.Time → String
  pub rfc3339 : go.Time → String

-- strings.Join
abbrev pub join : String → List String → String
join sep [] = ""
join sep (s ∷ []) = s
join sep (s ∷ t ∷ ss) = s <> sep <> join sep (t ∷ ss)
