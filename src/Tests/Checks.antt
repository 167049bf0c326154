-- ===== src/Tests/Checks.antt =====
-- Concrete checks of internal/roles/ping_monitor.go and internet_check.go.
use healthd.Common.{String, ◌≡◌, List, [], ◌∷◌, some, length, arith}
use healthd.Common.Int.{pos}
use healthd.Roles.InternetCheck.{sites_of}
use healthd.Roles.InternetCheck.RoundRobin.{AreSites, sites_of-round_robin}

sites_of-round_robin_example :
    (probed : List String) × (sites_of 3 ("http://a" ∷ "http://b" ∷ []) (pos 0) ≡ some probed)
    × (length probed ≡ 3)
    × AreSites ("http://a" ∷ "http://b" ∷ []) 0 probed
sites_of-round_robin_example = sites_of-round_robin "http://a" ("http://b" ∷ []) 3 0 (omega arith)
