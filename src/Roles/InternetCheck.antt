-- ===== src/Roles/InternetCheck.antt =====
-- The round robin and the check of internal/roles/internet_check.go. `none` is a panic: a division by
-- the number of sites where there are none, or a negative index.
pub mod RoundRobin
use healthd.Common.{
  ℕ, zero, suc, ◌%◌, String, List, [], ◌∷◌, Option, none, some, length, get_elem?, ◌==◌,
  if◌then◌else◌,
}
use healthd.Common.Int.{ℤ, pos, negsuc, incr}
use healthd.Platform.{Platform}
use healthd.Monitor.Registry.{Handle}
use healthd.Roles.Check.{
  HttpError, HttpResult, http_probe, is_nil, detail_of, Instants, World, Output, report,
}

-- `sites[next%len(sites)]`: `%` keeps the sign of its left side, so that a negative one indexes at 0 or
-- out of range.
abbrev pub site_at : List String → ℤ → Option String
site_at [] next = none
site_at (s ∷ ss) (pos n) = get_elem? (s ∷ ss) (n % length (s ∷ ss))
site_at (s ∷ ss) (negsuc n) = if suc n % length (s ∷ ss) == 0 then some s else none

-- The site and `c.next` after the call.
unfoldable pub next_site : List String → ℤ → Option (String × ℤ)
next_site sites next = elim (site_at sites next) [
  | none ↦ none
  | some site ↦ some (site, incr next)
]

module _ (go : Platform) where
  -- runCheck: the site is probed by `probe`; the results are `c.next`, the world and the output.
  unfoldable pub internet_run_check :
      List String
      → Option Handle
      → (String → HttpResult)
      → Instants go
      → ℤ
      → World go
      → Option (ℤ × World go × Output go HttpError)
  unfolding next_site http_probe report
  internet_run_check sites h probe at next w = elim (next_site sites next) [
    | none ↦ none
    | some (site, next') ↦
        let err = http_probe (probe site) in
        let (w', out) = report go "internet_check" h (detail_of site err) (is_nil err) none at w in
        some (next', w', out)
  ]

-- The sites of `k` calls in a row.
unfoldable pub sites_of : ℕ → List String → ℤ → Option (List String)
unfolding next_site
sites_of zero sites next = some []
sites_of (suc k) sites next = elim (next_site sites next) [
  | none ↦ none
  | some (site, next') ↦ elim (sites_of k sites next') [
    | none ↦ none
    | some rest ↦ some (site ∷ rest)
  ]
]
