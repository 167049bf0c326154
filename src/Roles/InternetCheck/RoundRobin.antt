-- ===== src/Roles/InternetCheck/RoundRobin.antt =====
-- Which site each cycle of internet_check.go probes.
use healthd.Common.{
  ℕ, zero, suc, ◌+◌, ◌%◌, ◌≤◌, ◌<◌, String, ◌≡◌, refl, ap, ◌∙◌, List, [], ◌∷◌, some, length,
  get_elem?, get_elem?_lt, ◌==◌, arith, false,
}
use healthd.Common.Int.{pos, incr, max_int}
use healthd.Roles.InternetCheck.{next_site, sites_of}

-- `site` is the site of the cycle `n`.
abbrev pub IsSite : List String → ℕ → String → Type 0
IsSite sites n site = get_elem? sites (n % length sites) ≡ some site

-- The sites of the cycles n, n + 1, and so on.
abbrev pub AreSites : List String → ℕ → List String → Type 0
AreSites sites n [] = Unit {0}
AreSites sites n (s ∷ ss) = IsSite sites n s × AreSites sites (suc n) ss

incr-pos : (n : ℕ) → n < max_int → incr (pos n) ≡ pos (suc n)
incr-pos n h = let stay : (n == max_int) ≡ false = ground arith in rw stay refl

next_site-found :
    (s : String) (ss : List String) (n : ℕ) (site : String)
    → IsSite (s ∷ ss) n site
    → next_site (s ∷ ss) (pos n) ≡ some (site, incr (pos n))
unfolding next_site
next_site-found s ss n site found = rw (found, next_site) refl

next_site-pos :
    (s : String) (ss : List String) (n : ℕ)
    → n < max_int
    → (site : String) × (next_site (s ∷ ss) (pos n) ≡ some (site, pos (suc n)))
      × IsSite (s ∷ ss) n site
next_site-pos s ss n h =
    let (site, found) = get_elem?_lt (s ∷ ss) (n % length (s ∷ ss)) (omega arith) in
    (site, next_site-found s ss n site found ∙ ap (λ m. some (site, m)) (incr-pos n h), found)

sites_of-step :
    (k : ℕ) (s : String) (ss : List String) (n : ℕ) (site : String) (rest : List String)
    → next_site (s ∷ ss) (pos n) ≡ some (site, pos (suc n))
    → sites_of k (s ∷ ss) (pos (suc n)) ≡ some rest
    → sites_of (suc k) (s ∷ ss) (pos n) ≡ some (site ∷ rest)
unfolding sites_of
sites_of-step k s ss n site rest e e' = rw (e, sites_of) (rw e' refl)

-- With at least one site, k cycles in a row from the cycle n on probe k sites, and none panics: each
-- cycle probes the site at its number modulo the number of sites. (The counter stays below 2^63 - 1.)
pub sites_of-round_robin :
    (s : String) (ss : List String) (k n : ℕ)
    → n + k ≤ max_int
    → (probed : List String) × (sites_of k (s ∷ ss) (pos n) ≡ some probed)
      × (length probed ≡ k)
      × AreSites (s ∷ ss) n probed
unfolding sites_of
sites_of-round_robin s ss zero n h = ([], refl, refl, tt)
sites_of-round_robin s ss (suc k) n h =
    let (site, e, here) = next_site-pos s ss n (omega arith) in
    let (rest, e', len, there) = sites_of-round_robin s ss k (suc n) (omega arith) in
    (site ∷ rest, sites_of-step k s ss n site rest e e', ap suc len, (here, there))
