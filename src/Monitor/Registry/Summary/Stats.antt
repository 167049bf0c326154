-- ===== src/Monitor/Registry/Summary/Stats.antt =====
-- The statistics of the speed samples (speedStats of registry.go) against what they are to be.
use healthd.Common.{
  ℕ, zero, suc, ◌≡◌, ◌⊎◌, refl, sym, ap, ◌∙◌, Bool, true, false, List, [], ◌∷◌, some, map, length,
  get_elem?, inl, inr, Bool-cases, if◌then◌else◌,
}
use healthd.Common.Int.{pos}
use healthd.Platform.{Platform}
use healthd.Monitor.History.{SpeedSample}
use healthd.Monitor.Registry.Summary.{SpeedStats, stats_from, last_mbps, speed_stats}

module _ (go : Platform) where
  open go use {Float, of_int, add_float, div_float, lt_float}

  -- `<` of `float64`, which holds of no NaN.
  pub record LtOrder : Type 0 where
    pub lt_irrefl : (a : Float) → lt_float a a ≡ false
    pub lt_trans : (a b c : Float) → lt_float a b ≡ true → lt_float b c ≡ true → lt_float a c ≡ true

  abbrev pub mbps_of : SpeedSample go → Float
  mbps_of s = s.mbps

  -- The value stands in the list.
  abbrev pub Among : Float → List Float → Type 0
  Among v xs = (j : ℕ) × (get_elem? xs j ≡ some v)

  -- The sum, with the first value outermost, of what is added to `sum`.
  abbrev pub sum_from : Float → List Float → Float
  sum_from sum [] = sum
  sum_from sum (x ∷ xs) = sum_from (add_float sum x) xs

  -- One pass that keeps the value which no later one improves on.
  abbrev best : (Float → Float → Bool) → Float → List Float → Float
  best better b [] = b
  best better b (x ∷ xs) = best better (if better x b then x else b) xs

  stats_from-best :
      (sum lo hi : Float) (ss : List (SpeedSample go))
      → stats_from go sum lo hi ss ≡ (
        sum_from sum (map mbps_of ss),
        best lt_float lo (map mbps_of ss),
        best (λ x b. lt_float b x) hi (map mbps_of ss),
      )
  unfolding stats_from
  stats_from-best sum lo hi [] = refl
  stats_from-best sum lo hi (s ∷ ss) =
      stats_from-best (add_float sum s.mbps) (if lt_float s.mbps lo then s.mbps else lo)
        (if lt_float hi s.mbps then s.mbps else hi) ss

  best-Among :
      (better : Float → Float → Bool) (b : Float) (xs : List Float)
      → (best better b xs ≡ b) ⊎ Among (best better b xs) xs
  best-Among better b [] = inl refl
  best-Among better b (x ∷ xs) = elim (best-Among better (if better x b then x else b) xs) [
    | inr (j, e) ↦ inr (suc j, e)
    | inl e ↦ elim (Bool-cases (better x b)) [
      | inl f ↦ inr (0, ap some (sym (e ∙ ap (λ t. if t then x else b) f)))
      | inr f ↦ inl (e ∙ ap (λ t. if t then x else b) f)
    ]
  ]

  best-Among_first :
      (better : Float → Float → Bool) (x : Float) (xs : List Float)
      → Among (best better x (x ∷ xs)) (x ∷ xs)
  best-Among_first better x xs = elim (best-Among better x (x ∷ xs)) [
    | inl e ↦ (0, ap some (sym e))
    | inr at ↦ at
  ]

  module _ (better : Float → Float → Bool) (irrefl : (a : Float) → better a a ≡ false)
      (trans : (a b c : Float) → better a b ≡ true → better b c ≡ true → better a c ≡ true) where
    -- A value that does not improve on what is kept does not improve on what is kept later.
    not_better :
        (x b y : Float) → better y b ≡ false → better y (if better x b then x else b) ≡ false
    not_better x b y h = elim (Bool-cases (better x b)) [
      | inl e ↦ elim (Bool-cases (better y x)) [
        | inl f ↦ let g = trans y x b f e in cc
        | inr f ↦ rw e f
      ]
      | inr e ↦ rw e h
    ]

    not_better-best :
        (b y : Float) (xs : List Float) → better y b ≡ false → better y (best better b xs) ≡ false
    not_better-best b y [] h = h
    not_better-best b y (x ∷ xs) h =
        not_better-best (if better x b then x else b) y xs (not_better x b y h)

    -- A value is not better than what is kept once it has been looked at.
    not_better_seen : (x b : Float) → better x (if better x b then x else b) ≡ false
    not_better_seen x b = elim (Bool-cases (better x b)) [
      | inl e ↦ rw e (irrefl x)
      | inr e ↦ rw e e
    ]

    best-bound :
        (b y : Float) (xs : List Float) (i : ℕ)
        → get_elem? xs i ≡ some y
        → better y (best better b xs) ≡ false
    best-bound b y [] i h = cc
    best-bound b y (x ∷ xs) zero h =
        let same : x ≡ y = cc in
        rw (sym same) (not_better-best (if better x b then x else b) x xs (not_better_seen x b))
    best-bound b y (x ∷ xs) (suc i) h = best-bound (if better x b then x else b) y xs i h

  last_mbps_lem :
      (s : SpeedSample go) (ss : List (SpeedSample go))
      → get_elem? (map mbps_of (s ∷ ss)) (length ss) ≡ some (last_mbps go s ss)
  last_mbps_lem s [] = refl
  last_mbps_lem s (t ∷ ts) = last_mbps_lem t ts

  -- The statistics of speed samples, of which there is at least one: the count is their number, the
  -- minimum and the maximum are speeds among them, no sample is below the minimum or above the maximum,
  -- the average is their sum, added in order, over their number, and the latest is the last. The order
  -- `<` of the platform's numbers is irreflexive and transitive, as it is for `float64`.
  pub speed_stats_lem :
      (s x : SpeedSample go) (ss : List (SpeedSample go)) (i : ℕ)
      → LtOrder
      → get_elem? (map mbps_of (s ∷ ss)) i ≡ some x.mbps
      → let speeds = map mbps_of (s ∷ ss) in
        (st : SpeedStats go) × (speed_stats go (s ∷ ss) ≡ some st)
        × (st.count ≡ length speeds)
        × Among st.min speeds
        × Among st.max speeds
        × (lt_float x.mbps st.min ≡ false)
        × (lt_float st.max x.mbps ≡ false)
        × (st.avg ≡ div_float (sum_from (of_int (pos 0)) speeds) (of_int (pos (length speeds))))
        × (get_elem? speeds (length ss) ≡ some st.latest)
  unfolding speed_stats
  speed_stats_lem s x ss i order at_i =
      let speeds = map mbps_of (s ∷ ss) in
      let above : Float → Float → Bool = λ x b. lt_float b x in
      let stats : Float × Float × Float → SpeedStats go = λ r. record {
        count = length (s ∷ ss);
        min = r.1;
        avg = div_float r.0 (of_int (pos (length (s ∷ ss))));
        max = r.2;
        latest = last_mbps go s ss;
      } in
      let r : Float × Float × Float =
        (sum_from (of_int (pos 0)) speeds, best lt_float s.mbps speeds, best above s.mbps speeds) in
      (
        stats r,
        ap (λ r. some (stats r)) (stats_from-best (of_int (pos 0)) s.mbps s.mbps (s ∷ ss)),
        ap suc (length-map ss),
        best-Among_first lt_float s.mbps (map mbps_of ss),
        best-Among_first above s.mbps (map mbps_of ss),
        best-bound lt_float order.lt_irrefl order.lt_trans s.mbps x.mbps speeds i at_i,
        best-bound above order.lt_irrefl (λ a b c p q. order.lt_trans c b a q p) s.mbps x.mbps
            speeds i at_i,
        ap (λ n. div_float (sum_from (of_int (pos 0)) speeds) (of_int (pos n)))
            (ap suc (length-map ss)),
        last_mbps_lem s ss,
      )
    where
      length-map : (ss : List (SpeedSample go)) → length ss ≡ length (map mbps_of ss)
      length-map [] = refl
      length-map (s ∷ ss) = ap suc (length-map ss)
