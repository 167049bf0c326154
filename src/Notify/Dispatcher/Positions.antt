-- ===== src/Notify/Dispatcher/Positions.antt =====
-- What Dispatch of dispatcher.go does with each name of its list.
use healthd.Common.{ℕ, zero, suc, String, ◌≡◌, refl, ap, List, [], ◌∷◌, some, map, get_elem?}
use healthd.Common.Assoc.{lookup}
use healthd.Notify.Dispatcher.{Dispatcher, Context, ChannelTrace, trace_of, dispatch}

abbrev pub name_of : String × ChannelTrace → String
name_of t = t.0

module _ (d : Dispatcher) (ctx : Context) where
  -- One trace for each name of the list, as often as the name stands in it.
  pub names-dispatch : (names : List String) → map name_of (dispatch d ctx names) ≡ names
  unfolding dispatch
  names-dispatch [] = refl
  names-dispatch (n ∷ ns) = ap (λ l. n ∷ l) (names-dispatch ns)

  pub dispatch-get_elem? :
      (names : List String) (j : ℕ) (name : String)
      → get_elem? names j ≡ some name
      → get_elem? (dispatch d ctx names) j
        ≡ some (name, trace_of d.policy ctx (lookup name d.channels))
  unfolding dispatch
  dispatch-get_elem? [] j name h = cc
  dispatch-get_elem? (n ∷ ns) zero name h =
      let same : n ≡ name = cc in
      ap (λ m. some (m, trace_of d.policy ctx (lookup m d.channels))) same
  dispatch-get_elem? (n ∷ ns) (suc j) name h = dispatch-get_elem? ns j name h
