-- ===== src/Circular.antt =====
-- A fixed buffer written round and round, the representation that Window and ring share
-- (internal/monitor/window.go, internal/monitor/history.go): `head` is the next write position,
-- and, once `len` has reached the capacity, the oldest entry.
use healthd.Common.{
  ℕ, suc, ◌+◌, ◌%◌, ◌<◌, min, ◌≡◌, refl, sym, subst, ap, ap₂, ◌∙◌, true, false, List, [], ◌∷◌, ◌++◌,
  some, append-nil, append_assoc, arith, length, get_elem?, set, take, drop, replicate, recent,
  length-replicate, length-set, length-append, take-set, drop-set, drop-get_elem?, drop_all,
  take_all, get_elem?_lt, recent_short, recent-append_full, recent-append_room, ◌==◌, if◌then◌else◌,
}
use native.Mathlib.Decide.{dec_lt}
use native.Mathlib.Nat.{mod-eq_of_lt}

next_lt : {head width : ℕ} → suc head < width → (head + 1) % width ≡ suc head
next_lt h = mod-eq_of_lt (omega arith) ∙ omega arith

next_wrap : {head width : ℕ} → suc head ≡ width → (head + 1) % width ≡ 0
next_wrap h = grind arith

module _ {ℓ} {A : Type ℓ} where
  -- The entries held, oldest first.
  abbrev pub contents : ℕ → List A → ℕ → ℕ → List A
  contents width buf head len =
      if len == width then drop head buf ++ take head buf else take head buf

  -- The buffer holds the last `width` entries of the log `xs`, and every index is in range.
  pub record Holds (width : ℕ) (buf : List A) (head len : ℕ) (xs : List A) : Type ℓ where
    pub size : length buf ≡ width
    pub head_in : head < width
    pub len_exact : len ≡ min width (length xs)
    pub filling : len < width → head ≡ len
    pub held : contents width buf head len ≡ recent width xs

  set_last :
      (buf : List A) (head : ℕ) (v : A)
      → suc head ≡ length buf
      → set buf head v ≡ take head buf ++ v ∷ []
  set_last buf head v h =
      sym (take_all (suc head) (set buf head v) (omega (arith, length-set buf head v)))
      ∙ take-set buf head v (omega arith)

  pub contents_full :
      (width : ℕ) (buf : List A) (head len : ℕ)
      → len ≡ width
      → contents width buf head len ≡ drop head buf ++ take head buf
  contents_full width buf head len h = let e : (len == width) ≡ true = ground arith in rw e

  pub contents_part :
      (width : ℕ) (buf : List A) (head len : ℕ)
      → len < width
      → contents width buf head len ≡ take head buf
  contents_part width buf head len h = let e : (len == width) ≡ false = ground arith in rw e

  -- Writing into a buffer with room appends.
  contents_room :
      (width : ℕ) (buf : List A) (head : ℕ) (v : A)
      → length buf ≡ width
      → head < width
      → contents width (set buf head v) ((head + 1) % width) (suc head) ≡ take head buf ++ v ∷ []
  contents_room width buf head v s h = elim (dec_lt (suc head) width) [
    | yes p ↦
        let e : (head + 1) % width ≡ suc head = next_lt p in
        rw e (
          contents_part width (set buf head v) (suc head) (suc head) p
          ∙ take-set buf head v (omega arith))
    | no p ↦
        let e : (head + 1) % width ≡ 0 = next_wrap (omega arith) in
        rw e (
          contents_full width (set buf head v) 0 (suc head) (omega arith)
          ∙ append-nil (set buf head v)
          ∙ set_last buf head v (omega arith))
  ]

  -- Writing into a full buffer evicts the oldest entry.
  contents_evict :
      (width : ℕ) (buf : List A) (head : ℕ) (v : A)
      → length buf ≡ width
      → head < width
      → contents width (set buf head v) ((head + 1) % width) width
        ≡ drop 1 (drop head buf ++ take head buf) ++ v ∷ []
  contents_evict width buf head v s h =
      let (x, found) = get_elem?_lt buf head (omega arith) in
      rw (drop-get_elem? buf head x found) (elim (dec_lt (suc head) width) [
        | yes p ↦
            let e : (head + 1) % width ≡ suc head = next_lt p in
            rw e (
              contents_full width (set buf head v) (suc head) width refl
              ∙ ap₂ ◌++◌ (drop-set buf head v) (take-set buf head v (omega arith))
              ∙ sym (append_assoc (drop (suc head) buf) (take head buf) (v ∷ [])))
        | no p ↦
            let e : (head + 1) % width ≡ 0 = next_wrap (omega arith) in
            rw (e, drop_all (suc head) buf (omega arith))
              (contents_full width (set buf head v) 0 width refl
                ∙ append-nil (set buf head v)
                ∙ set_last buf head v (omega arith))
      ])

  Holds-push_room :
      {width : ℕ} {buf : List A} {head len : ℕ} {xs : List A} (v : A)
      → len < width
      → Holds width buf head len xs
      → Holds width (set buf head v) ((head + 1) % width) (suc len) (xs ++ v ∷ [])
  Holds-push_room {width} {buf} {head} {len} {xs} v p h =
      let room : head ≡ len = h.filling p in
      record {
        size = length-set buf head v ∙ h.size;
        head_in = omega (arith, h);
        len_exact = omega (arith, h, length-append xs (v ∷ []));
        filling = λ q. next_lt (omega arith) ∙ ap suc room;
        held =
            ap (contents width (set buf head v) ((head + 1) % width)) (ap suc (sym room))
            ∙ contents_room width buf head v h.size h.head_in
            ∙ ap (λ l. l ++ v ∷ [])
                (sym (contents_part width buf head head (omega arith))
                  ∙ ap (contents width buf head) room
                  ∙ h.held)
            ∙ sym (recent-append_room width xs v (omega (arith, h)));
      }

  Holds-push_full :
      {width : ℕ} {buf : List A} {head : ℕ} {xs : List A} (v : A)
      → Holds width buf head width xs
      → Holds width (set buf head v) ((head + 1) % width) width (xs ++ v ∷ [])
  Holds-push_full {width} {buf} {head} {xs} v h = record {
    size = length-set buf head v ∙ h.size;
    head_in = omega (arith, h);
    len_exact = omega (arith, h, length-append xs (v ∷ []));
    filling = λ q. absurd (omega arith);
    held =
        contents_evict width buf head v h.size h.head_in
        ∙ ap (λ l. drop 1 l ++ v ∷ []) (sym (contents_full width buf head width refl) ∙ h.held)
        ∙ sym (recent-append_full width xs v (omega (arith, h)) (omega (arith, h)));
  }

  -- One write: the log grows by one entry.
  pub Holds-push :
      {width : ℕ} {buf : List A} {head len : ℕ} {xs : List A} (v : A)
      → Holds width buf head len xs
      → Holds width
          (set buf head v)
          ((head + 1) % width)
          (if len == width then len else suc len)
          (xs ++ v ∷ [])
  Holds-push {width} {buf} {head} {len} {xs} v h = elim (dec_lt len width) [
    | yes p ↦ let e : (len == width) ≡ false = ground arith in rw e (Holds-push_room v p h)
    | no p ↦
        let full : len ≡ width = omega (arith, h) in
        let e : (len == width) ≡ true = ground arith in
        rw e (
          subst (λ n. Holds width (set buf head v) ((head + 1) % width) n (xs ++ v ∷ [])) (sym full)
            (Holds-push_full v (subst (λ n. Holds width buf head n xs) full h)))
  ]

  -- A new buffer holds nothing.
  pub Holds-new : (width : ℕ) (filler : A) → 0 < width → Holds width (replicate width filler) 0 0 []
  Holds-new width filler p = record {
    size = length-replicate width filler;
    head_in = p;
    len_exact = omega arith;
    filling = λ q. refl;
    held =
        contents_part width (replicate width filler) 0 0 p
        ∙ sym (recent_short width [] (omega arith));
  }

  -- The oldest entry of a full buffer stands at `head`.
  pub oldest :
      {width : ℕ} {buf : List A} {head : ℕ} {xs : List A}
      → Holds width buf head width xs
      → (x : A) × (get_elem? buf head ≡ some x) × (recent width xs ≡ x ∷ drop 1 (recent width xs))
  oldest {width} {buf} {head} {xs} h =
      let (x, found) = get_elem?_lt buf head (omega (arith, h)) in
      let e : recent width xs ≡ x ∷ (drop (suc head) buf ++ take head buf) =
        sym h.held
        ∙ contents_full width buf head width refl
        ∙ ap (λ l. l ++ take head buf) (drop-get_elem? buf head x found) in
      (x, found, e ∙ ap (λ l. x ∷ drop 1 l) (sym e))
