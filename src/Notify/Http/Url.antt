-- ===== src/Notify/Http/Url.antt =====
-- The base URL of internal/notify/smsgate.go.
use Prim.Native.Char.{Char, code}
use Prim.Native.String.append
use text.Mathlib.TextEquality.{Char-path}
use healthd.Common.{
  ◌<>◌, ℕ, zero, suc, String, ◌≡◌, refl, sym, ap, ◌∙◌, Bool, true, false, ◌&&◌, Bool-cases,
  ◌==◌ as nat_eq, inl, inr, arith, if◌then◌else◌,
}
use healthd.Notify.Http.{is_empty, trim_slashes}

abbrev slashes : ℕ → String
slashes zero = ""
slashes (suc n) = "/" <> slashes n

abbrev ends_in_slash : String → Bool
ends_in_slash String.[] = false
ends_in_slash (String.◌∷◌ c s) = if is_empty s then nat_eq (code c) 47 else ends_in_slash s

trimmed_end :
    (c : Char) (rest : String)
    → ends_in_slash rest ≡ false
    → ends_in_slash (if is_empty rest && nat_eq (code c) 47 then "" else String.◌∷◌ c rest) ≡ false
trimmed_end c String.[] h = elim (Bool-cases (nat_eq (code c) 47)) [
  | inl e ↦ rw e refl
  | inr e ↦ rw (e, e) refl
]
trimmed_end c (String.◌∷◌ d t) h = h

slash :
    (c : Char) (s : String) (n : ℕ)
    → nat_eq (code c) 47 ≡ true
    → s ≡ "" <> slashes n
    → String.◌∷◌ c s ≡ "" <> slashes (suc n)
slash c s n e h =
    let same : c ≡ "/" = Char-path c "/" (ground arith) in
    ap (λ d. String.◌∷◌ d s) same
    ∙ ap (λ r. String.◌∷◌ "/" r) (h ∙ append.nil (slashes n))
    ∙ sym (append.cons "/" "" (slashes n) ∙ ap (λ r. String.◌∷◌ "/" r) (append.nil (slashes n)))
    ∙ sym (append.nil (slashes (suc n)))

trimmed_kept :
    (c : Char) (s rest : String) (n : ℕ)
    → s ≡ rest <> slashes n
    → (m : ℕ) × (String.◌∷◌ c s
        ≡ (if is_empty rest && nat_eq (code c) 47 then "" else String.◌∷◌ c rest) <> slashes m)
trimmed_kept c s String.[] n h = elim (Bool-cases (nat_eq (code c) 47)) [
  | inl e ↦ (suc n, slash c s n e h ∙ sym (rw e refl))
  | inr e ↦ (
    n,
    ap (λ r. String.◌∷◌ c r) (h ∙ append.nil (slashes n))
        ∙ sym (
            rw e
              (append.cons c "" (slashes n) ∙ ap (λ r. String.◌∷◌ c r) (append.nil (slashes n)))),
  )
]
trimmed_kept c s (String.◌∷◌ d t) n h =
    (n, ap (λ r. String.◌∷◌ c r) h ∙ sym (append.cons c (String.◌∷◌ d t) (slashes n)))

-- What `TrimRight` leaves of an URL does not end in a slash.
pub trim_slashes_lem :
    (s : String)
    → (ends_in_slash (trim_slashes s) ≡ false) × ((n : ℕ) × (s ≡ trim_slashes s <> slashes n))
unfolding trim_slashes
trim_slashes_lem String.[] = (refl, (0, refl))
trim_slashes_lem (String.◌∷◌ c s) =
    let (clean, (n, kept)) = trim_slashes_lem s in
    (trimmed_end c (trim_slashes s) clean, trimmed_kept c s (trim_slashes s) n kept)
