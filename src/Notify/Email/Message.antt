-- ===== src/Notify/Email/Message.antt =====
-- The lines of the message that buildMessage of internal/notify/email.go makes.
use Prim.Native.Char.{Char, code}
use Prim.Native.String.append
use text.Mathlib.TextLemmas.{append-nil, append_assoc}
use healthd.Common.{
  arith, ◌<>◌, String, ◌≡◌, refl, sym, ap, ◌∙◌, Bool, true, false, ◌&&◌, ◌||◌, not, List, [], ◌∷◌,
  ◌==◌, if◌then◌else◌,
}
use healthd.Platform.{Platform}
use healthd.Notify.{Alert, Format, join}
use healthd.Notify.Email.{build_message}

abbrev pub is_break : Char → Bool
is_break c = (code c == 10) || (code c == 13)

-- A text in one line.
abbrev pub one_line : String → Bool
one_line String.[] = true
one_line (String.◌∷◌ c s) = not (is_break c) && one_line s

abbrev cons_char : Char → List String → List String
cons_char c [] = String.◌∷◌ c "" ∷ []
cons_char c (l ∷ ls) = String.◌∷◌ c l ∷ ls

-- The lines of a text: a line feed ends one, and a carriage return is not part of it.
unfoldable pub to_lines : String → List String
to_lines String.[] = []
to_lines (String.◌∷◌ c s) =
    let rest = to_lines s in
    if code c == 10 then "" ∷ rest else if code c == 13 then rest else cons_char c rest

to_lines-cons :
    (c : Char) (s : String)
    → (code c == 10) ≡ false
    → (code c == 13) ≡ false
    → to_lines (String.◌∷◌ c s) ≡ cons_char c (to_lines s)
unfolding to_lines
to_lines-cons c s a b = rw (a, b) refl

to_lines-append :
    (s t l : String) (ls : List String)
    → one_line s ≡ true
    → to_lines t ≡ l ∷ ls
    → to_lines (s <> t) ≡ (s <> l) ∷ ls
unfolding to_lines
to_lines-append String.[] t l ls h e =
    ap to_lines (append.nil t) ∙ e ∙ ap (λ x. x ∷ ls) (sym (append.nil l))
to_lines-append (String.◌∷◌ c s) t l ls h e =
    let not_lf : (code c == 10) ≡ false = ground arith in
    let not_cr : (code c == 13) ≡ false = ground arith in
    let plain : one_line s ≡ true = ground arith in
    ap to_lines (append.cons c s t)
    ∙ to_lines-cons c (s <> t) not_lf not_cr
    ∙ ap (cons_char c) (to_lines-append s t l ls plain e)
    ∙ ap (λ x. x ∷ ls) (sym (append.cons c s l))

to_lines-break : (t : String) → to_lines ("\r\n" <> t) ≡ "" ∷ to_lines t
unfolding to_lines
to_lines-break t = ap to_lines (
    append.cons "\r" "\n" t
    ∙ ap (λ r. String.◌∷◌ "\r" r)
        (append.cons "\n" "" t ∙ ap (λ r. String.◌∷◌ "\n" r) (append.nil t)))

-- A line of two parts.
line :
    (a b t : String)
    → one_line a ≡ true
    → one_line b ≡ true
    → to_lines (a <> b <> "\r\n" <> t) ≡ (a <> b) ∷ to_lines t
line a b t p q = to_lines-append a (b <> "\r\n" <> t) b (to_lines t) p (
    to_lines-append b ("\r\n" <> t) "" (to_lines t) q (to_lines-break t)
    ∙ ap (λ x. x ∷ to_lines t) (append-nil b))

last_line :
    (a b : String)
    → one_line a ≡ true
    → one_line b ≡ true
    → to_lines (a <> b <> "\r\n") ≡ (a <> b) ∷ []
unfolding to_lines
last_line a b p q =
    to_lines-append a (b <> "\r\n") b [] p
      (to_lines-append b "\r\n" "" [] q refl ∙ ap (λ x. x ∷ []) (append-nil b))

-- A line without parts that vary, and an empty one.
fixed_line : (a t : String) → one_line a ≡ true → to_lines ((a <> "\r\n") <> t) ≡ a ∷ to_lines t
fixed_line a t p =
    ap to_lines (append_assoc a "\r\n" t)
    ∙ to_lines-append a ("\r\n" <> t) "" (to_lines t) p (to_lines-break t)
    ∙ ap (λ x. x ∷ to_lines t) (append-nil a)

one_line-append : (a b : String) → one_line a ≡ true → one_line b ≡ true → one_line (a <> b) ≡ true
one_line-append String.[] b p q = ap one_line (append.nil b) ∙ q
one_line-append (String.◌∷◌ c a) b p q =
    let clean : not (is_break c) ≡ true = ground arith in
    let rest : one_line a ≡ true = ground arith in
    ap one_line (append.cons c a b)
    ∙ ap (λ x. x && one_line (a <> b)) clean
    ∙ one_line-append a b rest q

abbrev pub all_one_line : List String → Bool
all_one_line [] = true
all_one_line (s ∷ ss) = one_line s && all_one_line ss

and_left : (a b : Bool) → (a && b) ≡ true → a ≡ true
and_left true b h = refl
and_left false b h = h

and_right : (a b : Bool) → (a && b) ≡ true → b ≡ true
and_right true b h = h
and_right false b h = cc

one_line-join : (ss : List String) → all_one_line ss ≡ true → one_line (join ", " ss) ≡ true
one_line-join [] h = refl
one_line-join (s ∷ []) h = and_left (one_line s) true h
one_line-join (s ∷ t ∷ ss) h =
    one_line-append s (", " <> join ", " (t ∷ ss)) (and_left (one_line s) _ h) (
      one_line-append ", " (join ", " (t ∷ ss)) refl
        (one_line-join (t ∷ ss) (and_right (one_line s) _ h)))

module _ (go : Platform) where
  -- What goes into a message is in one line each.
  pub record Plain (fmt : Format go) (from : String) (to : List String) (subject : String)
      (alert : Alert go) : Type 0 where
    pub from_line : one_line from ≡ true
    pub to_line : all_one_line to ≡ true
    pub subject_line : one_line subject ≡ true
    pub date_line : one_line (fmt.rfc1123z alert.timestamp) ≡ true
    pub role_line : one_line alert.role ≡ true
    pub state_line : one_line alert.state ≡ true
    pub time_line : one_line (fmt.rfc3339 alert.timestamp) ≡ true
    pub count_line : one_line (fmt.format_int alert.consecutive_failures) ≡ true
    pub detail_line : one_line alert.detail ≡ true

  body_lines :
      (fmt : Format go) (from : String) (to : List String) (subject : String) (alert : Alert go)
      → Plain fmt from to subject alert
      → to_lines (
          "Role: "
          <> alert.role
          <> "\r\n"
          <> "State: "
          <> alert.state
          <> "\r\n"
          <> "Time: "
          <> fmt.rfc3339 alert.timestamp
          <> "\r\n"
          <> "Consecutive failures: "
          <> fmt.format_int alert.consecutive_failures
          <> "\r\n"
          <> "Detail: "
          <> alert.detail
          <> "\r\n")
        ≡ ("Role: " <> alert.role)
          ∷ ("State: " <> alert.state)
          ∷ ("Time: " <> fmt.rfc3339 alert.timestamp)
          ∷ ("Consecutive failures: " <> fmt.format_int alert.consecutive_failures)
          ∷ ("Detail: " <> alert.detail)
          ∷ []
  body_lines fmt from to subject alert p =
      line "Role: " alert.role _ refl p.role_line
      ∙ ap (λ l. ("Role: " <> alert.role) ∷ l)
          (line "State: " alert.state _ refl p.state_line
            ∙ ap (λ l. ("State: " <> alert.state) ∷ l)
                (line "Time: " (fmt.rfc3339 alert.timestamp) _ refl p.time_line
                  ∙ ap (λ l. ("Time: " <> fmt.rfc3339 alert.timestamp) ∷ l)
                      (line "Consecutive failures: " (fmt.format_int alert.consecutive_failures) _
                          refl p.count_line
                        ∙ ap
                            (λ l.
                              ("Consecutive failures: "
                                <> fmt.format_int alert.consecutive_failures)
                              ∷ l)
                            (last_line "Detail: " alert.detail refl p.detail_line))))

  -- A message of parts in one line each is read back line by line: five headers, an empty line, and the
  -- five lines of the alert, none of them added, lost or broken by what the parts hold.
  pub to_lines-build_message :
      (fmt : Format go) (from : String) (to : List String) (subject : String) (alert : Alert go)
      → Plain fmt from to subject alert
      → to_lines (build_message go fmt from to subject alert)
        ≡ ("From: " <> from)
          ∷ ("To: " <> join ", " to)
          ∷ ("Subject: " <> subject)
          ∷ ("Date: " <> fmt.rfc1123z alert.timestamp)
          ∷ "Content-Type: text/plain; charset=UTF-8"
          ∷ ""
          ∷ ("Role: " <> alert.role)
          ∷ ("State: " <> alert.state)
          ∷ ("Time: " <> fmt.rfc3339 alert.timestamp)
          ∷ ("Consecutive failures: " <> fmt.format_int alert.consecutive_failures)
          ∷ ("Detail: " <> alert.detail)
          ∷ []
  unfolding build_message
  to_lines-build_message fmt from to subject alert p =
      line "From: " from _ refl p.from_line
      ∙ ap (λ l. ("From: " <> from) ∷ l)
          (line "To: " (join ", " to) _ refl (one_line-join to p.to_line)
            ∙ ap (λ l. ("To: " <> join ", " to) ∷ l)
                (line "Subject: " subject _ refl p.subject_line
                  ∙ ap (λ l. ("Subject: " <> subject) ∷ l)
                      (line "Date: " (fmt.rfc1123z alert.timestamp) _ refl p.date_line
                        ∙ ap (λ l. ("Date: " <> fmt.rfc1123z alert.timestamp) ∷ l)
                            (fixed_line "Content-Type: text/plain; charset=UTF-8" _ refl
                              ∙ ap (λ l. "Content-Type: text/plain; charset=UTF-8" ∷ l)
                                  (to_lines-break _
                                    ∙ ap (λ l. "" ∷ l) (body_lines fmt from to subject alert p))))))
