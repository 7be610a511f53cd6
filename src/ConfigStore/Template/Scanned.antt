-- ===== src/ConfigStore/Template/Scanned.antt =====
-- The scan of a template that is made of pieces.
use mathlib.Core.List.{append-nil, append_assoc}
use mo_ip_checker.Base.{
  ℕ, ◌≡◌, refl, sym, ap, ◌∙◌, true, not, List, [], ◌∷◌, ◌++◌, Text, ◌==◌, nat_eq, text_eq, arith,
  all, Bool-cases, inl, inr,
}
use mo_ip_checker.Base.Dict.{Dict}
use mo_ip_checker.Base.Exec.{Result, ok, raised, Result-cases}
use mo_ip_checker.ConfigStore.Template.{
  Mode, copying, after_dollar, named, braced, is_letter, is_name_char, value_of, end_name,
  close_brace, scan_char, scan_end, prefixed, scan, substitute,
}
use mo_ip_checker.ConfigStore.Template.Pieces.{
  Piece, literal, dollar, bare, in_braces, printed, ends_name, is_name, ArePieces, and_then, filled,
}

module _ (mapping : Dict Text Text) where
  prefixed-nil : (r : Result Text) → prefixed mapping [] r ≡ r
  unfolding prefixed
  prefixed-nil (ok s) = refl
  prefixed-nil (raised e) = refl

  prefixed-prefixed :
      (s t : Text) (r : Result Text)
      → prefixed mapping s (prefixed mapping t r) ≡ prefixed mapping (s ++ t) r
  unfolding prefixed
  prefixed-prefixed s t (ok u) = ap ok (sym (append_assoc s t u))
  prefixed-prefixed s t (raised e) = refl

  scan-literal :
      (s t : Text)
      → all (λ c. not (c == b'$')) s ≡ true
      → scan mapping copying (s ++ t) ≡ prefixed mapping s (scan mapping copying t)
  unfolding scan scan_char
  scan-literal [] t h = sym (prefixed-nil (scan mapping copying t))
  scan-literal (c ∷ s) t h =
      ground (arith, scan-literal s t, prefixed-prefixed (c ∷ []) s (scan mapping copying t))

  -- The rest of a name is collected.
  scan-named :
      (name s t : Text)
      → all is_name_char s ≡ true
      → scan mapping (named name) (s ++ t) ≡ scan mapping (named (name ++ s)) t
  unfolding scan scan_char
  scan-named name [] t h = ap (λ n. scan mapping (named n) t) (sym (append-nil name))
  scan-named name (c ∷ s) t h =
      let ih = scan-named (name ++ c ∷ []) s t (ground arith) in
      ground (
        arith,
        ih,
        append_assoc name (c ∷ []) s,
        prefixed-nil (scan mapping (named (name ++ c ∷ [])) (s ++ t)),
      )

  and_then-nil : (r : Result Text) → r ≡ and_then mapping r (ok [])
  unfolding and_then prefixed
  and_then-nil (ok v) = ap ok (sym (append-nil v))
  and_then-nil (raised e) = refl

  -- What is scanned after the character that ends a name
  continued : Result (Mode × Text) → Text → Result Text
  unfolding scan
  continued (ok (next, out)) t = prefixed mapping out (scan mapping next t)
  continued (raised e) t = raised e

  continued-end_name :
      (c : ℕ) (t : Text) (r : Result Text)
      → continued (end_name mapping c r) t
        ≡ and_then mapping r (continued (scan_char mapping copying c) t)
  unfolding continued end_name and_then scan_char
  continued-end_name c t (raised e) = refl
  continued-end_name c t (ok v) = ground (
    arith,
    prefixed-prefixed v [] (scan mapping after_dollar t),
    prefixed-prefixed v (c ∷ []) (scan mapping copying t),
    append-nil v,
  )

  scan-continued :
      (mode : Mode) (c : ℕ) (t : Text)
      → scan mapping mode (c ∷ t) ≡ continued (scan_char mapping mode c) t
  unfolding scan continued
  scan-continued mode c t = elim (Result-cases (scan_char mapping mode c)) [
    | inl ((next, out), e) ↦ rw (e, scan) refl
    | inr (error, e) ↦ rw (e, scan) refl
  ]

  scan-step :
      (mode : Mode) (c : ℕ) (t : Text) {next : Mode}
      → scan_char mapping mode c ≡ ok (next, [])
      → scan mapping mode (c ∷ t) ≡ scan mapping next t
  unfolding continued
  scan-step mode c t {next} h =
      scan-continued mode c t ∙ ap (λ r. continued r t) h ∙ prefixed-nil (scan mapping next t)

  named-end :
      (c : ℕ) (name : Text)
      → not (is_name_char c) ≡ true
      → scan_char mapping (named name) c ≡ end_name mapping c (value_of mapping name)
  unfolding scan_char
  named-end c name h = elim (Bool-cases (is_name_char c)) [
    | inl yes_char ↦ absurd (cc (rw yes_char at h))
    | inr other ↦ rw (other, scan_char) refl
  ]

  -- Where a name ends, its value is written.
  scan-end_of_name :
      (name t : Text)
      → ends_name t ≡ true
      → scan mapping (named name) t
        ≡ and_then mapping (value_of mapping name) (scan mapping copying t)
  unfolding ends_name
  scan-end_of_name name [] h = unfold scan scan_end in and_then-nil (value_of mapping name)
  scan-end_of_name name (c ∷ t) h =
      scan-continued (named name) c t
      ∙ ap (λ r. continued r t) (named-end c name h)
      ∙ continued-end_name c t (value_of mapping name)
      ∙ ap (and_then mapping (value_of mapping name)) (sym (scan-continued copying c t))

  after_dollar-letter :
      (c : ℕ) → is_letter c ≡ true → scan_char mapping after_dollar c ≡ ok (named (c ∷ []), [])
  unfolding scan_char is_letter nat_eq
  after_dollar-letter c h = ground arith

  scan-bare :
      (c : ℕ) (s t : Text)
      → is_name c s ≡ true
      → ends_name t ≡ true
      → scan mapping copying (b'$' ∷ c ∷ (s ++ t))
        ≡ and_then mapping (value_of mapping (c ∷ s)) (scan mapping copying t)
  scan-bare c s t h e =
      scan-step copying b'$' (c ∷ (s ++ t)) {next = after_dollar} (unfold scan_char nat_eq in refl)
      ∙ scan-step after_dollar c (s ++ t) (after_dollar-letter c (unfold is_name in ground arith))
      ∙ scan-named (c ∷ []) s t (unfold is_name in ground arith)
      ∙ scan-end_of_name (c ∷ s) t e

  -- In braces, too, the rest of a name is collected.
  scan-braced :
      (d : ℕ) (name s t : Text)
      → all is_name_char s ≡ true
      → scan mapping (braced (d ∷ name)) (s ++ t) ≡ scan mapping (braced (d ∷ name ++ s)) t
  unfolding scan scan_char
  scan-braced d name [] t h = ap (λ n. scan mapping (braced (d ∷ n)) t) (sym (append-nil name))
  scan-braced d name (c ∷ s) t h =
      let ih = scan-braced d (name ++ c ∷ []) s t (ground arith) in
      ground (
        arith,
        ih,
        append_assoc name (c ∷ []) s,
        prefixed-nil (scan mapping (braced (d ∷ name ++ c ∷ [])) (s ++ t)),
      )

  continued-close_brace :
      (t : Text) (r : Result Text)
      → continued (close_brace mapping r) t ≡ and_then mapping r (scan mapping copying t)
  unfolding continued close_brace and_then
  continued-close_brace t (ok v) = refl
  continued-close_brace t (raised e) = refl

  scan-closed :
      (d : ℕ) (name t : Text)
      → scan mapping (braced (d ∷ name)) (b'}' ∷ t)
        ≡ and_then mapping (value_of mapping (d ∷ name)) (scan mapping copying t)
  scan-closed d name t =
      let closing : scan_char mapping (braced (d ∷ name)) b'}'
          ≡ close_brace mapping (value_of mapping (d ∷ name)) =
        unfold scan_char is_name_char is_letter nat_eq in refl in
      scan-continued (braced (d ∷ name)) b'}' t
      ∙ ap (λ r. continued r t) closing
      ∙ continued-close_brace t (value_of mapping (d ∷ name))

  scan-in_braces :
      (c : ℕ) (s t : Text)
      → is_name c s ≡ true
      → scan mapping copying (b'$' ∷ b'{' ∷ c ∷ (s ++ b'}' ∷ t))
        ≡ and_then mapping (value_of mapping (c ∷ s)) (scan mapping copying t)
  scan-in_braces c s t h =
      scan-step copying b'$' _ {next = after_dollar} (unfold scan_char nat_eq in refl)
      ∙ scan-step after_dollar b'{' _ {next = braced []} (unfold scan_char nat_eq in refl)
      ∙ scan-step (braced []) c (s ++ b'}' ∷ t) {next = braced (c ∷ [])}
          (unfold scan_char is_name in ground arith)
      ∙ scan-braced c [] s (b'}' ∷ t) (unfold is_name in ground arith)
      ∙ scan-closed c s t

  scan-dollar :
      (t : Text)
      → scan mapping copying (b'$' ∷ b'$' ∷ t)
        ≡ prefixed mapping (b'$' ∷ []) (scan mapping copying t)
  unfolding continued
  scan-dollar t =
      scan-step copying b'$' (b'$' ∷ t) {next = after_dollar} (unfold scan_char nat_eq in refl)
      ∙ scan-continued after_dollar b'$' t
      ∙ unfold scan_char nat_eq in refl

  -- A template that is made of such pieces is filled piece by piece.
  pub substitute-printed :
      (ps : List Piece) → ArePieces ps → substitute mapping (printed ps) ≡ filled mapping ps
  unfolding substitute printed filled scan
  substitute-printed [] h = unfold scan_end in refl
  substitute-printed (literal s ∷ ps) (h, hs) =
      scan-literal s (printed ps) h ∙ ap (prefixed mapping s) (substitute-printed ps hs)
  substitute-printed (dollar ∷ ps) hs =
      scan-dollar (printed ps) ∙ ap (prefixed mapping (b'$' ∷ [])) (substitute-printed ps hs)
  substitute-printed (bare c s ∷ ps) (h, e, hs) =
      scan-bare c s (printed ps) h e
      ∙ ap (and_then mapping (value_of mapping (c ∷ s))) (substitute-printed ps hs)
  substitute-printed (in_braces c s ∷ ps) (h, hs) =
      scan-in_braces c s (printed ps) h
      ∙ ap (and_then mapping (value_of mapping (c ∷ s))) (substitute-printed ps hs)
