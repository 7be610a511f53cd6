-- ===== src/LogReader/Line/Sample.antt =====
-- `_parse_line` on the line that ptp4l prints for a measured offset.
use mo_ip_checker.Base.{
  ℕ, ◌+◌, ◌<◌, ◌≤◌, ◌≡◌, ◌≢◌, refl, ◌∙◌, some, List, [], ◌∷◌, ◌++◌, Text, codes, All, ==-ne, nat_eq,
  length,
}
use mo_ip_checker.Base.Int.{ℤ, pos}
use mo_ip_checker.Base.Decimal.{str, str_ℕ, str_ℕ-cons}
use mo_ip_checker.Base.Exec.{ok}
use mo_ip_checker.Pattern.Engine.{
  Unicode, space, digit, Item, one, plus, open_group, close_group, Captures, start, fits,
  digit_value, is_space, match_here, search_from, literals,
}
use mo_ip_checker.Pattern.Complete.{search_from-skip, search_from-hit}
use mo_ip_checker.Pattern.Runs.{Stops, took_all, match_here-literals}
use mo_ip_checker.LogReader.State.{Reader}
use mo_ip_checker.LogReader.Line.{pattern_a, signed_group, max_str_digits, take_sample, parse_line}
use mo_ip_checker.LogReader.Line.Cases.{parse_line-sample}
use mo_ip_checker.LogReader.Line.Format.{
  blanks, plus_here-blanks, signed_group-str, plus_here-digits, digits-fit, digit-fits, str_ℕ-Stops,
  str-Stops, int_of-str, int_of-digit,
}

-- What one line reports, and how many blanks pad each of its columns.
pub record Report : Type 0 where
  pub offset : ℤ
  pub servo : ℕ
  pub freq : ℤ
  pub delay : ℕ
  pub padding : ℕ
  pub freq_padding : ℕ
  pub delay_padding : ℕ

-- "master offset <offset> s<servo> freq <freq> path delay <delay>" and the rest of the line
delay_column : Report → Text → Text
delay_column p rest =
    blanks 0 ++ (codes "path delay" ++ (blanks p.delay_padding ++ (str_ℕ p.delay ++ rest)))

freq_column : Report → Text → Text
freq_column p rest =
    blanks 0 ++ (codes "freq" ++ (blanks p.freq_padding ++ (str p.freq ++ delay_column p rest)))

servo_column : Report → Text → Text
servo_column p rest = blanks 0 ++ (codes "s" ++ ((48 + p.servo) ∷ freq_column p rest))

unfoldable pub printed : Report → Text → Text
unfolding servo_column freq_column delay_column
printed p rest =
    codes "master offset" ++ (blanks p.padding ++ (str p.offset ++ servo_column p rest))

abbrev captured : Report → Captures
captured p = record {
  current = str_ℕ p.delay;
  groups = str p.offset ∷ ((48 + p.servo) ∷ []) ∷ str p.freq ∷ str_ℕ p.delay ∷ [];
}

-- The pattern from each of its columns on
delay_value : List Item
delay_value = plus space ∷ open_group ∷ plus digit ∷ close_group ∷ []

delay_items : List Item
delay_items = plus space ∷ literals (codes "path delay") delay_value

freq_value : List Item
freq_value = plus space ∷ signed_group delay_items

freq_items : List Item
freq_items = plus space ∷ literals (codes "freq") freq_value

servo_value : List Item
servo_value = open_group ∷ one digit ∷ close_group ∷ freq_items

servo_items : List Item
servo_items = plus space ∷ literals (codes "s") servo_value

module _ (u : Unicode) where
  delay_column-Stops : (p : Report) (rest : Text) → Stops u digit (delay_column p rest)
  unfolding delay_column fits digit_value
  delay_column-Stops p rest = refl

  servo_column-Stops : (p : Report) (rest : Text) → Stops u digit (servo_column p rest)
  unfolding servo_column fits digit_value
  servo_column-Stops p rest = refl

  delay_column-match :
      (p : Report) (rest : Text) (st : Captures)
      → Stops u digit rest
      → match_here u delay_items (delay_column p rest) st
        ≡ some (record { current = str_ℕ p.delay; groups = st.groups ++ str_ℕ p.delay ∷ [] })
  unfolding delay_items delay_value delay_column match_here fits is_space nat_eq
  delay_column-match p rest st stops =
      plus_here-blanks u 0 (literals (codes "path delay") delay_value) _ st refl (
        match_here-literals u (codes "path delay") delay_value _ (took_all (blanks 0) st)
        ∙ plus_here-blanks u p.delay_padding (open_group ∷ plus digit ∷ close_group ∷ [])
            (str_ℕ p.delay ++ rest) _ (str_ℕ-Stops u p.delay rest)
            (plus_here-digits u (match_here u (close_group ∷ [])) (str_ℕ p.delay) rest _
              (str_ℕ-cons p.delay) (digits-fit u p.delay) stops refl))

  freq_column-match :
      (p : Report) (rest : Text) (st : Captures)
      → Stops u digit rest
      → match_here u freq_items (freq_column p rest) st
        ≡ some (record {
          current = str_ℕ p.delay;
          groups = (st.groups ++ str p.freq ∷ []) ++ str_ℕ p.delay ∷ [];
        })
  unfolding freq_items freq_value freq_column match_here fits is_space nat_eq
  freq_column-match p rest st stops =
      plus_here-blanks u 0 (literals (codes "freq") freq_value) _ st refl (
        match_here-literals u (codes "freq") freq_value _ (took_all (blanks 0) st)
        ∙ plus_here-blanks u p.freq_padding (signed_group delay_items)
            (str p.freq ++ delay_column p rest) _ (str-Stops u p.freq _)
            (signed_group-str u p.freq delay_items (delay_column p rest)
              (took_all (blanks p.freq_padding) (took_all (codes "freq") (took_all (blanks 0) st)))
              (delay_column-Stops p rest) (delay_column-match p rest _ stops)))

  digit_step :
      (p : Report) (rest : Text) (st : Captures)
      → p.servo < 10
      → Stops u digit rest
      → match_here u servo_value ((48 + p.servo) ∷ freq_column p rest) st
        ≡ some (record {
          current = str_ℕ p.delay;
          groups =
              ((st.groups ++ ((48 + p.servo) ∷ []) ∷ []) ++ str p.freq ∷ []) ++ str_ℕ p.delay ∷ [];
        })
  unfolding servo_value match_here
  digit_step p rest st one_digit stops =
      rw (digit-fits u p.servo one_digit) (freq_column-match p rest _ stops)

  servo_column-match :
      (p : Report) (rest : Text) (st : Captures)
      → p.servo < 10
      → Stops u digit rest
      → match_here u servo_items (servo_column p rest) st
        ≡ some (record {
          current = str_ℕ p.delay;
          groups =
              ((st.groups ++ ((48 + p.servo) ∷ []) ∷ []) ++ str p.freq ∷ []) ++ str_ℕ p.delay ∷ [];
        })
  unfolding servo_items servo_value servo_column match_here fits is_space nat_eq
  servo_column-match p rest st one_digit stops =
      plus_here-blanks u 0 (literals (codes "s") servo_value) _ st refl (
        match_here-literals u (codes "s") servo_value ((48 + p.servo) ∷ freq_column p rest)
          (took_all (blanks 0) st)
        ∙ digit_step p rest (took_all (codes "s") (took_all (blanks 0) st)) one_digit stops)

  -- The line matches from its first character on, and its groups are the printed numbers.
  printed-match :
      (p : Report) (rest : Text)
      → p.servo < 10
      → Stops u digit rest
      → match_here u pattern_a (printed p rest) start ≡ some (captured p)
  unfolding pattern_a printed servo_items servo_value freq_items freq_value delay_items delay_value
  printed-match p rest one_digit stops =
      match_here-literals u (codes "master offset") (plus space ∷ signed_group servo_items) _ start
      ∙ plus_here-blanks u p.padding (signed_group servo_items)
          (str p.offset ++ servo_column p rest) _ (str-Stops u p.offset _)
          (signed_group-str u p.offset servo_items (servo_column p rest)
            (took_all (blanks p.padding) (took_all (codes "master offset") start))
            (servo_column-Stops p rest) (servo_column-match p rest _ one_digit stops))

  -- A prefix without the letter that the pattern begins with is passed over.
  search-prefix :
      (before s : Text)
      → All (λ c. c ≢ b'm') before
      → search_from u pattern_a (before ++ s) ≡ search_from u pattern_a s
  search-prefix [] s _ = refl
  search-prefix (c ∷ before) s (h, hs) =
      search_from-skip u pattern_a c (before ++ s)
        (unfold pattern_a match_here fits in rw (==-ne c b'm' h))
      ∙ search-prefix before s hs

  -- From any state, take a line with `master offset` and an offset of at most 4300 characters, `s`
  -- and a servo state of one digit, `freq` and a frequency, `path delay` and a delay that is not
  -- negative, blanks between them, and no plus sign in front of a number. Behind any prefix without
  -- the letter `m` and in front of any rest that does not begin with a digit it is one sample: the
  -- printed offset is the current one and joins the samples of the second, the servo state is the
  -- printed one, the time of the last sync is now, and nothing else changes. A frequency that is
  -- printed with a plus sign is not among these lines.
  pub parse_line-printed :
      {Number : Type 0} (mono : Number) (now : Text) (r : Reader Number) (p : Report)
      (before rest : Text)
      → All (λ c. c ≢ b'm') before
      → p.servo < 10
      → Stops u digit rest
      → length (str p.offset) ≤ max_str_digits
      → parse_line u mono now (before ++ printed p rest) r ≡ (
        ok tt,
        record r {
          sync_state = pos p.servo;
          second_samples = r.second_samples ++ p.offset ∷ [];
          offset_current_ns = p.offset;
          last_sync_seen_at = some mono;
        },
      )
  unfolding take_sample
  parse_line-printed mono now r p before rest clear one_digit stops short =
      parse_line-sample u mono now (before ++ printed p rest) r {caps = captured p} (
        search-prefix before (printed p rest) clear
        ∙ search_from-hit u pattern_a (printed p rest) {t = captured p}
            (printed-match p rest one_digit stops))
      ∙ rw (int_of-str u p.offset short, int_of-digit u p.servo one_digit, take_sample)
