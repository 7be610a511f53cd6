-- ===== src/LogReader/Line/Cases.antt =====
-- The three outcomes of `_parse_line`, by the searches that lead to them.
use mo_ip_checker.Base.{◌≡◌, none, some, Text, inl, inr, Option-cases}
use mo_ip_checker.Base.Exec.{Result, ok}
use mo_ip_checker.Pattern.Engine.{Unicode, Captures, search_from}
use mo_ip_checker.LogReader.State.{Reader}
use mo_ip_checker.LogReader.Line.{
  pattern_a, pattern_b, group_at, take_sample, take_gm_id, parse_line,
}

module _ {Number : Type 0} (u : Unicode) (mono : Number) (now text : Text) (r : Reader Number) where
  module _ {ℓ} (P : Result (Unit {0}) × Reader Number → Type ℓ) where
    pub parse_line_cases :
        ((caps : Captures)
          → search_from u pattern_a text ≡ some caps
          → P (take_sample u mono now caps.groups r))
        → ((caps : Captures)
            → search_from u pattern_a text ≡ none
            → search_from u pattern_b text ≡ some caps
            → P (ok tt, take_gm_id u mono now (group_at 0 caps.groups) r))
        → (search_from u pattern_a text ≡ none → P (ok tt, r))
        → P (parse_line u mono now text r)
    unfolding parse_line
    parse_line_cases sample gm neither = elim (Option-cases (search_from u pattern_a text)) [
      | inr (caps, hit) ↦ rw (hit, parse_line) (sample caps hit)
      | inl miss ↦ elim (Option-cases (search_from u pattern_b text)) [
        | inr (caps, hit) ↦ rw (miss, hit, parse_line) (gm caps miss hit)
        | inl miss_b ↦ rw (miss, miss_b, parse_line) (neither miss)
      ]
    ]

  pub parse_line-sample :
      {caps : Captures}
      → search_from u pattern_a text ≡ some caps
      → parse_line u mono now text r ≡ take_sample u mono now caps.groups r
  unfolding parse_line
  parse_line-sample hit = rw (hit, parse_line)
