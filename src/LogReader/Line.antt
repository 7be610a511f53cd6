-- ===== src/LogReader/Line.antt =====
-- `_parse_line`, its patterns, and `_derive_source_id`.
pub mod Cases
pub mod Format
pub mod Sample
use mo_ip_checker.Base.{
  ℕ, zero, suc, ◌*◌, String, Bool, true, false, not, ◌&&◌, Option, none, some, List, [], ◌∷◌, ◌++◌,
  Text, codes, ltb, ◌==◌, nat_eq, text_eq, if◌then◌else◌, length,
}
use mo_ip_checker.Base.Int.{ℤ, pos, negsuc}
use mo_ip_checker.Base.Decimal.{value_from}
use mo_ip_checker.Base.Texts.{split_on, join}
use mo_ip_checker.Base.Exec.{Exec, Result, ok, raised, value_error, lift, ◌>>=◌}
use mo_ip_checker.Json.{Json, str}
use mo_ip_checker.Pattern.Engine.{
  Unicode, Class, space, digit, word, hex, Item, one, plus, opt, open_group, close_group, Captures,
  literals, digit_value, search_from,
}
use mo_ip_checker.DbWriter.Queue.{enqueue_event}
use mo_ip_checker.LogReader.State.{Reader, unknown}

-- `(-?\d+)`
abbrev pub signed_group : List Item → List Item
signed_group items = open_group ∷ opt (Class.literal b'-') ∷ plus digit ∷ close_group ∷ items

-- `[0-9a-f]{6}`
abbrev pub six_hex : List Item → List Item
six_hex items = one hex ∷ one hex ∷ one hex ∷ one hex ∷ one hex ∷ one hex ∷ items

pub pattern_a : List Item
pattern_a = literals (codes "master offset") (
    plus space
    ∷ signed_group (
        plus space
        ∷ literals (codes "s") (
            open_group
            ∷ one digit
            ∷ close_group
            ∷ plus space
            ∷ literals (codes "freq") (
                plus space
                ∷ signed_group (
                    plus space
                    ∷ literals (codes "path delay")
                        (plus space ∷ open_group ∷ plus digit ∷ close_group ∷ []))))))

pub pattern_b : List Item
pattern_b =
    literals (codes "selected best master clock")
      (plus space ∷ open_group ∷ six_hex (literals (codes ".fffe.") (six_hex (close_group ∷ []))))

-- The branch of the third pattern changes nothing.
pub pattern_c : List Item
pattern_c = literals (codes "port ") (
    plus digit
    ∷ literals (codes ": ") (
        open_group
        ∷ plus word
        ∷ close_group
        ∷ literals (codes " to ")
            (open_group ∷ plus word ∷ close_group ∷ literals (codes " on") [])))

-- `match.group(k + 1)`
abbrev pub group_at : ℕ → List Text → Text
group_at k [] = []
group_at zero (g ∷ groups) = g
group_at (suc k) (g ∷ groups) = group_at k groups

abbrev pub negated : ℕ → ℤ
negated zero = pos 0
negated (suc n) = negsuc n

-- The most digits that `int` takes from a text (`sys.int_info.default_max_str_digits`).
abbrev pub max_str_digits : ℕ
max_str_digits = 4300

module _ (u : Unicode) where
  unsigned : Text → Result ℕ
  unsigned [] = raised value_error
  unsigned (c ∷ s) =
      if ltb max_str_digits (length (c ∷ s))
      then raised value_error
      else elim (value_from (digit_value u) 0 (c ∷ s)) [ none ↦ raised value_error | some n ↦ ok n ]

  signed : (ℕ → ℤ) → Result ℕ → Result ℤ
  signed sign (ok n) = ok (sign n)
  signed sign (raised e) = raised e

  -- `int(text)` of a text as the groups have it: digits, with a minus sign or none in front
  unfoldable pub int_of : Text → Result ℤ
  unfolding unsigned signed nat_eq
  int_of [] = raised value_error
  int_of (c ∷ s) = if c == b'-' then signed negated (unsigned s) else signed pos (unsigned (c ∷ s))

-- `text[i : i + 2] for i in range(0, len(text), 2)`
unfoldable pub pairs : Text → List Text
pairs [] = []
pairs (a ∷ []) = (a ∷ []) ∷ []
pairs (a ∷ b ∷ s) = (a ∷ b ∷ []) ∷ pairs s

source_id_of : List Text → Text
source_id_of (first ∷ middle ∷ last ∷ []) = join (codes ":") (pairs (first ++ last))
source_id_of _ = unknown

unfoldable pub derive_source_id : Text → Text
unfolding source_id_of split_on pairs join nat_eq
derive_source_id gm_id = source_id_of (split_on b'.' gm_id)

module _ {Number : Type 0} (u : Unicode) (mono : Number) (now : Text) where
  -- A match of the first pattern: both numbers are read before the state changes.
  unfoldable pub take_sample : List Text → Exec (Reader Number) (Unit {0})
  take_sample groups = do
    offset_ns ← lift (int_of u (group_at 0 groups))
    sync_state ← lift (int_of u (group_at 1 groups))
    λ r. (
      ok tt,
      record r {
        sync_state = sync_state;
        second_samples = r.second_samples ++ offset_ns ∷ [];
        offset_current_ns = offset_ns;
        last_sync_seen_at = some mono;
      },
    )

  -- A match of the second: a change of the grandmaster is an event, its first appearance is not.
  unfoldable pub take_gm_id : Text → Reader Number → Reader Number
  take_gm_id new_gm_id r = record r {
    gm_id = new_gm_id;
    source_id = derive_source_id new_gm_id;
    queue =
        if not (new_gm_id == r.gm_id) && not (r.gm_id == unknown)
        then enqueue_event now "GM_ID_CHANGED"
            (("previous_gm_id", str r.gm_id) ∷ ("new_gm_id", str new_gm_id) ∷ []) r.queue
        else r.queue;
  }

  unfoldable pub parse_line : Text → Exec (Reader Number) (Unit {0})
  parse_line line r = elim (search_from u pattern_a line) [
    | some caps ↦ take_sample caps.groups r
    | none ↦ elim (search_from u pattern_b line) [
      | some caps ↦ (ok tt, take_gm_id (group_at 0 caps.groups) r)
      | none ↦ (ok tt, r)
    ]
  ]
