-- ===== src/Monitor/Latest.antt =====
-- Which entries the log shows.
use mathlib.Core.List.{append_assoc, append-nil}
use mo_ip_checker.Base.{
  ℕ, zero, suc, ◌+◌, ◌-◌, ◌≤◌, ◌≡◌, refl, sym, ◌∙◌, ap, List, [], ◌∷◌, ◌++◌, arith, length,
  length-append, length-drop, drop, leb, if◌then◌else◌, Bool-cases, inl, inr,
}
use mo_ip_checker.Base.Int.{pos}
use mo_ip_checker.Monitor.Logs.{
  Entry, max_log_entries, emit, emit_all, get_recent_logs, LogRecord, warning, handle, handle_all,
}

module _ {ℓ} {A : Type ℓ} where
  -- The latest `n` of a list
  abbrev pub latest_of : ℕ → List A → List A
  latest_of n xs = drop (length xs - n) xs

  drop-empty : (n : ℕ) → drop {A = A} n [] ≡ []
  drop-empty zero = refl
  drop-empty (suc n) = refl

  drop-drop : (m n : ℕ) (xs : List A) → drop m (drop n xs) ≡ drop (n + m) xs
  drop-drop m zero xs = ap (λ k. drop k xs) (omega arith)
  drop-drop m (suc n) [] = drop-empty m ∙ sym (drop-empty (suc n + m))
  drop-drop m (suc n) (x ∷ xs) =
      let e : suc (n + m) ≡ suc n + m = omega arith in
      drop-drop m n xs ∙ ap (λ k. drop k (x ∷ xs)) e

  drop-short : (n : ℕ) (xs ys : List A) → n ≤ length xs → drop n xs ++ ys ≡ drop n (xs ++ ys)
  drop-short zero xs ys h = refl
  drop-short (suc n) [] ys h = absurd (omega arith)
  drop-short (suc n) (x ∷ xs) ys h = drop-short n xs ys (omega arith)

  -- Cutting to the latest `n` after each entry is cutting once.
  latest_of-append :
      (n : ℕ) (xs ys : List A) → latest_of n (latest_of n xs ++ ys) ≡ latest_of n (xs ++ ys)
  latest_of-append n xs ys =
      ap (latest_of n) (drop-short (length xs - n) xs ys (omega arith))
      ∙ drop-drop _ (length xs - n) (xs ++ ys)
      ∙ ap (λ k. drop k (xs ++ ys))
          (omega (arith, length-drop (length xs - n) (xs ++ ys), length-append xs ys))

  latest_of-latest_of :
      (m n : ℕ) (xs : List A)
      → latest_of m (latest_of n xs) ≡ latest_of (if leb m n then m else n) xs
  latest_of-latest_of m n xs =
      drop-drop _ (length xs - n) xs
      ∙ ap (λ k. drop k xs) (ground (arith, length-drop (length xs - n) xs))

emit_all-latest_of :
    (entries seen : List Entry)
    → emit_all entries (latest_of max_log_entries seen)
      ≡ latest_of max_log_entries (seen ++ entries)
unfolding emit_all emit
emit_all-latest_of [] seen = ap (latest_of max_log_entries) (sym (append-nil seen))
emit_all-latest_of (e ∷ entries) seen =
    ap (emit_all entries) (latest_of-append max_log_entries seen (e ∷ []))
    ∙ emit_all-latest_of entries (seen ++ e ∷ [])
    ∙ ap (latest_of max_log_entries) (append_assoc seen (e ∷ []) entries)

-- How many entries a limit that is not negative shows at most
abbrev pub shown : ℕ → ℕ
shown zero = 500
shown (suc n) = if leb (suc n) 500 then suc n else 500

-- After any entries were logged to an empty buffer, `get_recent_logs` gives the latest of them in
-- their order: as many as the limit says, if this is from 1 to 500, and 500 for a larger limit and
-- for the limit 0; all of them if there are fewer.
pub get_recent_logs-emit_all :
    (limit : ℕ) (entries : List Entry)
    → get_recent_logs (pos limit) (emit_all entries []) ≡ latest_of (shown limit) entries
unfolding get_recent_logs
get_recent_logs-emit_all zero entries = emit_all-latest_of entries []
get_recent_logs-emit_all (suc n) entries =
    ap (latest_of (suc n)) (emit_all-latest_of entries []) ∙ latest_of-latest_of (suc n) 500 entries

-- The entries of the records from the level of a warning on
unfoldable pub serious : List LogRecord → List Entry
serious [] = []
serious (r ∷ records) =
    let rest = serious records in if leb warning r.levelno then r.entry ∷ rest else rest

handle_all-serious :
    (records : List LogRecord) (buffer : List Entry)
    → handle_all records buffer ≡ emit_all (serious records) buffer
unfolding handle_all handle serious emit_all
handle_all-serious [] buffer = refl
handle_all-serious (r ∷ records) buffer = elim (Bool-cases (leb warning r.levelno)) [
  | inl high ↦ rw high (handle_all-serious records (emit r.entry buffer))
  | inr low ↦ rw low (handle_all-serious records buffer)
]

-- The same for records of any level, of which only those from a warning on come to the buffer.
pub get_recent_logs-handle_all :
    (limit : ℕ) (records : List LogRecord)
    → get_recent_logs (pos limit) (handle_all records [])
      ≡ latest_of (shown limit) (serious records)
get_recent_logs-handle_all limit records =
    ap (get_recent_logs (pos limit)) (handle_all-serious records [])
    ∙ get_recent_logs-emit_all limit (serious records)
