-- ===== src/Validators/Sanitize.antt =====
-- What a sanitized text can hold.
use Prim.Native.Char.{Char, code}
use ai_detention.Validators.{sanitize_string}
use ai_detention.Prelude.{Bool, String, ℕ, ◌≤◌, not, ◌==◌, ◌≡◌, true, ◌||◌, false, arith}
use ai_detention.Prelude.Text.{
  text_length, all_chars, length-take_chars, all-take_chars, all-filter_chars, all-filter_keep,
  replace_runs, all-replace_runs, strip, filter_chars,
}

abbrev not_null : Char → Bool
not_null c = not (code c == 0)

abbrev blank_or_no_space : (Char → Bool) → Char → Bool
blank_or_no_space is_space c = not (is_space c) || code c == b' '

all-replace_blanks :
    (is_space : Char → Bool) (s : String)
    → all_chars (blank_or_no_space is_space) (replace_runs is_space " " s) ≡ true
unfolding replace_runs
all-replace_blanks is_space s =
    all-replace_runs is_space (blank_or_no_space is_space) " " false s (ground arith)
      (λ c h. ground arith)

-- A sanitized text has at most `max_length` characters, no null character, and no white space but
-- blanks, whatever characters count as white space.
sanitize_string_lem :
    (is_space : Char → Bool) (value : String) (max_length : ℕ)
    → let sanitized = sanitize_string is_space value max_length in
      (text_length sanitized ≤ max_length)
      × (all_chars (λ c. not (code c == 0)) sanitized ≡ true)
      × (all_chars (λ c. not (is_space c) || code c == b' ') sanitized ≡ true)
unfolding sanitize_string
sanitize_string_lem is_space value max_length =
    let collapsed = replace_runs is_space " " (strip is_space value) in
    let clean = filter_chars not_null collapsed in
    (
      length-take_chars max_length clean,
      all-take_chars not_null max_length clean (all-filter_chars not_null collapsed),
      all-take_chars (blank_or_no_space is_space) max_length clean (
          all-filter_keep not_null (blank_or_no_space is_space) collapsed
            (all-replace_blanks is_space (strip is_space value))),
    )
