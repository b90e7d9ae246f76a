-- ===== src/Prelude/Text.antt =====
-- Texts by their characters: tests on a character's number, and Python's `strip` and `re.sub` of
-- runs, for a class of characters that the caller gives.
use Prim.Native.Nat.{ℕ, zero, suc, ◌≤◌}
use Prim.Native.Char.{Char, code}
use Prim.Native.String.{String}
use mathlib.Core.Path.{◌≡◌, refl}
use mathlib.Core.Bool.{Bool, true, false, ◌&&◌}
use native.Mathlib.Omega.{arith}
use ai_detention.Prelude.Tests.{leb, if◌then◌else◌, take_chars}

-- len(s)
abbrev pub text_length : String → ℕ
text_length String.[] = 0
text_length (String.◌∷◌ c s) = suc (text_length s)

-- Every character of a text, any character of it.
abbrev pub all_chars : (Char → Bool) → String → Bool
all_chars p String.[] = true
all_chars p (String.◌∷◌ c s) = p c && all_chars p s

abbrev pub is_empty : String → Bool
is_empty String.[] = true
is_empty (String.◌∷◌ c s) = false

-- s[n:]
abbrev pub drop_chars : ℕ → String → String
drop_chars zero s = s
drop_chars (suc n) String.[] = String.[]
drop_chars (suc n) (String.◌∷◌ c s) = drop_chars n s

-- s + t
abbrev pub append_text : String → String → String
append_text String.[] t = t
append_text (String.◌∷◌ c s) t = String.◌∷◌ c (append_text s t)

abbrev pub between : ℕ → ℕ → Char → Bool
between low high c = leb low (code c) && leb (code c) high

-- The characters that pass.
unfoldable pub filter_chars : (Char → Bool) → String → String
filter_chars p String.[] = String.[]
filter_chars p (String.◌∷◌ c s) =
    let rest = filter_chars p s in if p c then String.◌∷◌ c rest else rest

-- s.lstrip(), s.rstrip(), s.strip()
unfoldable pub lstrip : (Char → Bool) → String → String
lstrip is_space String.[] = String.[]
lstrip is_space (String.◌∷◌ c s) =
    let rest = lstrip is_space s in if is_space c then rest else String.◌∷◌ c s

unfoldable pub rstrip : (Char → Bool) → String → String
rstrip is_space String.[] = String.[]
rstrip is_space (String.◌∷◌ c s) =
    let rest = rstrip is_space s in
    if is_empty rest && is_space c then String.[] else String.◌∷◌ c rest

unfoldable pub strip : (Char → Bool) → String → String
strip is_space s = rstrip is_space (lstrip is_space s)

-- re.sub("[…]+", replacement, s); the flag says that the character before is in the run.
unfoldable pub replace_runs_from : (Char → Bool) → Char → Bool → String → String
replace_runs_from p replacement in_run String.[] = String.[]
replace_runs_from p replacement in_run (String.◌∷◌ c s) =
    let inside = replace_runs_from p replacement true s in
    let outside = replace_runs_from p replacement false s in
    if p c then (if in_run then inside else String.◌∷◌ replacement inside) else String.◌∷◌ c outside

unfoldable pub replace_runs : (Char → Bool) → Char → String → String
replace_runs p replacement s = replace_runs_from p replacement false s

pub length-take_chars : (n : ℕ) (s : String) → text_length (take_chars n s) ≤ n
length-take_chars zero s = omega arith
length-take_chars (suc n) String.[] = omega arith
length-take_chars (suc n) (String.◌∷◌ c s) = omega (arith, length-take_chars n s)

pub all-take_chars :
    (p : Char → Bool) (n : ℕ) (s : String)
    → all_chars p s ≡ true
    → all_chars p (take_chars n s) ≡ true
all-take_chars p zero s h = refl
all-take_chars p (suc n) String.[] h = refl
all-take_chars p (suc n) (String.◌∷◌ c s) h = ground (arith, all-take_chars p n s)

-- What a filter leaves passes it, and passes what the text passed.
pub all-filter_chars : (p : Char → Bool) (s : String) → all_chars p (filter_chars p s) ≡ true
unfolding filter_chars
all-filter_chars p String.[] = refl
all-filter_chars p (String.◌∷◌ c s) = ground (arith, all-filter_chars p s)

pub all-filter_keep :
    (p q : Char → Bool) (s : String) → all_chars q s ≡ true → all_chars q (filter_chars p s) ≡ true
unfolding filter_chars
all-filter_keep p q String.[] h = refl
all-filter_keep p q (String.◌∷◌ c s) h = ground (arith, all-filter_keep p q s)

-- After the runs are replaced, each character in the class is the replacement.
pub all-replace_runs :
    (p q : Char → Bool) (replacement : Char) (in_run : Bool) (s : String)
    → q replacement ≡ true
    → ((c : Char) → p c ≡ false → q c ≡ true)
    → all_chars q (replace_runs_from p replacement in_run s) ≡ true
unfolding replace_runs_from
all-replace_runs p q replacement in_run String.[] h k = refl
all-replace_runs p q replacement in_run (String.◌∷◌ c s) h k = ground (
  arith,
  all-replace_runs p q replacement true s h k,
  all-replace_runs p q replacement false s h k,
  k c,
)
