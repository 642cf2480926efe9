-- ===== src/Prelude/Text.antt =====
-- Rust's `str`, as the list of its UTF-8 bytes, with the methods that the program calls. The delimiters are ASCII, so
-- a search over bytes and one over characters find the same places.
pub mod Numbers
pub mod Cuts
use Prim.Native.Char.{code}
use Prim.Native.Nat.{ℕ, zero, suc, ◌+◌, ◌-◌, ◌*◌, ◌/◌, ◌%◌, ◌^◌}
use Prim.Native.String.{String}
use mathlib.Core.Bool.{Bool, true, false, ◌&&◌, ◌||◌, not}
use mathlib.Core.List.{List, [], ◌∷◌, ◌++◌}
use mathlib.Core.Option.{Option, none, some}
use mjx_acp_agent.Prelude.Tests.{ltb, nat_beq, if◌then◌else◌}
use mathlib.Core.Path.{◌≡◌, refl}

abbrev pub Text : Type 0
Text = List ℕ

-- An ASCII literal.
abbrev pub str : String → Text
str String.[] = []
str (String.◌∷◌ c s) = code c ∷ str s

abbrev pub text_beq : Text → Text → Bool
text_beq [] [] = true
text_beq (a ∷ s) (b ∷ t) = nat_beq a b && text_beq s t
text_beq _ _ = false

-- `between a b c` is Rust's pattern `a..=b` on `c`.
abbrev pub between : ℕ → ℕ → ℕ → Bool
between a b c = not (ltb c a) && not (ltb b c)

abbrev pub is_ascii_lowercase : ℕ → Bool
is_ascii_lowercase = between b'a' b'z'

abbrev pub is_ascii_uppercase : ℕ → Bool
is_ascii_uppercase = between b'A' b'Z'

abbrev pub is_ascii_alphabetic : ℕ → Bool
is_ascii_alphabetic c = is_ascii_lowercase c || is_ascii_uppercase c

abbrev pub to_ascii_uppercase : ℕ → ℕ
to_ascii_uppercase c = if is_ascii_lowercase c then c - 32 else c

abbrev pub is_empty : Text → Bool
is_empty [] = true
is_empty (c ∷ s) = false

unfoldable pub contains : ℕ → Text → Bool
contains c [] = false
contains c (x ∷ s) = nat_beq x c || contains c s

unfoldable pub replace : ℕ → ℕ → Text → Text
replace a b [] = []
replace a b (x ∷ s) = (if nat_beq x a then b else x) ∷ replace a b s

abbrev pub strip_prefix : Text → Text → Option Text
strip_prefix [] s = some s
strip_prefix (p ∷ ps) [] = none
strip_prefix (p ∷ ps) (c ∷ s) = if nat_beq c p then strip_prefix ps s else none

abbrev pub starts_with : Text → Text → Bool
starts_with p s = elim (strip_prefix p s) [ some rest ↦ true | none ↦ false ]

-- `s.contains(p)` for a text `p`.
unfoldable pub contains_str : Text → Text → Bool
contains_str p [] = starts_with p []
contains_str p (c ∷ s) = starts_with p (c ∷ s) || contains_str p s

unfoldable pub ends_with : ℕ → Text → Bool
ends_with c [] = false
ends_with c (x ∷ []) = nat_beq x c
ends_with c (x ∷ y ∷ s) = ends_with c (y ∷ s)

unfoldable pub strip_suffix : ℕ → Text → Option Text
strip_suffix c [] = none
strip_suffix c (x ∷ []) = if nat_beq x c then some [] else none
strip_suffix c (x ∷ y ∷ s) = elim (strip_suffix c (y ∷ s)) [
  | some rest ↦ some (x ∷ rest)
  | none ↦ none
]

-- Cut at the first `c`.
unfoldable pub split_once : ℕ → Text → Option (Text × Text)
split_once c [] = none
split_once c (x ∷ s) =
    let rest = split_once c s in
    if nat_beq x c
    then some ([], s)
    else elim rest [ some cut ↦ some (x ∷ cut.0, cut.1) | none ↦ none ]

-- Cut at the last `c`.
unfoldable pub rsplit_once : ℕ → Text → Option (Text × Text)
rsplit_once c [] = none
rsplit_once c (x ∷ s) = elim (rsplit_once c s) [
  | some cut ↦ some (x ∷ cut.0, cut.1)
  | none ↦ if nat_beq x c then some ([], s) else none
]

unfoldable pub trim_start_matches : ℕ → Text → Text
trim_start_matches c [] = []
trim_start_matches c (x ∷ s) =
    let rest = trim_start_matches c s in if nat_beq x c then rest else x ∷ s

-- The digits of a `u32` in front of which `n` was read: one digit at least, nothing else, and no overflow of the
-- multiplication or the addition.
unfoldable pub scan : Text → ℕ → Option ℕ
scan [] n = some n
scan (c ∷ s) n =
    let rest = scan s (n * 10 + (c - b'0')) in
    if between b'0' b'9' c && ltb (n * 10 + (c - b'0')) (2 ^ 32) then rest else none

unfoldable pub digits : Text → Option ℕ
digits [] = none
digits (c ∷ s) = scan (c ∷ s) 0

-- `str::parse::<u32>`, which takes a sign `+`.
unfoldable pub parse_u32 : Text → Option ℕ
parse_u32 [] = none
parse_u32 (c ∷ s) = if nat_beq c b'+' then digits s else digits (c ∷ s)

-- `u32::to_string`, on fuel for one round more than there are digits.
unfoldable pub show_digits : ℕ → ℕ → Text
show_digits zero n = []
show_digits (suc fuel) n =
    let front = show_digits fuel (n / 10) in
    if ltb n 10 then (b'0' + n) ∷ [] else front ++ (b'0' + n % 10) ∷ []

unfoldable pub show_u32 : ℕ → Text
show_u32 n = show_digits (suc n) n

-- What may follow the first byte of a character: how many bytes, and the bounds of the first of them.
abbrev pub lead : ℕ → Option (ℕ × ℕ × ℕ)
lead c =
    if ltb c 128
    then some (0, 128, 191)
    else if between 194 223 c
    then some (1, 128, 191)
    else if nat_beq c 224
    then some (2, 160, 191)
    else if nat_beq c 237
    then some (2, 128, 159)
    else if between 225 239 c
    then some (2, 128, 191)
    else if nat_beq c 240
    then some (3, 144, 191)
    else if between 241 243 c
    then some (3, 128, 191)
    else if nat_beq c 244
    then some (3, 128, 143)
    else none

utf8_from : ℕ × ℕ × ℕ → Text → Bool
utf8_from (zero, lo, hi) [] = true
utf8_from (suc n, lo, hi) [] = false
utf8_from (zero, lo, hi) (c ∷ s) = elim (lead c) [ some next ↦ utf8_from next s | none ↦ false ]
utf8_from (suc n, lo, hi) (c ∷ s) = between lo hi c && utf8_from (n, 128, 191) s

-- `String::from_utf8` accepts exactly these bytes.
unfoldable pub is_utf8 : Text → Bool
unfolding utf8_from
is_utf8 = utf8_from (0, 128, 191)

is_utf8_e_acute : is_utf8 (195 ∷ 169 ∷ 33 ∷ []) ≡ true
unfolding is_utf8
is_utf8_e_acute = refl

parse_u32_max :
    (parse_u32 (str "4294967295") ≡ some 4294967295) × (parse_u32 (str "4294967296") ≡ none)
unfolding parse_u32 digits scan
parse_u32_max = (refl, refl)
