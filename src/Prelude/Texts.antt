-- ===== src/Prelude/Texts.antt =====
-- Texts as Python's `str` methods handle them: prefixes, slices and white space.
use Prim.Native.Nat.{ℕ, ◌-◌}
use Prim.Native.Char.{Char, code}
use Prim.Native.String.{String, ◌++◌, slice, len}
use Prim.Native.String.append
use text.Mathlib.Text.{starts_with}
use text.Mathlib.TextPositions.{starts_with-append, slice-append_right, len-append}
use mathlib.Core.Path.{◌≡◌, refl}
use mathlib.Core.Bool.{Bool, true, false, ◌&&◌, ◌||◌}
use native.Mathlib.Omega.{arith}
use human_data.Prelude.Tests.{if◌then◌else◌, ◌==◌, leb}

-- `s[:n]`
abbrev pub take_text : ℕ → String → String
take_text n String.[] = ""
take_text n (String.◌∷◌ c s) =
    let rest = take_text (n - 1) s in if n == 0 then "" else String.◌∷◌ c rest

-- `s.removeprefix(prefix)`
unfoldable pub remove_prefix : String → String → String
remove_prefix prefix s = if starts_with s prefix then slice s (len prefix) (len s) else s

-- `c.isspace()`, by the number of the character
abbrev pub is_space : Char → Bool
is_space c =
    let n = code c in
    (leb 9 n && leb n 13)
    || (leb 28 n && leb n 32)
    || n == 133
    || n == 160
    || n == 5760
    || (leb 8192 n && leb n 8202)
    || n == 8232
    || n == 8233
    || n == 8239
    || n == 8287
    || n == 12288

unfoldable pub strip_left : String → String
strip_left String.[] = ""
strip_left (String.◌∷◌ c s) = let rest = strip_left s in if is_space c then rest else String.◌∷◌ c s

abbrev strip_last : Char → String → String
strip_last c String.[] = if is_space c then "" else String.◌∷◌ c ""
strip_last c (String.◌∷◌ d s) = String.◌∷◌ c (String.◌∷◌ d s)

unfoldable pub strip_right : String → String
strip_right String.[] = ""
strip_right (String.◌∷◌ c s) = strip_last c (strip_right s)

-- `s.strip()`
unfoldable pub strip : String → String
unfolding strip_left strip_right
strip s = strip_right (strip_left s)

-- a letter, a digit, `-` or `_`: the alphabet of `secrets.token_urlsafe`
abbrev pub is_urlsafe : Char → Bool
is_urlsafe c =
    let n = code c in
    (leb 65 n && leb n 90)
    || (leb 97 n && leb n 122)
    || (leb 48 n && leb n 57)
    || n == 45
    || n == 95

abbrev pub all_urlsafe : String → Bool
all_urlsafe String.[] = true
all_urlsafe (String.◌∷◌ c s) = is_urlsafe c && all_urlsafe s

both_true : (a b : Bool) → (a && b) ≡ true → (a ≡ true) × (b ≡ true)
both_true true b h = (refl, h)
both_true false b h = cc

pub all_urlsafe-append :
    (s t : String) → all_urlsafe s ≡ true → all_urlsafe t ≡ true → all_urlsafe (s ++ t) ≡ true
all_urlsafe-append String.[] t h k = rw (append.nil t, k)
all_urlsafe-append (String.◌∷◌ c s) t h k =
    let parts = both_true (is_urlsafe c) (all_urlsafe s) h in
    rw (append.cons c s t, parts.0, all_urlsafe-append s t parts.1 k)

urlsafe_not_space : (c : Char) → is_urlsafe c ≡ true → is_space c ≡ false
urlsafe_not_space c h = ground arith

strip_last-keep : (c : Char) (s : String) → is_space c ≡ false → strip_last c s ≡ String.◌∷◌ c s
strip_last-keep c String.[] h = rw h
strip_last-keep c (String.◌∷◌ d s) h = refl

strip_right-urlsafe : (s : String) → all_urlsafe s ≡ true → strip_right s ≡ s
unfolding strip_right
strip_right-urlsafe String.[] h = refl
strip_right-urlsafe (String.◌∷◌ c s) h =
    let parts = both_true (is_urlsafe c) (all_urlsafe s) h in
    rw (strip_right-urlsafe s parts.1, strip_last-keep c s (urlsafe_not_space c parts.0))

pub strip-urlsafe : (s : String) → all_urlsafe s ≡ true → strip s ≡ s
unfolding strip strip_left
strip-urlsafe String.[] h = refl
strip-urlsafe (String.◌∷◌ c s) h =
    let head = both_true (is_urlsafe c) (all_urlsafe s) h in
    rw (urlsafe_not_space c head.0, strip_right-urlsafe (String.◌∷◌ c s) h)

pub remove_prefix-append : (p s : String) → remove_prefix p (p ++ s) ≡ s
unfolding remove_prefix
remove_prefix-append p s = rw (starts_with-append p s, len-append p s, slice-append_right p s)
