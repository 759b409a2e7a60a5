-- ===== src/Base/Texts.antt =====
-- A Python `str` as the list of its code points, with the tests and helpers that the source calls.
use Prim.Native.Nat.{ℕ, zero, suc}
use Prim.Native.Char.{code}
use Prim.Native.String.{String}
use mathlib.Core.Path.{◌≡◌, refl}
use mathlib.Core.Bool.{Bool, true, false, ◌&&◌, ◌||◌}
use mathlib.Core.List.{List, [], ◌∷◌, ◌++◌, reverse, reverse-cons}
use native.Mathlib.Omega.{arith}
use local_ai_workestra.Base.Tests.{leb, if◌then◌else◌, ◌==◌}

abbrev pub Text : Type 0
Text = List ℕ

-- A literal of the source.
abbrev pub codes : String → Text
codes String.[] = []
codes (String.◌∷◌ c s) = code c ∷ codes s

-- `s == t`
unfoldable pub text_eq : Text → Text → Bool
text_eq [] [] = true
text_eq [] (d ∷ t) = false
text_eq (c ∷ s) [] = false
text_eq (c ∷ s) (d ∷ t) = c == d && text_eq s t

pub text_eq_refl : (s : Text) → text_eq s s ≡ true
unfolding text_eq
text_eq_refl [] = refl
text_eq_refl (c ∷ s) = ground (arith, text_eq_refl s)

pub text_eq_sound : (s t : Text) → text_eq s t ≡ true → s ≡ t
unfolding text_eq
text_eq_sound [] [] h = refl
text_eq_sound [] (d ∷ t) h = cc
text_eq_sound (c ∷ s) [] h = cc
text_eq_sound (c ∷ s) (d ∷ t) h = ground (arith, text_eq_sound s t)

-- `s in xs`, for a list, a tuple or a set of texts
unfoldable pub text_in : Text → List Text → Bool
text_in s [] = false
text_in s (t ∷ ts) = text_eq s t || text_in s ts

-- `not s`
abbrev pub is_empty {ℓ} : {A : Type ℓ} → List A → Bool
is_empty [] = true
is_empty (c ∷ s) = false

-- `s.startswith(p)`
unfoldable pub starts_with : Text → Text → Bool
starts_with s [] = true
starts_with [] (d ∷ p) = false
starts_with (c ∷ s) (d ∷ p) = c == d && starts_with s p

pub text_eq_comm : (s t : Text) → text_eq s t ≡ text_eq t s
unfolding text_eq
text_eq_comm [] [] = refl
text_eq_comm [] (d ∷ t) = refl
text_eq_comm (c ∷ s) [] = refl
text_eq_comm (c ∷ s) (d ∷ t) = ground (arith, text_eq_comm s t)

pub text_in-append :
    (s : Text) (xs ys : List Text) → text_in s (xs ++ ys) ≡ (text_in s xs || text_in s ys)
unfolding text_in
text_in-append s [] ys = refl
text_in-append s (x ∷ xs) ys = ground (arith, text_in-append s xs ys)

pub text_in-cons :
    (s x : Text) (xs : List Text) → text_in s (x ∷ xs) ≡ (text_eq s x || text_in s xs)
unfolding text_in
text_in-cons s x xs = refl

pub text_in-nil : (s : Text) → text_in s [] ≡ false
unfolding text_in
text_in-nil s = refl

pub text_in-reverse : (s : Text) (xs : List Text) → text_in s (reverse xs) ≡ text_in s xs
unfolding text_in
text_in-reverse s [] = refl
text_in-reverse s (x ∷ xs) =
    rw reverse-cons (ground (arith, text_in-append s (reverse xs) (x ∷ []), text_in-reverse s xs))

-- `str.isspace` of one code point.
unfoldable pub is_space : ℕ → Bool
is_space c =
    (leb 9 c && leb c 13)
    || (leb 28 c && leb c 32)
    || c == 133
    || c == 160
    || c == 5760
    || (leb 8192 c && leb c 8202)
    || c == 8232
    || c == 8233
    || c == 8239
    || c == 8287
    || c == 12288

unfoldable pub lstrip : Text → Text
unfolding is_space
lstrip [] = []
lstrip (c ∷ s) = let rest = lstrip s in if is_space c then rest else c ∷ s

-- `str.strip`
unfoldable pub strip : Text → Text
unfolding lstrip
strip s = reverse (lstrip (reverse s))

-- `part in s`
pub contains : Text → Text → Bool
contains [] part = is_empty part
contains (c ∷ s) part =
    let rest = contains s part in if starts_with (c ∷ s) part then true else rest

-- `s[n:]`
unfoldable pub drop_chars : ℕ → Text → Text
drop_chars zero s = s
drop_chars (suc n) [] = []
drop_chars (suc n) (c ∷ s) = drop_chars n s

-- A character that ends a line for `str.splitlines`.
unfoldable pub ends_line : ℕ → Bool
ends_line c = (leb 10 c && leb c 13) || (leb 28 c && leb c 30) || c == 133 || c == 8232 || c == 8233

-- The lines of the text that is left, after `line`; `cr` is whether a carriage return ended the last one.
unfoldable pub lines_after : Bool → Text → Text → List Text
unfolding ends_line
lines_after cr line [] = if is_empty line then [] else line ∷ []
lines_after cr line (c ∷ s) =
    let skipped = lines_after false line s in
    let next = lines_after (c == 13) [] s in
    let longer = lines_after false (line ++ c ∷ []) s in
    if cr && c == 10 then skipped else if ends_line c then line ∷ next else longer

-- `s.splitlines()`
unfoldable pub split_lines : Text → List Text
unfolding lines_after
split_lines s = lines_after false [] s
