-- ===== src/Prelude/Texts.antt =====
-- Python's text operations that the services use, on the native texts: a text is a list of characters.
use Prim.Native.Nat.{ℕ, zero, suc}
use Prim.Native.Char.{code}
use Prim.Native.String.{String, count, ◌++◌ as append}
use mathlib.Core.Bool.{Bool, true, false, not, ◌&&◌}
use mathlib.Core.Logic.{inl, inr}
use native.Mathlib.Omega.{arith}
use mathlib.Core.Path.{◌≡◌, refl, ap}
use mathlib.Core.Option.{Option, none, some}
use text.Mathlib.Text.{◌==◌ as str_eq}
use agent_v.Prelude.Tests.{Bool-cases, ◌==◌, if◌then◌else◌}

-- `len(text)`
abbrev pub str_len : String → ℕ
str_len = count

-- `text[:n]`
unfoldable pub str_take : ℕ → String → String
str_take zero s = String.[]
str_take (suc n) String.[] = String.[]
str_take (suc n) (String.◌∷◌ c s) = String.◌∷◌ c (str_take n s)

-- `text.count("\n")`
unfoldable pub newlines : String → ℕ
newlines String.[] = 0
newlines (String.◌∷◌ c s) = let rest = newlines s in if code c == 10 then suc rest else rest

-- `text.endswith("\n")`
unfoldable pub ends_with_newline : String → Bool
ends_with_newline String.[] = false
ends_with_newline (String.◌∷◌ c String.[]) = code c == 10
ends_with_newline (String.◌∷◌ c (String.◌∷◌ d s)) = ends_with_newline (String.◌∷◌ d s)

-- The newlines that reading a file as text translates: "\r\n" and "\r" become "\n". The first argument
-- says whether the character before was a "\r".
translate : Bool → String → String
translate after_return String.[] = String.[]
translate after_return (String.◌∷◌ c s) =
    let rest = translate (code c == 13) s in
    if code c == 13
    then append "\n" rest
    else if after_return && code c == 10
    then rest
    else String.◌∷◌ c rest

unfoldable pub universal_newlines : String → String
unfolding translate
universal_newlines text = translate false text

-- `"\r" in text`
unfoldable pub has_return : String → Bool
has_return String.[] = false
has_return (String.◌∷◌ c s) = let rest = has_return s in if code c == 13 then true else rest

translate-none : (text : String) → has_return text ≡ false → translate false text ≡ text
unfolding translate has_return
translate-none String.[] h = refl
translate-none (String.◌∷◌ c s) h = elim (Bool-cases (code c == 13)) [
  | inl return ↦ ground (arith, rw return at h)
  | inr other ↦ rw other (ap (λ (t : String). String.◌∷◌ c t) (translate-none s (rw other at h)))
]

-- A text without "\r" is read as it is.
pub universal_newlines-none :
    (text : String) → has_return text ≡ false → universal_newlines text ≡ text
unfolding universal_newlines
universal_newlines-none text h = translate-none text h

-- `bool(text)` for a text that may be None
abbrev pub text_given : Option String → Bool
text_given none = false
text_given (some s) = not (str_eq s "")
