-- ===== src/Prelude/Bytes.antt =====
-- Go strings and byte slices as lists of bytes, and the `strings` functions that the program calls.
use Prim.Native.Nat.{ℕ, zero, suc}
use Prim.Native.Char.{code}
use Prim.Native.String.{String}
use mathlib.Core.Path.{◌≡◌, refl}
use mathlib.Core.Logic.{◌↔◌, ◌≢◌}
use mathlib.Core.Bool.{Bool, true, false, ◌&&◌, ◌||◌}
use mathlib.Core.List.{List, [], ◌∷◌, reverse}
use native.Mathlib.Omega.{arith}
use native.Mathlib.Decide.{ℕ_discrete}
use variable_star_classifica.Prelude.Tests.{leb, ltb, ◌==◌, if◌then◌else◌}
use variable_star_classifica.Prelude.Lists.{length, drop}

abbrev pub Text : Type 0
Text = List ℕ

-- The bytes of an ASCII literal.
abbrev pub codes : String → Text
codes String.[] = []
codes (String.◌∷◌ c s) = code c ∷ codes s

abbrev pub eqb_text : Text → Text → Bool
eqb_text [] [] = true
eqb_text [] (y ∷ ys) = false
eqb_text (x ∷ xs) [] = false
eqb_text (x ∷ xs) (y ∷ ys) = x == y && eqb_text xs ys

-- s < t on Go strings: byte by byte, a proper prefix first.
abbrev pub ltb_text : Text → Text → Bool
ltb_text [] [] = false
ltb_text [] (y ∷ ys) = true
ltb_text (x ∷ xs) [] = false
ltb_text (x ∷ xs) (y ∷ ys) = if ltb x y then true else x == y && ltb_text xs ys

pub eqb_text_iff : (s t : Text) → (eqb_text s t ≡ true) ↔ (s ≡ t)
eqb_text_iff [] [] = ground arith
eqb_text_iff [] (y ∷ ys) = ground arith
eqb_text_iff (x ∷ xs) [] = ground arith
eqb_text_iff (x ∷ xs) (y ∷ ys) = ground (arith, eqb_text_iff xs ys)

pub eqb_text_no : (s t : Text) → s ≢ t → eqb_text s t ≡ false
eqb_text_no s t h = ground (arith, eqb_text_iff s t)

pub Text-discrete : Discrete Text
Text-discrete = hlevel ℕ_discrete

-- The number of bytes of the white space (`unicode.IsSpace`, in UTF-8) at the start; 0 if none.
abbrev pub space_width : Text → ℕ
space_width [] = 0
space_width (a ∷ []) = if (leb 9 a && leb a 13) || a == 32 then 1 else 0
space_width (a ∷ (b ∷ [])) =
    if (leb 9 a && leb a 13) || a == 32
    then 1
    else if a == 0xc2 && (b == 0x85 || b == 0xa0)
    then 2
    else 0
space_width (a ∷ (b ∷ (c ∷ s))) =
    if (leb 9 a && leb a 13) || a == 32
    then 1
    else if a == 0xc2 && (b == 0x85 || b == 0xa0)
    then 2
    else if (a == 0xe1 && b == 0x9a && c == 0x80)
        || (a == 0xe2
            && b == 0x80
            && ((leb 0x80 c && leb c 0x8a) || c == 0xa8 || c == 0xa9 || c == 0xaf))
        || (a == 0xe2 && b == 0x81 && c == 0x9f)
        || (a == 0xe3 && b == 0x80 && c == 0x80)
    then 3
    else 0

-- The same at the end, on the reversed text: a space's last byte stands first.
abbrev pub space_width_back : Text → ℕ
space_width_back [] = 0
space_width_back (a ∷ []) = if (leb 9 a && leb a 13) || a == 32 then 1 else 0
space_width_back (a ∷ (b ∷ [])) =
    if (leb 9 a && leb a 13) || a == 32
    then 1
    else if b == 0xc2 && (a == 0x85 || a == 0xa0)
    then 2
    else 0
space_width_back (a ∷ (b ∷ (c ∷ s))) =
    if (leb 9 a && leb a 13) || a == 32
    then 1
    else if b == 0xc2 && (a == 0x85 || a == 0xa0)
    then 2
    else if (c == 0xe1 && b == 0x9a && a == 0x80)
        || (c == 0xe2
            && b == 0x80
            && ((leb 0x80 a && leb a 0x8a) || a == 0xa8 || a == 0xa9 || a == 0xaf))
        || (c == 0xe2 && b == 0x81 && a == 0x9f)
        || (c == 0xe3 && b == 0x80 && a == 0x80)
    then 3
    else 0

-- Drops spaces from the front while there are any; the fuel is the number of bytes.
unfoldable pub trim_front : (Text → ℕ) → ℕ → Text → Text
trim_front width zero s = s
trim_front width (suc fuel) s =
    let w = width s in let rest = trim_front width fuel (drop w s) in if w == 0 then s else rest

-- strings.TrimSpace
unfoldable pub trim_space : Text → Text
unfolding trim_front
trim_space s =
    let t = trim_front space_width (length s) s in
    reverse (trim_front space_width_back (length t) (reverse t))

-- strings.ContainsRune(s, '\x00')
abbrev pub contains_nul : Text → Bool
contains_nul [] = false
contains_nul (x ∷ xs) = x == 0 || contains_nul xs

trim_space_plain : trim_space (codes "object-1") ≡ codes "object-1"
unfolding trim_space
trim_space_plain = refl

trim_space_both : trim_space (codes " \tobject 1\n ") ≡ codes "object 1"
unfolding trim_space
trim_space_both = refl

trim_space_wide : trim_space (0xc2 ∷ 0xa0 ∷ 65 ∷ 0xe3 ∷ 0x80 ∷ 0x80 ∷ []) ≡ 65 ∷ []
unfolding trim_space
trim_space_wide = refl
