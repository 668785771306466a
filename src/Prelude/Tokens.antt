-- ===== src/Prelude/Tokens.antt =====
-- Tokens: non-empty texts of visible ASCII characters, which strings.TrimSpace leaves alone.
use Prim.Native.Nat.{ℕ, zero, suc, ◌≤◌}
use mathlib.Core.Path.{◌≡◌, refl, subst, sym}
use mathlib.Core.Logic.{◌≢◌}
use mathlib.Core.Bool.{false}
use mathlib.Core.List.{[], ◌∷◌, reverse, reverse-cons, reverse-reverse}
use native.Mathlib.Omega.{arith}
use variable_star_classifica.Prelude.Lists.{All, All-append, length}
use variable_star_classifica.Prelude.Bytes.{
  Text, trim_front, trim_space, space_width, space_width_back, contains_nul,
}

-- From ! to ~.
abbrev pub IsVisible : ℕ → Type 0
IsVisible c = (33 ≤ c) × (c ≤ 126)

pub record IsToken (s : Text) : Type 0 where
  pub not_empty : s ≢ []
  pub visible : All IsVisible s

space_width-visible : (s : Text) → All IsVisible s → space_width s ≡ 0
space_width-visible [] h = refl
space_width-visible (a ∷ []) h = ground arith
space_width-visible (a ∷ (b ∷ [])) h = ground arith
space_width-visible (a ∷ (b ∷ (c ∷ s))) h = ground arith

space_width_back-visible : (s : Text) → All IsVisible s → space_width_back s ≡ 0
space_width_back-visible [] h = refl
space_width_back-visible (a ∷ []) h = ground arith
space_width_back-visible (a ∷ (b ∷ [])) h = ground arith
space_width_back-visible (a ∷ (b ∷ (c ∷ s))) h = ground arith

trim_front-still :
    (width : Text → ℕ) (fuel : ℕ) (s : Text) → width s ≡ 0 → trim_front width fuel s ≡ s
unfolding trim_front
trim_front-still width zero s h = refl
trim_front-still width (suc fuel) s h = rw h

All-reverse : (s : Text) → All IsVisible s → All IsVisible (reverse s)
All-reverse [] h = tt
All-reverse (c ∷ s) h =
    subst (All IsVisible) (sym (reverse-cons c s))
      (All-append IsVisible (reverse s) (c ∷ []) (All-reverse s h.1) (h.0, tt))

pub trim_space-visible : (s : Text) → All IsVisible s → trim_space s ≡ s
unfolding trim_space
trim_space-visible s h = rw (
  trim_front-still space_width (length s) s (space_width-visible s h),
  trim_front-still space_width_back (length s) (reverse s)
      (space_width_back-visible (reverse s) (All-reverse s h)),
  reverse-reverse s,
)

pub contains_nul-visible : (s : Text) → All IsVisible s → contains_nul s ≡ false
contains_nul-visible [] h = refl
contains_nul-visible (c ∷ s) h = ground (arith, contains_nul-visible s)
