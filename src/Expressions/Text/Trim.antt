-- ===== src/Expressions/Text/Trim.antt =====
-- Texts that `trim` leaves alone.
use Prim.Native.Char.{Char}
use mathlib.Core.List.{append-nil}
use exec_loom.Base.{false, [], ◌∷◌, ◌++◌, ◌≡◌, refl, ap, arith}
use exec_loom.Expressions.Text.{Text, is_empty, is_space, any_space, trim_start, trim_end, trim}

pub any_space-cons :
    (c : Char) (s : Text) → any_space (c ∷ s) ≡ false → (is_space c ≡ false) × (any_space s ≡ false)
unfolding any_space
any_space-cons c s h = ground arith

pub trim_end-any_space : (s : Text) → any_space s ≡ false → trim_end s ≡ s
unfolding trim_end
trim_end-any_space [] h = refl
trim_end-any_space (c ∷ s) h =
    let (solid, rest) = any_space-cons c s h in
    rw solid (ap (λ t. c ∷ t) (trim_end-any_space s rest))

is_empty-append : (s t : Text) → is_empty t ≡ false → is_empty (s ++ t) ≡ false
is_empty-append [] t h = h
is_empty-append (c ∷ s) t h = refl

pub trim_end-append_right :
    (s t : Text) → is_empty t ≡ false → trim_end t ≡ t → trim_end (s ++ t) ≡ s ++ t
unfolding trim_end
trim_end-append_right [] t h e = e
trim_end-append_right (c ∷ s) t h e =
    let rest = trim_end-append_right s t h e in ground (arith, is_empty-append s t h)

-- The end of a text decides.
pub trim_end-append : (s t : Text) → trim_end s ≡ s → trim_end t ≡ t → trim_end (s ++ t) ≡ s ++ t
trim_end-append s [] h e = rw append-nil h
trim_end-append s (c ∷ t) h e = trim_end-append_right s (c ∷ t) refl e

pub trim-cons :
    (c : Char) (s : Text) → is_space c ≡ false → trim_end (c ∷ s) ≡ c ∷ s → trim (c ∷ s) ≡ c ∷ s
unfolding trim trim_start
trim-cons c s solid e = rw solid e

pub trim-any_space : (s : Text) → any_space s ≡ false → trim s ≡ s
unfolding trim trim_start trim_end
trim-any_space [] h = refl
trim-any_space (c ∷ s) h = trim-cons c s (any_space-cons c s h).0 (trim_end-any_space (c ∷ s) h)
