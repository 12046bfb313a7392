-- ===== src/Device/Bus.antt =====
-- What the bus delivers to `readFrom`.
use mathlib.Core.List.{append_assoc}
use mundosvirtuales_terremot.Base.{
  ℕ, suc, ◌+◌, ◌≡◌, refl, sym, ap, ap₂, ◌∙◌, true, false, List, [], ◌∷◌, ◌++◌, none, some, arith,
  length, length-append, drop, set, if◌then◌else◌, leb, ltb,
}
use mundosvirtuales_terremot.Device.Sensing.{read_from}

-- The bytes from index `i` on, with the bytes of the bus in their place.
set_front : (xs : List ℕ) (x b : ℕ) (ys : List ℕ) → set (xs ++ x ∷ ys) (length xs) b ≡ xs ++ b ∷ ys
set_front [] x b ys = refl
set_front (y ∷ xs) x b ys = ap (◌∷◌ y) (set_front xs x b ys)

fills :
    (stored left bus : List ℕ)
    → read_from (stored ++ left) (length stored) bus ≡ (
        if leb (length bus) (length left)
        then some (stored ++ (bus ++ drop (length bus) left))
        else none)
unfolding read_from
fills stored left [] = let e : leb 0 (length left) ≡ true = ground arith in rw e refl
fills stored [] (b ∷ bus) =
    let e : ltb (length stored) (length (stored ++ [])) ≡ false =
      ground (arith, length-append stored []) in
    let short : leb (suc (length bus)) 0 ≡ false = ground arith in rw (e, short, read_from) refl
fills stored (x ∷ left) (b ∷ bus) =
    let e : ltb (length stored) (length (stored ++ x ∷ left)) ≡ true =
      ground (arith, length-append stored (x ∷ left)) in
    let fit : leb (length bus) (length left) ≡ leb (suc (length bus)) (suc (length left)) =
      ground arith in
    rw (e, read_from)
      (ap (λ l. read_from l (length stored + 1) bus)
          (set_front stored x b left ∙ sym (append_assoc stored (b ∷ []) left))
        ∙ ap (λ n. read_from ((stored ++ b ∷ []) ++ left) n bus)
            (sym (length-append stored (b ∷ [])))
        ∙ fills (stored ++ b ∷ []) left bus
        ∙ ap₂ (λ fit l. if fit then some l else none) fit
            (append_assoc stored (b ∷ []) (bus ++ drop (length bus) left)))

-- `readFrom` stores what the bus delivers at the front of the array and keeps the rest, if the array is
-- at least as long as what the bus delivers; otherwise it writes past the end of the array. The number of
-- bytes that was requested plays no part.
pub read_from_fits :
    (buff bus : List ℕ)
    → read_from buff 0 bus
      ≡ (if leb (length bus) (length buff) then some (bus ++ drop (length bus) buff) else none)
read_from_fits buff bus = fills [] buff bus
