-- ===== src/Cache/Slots.antt =====
-- Slots of a slice after a write, an append and a truncation.
use rffmpeg.Base.{
  ◌&&◌, ◌≢◌, ℕ, zero, suc, ◌<◌, ◌≤◌, ◌≡◌, refl, none, some, List, [], ◌∷◌, ◌++◌, arith, length,
  take, ltb, eqb, if◌then◌else◌,
}
use rffmpeg.Cache.{Entry, slot, set_slot}

pub slot-set_slot :
    (i j : ℕ) (x : Entry) (es : List Entry)
    → slot i (set_slot j x es) ≡ (if ltb j (length es) && eqb i j then some x else slot i es)
unfolding slot set_slot
slot-set_slot i j x [] = ground arith
slot-set_slot zero zero x (e ∷ es) = ground arith
slot-set_slot (suc i) zero x (e ∷ es) = ground arith
slot-set_slot zero (suc j) x (e ∷ es) = ground arith
slot-set_slot (suc i) (suc j) x (e ∷ es) = ground (arith, slot-set_slot i j x es)

pub length-set_slot : (j : ℕ) (x : Entry) (es : List Entry) → length (set_slot j x es) ≡ length es
unfolding set_slot
length-set_slot j x [] = refl
length-set_slot zero x (e ∷ es) = refl
length-set_slot (suc j) x (e ∷ es) = omega (arith, length-set_slot j x es)

pub slot-take :
    (i n : ℕ) (es : List Entry) → slot i (take n es) ≡ (if ltb i n then slot i es else none)
unfolding slot
slot-take i zero es = ground arith
slot-take i (suc n) [] = ground arith
slot-take zero (suc n) (e ∷ es) = ground arith
slot-take (suc i) (suc n) (e ∷ es) = ground (arith, slot-take i n es)

pub slot-append :
    (i : ℕ) (x : Entry) (es : List Entry)
    → slot i (es ++ x ∷ []) ≡ (if eqb i (length es) then some x else slot i es)
unfolding slot
slot-append zero x [] = ground arith
slot-append (suc i) x [] = ground arith
slot-append zero x (e ∷ es) = ground arith
slot-append (suc i) x (e ∷ es) = ground (arith, slot-append i x es)

pub slot-out : (i : ℕ) (es : List Entry) → length es ≤ i → slot i es ≡ none
unfolding slot
slot-out i [] h = refl
slot-out zero (e ∷ es) h = ground arith
slot-out (suc i) (e ∷ es) h = slot-out i es (omega arith)

pub slot-in : (i : ℕ) (es : List Entry) → i < length es → slot i es ≢ none
unfolding slot
slot-in i [] h = ground arith
slot-in zero (e ∷ es) h = λ q. ground arith
slot-in (suc i) (e ∷ es) h = slot-in i es (omega arith)
