-- ===== src/Base/Finding.antt =====
-- The first "=" of a text, by recursion on the characters before it.
use Prim.Native.Nat.{ℕ, suc, ◌+◌, Ordering, lt, eq, gt, compare as compare_numbers}
use Prim.Native.Char.{Char, code, len_utf8}
use Prim.Native.String.append
use Prim.Native.String.find
use Prim.Native.String.len
use Prim.Native.String.{String, [], ◌∷◌, len, find, same}
use mathlib.Core.Path.{◌≡◌, refl, sym, ap, ◌∙◌}
use mathlib.Core.Bool.{Bool, true, false}
use mathlib.Core.Option.{some}
use text.Mathlib.Text.{find?, is_le, when}
use text.Mathlib.TextPositions.{slice-append_left}
use native.Mathlib.Omega.{arith}
use mathlib.Core.Logic.{inl, inr}
use text.Mathlib.TextFind.{find_cases}
use text.Mathlib.TextPositions.{len-append}
use rffmpeg.Base.Tests.{is_some}
use rffmpeg.Base.Texts.{◌<>◌, up_to}

-- One character in the search of a text without "=", and of a longer one.
missed :
    (o : Ordering) (c here later n : ℕ)
    → same o 0 (c + here) ≡ suc (c + n)
    → (here ≡ suc n) × (same o 0 (c + later) ≡ c + later)
missed lt c here later n h = (omega (arith, h), refl)
missed eq c here later n h = omega (arith, h)
missed gt c here later n h = (omega (arith, h), refl)

abbrev equals : Char
equals = "="

find-append : (p v : String) → find p "=" ≡ suc (len p) → find (p <> ("=" <> v)) "=" ≡ len p
find-append [] v h =
    ap (λ x. find x "=") (append.nil ("=" <> v) ∙ append.cons equals "" v)
    ∙ find.cons equals ("" <> v) "="
    ∙ sym len.nil
find-append (c ∷ p) v h =
    let m =
      missed (compare_numbers (code c) 61) (len_utf8 c) (find p "=") (find (p <> ("=" <> v)) "=")
        (len p) (sym (find.cons c p "=") ∙ h ∙ ap suc (len.cons c p)) in
    ap (λ x. find x "=") (append.cons c p ("=" <> v))
    ∙ find.cons c (p <> ("=" <> v)) "="
    ∙ m.1
    ∙ ap (λ n. len_utf8 c + n) (find-append p v m.0)
    ∙ sym (len.cons c p)

found_within : (n m k : ℕ) → n ≡ k → is_le (compare_numbers n (k + m)) ≡ true
found_within n m k h = ground (arith, h)

not_past : (n m k : ℕ) → n ≡ k → is_le (compare_numbers n (k + m)) ≡ false → ⊥
not_past n m k h e = ground (arith, h, e)

when-none : (b : Bool) (n : ℕ) → is_some (when b n) ≡ false → b ≡ false
when-none false n h = refl
when-none true n h = ground (arith, h)

when-some : (b : Bool) (n k : ℕ) → b ≡ true → n ≡ k → when b n ≡ some k
when-some b n k h e = rw (h, e) refl

find-none : (p : String) → is_some (find? p "=") ≡ false → find p "=" ≡ suc (len p)
find-none p h = elim (find_cases p "=") [
  | inr miss ↦ miss
  | inl (u, v, parts, at) ↦ absurd (
      not_past (find p "=") (len ("=" <> v)) (len u) at (
        sym (
          ap (λ n. is_le (compare_numbers (find p "=") n)) (ap len parts ∙ len-append u ("=" <> v)))
        ∙ when-none _ _ h))
]

-- A name without "=" is what stands before the first "=" of the name with a value.
pub find-before :
    (p v : String) → is_some (find? p "=") ≡ false → find? (p <> ("=" <> v)) "=" ≡ some (len p)
find-before p v h =
    let at = find-append p v (find-none p h) in
    when-some _ _ (len p)
      (ap (λ n. is_le (compare_numbers (find (p <> ("=" <> v)) "=") n)) (len-append p ("=" <> v))
        ∙ found_within _ (len ("=" <> v)) (len p) at)
      at

pub up_to-before : (p v : String) → up_to (len p) (p <> ("=" <> v)) ≡ p
up_to-before p v = slice-append_left p ("=" <> v)
