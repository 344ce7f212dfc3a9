-- ===== src/Base/Texts.antt =====
-- Texts the way Go's strings package reads them: positions count bytes.
use Prim.Native.Nat.{◌-◌, ℕ}
use Prim.Native.String.{String, ◌++◌ as text_append, len, slice}
use mathlib.Core.Path.{◌≡◌, subst}
use mathlib.Core.Logic.{inl, inr}
use mathlib.Core.Bool.{Bool, true}
use mathlib.Core.List.{List, [], ◌∷◌}
use text.Mathlib.Text.{◌==◌, find?}
use text.Mathlib.TextEquality.{eq_iff}
use native.Mathlib.Omega.{arith}
use rffmpeg.Base.Tests.{is_some, Bool-cases}
use rffmpeg.Base.Lists.{All}
use rffmpeg.Base.Tables.{exists_where}

infixr 65 ◌<>◌
abbrev pub ◌<>◌ : String → String → String
s <> t = text_append s t

-- s[n:] and s[:n].
abbrev pub from : ℕ → String → String
from n s = slice s n (len s)

abbrev pub up_to : ℕ → String → String
up_to n s = slice s 0 n

-- strings.Contains and strings.HasSuffix.
abbrev pub has_part : String → String → Bool
has_part s part = is_some (find? s part)

abbrev pub has_suffix : String → String → Bool
has_suffix s end = from (len s - len end) s == end

-- A lookup in a set of texts.
abbrev pub member : String → List String → Bool
member s set = exists_where (λ x. x == s) set

pub member-All :
    (P : String → Type 0) (set : List String) → All P set → (s : String) → member s set ≡ true → P s
unfolding exists_where
member-All P [] a s h = ground (arith, h)
member-All P (x ∷ xs) a s h = elim (Bool-cases (x == s)) [
  | inl e ↦ subst P ((eq_iff x s).0 e) a.0
  | inr e ↦ member-All P xs a.1 s (ground (arith, h, e))
]
