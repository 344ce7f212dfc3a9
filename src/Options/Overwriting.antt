-- ===== src/Options/Overwriting.antt =====
-- pkg/ffmpegopts/ffmpegopts.go, OverwritePolicy: only the tokens before the separator count, in any order.
use rffmpeg.Base.{
  ◌≡◌, refl, ap, ap₂, ◌∙◌, String, Bool, true, false, ◌||◌, List, [], ◌∷◌, ◌==◌, member,
  if◌then◌else◌, Bool-cases, inl, inr,
}
use rffmpeg.Base.Tables.{exists_where}
use rffmpeg.Options.{mode_of, overwrite_flags, overwrite_policy}

-- The tokens before the separator.
unfoldable pub options : List String → List String
options [] = []
options (arg ∷ rest) = let later = arg ∷ options rest in if arg == "--" then [] else later

or_false : (b : Bool) → b ≡ (b || false)
or_false true = refl
or_false false = refl

-- Setting a flag at a test, and asking for the test or the flag.
set_or : (b test later : Bool) → ((if test then true else b) || later) ≡ (b || (test || later))
set_or true true later = refl
set_or true false later = refl
set_or false true later = refl
set_or false false later = refl

overwrite_flags-options :
    (args : List String) (force never : Bool)
    → overwrite_flags force never args
      ≡ (force || member "-y" (options args), never || member "-n" (options args))
unfolding overwrite_flags options exists_where
overwrite_flags-options [] force never = ap₂ (λ x y. (x, y)) (or_false force) (or_false never)
overwrite_flags-options (arg ∷ rest) force never = elim (Bool-cases (arg == "--")) [
  | inl e ↦ rw e (ap₂ (λ x y. (x, y)) (or_false force) (or_false never))
  | inr e ↦ rw e (
      overwrite_flags-options rest (if arg == "-y" then true else force)
        (if arg == "-n" then true else never)
      ∙ ap₂ (λ x y. (x, y)) (set_or force (arg == "-y") _) (set_or never (arg == "-n") _))
]

-- The policy is that of the flags among the tokens before the separator, in any order and number.
pub overwrite_policy-options :
    (args : List String)
    → overwrite_policy args ≡ mode_of (member "-y" (options args)) (member "-n" (options args))
unfolding overwrite_policy
overwrite_policy-options args = ap (λ f. mode_of f.0 f.1) (overwrite_flags-options args false false)
