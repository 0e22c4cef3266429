-- ===== src/Pricing/Cache/Encoding.antt =====
-- Texts one after another in one text, for the tests of the price point ids.
use Prim.Native.Char.{Char, code}
use Prim.Native.String.{String, [], ◌∷◌, char_at, ◌++◌ as concat}
use Prim.Native.String.append
use aso_light.Base.{◌≡◌, refl, ap, ◌∙◌, eqb, if◌then◌else◌}

abbrev pub dash : Char
dash = char_at "-" 0

abbrev pub dot : Char
dot = char_at "." 0

-- A text before another one: a dash stands before each of its letters, and a dot ends it.
abbrev pub put : String → String → String
put [] r = dot ∷ r
put (c ∷ s) r = dash ∷ (c ∷ put s r)

abbrev pub split : String → String × String
split [] = ("", "")
split (m ∷ []) = ("", "")
split (m ∷ (c ∷ s)) =
    let rest = split s in if eqb (code m) (code dash) then (c ∷ rest.0, rest.1) else ("", c ∷ s)

pub split-put : (s r : String) → split (put s r) ≡ (s, r)
split-put [] [] = refl
split-put [] (c ∷ r) = refl
split-put (c ∷ s) r = ap (λ x. (c ∷ x.0, x.1)) (split-put s r)

pub concat-put : (s r t : String) → concat (put s r) t ≡ put s (concat r t)
concat-put [] r t = append.cons dot r t
concat-put (c ∷ s) r t =
    append.cons dash (c ∷ put s r) t
    ∙ ap (λ x. dash ∷ x) (append.cons c (put s r) t ∙ ap (λ x. c ∷ x) (concat-put s r t))
