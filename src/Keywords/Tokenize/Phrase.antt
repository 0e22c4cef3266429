-- ===== src/Keywords/Tokenize/Phrase.antt =====
-- backend/app/services/keyword_intel/tokenize.py, `contains_phrase`: what is found.
use aso_light.Base.{
  arith, ℕ, zero, suc, ◌+◌, ◌-◌, ◌≤◌, ◌<◌, String, Bool, true, ◌≡◌, refl, sym, ap, ◌∙◌, ◌↔◌, ◌⊎◌,
  inl, inr, Option, some, List, [], ◌∷◌, ◌++◌, any, take, drop, length, length-append, eq_iff,
  Bool-cases,
}
use aso_light.Keywords.Tokenize.{
  words, is_full, same_words, range_from, occurs, segments, contains_phrase,
}

same_words-eq : (ws us : List String) → same_words ws us ≡ true → ws ≡ us
same_words-eq [] [] h = refl
same_words-eq [] (u ∷ us) h = absurd (ground (arith, h))
same_words-eq (w ∷ ws) [] h = absurd (ground (arith, h))
same_words-eq (w ∷ ws) (u ∷ us) h =
    cc ((eq_iff w u).0 (ground (arith, h)), same_words-eq ws us (ground (arith, h)))

same_words_refl : (ws : List String) → same_words ws ws ≡ true
same_words_refl [] = refl
same_words_refl (w ∷ ws) = ground (arith, eq_iff w w, same_words_refl ws)

take-drop : (n : ℕ) (xs : List String) → take n xs ++ drop n xs ≡ xs
take-drop zero xs = refl
take-drop (suc n) [] = refl
take-drop (suc n) (x ∷ xs) = ap (λ l. x ∷ l) (take-drop n xs)

drop-append : (xs ys : List String) → drop (length xs) (xs ++ ys) ≡ ys
drop-append [] ys = refl
drop-append (x ∷ xs) ys = drop-append xs ys

take-append : (xs ys : List String) → take (length xs) (xs ++ ys) ≡ xs
take-append [] ys = refl
take-append (x ∷ xs) ys = ap (λ l. x ∷ l) (take-append xs ys)

any-range : (p : ℕ → Bool) (s k : ℕ) → any p (range_from s k) ≡ true → (i : ℕ) × (p i ≡ true)
any-range p s zero h = absurd (ground (arith, h))
any-range p s (suc k) h = elim (Bool-cases (p s)) [
  | inl here ↦ (s, here)
  | inr later ↦ any-range p (suc s) k (ground (arith, h, later))
]

range-any :
    (p : ℕ → Bool) (s k i : ℕ) → s ≤ i → i < s + k → p i ≡ true → any p (range_from s k) ≡ true
range-any p s zero i l u h = absurd (omega (arith, l, u))
range-any p s (suc k) i l u h = elim (Bool-cases (p s)) [
  | inl here ↦ rw here refl
  | inr later ↦
      rw (later, range-any p (suc s) k i (ground (arith, l, h, later)) (omega (arith, u)) h) refl
]

-- The tokens have the needle as consecutive words.
abbrev pub IsInfix : List String → List String → Type 0
IsInfix needle tokens =
    (before : List String) × ((after : List String) × (tokens ≡ before ++ (needle ++ after)))

-- The slice of the tokens at `i` is the needle.
abbrev at_index : List String → List String → ℕ → Bool
at_index needle tokens i = same_words (take (length needle) (drop i tokens)) needle

at_index-append :
    (needle before after : List String)
    → at_index needle (before ++ (needle ++ after)) (length before) ≡ true
at_index-append needle before after =
    rw (drop-append before (needle ++ after), take-append needle after) (same_words_refl needle)

occurs-IsInfix : (needle tokens : List String) → occurs needle tokens ≡ true → IsInfix needle tokens
occurs-IsInfix needle tokens h =
    let (i, same) = any-range (at_index needle tokens) 0 (length tokens + 1 - length needle) h in
    let rest = drop i tokens in
    (
      take i tokens,
      (
        drop (length needle) rest,
        sym (take-drop i tokens)
            ∙ ap (λ l. take i tokens ++ l)
                (sym (take-drop (length needle) rest)
                  ∙ ap (λ l. l ++ drop (length needle) rest) (same_words-eq _ needle same)),
      ),
    )

IsInfix-occurs :
    (needle before after : List String) → occurs needle (before ++ (needle ++ after)) ≡ true
IsInfix-occurs needle before after =
    let tokens = before ++ (needle ++ after) in
    range-any (at_index needle tokens) 0 (length tokens + 1 - length needle) (length before)
      (omega arith)
      (omega (arith, length-append before (needle ++ after), length-append needle after))
      (at_index-append needle before after)

occurs_iff : (needle tokens : List String) → (occurs needle tokens ≡ true) ↔ IsInfix needle tokens
occurs_iff needle tokens =
    (occurs-IsInfix needle tokens, λ h. rw h.1.1 (IsInfix-occurs needle h.0 h.1.0))

-- One of the segments has the needle as consecutive words.
abbrev pub SomeInfix : List String → List (List String) → Type 0
SomeInfix needle [] = ⊥
SomeInfix needle (tokens ∷ segs) = IsInfix needle tokens ⊎ SomeInfix needle segs

any_iff :
    (needle : List String) (segs : List (List String))
    → (any (occurs needle) segs ≡ true) ↔ SomeInfix needle segs
any_iff needle [] = (λ h. absurd (ground (arith, h)), λ h. absurd h)
any_iff needle (tokens ∷ segs) = (
  λ h. elim (Bool-cases (occurs needle tokens)) [
    | inl here ↦ inl ((occurs_iff needle tokens).0 here)
    | inr later ↦ inr ((any_iff needle segs).0 (ground (arith, h, later)))
  ],
  λ h. elim h [
    | inl here ↦ rw ((occurs_iff needle tokens).1 here) refl
    | inr later ↦ ground (arith, (any_iff needle segs).1 later)
  ],
)

module _ (find : String → List String) (split : String → List String) where
  -- A phrase is found exactly when it has a word and its words stand side by side within one
  -- segment of the text.
  pub contains_phrase-SomeInfix :
      (text : Option String) (phrase : String)
      → (contains_phrase find split text phrase ≡ true) ↔ (
          (is_full (words find (some phrase)) ≡ true)
          × SomeInfix (words find (some phrase)) (segments find split text))
  unfolding contains_phrase
  contains_phrase-SomeInfix text phrase =
      let found = any_iff (words find (some phrase)) (segments find split text) in
      (λ h. (ground (arith, h), found.0 (ground (arith, h))), λ h. ground (arith, h.0, found.1 h.1))
