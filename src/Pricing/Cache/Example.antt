-- ===== src/Pricing/Cache/Example.antt =====
-- A concrete encoding of the price point ids and files, and a ladder of two tiers, for tests.
use Prim.Native.Char.{code}
use Prim.Native.String.{count, ◌∷◌, ◌++◌ as concat}
use Prim.Native.String.append
use text.Mathlib.TextLemmas.{append_assoc, length-append as count-append, length-cons as count-cons}
use aso_light.Base.{
  ℕ, zero, suc, ◌+◌, ◌-◌, ◌%◌, arith, String, ◌≡◌, refl, ap, ◌∙◌, some, List, [], ◌∷◌, ◌<◌, length,
  eqb, if◌then◌else◌, not, str_eq,
}
use aso_light.Base.Dict.{Dict}
use aso_light.Base.Int.{pos}
use aso_light.Pricing.Cache.{LadderTier, Codec}
use aso_light.Pricing.Cache.Encoding.{dash, dot, put, split, split-put, concat-put}
use aso_light.Pricing.Cache.Ladder.{IsCodec}

-- A dictionary as a text: a dash before each entry, a dot at the end.
abbrev plain_text : Dict String → String
plain_text [] = dot ∷ ""
plain_text ((key, value) ∷ d) = dash ∷ put key (put value (plain_text d))

-- The entries of a text, at most `n`.
abbrev entries : ℕ → String → Dict String
entries zero s = []
entries (suc n) String.[] = []
entries (suc n) (String.◌∷◌ m s) =
    let (key, r) = split s in
    let (value, t) = split r in
    let rest = entries n t in if eqb (code m) (code dash) then (key, value) ∷ rest else []

abbrev dots : ℕ → String
dots zero = ""
dots (suc n) = concat "." (dots n)

-- The text, filled up with dots to a multiple of four letters.
abbrev text_of : Dict String → String
text_of x = concat (plain_text x) (dots (4 - count (plain_text x) % 4))

abbrev bytes_of : String → Dict String
bytes_of s = entries (count s) s

abbrev pub codec : Codec
codec = record {
  Payload = Dict String;
  File = List LadderTier;
  dumps = λ d. d;
  loads = λ x. some x;
  b64encode = text_of;
  b64decode = λ s. some (bytes_of s);
  rstrip = λ s. s;
  dump_file = λ date tiers. tiers;
  load_tiers = λ file. some file;
  is_safe = λ s. not (str_eq s "");
}

entries-plain_text :
    (d : Dict String) (t : String) (n : ℕ) → length d < n → entries n (concat (plain_text d) t) ≡ d
entries-plain_text d t zero h = absurd (omega (arith, h))
entries-plain_text [] t (suc n) h = rw (append.cons dot "" t) refl
entries-plain_text ((key, value) ∷ d) t (suc n) h =
    rw
      (
        append.cons dash (put key (put value (plain_text d))) t,
        concat-put key,
        concat-put value,
        split-put key,
        split-put value,
        entries-plain_text d t n (omega (arith, h)),
      )
      refl

count-put : (s r : String) → count r < count (put s r)
count-put String.[] r =
    let e : count (put "" r) ≡ suc (count r) = count-cons dot r in omega (arith, e)
count-put (String.◌∷◌ c s) r =
    let e : count (put (String.◌∷◌ c s) r) ≡ suc (suc (count (put s r))) =
      count-cons dash (String.◌∷◌ c (put s r)) ∙ ap suc (count-cons c (put s r)) in
    omega (arith, e, count-put s r)

count-plain_text : (d : Dict String) → length d < count (plain_text d)
count-plain_text [] = omega arith
count-plain_text ((key, value) ∷ d) = omega (
  arith,
  count-cons dash (put key (put value (plain_text d))),
  count-plain_text d,
  count-put key (put value (plain_text d)),
  count-put value (plain_text d),
)

bytes_of-concat : (d : Dict String) (t : String) → bytes_of (concat (plain_text d) t) ≡ d
bytes_of-concat d t =
    entries-plain_text d t (count (concat (plain_text d) t))
      (omega (arith, count-plain_text d, count-append (plain_text d) t))

count-dots : (n : ℕ) → count (dots n) ≡ n
count-dots zero = refl
count-dots (suc n) = omega (arith, count-append "." (dots n), count-dots n)

filled_up : (n m k : ℕ) → m ≡ n + k → k ≡ 4 - n % 4 → (m + 0) % 4 ≡ 0
filled_up n m k e f = omega (arith, e, f)

count-text_of : (x : Dict String) → (count (text_of x) + 0) % 4 ≡ 0
count-text_of x =
    let n = count (plain_text x) in
    filled_up n _ (count (dots (4 - n % 4))) (count-append (plain_text x) (dots (4 - n % 4)))
      (count-dots (4 - n % 4))

pub codec-IsCodec : IsCodec codec
codec-IsCodec = record {
  objects = λ d unique. refl;
  signs = λ bytes. 0;
  few_signs = λ bytes. omega arith;
  whole_length = count-text_of;
  decodes = λ bytes n h.
      ap some (ap bytes_of (append_assoc (plain_text bytes) _ _) ∙ bytes_of-concat bytes _);
  files = λ date tiers. refl;
}

abbrev pub tier : String → ℕ → LadderTier
tier n price = record {
  tier_num = n;
  customer_price = pos price;
  currency_code = "USD";
  proceeds = pos 0;
}

abbrev pub ladder : List LadderTier
ladder = tier "10001" 29 ∷ tier "10002" 39 ∷ []
