-- ===== src/Mcp/Consent/Store.antt =====
-- backend/app/mcp/consent.py, `_prune` and `_mint`: the size of `_pending` and what survives.
use aso_light.Base.{
  ℕ, suc, ◌+◌, ◌-◌, ◌≤◌, ◌<◌, String, true, false, ◌≡◌, refl, none, some, List, [], ◌∷◌, map, arith,
  length, take, All, ltb, str_eq, eq_iff, if◌then◌else◌, inl, inr, Bool-cases, Option-cases,
}
use aso_light.Base.Dict.{
  mem, lookup, contains, insert, erase, lookup-erase, length-insert, length-erase, length-erase_lt,
}
use aso_light.Base.Sort.{sort, insert_sorted, insert_sorted-All, sort-All, length-sort}
use aso_light.Mcp.Consent.{
  Pending, Store, erase_all, key, oldest_first, expired_tokens, oldest_tokens, evict, prune, mint,
  max_pending, ttl,
}

-- The key `k` is not among the entries.
abbrev pub IsFresh : String → Store → Type 0
IsFresh k s = All (λ (e : String × Pending). str_eq k (key e) ≡ false) s

-- No key stands twice, as in every Python dictionary.
abbrev pub IsDistinct : Store → Type 0
IsDistinct [] = Unit
IsDistinct (e ∷ s) = IsFresh (key e) s × IsDistinct s

IsFresh-erase : (k t : String) (s : Store) → IsFresh k s → IsFresh k (erase t s)
IsFresh-erase k t [] h = tt
IsFresh-erase k t ((u, q) ∷ s) h = ground (arith, IsFresh-erase k t s h.1)

pub erase-IsDistinct : (t : String) (s : Store) → IsDistinct s → IsDistinct (erase t s)
erase-IsDistinct t [] h = tt
erase-IsDistinct t ((u, q) ∷ s) h =
    ground (arith, erase-IsDistinct t s h.1, IsFresh-erase u t s h.0)

IsFresh-insert :
    (k t : String) (q : Pending) (s : Store)
    → str_eq k t ≡ false
    → IsFresh k s
    → IsFresh k (insert t q s)
IsFresh-insert k t q [] ne h = (ne, tt)
IsFresh-insert k t q ((u, r) ∷ s) ne h = ground (arith, IsFresh-insert k t q s ne h.1)

pub insert-IsDistinct :
    (t : String) (q : Pending) (s : Store) → IsDistinct s → IsDistinct (insert t q s)
insert-IsDistinct t q [] h = (tt, tt)
insert-IsDistinct t q ((u, r) ∷ s) h =
    ground (arith, insert-IsDistinct t q s h.1, IsFresh-insert u t q s, eq_iff t u, eq_iff u t)

pub erase_all-IsDistinct :
    (ts : List String) (s : Store) → IsDistinct s → IsDistinct (erase_all ts s)
erase_all-IsDistinct [] s h = h
erase_all-IsDistinct (t ∷ ts) s h = erase_all-IsDistinct ts (erase t s) (erase-IsDistinct t s h)

pub length-erase_all : (ts : List String) (s : Store) → length (erase_all ts s) ≤ length s
length-erase_all [] s = omega arith
length-erase_all (t ∷ ts) s = omega (arith, length-erase_all ts (erase t s), length-erase t s)

pub lookup-erase_all :
    (j : String) (ts : List String) (s : Store)
    → lookup j (erase_all ts s) ≡ (if mem j ts then none else lookup j s)
lookup-erase_all j [] s = refl
lookup-erase_all j (t ∷ ts) s =
    ground (arith, lookup-erase_all j ts (erase t s), lookup-erase t j s)

insert_sorted-IsDistinct :
    (e : String × Pending) (s : Store)
    → IsFresh (key e) s
    → IsDistinct s
    → IsDistinct (insert_sorted oldest_first e s)
insert_sorted-IsDistinct e [] f h = (tt, tt)
insert_sorted-IsDistinct (t, q) ((u, r) ∷ s) f h = ground (
  arith,
  insert_sorted-IsDistinct (t, q) s f.1 h.1,
  insert_sorted-All oldest_first (λ (e : String × Pending). str_eq u (key e) ≡ false) (t, q) s,
  eq_iff t u,
  eq_iff u t,
)

sort-IsDistinct : (s : Store) → IsDistinct s → IsDistinct (sort oldest_first s)
sort-IsDistinct [] h = tt
sort-IsDistinct (e ∷ s) h =
    insert_sorted-IsDistinct e (sort oldest_first s)
      (sort-All oldest_first (λ (x : String × Pending). str_eq (key e) (key x) ≡ false) s h.0)
      (sort-IsDistinct s h.1)

IsFresh-take : (n : ℕ) (k : String) (s : Store) → IsFresh k s → IsFresh k (take n s)
IsFresh-take ℕ.zero k s h = tt
IsFresh-take (suc n) k [] h = tt
IsFresh-take (suc n) k (e ∷ s) h = (h.0, IsFresh-take n k s h.1)

take-IsDistinct : (n : ℕ) (s : Store) → IsDistinct s → IsDistinct (take n s)
take-IsDistinct ℕ.zero s h = tt
take-IsDistinct (suc n) [] h = tt
take-IsDistinct (suc n) (e ∷ s) h = (IsFresh-take n (key e) s h.0, take-IsDistinct n s h.1)

-- Every entry of a list stands in the store under its key.
abbrev Within : Store → Store → Type 0
Within s es = All (λ (e : String × Pending). contains (key e) s ≡ true) es

Within-cons : (e : String × Pending) (s es : Store) → Within s es → Within (e ∷ s) es
Within-cons e s [] h = tt
Within-cons (t, q) s ((u, r) ∷ es) h = (ground arith, Within-cons (t, q) s es h.1)

Within-self : (s : Store) → Within s s
Within-self [] = tt
Within-self ((t, q) ∷ s) = (ground (arith, eq_iff t t), Within-cons (t, q) s s (Within-self s))

Within-take : (n : ℕ) (s es : Store) → Within s es → Within s (take n es)
Within-take ℕ.zero s es h = tt
Within-take (suc n) s [] h = tt
Within-take (suc n) s (e ∷ es) h = (h.0, Within-take n s es h.1)

Within-erase : (t : String) (s es : Store) → IsFresh t es → Within s es → Within (erase t s) es
Within-erase t s [] f h = tt
Within-erase t s ((u, r) ∷ es) f h =
    (ground (arith, lookup-erase t u s, eq_iff t u, eq_iff u t), Within-erase t s es f.1 h.1)

-- Deleting distinct tokens that are all there shortens the store by their number.
length-erase_all_exact :
    (es s : Store)
    → IsDistinct es
    → Within s es
    → length (erase_all (map key es) s) + length es ≤ length s
length-erase_all_exact [] s d w = omega arith
length-erase_all_exact ((t, q) ∷ es) s d w = elim (Option-cases (lookup t s)) [
  | inl missing ↦ absurd (ground arith)
  | inr (r, found) ↦ omega (
    arith,
    length-erase_lt t r s found,
    length-erase_all_exact es (erase t s) d.1 (Within-erase t s es d.0 w.1),
  )
]

length-take_all : (n : ℕ) (s : Store) → n ≤ length s → length (take n s) ≡ n
length-take_all ℕ.zero s h = refl
length-take_all (suc n) [] h = absurd (omega arith)
length-take_all (suc n) (e ∷ s) h = omega (arith, length-take_all n s (omega arith))

evict_bound : (s : Store) → IsDistinct s → length (evict s) ≤ max_pending
unfolding evict
evict_bound s d = elim (Bool-cases (ltb max_pending (length s))) [
  | inl over ↦ rw over (evict_over s d (ground arith))
  | inr fits ↦ rw fits (ground arith)
]
  where
    evict_over :
        (s : Store)
        → IsDistinct s
        → max_pending < length s
        → length (erase_all (oldest_tokens s) s) ≤ max_pending
    evict_over s d over =
        let n = length s - max_pending in
        let es = take n (sort oldest_first s) in
        omega (
          arith,
          length-erase_all_exact es s (take-IsDistinct n _ (sort-IsDistinct s d)) (
              Within-take n s _ (
                sort-All oldest_first (λ (e : String × Pending). contains (key e) s ≡ true) s
                  (Within-self s))),
          length-take_all n (sort oldest_first s),
          length-sort oldest_first s,
        )

evict-IsDistinct : (s : Store) → IsDistinct s → IsDistinct (evict s)
unfolding evict
evict-IsDistinct s d = ground (arith, d, erase_all-IsDistinct (oldest_tokens s) s)

prune-IsDistinct : (now : ℕ) (s : Store) → IsDistinct s → IsDistinct (prune now s)
unfolding prune
prune-IsDistinct now s d = evict-IsDistinct _ (erase_all-IsDistinct (expired_tokens now s) s d)

pub mint-IsDistinct :
    (tool print user token : String) (now : ℕ) (s : Store)
    → IsDistinct s
    → IsDistinct (mint tool print user token now s)
unfolding mint
mint-IsDistinct tool print user token now s d =
    insert-IsDistinct token _ (prune now s) (prune-IsDistinct now s d)

-- A mint leaves at most one token above the bound: `_prune` runs before the insertion.
pub length-mint :
    (tool print user token : String) (now : ℕ) (s : Store)
    → IsDistinct s
    → length (mint tool print user token now s) ≤ max_pending + 1
unfolding mint prune
length-mint tool print user token now s d = omega (
  arith,
  length-insert token
      (record { tool = tool; fingerprint = print; user_id = user; expires_at = now + ttl })
      (prune now s),
  evict_bound (erase_all (expired_tokens now s) s)
      (erase_all-IsDistinct (expired_tokens now s) s d),
)

length-evict : (s : Store) → length (evict s) ≤ length s
unfolding evict
length-evict s = ground (arith, length-erase_all (oldest_tokens s) s)

-- A mint adds at most one token.
pub length-mint_suc :
    (tool print user token : String) (now : ℕ) (s : Store)
    → length (mint tool print user token now s) ≤ length s + 1
unfolding mint prune
length-mint_suc tool print user token now s = omega (
  arith,
  length-insert token
      (record { tool = tool; fingerprint = print; user_id = user; expires_at = now + ttl })
      (prune now s),
  length-evict (erase_all (expired_tokens now s) s),
  length-erase_all (expired_tokens now s) s,
)

-- Pruning adds nothing: what is found afterwards was there.
lookup-evict :
    (j : String) (q : Pending) (s : Store) → lookup j (evict s) ≡ some q → lookup j s ≡ some q
unfolding evict
lookup-evict j q s = ground (arith, lookup-erase_all j (oldest_tokens s) s)

pub lookup-prune :
    (j : String) (q : Pending) (now : ℕ) (s : Store)
    → lookup j (prune now s) ≡ some q
    → lookup j s ≡ some q
unfolding prune
lookup-prune j q now s h =
    ground (arith, lookup-evict j q _ h, lookup-erase_all j (expired_tokens now s) s)
