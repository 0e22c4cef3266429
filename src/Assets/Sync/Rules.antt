-- ===== src/Assets/Sync/Rules.antt =====
-- backend/app/services/asc/asset_sync.py: how the calls of a composed action follow from its parts.
use aso_light.Base.{◌≡◌, refl, subst, arith, ℕ, ◌+◌, ◌≤◌, [], ◌∷◌}
use aso_light.Assets.Client.{
  Call, Calls, reserve, delete, Result, ok, err, Progress, M, continue, called,
}

-- The uploads begun and the deletions asked for.
abbrev pub is_reserve : Call → ℕ
is_reserve (reserve set_id name size attributes) = 1
is_reserve _ = 0

abbrev pub is_delete : Call → ℕ
is_delete (delete i) = 1
is_delete _ = 0

abbrev pub reserves : Calls → ℕ
reserves [] = 0
reserves (c ∷ h) = is_reserve c + reserves h

abbrev pub deletions : Calls → ℕ
deletions [] = 0
deletions (c ∷ h) = is_delete c + deletions h

-- After each of the calls, with `n` assets at the beginning, at most `cap` are left.
abbrev pub Fits : ℕ → ℕ → Calls → Type 0
Fits n cap [] = n ≤ cap
Fits n cap (c ∷ h) = (n + reserves (c ∷ h) ≤ cap + deletions (c ∷ h)) × Fits n cap h

-- `q` comes after `r` more uploads and `d` more deletions than `p`, and no call on the way passes a
-- cap that has room for `r` more assets at `p`.
pub record Made (r d : ℕ) (p q : Progress) : Type 0 where
  pub begun : reserves q.calls ≡ r + reserves p.calls
  pub gone : deletions q.calls ≡ d + deletions p.calls
  pub kept :
      (n cap : ℕ)
      → n + reserves p.calls + r ≤ cap + deletions p.calls
      → Fits n cap p.calls
      → Fits n cap q.calls

pub Made-refl : (p : Progress) → Made 0 0 p p
Made-refl p = record { begun = omega arith; gone = omega arith; kept = λ n cap h k. k }

pub Made-trans :
    {r d r' d' : ℕ} {p q t : Progress} → Made r d p q → Made r' d' q t → Made (r' + r) (d' + d) p t
Made-trans h k = record {
  begun = omega (arith, h.begun, k.begun);
  gone = omega (arith, h.gone, k.gone);
  kept = λ n cap room fits.
      k.kept n cap (omega (arith, h.begun, h.gone, room)) (h.kept n cap (omega (arith, room)) fits);
}

pub called-Made : (c : Call) (p : Progress) → Made (is_reserve c) (is_delete c) p (called c p)
called-Made c p = record {
  begun = omega arith;
  gone = omega arith;
  kept = λ n cap room fits. (omega (arith, room), fits);
}

pub same-Made : {r d r' d' : ℕ} {p q : Progress} → Made r d p q → r ≡ r' → d ≡ d' → Made r' d' p q
same-Made h e k = record {
  begun = omega (arith, h.begun, e);
  gone = omega (arith, h.gone, k);
  kept = λ n cap room fits. h.kept n cap (omega (arith, room, e)) fits;
}

module _ {ℓ κ} {A : Type ℓ} {B : Type κ} where
  -- The first part makes these calls, and the second part none of them.
  pub bind-Made :
      {r d : ℕ} {p : Progress} (m : Result A × Progress) (f : A → M B)
      → Made r d p m.1
      → ((a : A) (q : Progress) → Made 0 0 q (f a q).1)
      → Made r d p (continue m f).1
  unfolding continue
  bind-Made (ok a, q) f h k = same-Made (Made-trans h (k a q)) (omega arith) (omega arith)
  bind-Made (err e, q) f h k = h

  -- If both parts succeed, their calls add up.
  pub success-Made :
      {r d r' d' : ℕ} {p : Progress} (m : Result A × Progress) (f : A → M B) {b : B} {t : Progress}
      → ((a : A) (q : Progress) → m ≡ (ok a, q) → Made r d p q)
      → ((a : A) (q : Progress) → m ≡ (ok a, q) → f a q ≡ (ok b, t) → Made r' d' q t)
      → continue m f ≡ (ok b, t)
      → Made (r' + r) (d' + d) p t
  unfolding continue
  success-Made (ok a, q) f h k e = Made-trans (h a q refl) (k a q refl e)
  success-Made (err x, q) f h k e = absurd (ground (arith, e))

module _ {ℓ κ} {A : Type ℓ} {B : Type κ} where
  -- The results of both parts, where the whole succeeds.
  pub success-parts :
      (m : Result A × Progress) (f : A → M B) {b : B} {t : Progress}
      → continue m f ≡ (ok b, t)
      → (a : A) × ((q : Progress) × ((m ≡ (ok a, q)) × (f a q ≡ (ok b, t))))
  unfolding continue
  success-parts (ok a, q) f e = (a, (q, (refl, e)))
  success-parts (err x, q) f e = absurd (ground (arith, e))

-- The calls of an action that succeeds.
pub ended-Made {ℓ} :
    {A : Type ℓ} {r d : ℕ} {p : Progress} {m : Result A × Progress} {a : A} {q : Progress}
    → Made r d p m.1
    → m ≡ (ok a, q)
    → Made r d p q
ended-Made {r = r} {d = d} {p = p} h e = subst (λ x. Made r d p x.1) e h

module _ {ℓ κ} {A : Type ℓ} {B : Type κ} where
  -- What holds after the first part, and after the second from each result of the first.
  pub continue-keeps {μ} :
      (P : Progress → Type μ) (m : Result A × Progress) (f : A → M B)
      → P m.1
      → ((a : A) (q : Progress) → m ≡ (ok a, q) → P (f a q).1)
      → P (continue m f).1
  unfolding continue
  continue-keeps P (ok a, q) f h k = k a q refl
  continue-keeps P (err e, q) f h k = h
