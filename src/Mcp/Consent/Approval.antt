-- ===== src/Mcp/Consent/Approval.antt =====
-- backend/app/mcp/consent.py over a session: which earlier challenge a destructive run rests on.
use aso_light.Base.{
  ◌+◌, ◌<◌, String, true, ◌≡◌, Option, some, List, [], ◌∷◌, arith, if◌then◌else◌, inl, inr,
  Bool-cases, Option-cases, eq_iff, str_eq, ◌⊎◌, ap, ◌∙◌, sym,
}
use aso_light.Base.Dict.{Dict, lookup, contains}
use aso_light.Mcp.Consent.{
  Platform, Pending, Call, destructive, cleaned, token_of, on_call_tool, ttl, fingerprint, user_id,
  prune,
}
use aso_light.Mcp.Consent.Store.{lookup-prune}
use aso_light.Mcp.Consent.Gate.{
  Covers, ran, passed-Consented, entry_for, lookup-challenge, lookup-presented,
}
use aso_light.Mcp.Consent.Trace.{after, outcome, is_challenge, on_call_tool-free}

module _ (p : Platform) where
  -- One of the earlier calls was challenged, and its challenge left the entry `q` under `t`.
  abbrev Issued : String → Pending → List (Call p) → Type 0
  Issued t q [] = ⊥
  Issued t q (e ∷ cs) =
      ((is_challenge p e ≡ true) × (e.fresh ≡ t) × (q ≡ entry_for p e)) ⊎ Issued t q cs

  challenge-Issued :
      (c : Call p) (cs : List (Call p)) (t : String) (q : Pending)
      → (lookup t (after p cs) ≡ some q → Issued t q cs)
      → is_challenge p c ≡ true
      → (if str_eq t c.fresh then some (entry_for p c) else lookup t (prune c.now (after p cs)))
        ≡ some q
      → Issued t q (c ∷ cs)
  challenge-Issued c cs t q old challenged h = elim (Bool-cases (str_eq t c.fresh)) [
    | inl same ↦ inl (challenged, sym ((eq_iff t c.fresh).0 same), ground arith)
    | inr other ↦ inr (old (lookup-prune t q c.now (after p cs) (ground arith)))
  ]

  call-Issued :
      (c : Call p) (cs : List (Call p)) (t : String) (q : Pending)
      → (lookup t (after p cs) ≡ some q → Issued t q cs)
      → lookup t (on_call_tool p c (after p cs)).1 ≡ some q
      → Issued t q (c ∷ cs)
  call-Issued c cs t q old h = elim (Bool-cases (contains c.tool destructive)) [
    | inl gated ↦ elim (Option-cases (token_of p c)) [
      | inl challenged ↦
          challenge-Issued c cs t q old (rw (gated, challenged))
            (sym (lookup-challenge p c (after p cs) t gated challenged) ∙ h)
      | inr (u, shown) ↦
          let found = sym (lookup-presented p c (after p cs) t u gated shown) ∙ h in
          inr (old (ground (arith, found)))
    ]
    | inr free ↦ inr (old (rw (on_call_tool-free p c (after p cs) free) at h))
  ]

  stored-Issued :
      (cs : List (Call p)) (t : String) (q : Pending)
      → lookup t (after p cs) ≡ some q
      → Issued t q cs
  stored-Issued [] t q h = absurd (ground arith)
  stored-Issued (c ∷ cs) t q h = call-Issued c cs t q (stored-Issued cs t q) h

  -- `e` is a challenged call whose consent the call `c` uses up: the token of `e`, the same tool,
  -- fingerprint and user, and the time to live not over.
  pub record Approves (e c : Call p) : Type 0 where
    pub challenged : is_challenge p e ≡ true
    pub token : token_of p c ≡ some e.fresh
    pub tool : e.tool ≡ c.tool
    pub print : fingerprint p e.tool (cleaned p e) ≡ fingerprint p c.tool (cleaned p c)
    pub user : user_id p e.access_token ≡ user_id p c.access_token
    pub in_time : c.now < e.now + ttl

  -- One of the earlier calls approves `c`.
  abbrev pub Approved : Call p → List (Call p) → Type 0
  Approved c [] = ⊥
  Approved c (e ∷ cs) = Approves e c ⊎ Approved c cs

  Issued-Approved :
      (c : Call p) (t : String) (q : Pending) (cs : List (Call p))
      → token_of p c ≡ some t
      → Covers p c q
      → Issued t q cs
      → Approved c cs
  Issued-Approved c t q [] shown k i = elim i [ ]
  Issued-Approved c t q (e ∷ cs) shown k (inl (challenged, fresh, same)) = inl (record {
    challenged = challenged;
    token = shown ∙ ap some (sym fresh);
    tool = sym (ap (λ (x : Pending). x.tool) same) ∙ k.same_tool;
    print = sym (ap (λ (x : Pending). x.fingerprint) same) ∙ k.same_print;
    user = sym (ap (λ (x : Pending). x.user_id) same) ∙ k.same_user;
    in_time = omega (arith, k.live, ap (λ (x : Pending). x.expires_at) same);
  })
  Issued-Approved c t q (e ∷ cs) shown k (inr i) = inr (Issued-Approved c t q cs shown k i)

  -- In any session from an empty store, a destructive tool that runs was approved: an earlier call
  -- of the same tool by the same user with the same fingerprint was challenged less than the time
  -- to live ago, and the token of that challenge is the one presented.
  pub run-Approved :
      (c : Call p) (cs : List (Call p)) {a : Option (Dict p.Value)}
      → contains c.tool destructive ≡ true
      → ran p (outcome p c cs) ≡ some a
      → Approved c cs
  run-Approved c cs d h =
      let (k, same) = passed-Consented p c (after p cs) d h in
      Issued-Approved c k.token k.entry cs k.presents k.covers
        (stored-Issued cs k.token k.entry k.holds)
