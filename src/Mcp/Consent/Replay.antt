-- ===== src/Mcp/Consent/Replay.antt =====
-- backend/app/mcp/consent.py over a session: a token that was presented is spent for good.
use aso_light.Base.{
  String, true, false, ◌≡◌, none, some, List, [], ◌∷◌, ◌++◌, arith, inl, inr, Bool-cases,
  Option-cases, str_eq, ◌∙◌, sym, All,
}
use aso_light.Base.Dict.{lookup, contains}
use aso_light.Mcp.Consent.{
  Platform, Store, Call, refused, unknown_token, destructive, token_of, on_call_tool,
}
use aso_light.Mcp.Consent.Store.{lookup-prune}
use aso_light.Mcp.Consent.Gate.{
  lookup-challenge, lookup-presented, unknown_is_refused, presented_is_spent,
}
use aso_light.Mcp.Consent.Trace.{after, outcome, on_call_tool-free}

module _ (p : Platform) where
  -- A call that mints another token cannot bring a token back.
  absent_stays :
      (c : Call p) (s : Store) (t : String)
      → str_eq t c.fresh ≡ false
      → lookup t s ≡ none
      → lookup t (on_call_tool p c s).1 ≡ none
  absent_stays c s t ne h = elim (Option-cases (lookup t (on_call_tool p c s).1)) [
    | inl absent ↦ absent
    | inr (q, back) ↦ elim (Bool-cases (contains c.tool destructive)) [
      | inl gated ↦ elim (Option-cases (token_of p c)) [
        | inl challenged ↦
            let found = sym (lookup-challenge p c s t gated challenged) ∙ back in
            absurd (ground (arith, lookup-prune t q c.now s, ne, found))
        | inr (u, shown) ↦
            let found = sym (lookup-presented p c s t u gated shown) ∙ back in
            absurd (ground (arith, found, h))
      ]
      | inr free ↦ rw (on_call_tool-free p c s free) h
    ]
  ]

  -- None of the calls mints the token `t`.
  abbrev pub NotMinted : String → List (Call p) → Type 0
  NotMinted t cs = All (λ (c : Call p). str_eq t c.fresh ≡ false) cs

  absent-after :
      (t : String) (c : Call p) (later cs : List (Call p))
      → lookup t (after p (c ∷ cs)) ≡ none
      → NotMinted t later
      → lookup t (after p (later ++ c ∷ cs)) ≡ none
  absent-after t c [] cs h n = h
  absent-after t c (d ∷ later) cs h n =
      absent_stays d (after p (later ++ c ∷ cs)) t n.0 (absent-after t c later cs h n.1)

  -- A token is single-use: once a destructive call has presented it, with whatever outcome, every
  -- later destructive call that presents it is refused as unknown, whatever its tool and its
  -- arguments, as long as no later challenge draws the same random token.
  pub replay_refused :
      (c d : Call p) (t : String) (later cs : List (Call p))
      → contains c.tool destructive ≡ true
      → token_of p c ≡ some t
      → contains d.tool destructive ≡ true
      → token_of p d ≡ some t
      → NotMinted t later
      → outcome p d (later ++ c ∷ cs) ≡ refused unknown_token
  replay_refused c d t later cs gated shown gated' shown' n =
      unknown_is_refused p d (after p (later ++ c ∷ cs)) t gated' shown'
        (absent-after t c later cs (presented_is_spent p c (after p cs) t gated shown) n)
