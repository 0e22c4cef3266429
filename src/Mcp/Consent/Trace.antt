-- ===== src/Mcp/Consent/Trace.antt =====
-- backend/app/mcp/consent.py over a whole session: the calls that the server handles one after the
-- other, from the empty `_pending` of a fresh process.
use aso_light.Base.{
  ℕ, ◌+◌, ◌≤◌, String, Bool, true, false, ◌≡◌, Option, none, some, List, [], ◌∷◌, arith, length,
  if◌then◌else◌, inl, inr, Bool-cases, Option-cases,
}
use aso_light.Base.Dict.{lookup, contains, length-erase_lt, length-erase}
use aso_light.Mcp.Consent.{
  Platform, Store, Call, Outcome, passed, destructive, gate, cleaned, token_of, on_call_tool,
  max_pending, fingerprint, user_id, check_pending,
}
use aso_light.Mcp.Consent.Store.{
  IsDistinct, erase-IsDistinct, mint-IsDistinct, length-mint, length-mint_suc,
}
use aso_light.Mcp.Consent.Gate.{ran}

abbrev is_some {ℓ} : {A : Type ℓ} → Option A → Bool
is_some none = false
is_some (some a) = true

abbrev is_none {ℓ} : {A : Type ℓ} → Option A → Bool
is_none none = true
is_none (some a) = false

module _ (p : Platform) where
  -- The calls handled so far, the latest first.
  abbrev pub after : List (Call p) → Store
  after [] = []
  after (c ∷ cs) = (on_call_tool p c (after cs)).1

  abbrev pub outcome : Call p → List (Call p) → Outcome p
  outcome c cs = (on_call_tool p c (after cs)).0

  abbrev count : Bool → ℕ
  count true = 1
  count false = 0

  -- A destructive call that presents no token, so that the gate challenges it.
  abbrev pub is_challenge : Call p → Bool
  is_challenge c = if contains c.tool destructive then is_none (token_of p c) else false

  -- A destructive call that was let through.
  abbrev pub is_run : Call p → List (Call p) → Bool
  is_run c cs = if contains c.tool destructive then is_some (ran p (outcome c cs)) else false

  abbrev pub challenges : List (Call p) → ℕ
  challenges [] = 0
  challenges (c ∷ cs) = count (is_challenge c) + challenges cs

  abbrev pub runs : List (Call p) → ℕ
  runs [] = 0
  runs (c ∷ cs) = count (is_run c cs) + runs cs

  on_call_tool-gated :
      (c : Call p) (s : Store)
      → contains c.tool destructive ≡ true
      → on_call_tool p c s ≡ gate p c (cleaned p c) (token_of p c) s
  unfolding on_call_tool
  on_call_tool-gated c s d = rw d

  pub on_call_tool-free :
      (c : Call p) (s : Store)
      → contains c.tool destructive ≡ false
      → on_call_tool p c s ≡ (passed c.arguments, s)
  unfolding on_call_tool
  on_call_tool-free c s d = rw d

  gate-IsDistinct :
      (c : Call p) (s : Store) (t : Option String)
      → IsDistinct s
      → IsDistinct (gate p c (cleaned p c) t s).1
  unfolding gate
  gate-IsDistinct c s none d = mint-IsDistinct _ _ _ _ _ s d
  gate-IsDistinct c s (some t) d = erase-IsDistinct t s d

  on_call_tool-IsDistinct :
      (c : Call p) (s : Store) → IsDistinct s → IsDistinct (on_call_tool p c s).1
  on_call_tool-IsDistinct c s d = elim (Bool-cases (contains c.tool destructive)) [
    | inl gated ↦ rw (on_call_tool-gated c s gated) (gate-IsDistinct c s (token_of p c) d)
    | inr free ↦ rw (on_call_tool-free c s free) d
  ]

  after-IsDistinct : (cs : List (Call p)) → IsDistinct (after cs)
  after-IsDistinct [] = tt
  after-IsDistinct (c ∷ cs) = on_call_tool-IsDistinct c (after cs) (after-IsDistinct cs)

  gate-length :
      (c : Call p) (s : Store) (t : Option String)
      → IsDistinct s
      → length s ≤ max_pending + 1
      → length (gate p c (cleaned p c) t s).1 ≤ max_pending + 1
  unfolding gate
  gate-length c s none d h = length-mint _ _ _ _ _ s d
  gate-length c s (some t) d h = omega (arith, length-erase t s)

  -- In any session the store never holds more than one token above `_MAX_PENDING`.
  pub length-after : (cs : List (Call p)) → length (after cs) ≤ max_pending + 1
  length-after [] = omega arith
  length-after (c ∷ cs) = elim (Bool-cases (contains c.tool destructive)) [
    | inl gated ↦
        rw (on_call_tool-gated c (after cs) gated, length)
          (gate-length c (after cs) (token_of p c) (after-IsDistinct cs) (length-after cs))
    | inr free ↦ rw (on_call_tool-free c (after cs) free, length) (length-after cs)
  ]

  -- Every run takes an entry out of the store, and only a challenge puts one in.
  gate_pays :
      (c : Call p) (s : Store) (t : Option String)
      → count (is_some (ran p (gate p c (cleaned p c) t s).0))
          + length (gate p c (cleaned p c) t s).1
        ≤ count (is_none t) + length s
  unfolding gate
  gate_pays c s none = omega (
    arith,
    length-mint_suc c.tool (fingerprint p c.tool (cleaned p c)) (user_id p c.access_token) c.fresh
        c.now s,
  )
  gate_pays c s (some t) = elim (Option-cases (lookup t s)) [
    | inl missing ↦ unfold check_pending in rw missing (omega (arith, length-erase t s))
    | inr (q, found) ↦ ground (arith, length-erase_lt t q s found)
  ]

  call_pays :
      (c : Call p) (s : Store)
      → count
            (if contains c.tool destructive then is_some (ran p (on_call_tool p c s).0) else false)
          + length (on_call_tool p c s).1
        ≤ count (is_challenge c) + length s
  call_pays c s = elim (Bool-cases (contains c.tool destructive)) [
    | inl gated ↦
        rw (on_call_tool-gated c s gated, length) (rw gated (gate_pays c s (token_of p c)))
    | inr free ↦ rw (on_call_tool-free c s free, length) (rw free (omega arith))
  ]

  -- In any session from an empty store, destructive runs and outstanding tokens together are at
  -- most the challenges: every run was paid for by a challenge of its own.
  pub runs-le-challenges : (cs : List (Call p)) → runs cs + length (after cs) ≤ challenges cs
  runs-le-challenges [] = omega arith
  runs-le-challenges (c ∷ cs) = omega (arith, call_pays c (after cs), runs-le-challenges cs)
