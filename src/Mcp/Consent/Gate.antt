-- ===== src/Mcp/Consent/Gate.antt =====
-- backend/app/mcp/consent.py, `on_call_tool` and the hints: one call at the gate.
use aso_light.Base.{
  ℕ, ◌+◌, ◌<◌, String, Bool, true, false, ◌≡◌, refl, ◌↔◌, Option, none, some, List, [], ◌∷◌, arith,
  str_eq, eq_iff, if◌then◌else◌, inl, inr, Option-cases, str_eq_refl, ap, sym, ◌∙◌,
}
use aso_light.Base.Dict.{
  Dict, mem, lookup, contains, insert, lookup-insert, lookup-erase, erase-insert,
}
use aso_light.Mcp.Consent.{
  Platform, Pending, Store, Call, Outcome, passed, refused, unknown_token, destructive, read_only,
  annotations_for, or_empty, user_id, fingerprint, check_pending, gate, cleaned, token_of,
  on_call_tool, mint, prune, confirm_arg, ttl,
}

module _ (p : Platform) where
  -- The entry `q` is the consent for this very call, and is still live.
  pub record Covers (c : Call p) (q : Pending) : Type 0 where
    pub same_tool : q.tool ≡ c.tool
    pub same_print : q.fingerprint ≡ fingerprint p c.tool (cleaned p c)
    pub same_user : q.user_id ≡ user_id p c.access_token
    pub live : c.now < q.expires_at

  -- The arguments that a call runs its tool on, if the gate lets it through.
  abbrev pub ran : Outcome p → Option (Option (Dict p.Value))
  ran (passed a) = some a
  ran (refused e) = none

  pub check_pending-Covers :
      (c : Call p) (q : Pending) {a : Option (Dict p.Value)}
      → ran (
          check_pending p c.tool
            (fingerprint p c.tool (cleaned p c))
            (user_id p c.access_token)
            c.now
            (cleaned p c)
            (some q))
        ≡ some a
      → Covers c q × (a ≡ some (cleaned p c))
  unfolding check_pending
  check_pending-Covers c q {a} h = ground (
    arith,
    eq_iff q.tool c.tool,
    eq_iff q.fingerprint (fingerprint p c.tool (cleaned p c)),
    eq_iff q.user_id (user_id p c.access_token),
  )

  pub Covers-check_pending :
      (c : Call p) (q : Pending)
      → Covers c q
      → check_pending p c.tool
          (fingerprint p c.tool (cleaned p c))
          (user_id p c.access_token)
          c.now
          (cleaned p c)
          (some q)
        ≡ passed (some (cleaned p c))
  unfolding check_pending
  Covers-check_pending c q k = ground (
    arith,
    k.same_tool,
    k.same_print,
    k.same_user,
    eq_iff q.tool c.tool,
    eq_iff q.fingerprint (fingerprint p c.tool (cleaned p c)),
    eq_iff q.user_id (user_id p c.access_token),
  )

  -- The call presents a token whose entry in the store covers it.
  pub record Consented (c : Call p) (s : Store) : Type 0 where
    pub token : String
    pub entry : Pending
    pub presents : token_of p c ≡ some token
    pub holds : lookup token s ≡ some entry
    pub covers : Covers c entry

  gate-Consented :
      (c : Call p) (s : Store) {a : Option (Dict p.Value)} (t : Option String)
      → token_of p c ≡ t
      → ran (gate p c (cleaned p c) t s).0 ≡ some a
      → Consented c s × (a ≡ some (cleaned p c))
  unfolding gate
  gate-Consented c s none e h = absurd (ground arith)
  gate-Consented c s (some token) e h = elim (Option-cases (lookup token s)) [
    | inl missing ↦ absurd (unfold check_pending in ground arith)
    | inr (q, found) ↦
        let (k, same) = check_pending-Covers c q (rw found at h) in
        (record { token = token; entry = q; presents = e; holds = found; covers = k }, same)
  ]

  -- A destructive tool runs only if the call presents a token whose stored entry was made for the
  -- same tool, fingerprint and user and has not expired; it then runs on the call's own
  -- arguments without `confirm`.
  pub passed-Consented :
      (c : Call p) (s : Store) {a : Option (Dict p.Value)}
      → contains c.tool destructive ≡ true
      → ran (on_call_tool p c s).0 ≡ some a
      → Consented c s × (a ≡ some (cleaned p c))
  unfolding on_call_tool
  passed-Consented c s d h = gate-Consented c s (token_of p c) refl (rw d at h)

  pub Consented-passed :
      (c : Call p) (s : Store)
      → contains c.tool destructive ≡ true
      → Consented c s
      → (on_call_tool p c s).0 ≡ passed (some (cleaned p c))
  unfolding on_call_tool gate
  Consented-passed c s d k =
      rw (d, k.presents) (rw k.holds (Covers-check_pending c k.entry k.covers))

  -- A call that presents a token takes exactly that token out of the store.
  pub lookup-presented :
      (c : Call p) (s : Store) (j token : String)
      → contains c.tool destructive ≡ true
      → token_of p c ≡ some token
      → lookup j (on_call_tool p c s).1 ≡ (if str_eq j token then none else lookup j s)
  unfolding on_call_tool gate
  lookup-presented c s j token d e = rw (d, e) (lookup-erase token j s)

  -- Whatever the outcome, a presented token has left the store.
  pub presented_is_spent :
      (c : Call p) (s : Store) (token : String)
      → contains c.tool destructive ≡ true
      → token_of p c ≡ some token
      → lookup token (on_call_tool p c s).1 ≡ none
  unfolding on_call_tool gate
  presented_is_spent c s token d e =
      rw (d, e) (ground (arith, lookup-erase token token s, eq_iff token token))

  -- A destructive call with a token that is not in the store is refused as unknown.
  pub unknown_is_refused :
      (c : Call p) (s : Store) (token : String)
      → contains c.tool destructive ≡ true
      → token_of p c ≡ some token
      → lookup token s ≡ none
      → (on_call_tool p c s).0 ≡ refused unknown_token
  unfolding on_call_tool gate check_pending
  unknown_is_refused c s token d e absent = rw (d, e) (rw absent)

  -- The call that answers the challenge of `c`: the same one at a later time, with `confirm`.
  abbrev pub answer : Call p → p.Value → ℕ → Call p
  answer c v later = record c {
    arguments = some (insert confirm_arg v (or_empty p c.arguments));
    now = later;
  }

  cleaned-answer :
      (c : Call p) (v : p.Value) (later : ℕ) → cleaned p (answer c v later) ≡ cleaned p c
  cleaned-answer c v later = erase-insert confirm_arg v (or_empty p c.arguments)

  token_of-answer :
      (c : Call p) (v : p.Value) (later : ℕ)
      → p.truthy v ≡ true
      → token_of p (answer c v later) ≡ some (p.str v)
  token_of-answer c v later h =
      rw (lookup-insert confirm_arg confirm_arg v (or_empty p c.arguments)) (rw h)

  -- The entry that a challenge of `c` stores.
  abbrev pub entry_for : Call p → Pending
  entry_for c = record {
    tool = c.tool;
    fingerprint = fingerprint p c.tool (cleaned p c);
    user_id = user_id p c.access_token;
    expires_at = c.now + ttl;
  }

  pub lookup-challenge :
      (c : Call p) (s : Store) (j : String)
      → contains c.tool destructive ≡ true
      → token_of p c ≡ none
      → lookup j (on_call_tool p c s).1
        ≡ (if str_eq j c.fresh then some (entry_for c) else lookup j (prune c.now s))
  unfolding on_call_tool gate mint
  lookup-challenge c s j d e = rw (d, e) (lookup-insert c.fresh j (entry_for c) (prune c.now s))

  entry_for-Covers :
      (c : Call p) (v : p.Value) (later : ℕ)
      → later < c.now + ttl
      → Covers (answer c v later) (entry_for c)
  entry_for-Covers c v later in_time = record {
    same_tool = refl;
    same_print = ap (fingerprint p c.tool) (sym (cleaned-answer c v later));
    same_user = refl;
    live = in_time;
  }

  -- A destructive call without a token is challenged; if the very next call on the store is the
  -- identical call with the token of the challenge in `confirm`, before the time to live is over,
  -- it goes through on the arguments of the first call without `confirm`.
  pub challenge_answer :
      (c : Call p) (s : Store) (v : p.Value) (later : ℕ)
      → contains c.tool destructive ≡ true
      → token_of p c ≡ none
      → p.truthy v ≡ true
      → p.str v ≡ c.fresh
      → later < c.now + ttl
      → (on_call_tool p (answer c v later) (on_call_tool p c s).1).0 ≡ passed (some (cleaned p c))
  challenge_answer c s v later d e truth text in_time =
      Consented-passed (answer c v later) (on_call_tool p c s).1 d (record {
        token = c.fresh;
        entry = entry_for c;
        presents = token_of-answer c v later truth ∙ ap some text;
        holds =
            lookup-challenge c s c.fresh d e
            ∙ ap (λ b. if b then some (entry_for c) else lookup c.fresh (prune c.now s))
                (str_eq_refl c.fresh);
        covers = entry_for-Covers c v later in_time;
      })
      ∙ ap (λ a. passed (some a)) (cleaned-answer c v later)

-- No name of the list is in `DESTRUCTIVE`.
abbrev disjoint : List String → Bool
disjoint [] = true
disjoint (k ∷ ks) = let rest = disjoint ks in if contains k destructive then false else rest

tables_disjoint : disjoint read_only ≡ true
unfolding destructive read_only
tables_disjoint = refl

disjoint-mem :
    (k : String) (ks : List String)
    → disjoint ks ≡ true
    → mem k ks ≡ true
    → contains k destructive ≡ false
disjoint-mem k [] h m = absurd (ground arith)
disjoint-mem k (j ∷ ks) h m = ground (arith, disjoint-mem k ks, eq_iff k j)

-- A tool is advertised as read-only exactly when it is in `READ_ONLY`, and as destructive exactly
-- when it is in `DESTRUCTIVE`; no tool is advertised as both.
pub hints_iff :
    (name : String)
    → (((annotations_for name).read_only_hint ≡ some true) ↔ (mem name read_only ≡ true))
      × (((annotations_for name).destructive_hint ≡ some true) ↔ (contains name destructive ≡ true))
      × ¬ ((mem name read_only ≡ true) × (contains name destructive ≡ true))
unfolding annotations_for
hints_iff name = (
  (λ h. ground arith, λ h. ground (arith, disjoint-mem name read_only tables_disjoint h)),
  (λ h. ground arith, λ h. ground arith),
  λ both. ground (arith, both.0, both.1, disjoint-mem name read_only tables_disjoint both.0),
)
