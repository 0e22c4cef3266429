-- ===== src/Mcp/Consent.antt =====
-- backend/app/mcp/consent.py: the gate in front of destructive tools.
-- A call's time is `time.monotonic()` in nanoseconds, and the token that `secrets.token_urlsafe`
-- would return comes with the call. The process-global `_pending` is the state.
mod Tables
pub mod Store
pub mod Gate
pub mod Trace
pub mod Approval
pub mod Replay
mod Tests
unfoldable pub use Tables.{destructive, read_only}
use aso_light.Base.{
  ℕ, ◌+◌, ◌-◌, ◌*◌, ◌^◌, String, Bool, true, false, not, Option, none, some, List, [], ◌∷◌, map,
  length, take, keep, leb, ltb, str_eq, if◌then◌else◌,
}
use aso_light.Base.Dict.{Dict, mem, lookup, contains, insert, erase}
use aso_light.Base.Sort.{sort}
use Prim.Native.String.{◌++◌}

-- What the module takes from `json`, `hashlib` and Python itself: a JSON value, its `str`, its
-- truth, the two `json.dumps` calls, and the hex digest of SHA-256 over a text.
pub record Platform : Type 1 where
  pub Value : Type 0
  pub str : Value → String
  pub truthy : Value → Bool
  pub dumps : Dict Value → String
  pub dumps_indented : Dict Value → String
  pub sha256 : String → String

abbrev pub confirm_arg : String
confirm_arg = "confirm"

abbrev pub ttl : ℕ
ttl = 300 * 10 ^ 9

abbrev pub max_pending : ℕ
max_pending = 512

pub record Pending : Type 0 where
  pub tool : String
  pub fingerprint : String
  pub user_id : String
  pub expires_at : ℕ

-- `_pending`
abbrev pub Store : Type 0
Store = Dict Pending

-- `del _pending[token]` for each token of a list
abbrev pub erase_all : List String → Store → Store
erase_all [] s = s
erase_all (t ∷ ts) s = erase_all ts (erase t s)

abbrev pub key : String × Pending → String
key (t, p) = t

abbrev pub is_expired : ℕ → String × Pending → Bool
is_expired now (t, p) = leb p.expires_at now

abbrev pub oldest_first : String × Pending → String × Pending → Bool
oldest_first (t, p) (u, q) = leb p.expires_at q.expires_at

-- `[t for t, p in _pending.items() if p.expires_at <= now]`
abbrev pub expired_tokens : ℕ → Store → List String
expired_tokens now s = map key (keep (is_expired now) s)

-- `sorted(_pending, key=...)[: len(_pending) - _MAX_PENDING]`
abbrev pub oldest_tokens : Store → List String
oldest_tokens s = map key (take (length s - max_pending) (sort oldest_first s))

-- The second half of `_prune`: the oldest tokens beyond the bound go.
pub evict : Store → Store
evict s = if ltb max_pending (length s) then erase_all (oldest_tokens s) s else s

pub prune : ℕ → Store → Store
prune now s = evict (erase_all (expired_tokens now s) s)

-- `_mint`, with the token that `secrets` returned
pub mint : String → String → String → String → ℕ → Store → Store
mint tool fingerprint user_id token now s =
    insert token
      (record { tool = tool; fingerprint = fingerprint; user_id = user_id; expires_at = now + ttl })
      (prune now s)

pub data ToolError : Type 0 where
  consent_required : String → ToolError
  unknown_token expired different_user : ToolError
  mismatch : String → ToolError

-- `ToolAnnotations`; a hint that is not given is `none`.
pub record Annotations : Type 0 where
  pub destructive_hint : Option Bool
  pub read_only_hint : Option Bool
  pub idempotent_hint : Option Bool

-- `_annotations_for`
pub annotations_for : String → Annotations
annotations_for name =
    if contains name destructive
    then record {
      destructive_hint = some true;
      read_only_hint = some false;
      idempotent_hint = some false;
    }
    else if mem name read_only
    then record {
      destructive_hint = some false;
      read_only_hint = some true;
      idempotent_hint = none;
    }
    else record {
      destructive_hint = some false;
      read_only_hint = some false;
      idempotent_hint = none;
    }

-- A registered tool: its name, its hints and the rest of its description.
pub record Tool : Type 0 where
  pub name : String
  pub description : String
  pub annotations : Option Annotations

-- `on_list_tools`, over the list that `call_next` returned
pub on_list_tools : List Tool → List Tool
on_list_tools [] = []
on_list_tools (t ∷ ts) = record t { annotations = some (annotations_for t.name) } ∷ on_list_tools ts

module _ (p : Platform) where
  open p use {Value, str, truthy, dumps, dumps_indented, sha256}

  -- One `tools/call` request with what it reads from outside: the claims of the access token
  -- (no token, or a token whose claims may be null), the clock and the next random token.
  pub record Call : Type 0 where
    pub tool : String
    pub arguments : Option (Dict Value)
    pub access_token : Option (Option (Dict Value))
    pub now : ℕ
    pub fresh : String

  -- `x or {}`
  abbrev pub or_empty : Option (Dict Value) → Dict Value
  or_empty none = []
  or_empty (some d) = d

  abbrev pub claimed : Option Value → String
  claimed none = "anonymous"
  claimed (some v) = str v

  -- `_user_id`
  pub user_id : Option (Option (Dict Value)) → String
  user_id none = "anonymous"
  user_id (some claims) = claimed (lookup "user_id" (or_empty claims))

  -- `_fingerprint`
  pub fingerprint : String → Dict Value → String
  fingerprint tool arguments = sha256 ((tool ++ "\0") ++ dumps arguments)

  abbrev pub impact : Option String → String
  impact none = ""
  impact (some text) = text

  -- `_challenge`
  pub challenge : String → Dict Value → String → String
  challenge tool arguments token =
      "CONSENT REQUIRED — "
      ++ (tool
          ++ (" is destructive and was not confirmed.\n\n"
              ++ (impact (lookup tool destructive)
                  ++ ("\n\nArguments this consent covers:\n"
                      ++ (dumps_indented arguments
                          ++ ("\n\nShow this to the user. If they approve, repeat the identical call with "
                              ++ (confirm_arg
                                  ++ ("=\""
                                      ++ (token
                                          ++ "\".\nThe token is single-use, expires in 300s, and covers only these exact arguments — every destructive call needs its own.")))))))))

  -- How a call ends: the tool runs on these arguments, or the gate raises.
  pub data Outcome : Type 0 where
    passed : Option (Dict Value) → Outcome
    refused : ToolError → Outcome

  -- `if not token`: an absent argument or a falsy one
  abbrev pub presented : Option Value → Option String
  presented none = none
  presented (some v) = if truthy v then some (str v) else none

  -- The checks on a popped token, in the order of the code.
  pub check_pending : String → String → String → ℕ → Dict Value → Option Pending → Outcome
  check_pending tool print user now arguments none = refused unknown_token
  check_pending tool print user now arguments (some q) =
      if leb q.expires_at now
      then refused expired
      else if not (str_eq q.user_id user)
      then refused different_user
      else if not (str_eq q.tool tool)
      then refused (mismatch q.tool)
      else if not (str_eq q.fingerprint print)
      then refused (mismatch q.tool)
      else passed (some arguments)

  -- The part of `on_call_tool` that a destructive tool reaches.
  pub gate : Call → Dict Value → Option String → Store → Outcome × Store
  gate c arguments none s = (
    refused (consent_required (challenge c.tool arguments c.fresh)),
    mint c.tool (fingerprint c.tool arguments) (user_id c.access_token) c.fresh c.now s,
  )
  gate c arguments (some token) s = (
    check_pending c.tool (fingerprint c.tool arguments) (user_id c.access_token) c.now arguments
        (lookup token s),
    erase token s,
  )

  -- The arguments without `confirm`.
  abbrev pub cleaned : Call → Dict Value
  cleaned c = erase confirm_arg (or_empty c.arguments)

  -- The token that the call presents, if it presents one.
  abbrev pub token_of : Call → Option String
  token_of c = presented (lookup confirm_arg (or_empty c.arguments))

  -- `on_call_tool`
  pub on_call_tool : Call → Store → Outcome × Store
  on_call_tool c s =
      if contains c.tool destructive
      then gate c (cleaned c) (token_of c) s
      else (passed c.arguments, s)
