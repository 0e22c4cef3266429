-- ===== src/Mcp/Consent/Tests.antt =====
-- The gate on a small session: a locale is deleted after one challenge.
use Prim.Native.String.{◌++◌}
use aso_light.Base.{
  ◌+◌, ◌*◌, ◌^◌, ◌≤◌, String, not, ◌≡◌, refl, some, [], ◌∷◌, length, str_eq, arith,
}
use aso_light.Base.Dict.{Dict}
use aso_light.Mcp.Consent.{
  Platform, Call, passed, refused, unknown_token, destructive, on_call_tool, gate, check_pending,
  mint, prune, evict, fingerprint, user_id, max_pending,
}
use aso_light.Mcp.Consent.Gate.{challenge_answer, answer}
use aso_light.Mcp.Consent.Trace.{after, outcome, runs, challenges, length-after, runs-le-challenges}
use aso_light.Mcp.Consent.Approval.{Approved, run-Approved}
use aso_light.Mcp.Consent.Replay.{replay_refused}

-- The arguments as one text
abbrev write : Dict String → String
write [] = ""
write ((k, v) ∷ d) = k ++ (":" ++ (v ++ (";" ++ write d)))

-- Arguments are texts; the digest is the text itself.
abbrev plain : Platform
plain = record {
  Value = String;
  str = λ v. v;
  truthy = λ v. not (str_eq v "");
  dumps = write;
  dumps_indented = write;
  sha256 = λ t. t;
}

abbrev first : Call plain
first = record {
  tool = "metadata_delete_locale";
  arguments = some (("app_id", "7") ∷ ("locale", "fr-FR") ∷ []);
  access_token = some (some (("user_id", "3") ∷ []));
  now = 1000;
  fresh = "tok-1";
}

-- The same call with the token, twenty seconds later.
abbrev confirmed : Call plain
confirmed = answer plain first "tok-1" (1000 + 20 * 10 ^ 9)

abbrev replay : Call plain
replay = record confirmed { now = 1000 + 30 * 10 ^ 9 }

runs-confirmed :
    (runs plain (replay ∷ confirmed ∷ first ∷ []) ≡ 1)
    × (challenges plain (replay ∷ confirmed ∷ first ∷ []) ≡ 1)
unfolding on_call_tool gate check_pending mint prune evict fingerprint user_id destructive
runs-confirmed = (refl, refl)

challenge_answer_example :
    (on_call_tool plain confirmed (on_call_tool plain first []).1).0
    ≡ passed (some (("app_id", "7") ∷ ("locale", "fr-FR") ∷ []))
unfolding destructive
challenge_answer_example =
    challenge_answer plain first [] "tok-1" (1000 + 20 * 10 ^ 9) refl refl refl refl (omega arith)

run-Approved_example : Approved plain confirmed (first ∷ [])
unfolding on_call_tool gate check_pending mint prune evict fingerprint user_id destructive
run-Approved_example = run-Approved plain confirmed (first ∷ []) refl refl

replay_refused_example : outcome plain replay (confirmed ∷ first ∷ []) ≡ refused unknown_token
unfolding destructive
replay_refused_example =
    replay_refused plain confirmed replay "tok-1" [] (first ∷ []) refl refl refl refl tt

length-after_example : length (after plain (confirmed ∷ first ∷ [])) ≤ max_pending + 1
length-after_example = length-after plain (confirmed ∷ first ∷ [])

runs-le-challenges_example :
    runs plain (confirmed ∷ first ∷ []) + length (after plain (confirmed ∷ first ∷ []))
    ≤ challenges plain (confirmed ∷ first ∷ [])
runs-le-challenges_example = runs-le-challenges plain (confirmed ∷ first ∷ [])
