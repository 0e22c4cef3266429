-- ===== src/Visibility/Anomaly.antt =====
-- backend/app/services/visibility/anomaly.py: surges, drops, new and gone tracks of one watch.
-- `statistics.median` is written out: the middle of the sorted positions, or the mean of the two
-- in the middle, which `round` takes to the nearest even number where it is a half.
pub mod Cases
pub mod Complete
mod Tests
use aso_light.Base.{
  ℕ, zero, suc, ◌+◌, ◌-◌, ◌/◌, ◌%◌, String, Bool, true, false, ◌&&◌, ◌||◌, Option, none, some, List,
  [], ◌∷◌, ◌++◌, length, ltb, leb, if◌then◌else◌, eqb,
}
use aso_light.Base.Dict.{Dict, contains, lookup, insert}
use aso_light.Base.Int.{ℤ, pos, ◌-ℤ◌, ltb_ℤ, abs}
use aso_light.Base.Sort.{sort}

-- What the module reads of `KeywordVisibilityResult`; a snapshot is its list of results.
pub record Result : Type 0 where
  pub track_id : String
  pub name : String
  pub icon_url : String
  pub position : ℕ

abbrev pub Snapshot : Type 0
Snapshot = List Result

-- `AnomalyKind`
pub data AnomalyKind : Type 0 where
  surge drop new gone : AnomalyKind

pub record Anomaly : Type 0 where
  pub kind : AnomalyKind
  pub track_id : String
  pub name : String
  pub icon_url : String
  pub prev_median_position : Option ℕ
  pub latest_position : Option ℕ
  pub delta : ℤ

-- `_result_index`: a later result of a track replaces an earlier one.
abbrev pub index_results : List Result → Dict Result → Dict Result
index_results [] d = d
index_results (r ∷ rs) d = index_results rs (insert r.track_id r d)

unfoldable pub result_index : Snapshot → Dict Result
result_index snap = index_results snap []

-- `history.get(track_id, [])`
abbrev pub positions_of : String → Dict (List ℕ) → List ℕ
positions_of t history = elim (lookup t history) [ none ↦ [] | some ps ↦ ps ]

-- `history` and `history_meta`
pub record History : Type 0 where
  pub positions : Dict (List ℕ)
  pub meta : Dict Result

abbrev pub add_result : Result → History → History
add_result r h = record {
  positions =
      insert r.track_id (positions_of r.track_id h.positions ++ r.position ∷ []) h.positions;
  meta = insert r.track_id r h.meta;
}

abbrev pub add_results : List Result → History → History
add_results [] h = h
add_results (r ∷ rs) h = add_results rs (add_result r h)

unfoldable pub build_history : List Snapshot → History → History
build_history [] h = h
build_history (snap ∷ snaps) h = build_history snaps (add_results snap h)

abbrev pub nth : ℕ → List ℕ → ℕ
nth n [] = 0
nth zero (x ∷ xs) = x
nth (suc n) (x ∷ xs) = nth n xs

-- Half of `s`, rounded half to even
abbrev pub half_even : ℕ → ℕ
half_even s = if eqb (s % 2) 0 then s / 2 else if eqb ((s / 2) % 2) 0 then s / 2 else s / 2 + 1

-- `int(round(median(positions)))`, for a list that is not empty
unfoldable pub median_position : List ℕ → ℕ
median_position positions =
    let sorted = sort leb positions in
    let n = length positions in
    if eqb (n % 2) 1
    then nth (n / 2) sorted
    else half_even (nth (n / 2 - 1) sorted + nth (n / 2) sorted)

module _ (min_delta history_min : ℕ) where
  abbrev pub new_anomaly : String → Result → Anomaly
  new_anomaly t r = record {
    kind = new;
    track_id = t;
    name = r.name;
    icon_url = r.icon_url;
    prev_median_position = none;
    latest_position = some r.position;
    delta = pos 0;
  }

  abbrev pub moved : String → Result → ℕ → Anomaly
  moved t r prev_med = record {
    kind = if ltb_ℤ (pos r.position -ℤ pos prev_med) (pos 0) then surge else drop;
    track_id = t;
    name = r.name;
    icon_url = r.icon_url;
    prev_median_position = some prev_med;
    latest_position = some r.position;
    delta = pos r.position -ℤ pos prev_med;
  }

  -- One round of the loop over the latest results.
  abbrev pub present : String → Result → List ℕ → List Anomaly
  present t r [] = new_anomaly t r ∷ []
  present t r (p ∷ ps) =
      if ltb (length (p ∷ ps)) history_min
      then []
      else if leb min_delta (abs (pos r.position -ℤ pos (median_position (p ∷ ps))))
      then moved t r (median_position (p ∷ ps)) ∷ []
      else []

  unfoldable pub present_anomalies : Dict (List ℕ) → Dict Result → List Anomaly
  present_anomalies history [] = []
  present_anomalies history ((t, r) ∷ d) =
      present t r (positions_of t history) ++ present_anomalies history d

  -- The entry of a vanished track; every track of the history has a last result.
  abbrev pub vanished : String → List ℕ → Option Result → List Anomaly
  vanished t ps none = []
  vanished t ps (some r) =
      record {
        kind = gone;
        track_id = t;
        name = r.name;
        icon_url = r.icon_url;
        prev_median_position = some (median_position ps);
        latest_position = none;
        delta = pos 0;
      }
      ∷ []

  -- The loop over the history.
  unfoldable pub gone_anomalies : Dict Result → Dict Result → Dict (List ℕ) → List Anomaly
  gone_anomalies latest meta [] = []
  gone_anomalies latest meta ((t, ps) ∷ d) =
      let rest = gone_anomalies latest meta d in
      if contains t latest || ltb (length ps) history_min
      then rest
      else vanished t ps (lookup t meta) ++ rest

-- `_KIND_RANK`
abbrev pub kind_rank : AnomalyKind → ℕ
kind_rank surge = 0
kind_rank drop = 1
kind_rank new = 2
kind_rank gone = 3

-- Whether the key `(_KIND_RANK[a.kind], -abs(a.delta))` is at most that of `b`
unfoldable pub comes_before : Anomaly → Anomaly → Bool
comes_before a b =
    if ltb (kind_rank a.kind) (kind_rank b.kind)
    then true
    else if ltb (kind_rank b.kind) (kind_rank a.kind)
    then false
    else leb (abs b.delta) (abs a.delta)

abbrev pub empty_history : History
empty_history = record { positions = []; meta = [] }

-- The anomalies of the latest snapshot against the history, before they are sorted.
unfoldable pub found : ℕ → ℕ → Snapshot → History → List Anomaly
found min_delta history_min latest history =
    present_anomalies min_delta history_min history.positions (result_index latest)
    ++ gone_anomalies min_delta history_min (result_index latest) history.meta history.positions

unfoldable pub detect_anomalies : ℕ → ℕ → List Snapshot → List Anomaly
detect_anomalies min_delta history_min [] = []
detect_anomalies min_delta history_min (latest ∷ prior) =
    sort comes_before (found min_delta history_min latest (build_history prior empty_history))
