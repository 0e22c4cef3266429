-- ===== src/Assets/Sync/Counts.antt =====
-- backend/app/services/asc/asset_sync.py, `apply_sync_step`: the uploads and deletions it makes.
use aso_light.Base.{
  ℕ, ◌+◌, ◌-◌, String, ◌≡◌, refl, ap, subst, arith, Option, none, some, List, [], ◌∷◌, ◌++◌, length,
  str_eq, inl, inr, Bool-cases,
}
use aso_light.Assets.Slots.{
  Asset, ExportFile, SyncStep, slot_matches, count_changed, count_replaced, uploads, deletes,
}
use aso_light.Assets.Client.{
  Bytes, Operation, no_asset_id, Calls, World, Error, Result, ok, err, Progress, asset_set_ids,
  set_or_new, set_of, find_or_create_asset_set, key, content_type, put_part, put_all, upload_asset,
  required, reorder_set, delete_asset, read_planned_bytes,
}
use aso_light.Assets.Sync.{
  known_or_added, ensure_step_set, set_or_ensure, delete_current, fill_slot, fill_slots,
  delete_extras, apply_slots, apply_sync_step, started,
}
use aso_light.Assets.Sync.Rules.{
  Made, Made-refl, Made-trans, called-Made, bind-Made, success-parts, same-Made, ended-Made,
  reserves, deletions,
}

-- 1 if there is an asset to replace
abbrev pub held : Option Asset → ℕ
held none = 0
held (some a) = 1

-- What a run of the loop leaves of the existing assets.
abbrev left_of : Result (Option String × List String × List Asset) → List Asset
left_of (ok b) = b.2
left_of (err e) = []

count_replaced_nil : (files : List ExportFile) → count_replaced [] files ≡ 0
count_replaced_nil [] = refl
count_replaced_nil (f ∷ files) = refl

module _ (w : World) where
  key-Made {ℓ} : {A : Type ℓ} (o : Option A) (p : Progress) → Made 0 0 p (key w o p).1
  key-Made none p = Made-refl p
  key-Made (some a) p = Made-refl p

  content_type-Made :
      (current : String) (headers : List (String × Option String)) (p : Progress)
      → Made 0 0 p (content_type w current headers p).1
  content_type-Made current [] p = Made-refl p
  content_type-Made current ((name, value) ∷ headers) p =
      elim (Bool-cases (str_eq (w.lower name) "content-type")) [
        | inl typed ↦ rw typed (
            bind-Made (key w value p) (λ v. content_type w v headers) (key-Made value p)
              λ v q. content_type-Made v headers q)
        | inr other ↦ rw other (content_type-Made current headers p)
      ]

  put_part-Made :
      (op : Operation) (bytes : Bytes) (p : Progress) → Made 0 0 p (put_part w op bytes p).1
  put_part-Made op bytes p = bind-Made _ _ (content_type-Made _ op.headers p) λ content q.
      bind-Made _ _ (key-Made op.url q)
        λ url t. bind-Made _ _ (key-Made op.size t) λ size u. called-Made _ u

  put_all-Made :
      (ops : List Operation) (bytes : Bytes) (p : Progress) → Made 0 0 p (put_all w ops bytes p).1
  unfolding put_all
  put_all-Made [] bytes p = Made-refl p
  put_all-Made (op ∷ ops) bytes p =
      bind-Made (put_part w op bytes p) (λ u. put_all w ops bytes) (put_part-Made op bytes p)
        (λ u q. put_all-Made ops bytes q)

  pub required-Made :
      (o : Option String) (e : Error) (p : Progress) → Made 0 0 p (required w o e p).1
  required-Made none e p = Made-refl p
  required-Made (some i) e p = elim (Bool-cases (str_eq i "")) [
    | inl empty ↦ rw empty (Made-refl p)
    | inr full ↦ rw full (Made-refl p)
  ]

  -- An upload begins once, whatever becomes of it.
  pub upload_asset-Made :
      (set_id : String) (bytes : Bytes) (f : ExportFile) (p : Progress)
      → Made 1 0 p (upload_asset w set_id bytes f p).1
  unfolding upload_asset
  upload_asset-Made set_id bytes f p = bind-Made _ _ (called-Made _ p) λ reservation q.
      bind-Made _ _ (required-Made reservation.id _ q) λ asset_id t.
        bind-Made _ _ (put_all-Made reservation.operations bytes t) λ u v. called-Made _ v

  set_or_new-Made :
      (i : String) (t s : Option String) (p : Progress) → Made 0 0 p (set_or_new w i t s p).1
  set_or_new-Made i t (some s) p = Made-refl p
  set_or_new-Made i t none p = called-Made _ p

  find_or_create_asset_set-Made :
      (i : String) (t : Option String) (p : Progress)
      → Made 0 0 p (find_or_create_asset_set w i t p).1
  unfolding find_or_create_asset_set asset_set_ids
  find_or_create_asset_set-Made i t p =
      bind-Made _ _ (bind-Made _ _ (called-Made _ p) λ objects q. Made-refl q)
        λ ids q. set_or_new-Made i t (set_of w t ids) q

  module _ (version_id locale : String) (display_type : Option String) where
    known_or_added-Made :
        (o : Option String) (p : Progress)
        → Made 0 0 p (known_or_added w version_id locale display_type o p).1
    known_or_added-Made (some i) p = Made-refl p
    known_or_added-Made none p =
        bind-Made _ _ (called-Made _ p)
          λ i q. record { begun = omega arith; gone = omega arith; kept = λ n cap room fits. fits }

    ensure_step_set-Made :
        (p : Progress) → Made 0 0 p (ensure_step_set w version_id locale display_type p).1
    unfolding ensure_step_set
    ensure_step_set-Made p =
        bind-Made _ _ (known_or_added-Made p.localization_id p)
          λ i q. find_or_create_asset_set-Made i display_type q

    pub set_or_ensure-Made :
        (o : Option String) (p : Progress)
        → Made 0 0 p (set_or_ensure w version_id locale display_type o p).1
    set_or_ensure-Made none p = ensure_step_set-Made p
    set_or_ensure-Made (some i) p = elim (Bool-cases (str_eq i "")) [
      | inl empty ↦ rw empty (ensure_step_set-Made p)
      | inr full ↦ rw full (Made-refl p)
    ]

    pub delete_current-Made :
        (o : Option Asset) (p : Progress)
        → Made 0 (held o) p (delete_current w version_id locale display_type o p).1
    unfolding delete_asset
    delete_current-Made none p = Made-refl p
    delete_current-Made (some a) p = called-Made _ p

    -- A slot that is filled takes one upload, and one deletion if it held an asset.
    pub fill_slot-Made :
        (set_id : Option String) (current : Option Asset) (f : ExportFile) (p : Progress)
        (b : String × String) (t : Progress)
        → fill_slot w version_id locale display_type set_id current f p ≡ (ok b, t)
        → Made 1 (held current) p t
    unfolding fill_slot read_planned_bytes
    fill_slot-Made set_id current f p b t e =
        let (bytes, (q, (read, e1))) = success-parts _ _ e in
        let (u, (x, (gone, e2))) = success-parts _ _ e1 in
        let (target, (y, (found, e3))) = success-parts _ _ e2 in
        let (o, (z, (sent, e4))) = success-parts _ _ e3 in
        let (i, (v, (known, e5))) = success-parts _ _ e4 in
        let to_q = ended-Made (called-Made _ p) read in
        let to_x = Made-trans to_q (ended-Made (delete_current-Made current q) gone) in
        let to_y = Made-trans to_x (ended-Made (set_or_ensure-Made set_id x) found) in
        let to_z = Made-trans to_y (ended-Made (upload_asset-Made target bytes f y) sent) in
        let to_v =
          Made-trans to_z (ended-Made (required-Made o (no_asset_id locale f.name) z) known) in
        same-Made (Made-trans to_v (ended-Made (Made-refl v) e5)) (omega arith) (omega arith)

    -- The loop over the files uploads each changed slot, deletes each that held an asset, and
    -- leaves the assets beyond the files.
    pub fill_slots-Made :
        (files : List ExportFile) (existing : List Asset) (set_id : Option String)
        (order : List String) (p : Progress) (b : Option String × List String × List Asset)
        (t : Progress)
        → fill_slots w version_id locale display_type files existing set_id order p ≡ (ok b, t)
        → Made (count_changed existing files) (count_replaced existing files) p t
          × (length b.2 ≡ length existing - length files)
    unfolding fill_slots
    fill_slots-Made [] existing set_id order p b t e = (
      subst (λ q. Made 0 0 p q) (ap (λ x. x.1) e) (Made-refl p),
      omega (arith, ap (λ x. length (left_of x.0)) e),
    )
    fill_slots-Made (f ∷ files) [] set_id order p b t e =
        let (filled, (q, (first, then_))) = success-parts _ _ e in
        let (made, left) = fill_slots-Made files [] _ _ q b t then_ in
        (
          same-Made (Made-trans (fill_slot-Made set_id none f p filled q first) made) (omega arith)
              (omega (arith, count_replaced_nil files)),
          omega (arith, left),
        )
    fill_slots-Made (f ∷ files) (a ∷ existing) set_id order p b t e =
        elim (Bool-cases (slot_matches a f)) [
          | inl same ↦
              let (made, left) =
                fill_slots-Made files existing set_id (order ++ a.id ∷ []) p b t
                  (rw (same, fill_slots) at e) in
              (same-Made made (rw same refl) (rw same refl), omega (arith, left))
          | inr new ↦
              let (filled, (q, (first, then_))) = success-parts _ _ (rw (new, fill_slots) at e) in
              let (made, left) = fill_slots-Made files existing _ _ q b t then_ in
              (
                same-Made (Made-trans (fill_slot-Made set_id (some a) f p filled q first) made)
                    (rw new (omega arith)) (rw new (omega arith)),
                omega (arith, left),
              )
        ]

    delete_extras-Made :
        (extras : List Asset) (p : Progress) (u : Unit {0}) (t : Progress)
        → delete_extras w version_id locale display_type extras p ≡ (ok u, t)
        → Made 0 (length extras) p t
    unfolding delete_extras delete_asset
    delete_extras-Made [] p u t e = ended-Made (Made-refl p) e
    delete_extras-Made (a ∷ extras) p u t e =
        let (v, (q, (gone, then_))) = success-parts _ _ e in
        same-Made
          (Made-trans (ended-Made (called-Made _ p) gone) (delete_extras-Made extras q u t then_))
          (omega arith) (omega arith)

    apply_slots-Made :
        (files : List ExportFile) (existing : List Asset) (set_id : Option String) (p : Progress)
        (u : Unit {0}) (t : Progress)
        → apply_slots w version_id locale display_type files existing set_id p ≡ (ok u, t)
        → Made
            (count_changed existing files)
            (count_replaced existing files + (length existing - length files))
            p
            t
    unfolding apply_slots reorder_set
    apply_slots-Made files existing set_id p u t e =
        let (slots, (q, (filled, e1))) = success-parts _ _ e in
        let (v, (x, (gone, e2))) = success-parts _ _ e1 in
        let (made, left) = fill_slots-Made files existing set_id [] p slots q filled in
        same-Made
          (Made-trans (Made-trans made (delete_extras-Made slots.2 q v x gone))
            (ended-Made (called-Made _ x) e2))
          (omega arith) (omega (arith, left))

  -- A step that succeeds makes exactly the uploads and the deletions that its plan announces.
  pub apply_sync_step-counts :
      (step : SyncStep) (version_id : String) (h : Calls) (u : Unit {0}) (t : Progress)
      → apply_sync_step w step version_id h ≡ (ok u, t)
      → (reserves t.calls ≡ uploads step + reserves h)
        × (deletions t.calls ≡ deletes step + deletions h)
  unfolding uploads deletes
  apply_sync_step-counts step version_id h u t e =
      let made =
        apply_slots-Made version_id step.locale step.display_type step.files step.existing
          step.set_id (started step h) u t e in
      (made.begun, made.gone)
