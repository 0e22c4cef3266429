-- ===== src/Pricing/Cache/Stable.antt =====
-- backend/app/services/asc/price_point_cache.py: a ladder that reads well stays what it is.
use aso_light.Base.{
  String, true, false, ◌≡◌, refl, sym, ◌∙◌, subst, arith, eq_iff, Option, none, some, List, str_eq,
  inl, inr, Bool-cases, if◌then◌else◌,
}
use aso_light.Base.Dict.{lookup, erase, lookup-insert, lookup-erase}
use aso_light.Pricing.Territories.{alpha2_to_alpha3}
use aso_light.Pricing.Cache.{
  LadderTier, PricePoint, Codec, Disk, Reply, answered, api_error, Result, ok, invalid_segment,
  read_sync, read_text, parsed, points_of, points_in, get_with_price_point_ids, write_sync,
  with_raw, fetch_in, fetch_and_cache, tiers_of,
}

str_eq_refl : (s : String) → str_eq s s ≡ true
str_eq_refl s = ground (arith, eq_iff s s)

none_or_some : {A : Type 0} (a : A) → ok none ≡ ok (some a) → ⊥
none_or_some a e = ground (arith, e)

module _ (k : Codec) where
  -- What is read for a file.
  abbrev pub text_tiers : Option k.File → Option (List LadderTier)
  text_tiers none = none
  text_tiers (some text) = k.load_tiers text

  abbrev pub ladder_of :
      String → String → Option (List LadderTier) → Result (Option (List PricePoint))
  ladder_of tc product none = ok none
  ladder_of tc product (some tiers) = ok (points_in k product (lookup tc alpha2_to_alpha3) tiers)

  -- The price points of a territory on a disk.
  unfoldable pub ladder_at : String → String → Disk k → Result (Option (List PricePoint))
  ladder_at product tc disk =
      if k.is_safe tc then ladder_of tc product (text_tiers (lookup tc disk)) else invalid_segment

  parsed-tiers :
      (tc : String) (o : Option (List LadderTier)) (disk : Disk k) → (parsed k tc o disk).0 ≡ o
  parsed-tiers tc none disk = refl
  parsed-tiers tc (some tiers) disk = refl

  read_text-tiers :
      (tc : String) (o : Option k.File) (disk : Disk k) → (read_text k tc o disk).0 ≡ text_tiers o
  read_text-tiers tc none disk = refl
  read_text-tiers tc (some text) disk = parsed-tiers tc (k.load_tiers text) disk

  points_of-ladder :
      (tc product : String) (o : Option (List LadderTier)) (disk : Disk k)
      → (points_of k tc product (ok o, disk)) ≡ (ladder_of tc product o, disk)
  points_of-ladder tc product none disk = refl
  points_of-ladder tc product (some tiers) disk = refl

  pub get-ladder_at :
      (product tc : String) (disk : Disk k)
      → (get_with_price_point_ids k tc product disk).0 ≡ ladder_at product tc disk
  unfolding get_with_price_point_ids read_sync ladder_at
  get-ladder_at product tc disk = elim (Bool-cases (k.is_safe tc)) [
    | inl safe ↦ rw (safe, points_of-ladder, read_text-tiers) refl
    | inr unsafe ↦ rw unsafe refl
  ]

  -- A disk on which whatever read well reads the same.
  abbrev pub Keeps : String → Disk k → Disk k → Type 0
  Keeps product disk disk' =
      (tc : String) (pps : List PricePoint)
      → ladder_at product tc disk ≡ ok (some pps)
      → ladder_at product tc disk' ≡ ok (some pps)

  pub Keeps-refl : (product : String) (disk : Disk k) → Keeps product disk disk
  Keeps-refl product disk tc pps h = h

  pub Keeps-trans :
      (product : String) (a b c : Disk k)
      → Keeps product a b
      → Keeps product b c
      → Keeps product a c
  Keeps-trans product a b c h h' tc pps e = h' tc pps (h tc pps e)

  -- One file may change where nothing was read.
  Keeps-other :
      (product tc : String) (disk disk' : Disk k)
      → ((j : String) → str_eq j tc ≡ false → lookup j disk' ≡ lookup j disk)
      → ladder_at product tc disk ≡ ok none
      → Keeps product disk disk'
  unfolding ladder_at
  Keeps-other product tc disk disk' others unread j pps h = elim (Bool-cases (str_eq j tc)) [
    | inl same ↦
        let unread_j =
          subst (λ c. ladder_at product c disk ≡ ok none) (sym ((eq_iff j tc).0 same)) unread in
        absurd (none_or_some pps (sym unread_j ∙ h))
    | inr other ↦ rw (others j other) h
  ]

  read_text-Keeps :
      (product tc : String) (disk : Disk k) (o : Option k.File)
      → lookup tc disk ≡ o
      → k.is_safe tc ≡ true
      → Keeps product disk (read_text k tc o disk).1
  unfolding ladder_at
  read_text-Keeps product tc disk none e safe = Keeps-refl product disk
  read_text-Keeps product tc disk (some text) e safe = go (k.load_tiers text) refl
    where
      go :
          (t : Option (List LadderTier))
          → k.load_tiers text ≡ t
          → Keeps product disk (parsed k tc t disk).1
      go (some tiers) loaded = Keeps-refl product disk
      go none loaded =
          Keeps-other product tc disk (erase tc disk)
            (λ j other. lookup-erase tc j disk ∙ (rw other refl)) (rw (safe, e, loaded) refl)

  pub get-Keeps :
      (product' product tc : String) (disk : Disk k)
      → Keeps product' disk (get_with_price_point_ids k tc product disk).1
  unfolding get_with_price_point_ids read_sync
  get-Keeps product' product tc disk = elim (Bool-cases (k.is_safe tc)) [
    | inl safe ↦
        rw (safe, points_of-ladder) (read_text-Keeps product' tc disk (lookup tc disk) refl safe)
    | inr unsafe ↦ rw unsafe (Keeps-refl product' disk)
  ]

  read_text-same :
      (product tc : String) (disk : Disk k) (o : Option k.File)
      → lookup tc disk ≡ o
      → k.is_safe tc ≡ true
      → ladder_at product tc (read_text k tc o disk).1 ≡ ladder_at product tc disk
  unfolding ladder_at
  read_text-same product tc disk none e safe = refl
  read_text-same product tc disk (some text) e safe = go (k.load_tiers text) refl
    where
      go :
          (t : Option (List LadderTier))
          → k.load_tiers text ≡ t
          → ladder_at product tc (parsed k tc t disk).1 ≡ ladder_at product tc disk
      go (some tiers) loaded = refl
      go none loaded = rw (safe, e, loaded, lookup-erase tc tc disk, str_eq_refl tc) refl

  pub get-same :
      (product' product tc : String) (disk : Disk k)
      → ladder_at product' tc (get_with_price_point_ids k tc product disk).1
        ≡ ladder_at product' tc disk
  unfolding get_with_price_point_ids read_sync
  get-same product' product tc disk = elim (Bool-cases (k.is_safe tc)) [
    | inl safe ↦
        rw (safe, points_of-ladder) (read_text-same product' tc disk (lookup tc disk) refl safe)
    | inr unsafe ↦ rw unsafe refl
  ]

  pub fetch-Keeps :
      (product date tc : String) (ask : String → Reply (List PricePoint)) (disk : Disk k)
      → ladder_at product tc disk ≡ ok none
      → Keeps product disk (fetch_and_cache k date tc ask disk).1
  unfolding fetch_and_cache write_sync
  fetch-Keeps product date tc ask disk unread = in_ (lookup tc alpha2_to_alpha3)
    where
      with_ : (r : Reply (List PricePoint)) → Keeps product disk (with_raw k date tc r disk).1
      with_ (api_error message) = Keeps-refl product disk
      with_ (answered raw) = elim (Bool-cases (k.is_safe tc)) [
        | inl safe ↦ rw safe (
            Keeps-other product tc disk _
              (λ j other.
                lookup-insert tc j (k.dump_file date (tiers_of k raw)) disk ∙ (rw other refl))
              unread)
        | inr unsafe ↦ rw unsafe (Keeps-refl product disk)
      ]

      in_ : (o : Option String) → Keeps product disk (fetch_in k date tc ask o disk).1
      in_ none = Keeps-refl product disk
      in_ (some alpha3) = with_ (ask alpha3)
