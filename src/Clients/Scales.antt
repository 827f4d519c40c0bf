-- ===== src/Clients/Scales.antt =====
-- The scale that a device gets after it was set.
use redfog.Base.{
  ℕ, ◌≡◌, ◌≢◌, ◌⊎◌, ◌<◌, inl, inr, refl, sym, ap, ◌∙◌, subst, Option, Option-cases, none, some, get,
  get-insert_self, get-insert_ne, u32_size,
}
use redfog.Base.Text.{Text, text_discrete}
use redfog.Clients.State.{
  Result, ok, PairedEntry, ClientManager, resolution_key, entry_scale, persist,
}
use redfog.Clients.Records.{
  scale_for_cert_fingerprint, scaled_entry, change_entry, change_resolved, resolve_fingerprint,
  set_scale_for_paired,
}
use redfog.Clients.Keys.{resolution_key-Injective}
use redfog.Clients.Resolving.{Resolves, resolve_fingerprint-Resolves}

differ : (width height w h : ℕ) → (width ≢ w) ⊎ (height ≢ h) → (width ≡ w) × (height ≡ h) → ⊥
differ width height w h (inl n) (p, q) = n p
differ width height w h (inr n) (p, q) = n q

module _ {Scale : Type 0} where
  pub get-change_entry :
      (change : PairedEntry Scale → PairedEntry Scale) (fingerprint : Text)
      (entry : PairedEntry Scale) (m : ClientManager Scale)
      → get text_discrete fingerprint (m.paired_by_fingerprint) ≡ some entry
      → get text_discrete fingerprint ((change_entry change fingerprint m).paired_by_fingerprint)
        ≡ some (change entry)
  unfolding change_entry persist
  get-change_entry change fingerprint entry m h =
      rw (h, change_entry)
        (get-insert_self text_discrete fingerprint (change entry) (m.paired_by_fingerprint))

  pub change_entry-none :
      (change : PairedEntry Scale → PairedEntry Scale) (fingerprint : Text)
      (m : ClientManager Scale)
      → get text_discrete fingerprint (m.paired_by_fingerprint) ≡ none
      → change_entry change fingerprint m ≡ m
  unfolding change_entry
  change_entry-none change fingerprint m h = rw (h, change_entry) refl

  pub get-change_entry_ne :
      (change : PairedEntry Scale → PairedEntry Scale) (fingerprint other : Text)
      (m : ClientManager Scale)
      → fingerprint ≢ other
      → get text_discrete other ((change_entry change fingerprint m).paired_by_fingerprint)
        ≡ get text_discrete other (m.paired_by_fingerprint)
  unfolding change_entry persist
  get-change_entry_ne change fingerprint other m ne =
      elim (Option-cases (get text_discrete fingerprint (m.paired_by_fingerprint))) [
        | inl e ↦ rw (e, change_entry) refl
        | inr (entry, e) ↦
            rw (e, change_entry)
              (get-insert_ne text_discrete fingerprint other (change entry)
                (m.paired_by_fingerprint) ne)
      ]

  -- The scale of a resolution after one was set, for the resolution or as the default.
  scaled_entry_self :
      (scale : Scale) (width height : ℕ) (entry : PairedEntry Scale)
      → entry_scale (scaled_entry scale (some (width, height)) entry) width height ≡ some scale
  unfolding entry_scale scaled_entry
  scaled_entry_self scale width height entry =
      rw
        (
          get-insert_self text_discrete (resolution_key width height) scale
              (entry.scale_by_resolution),
          entry_scale,
        )
        refl

  scaled_entry_ne :
      (scale : Scale) (width height w h : ℕ) (entry : PairedEntry Scale)
      → resolution_key width height ≢ resolution_key w h
      → entry_scale (scaled_entry scale (some (width, height)) entry) w h ≡ entry_scale entry w h
  unfolding entry_scale scaled_entry
  scaled_entry_ne scale width height w h entry ne =
      rw
        (
          get-insert_ne text_discrete (resolution_key width height) (resolution_key w h) scale
              (entry.scale_by_resolution) ne,
          entry_scale,
        )
        refl

  abbrev pub scale_of : Option (PairedEntry Scale) → ℕ → ℕ → Option Scale
  scale_of found width height = elim found [
    | none ↦ none
    | some entry ↦ entry_scale entry width height
  ]

  pub scale_for-scale_of :
      (fingerprint : Text) (width height : ℕ) (m : ClientManager Scale)
      (found : Option (PairedEntry Scale))
      → get text_discrete fingerprint (m.paired_by_fingerprint) ≡ found
      → scale_for_cert_fingerprint fingerprint width height m ≡ scale_of found width height
  unfolding scale_for_cert_fingerprint
  scale_for-scale_of fingerprint width height m found e = rw (e, scale_for_cert_fingerprint) refl

  set_scale-ok :
      (text fingerprint : Text) (scale : Scale) (resolution : Option (ℕ × ℕ))
      (m : ClientManager Scale)
      → resolve_fingerprint text (m.paired_by_fingerprint) ≡ ok fingerprint
      → set_scale_for_paired text scale resolution m
        ≡ (change_entry (scaled_entry scale resolution) fingerprint m, ok tt)
  unfolding set_scale_for_paired change_resolved
  set_scale-ok text fingerprint scale resolution m e =
      ap (λ (r : Result Text). change_resolved (scaled_entry scale resolution) r m) e

  -- What a scale that is set for a resolution changes.
  abbrev pub SetsScale :
      Text → Scale → ℕ → ℕ → ClientManager Scale → ClientManager Scale × Result (Unit {0}) → Type 0
  SetsScale fingerprint scale width height m result =
      (result.1 ≡ ok tt)
      × (scale_for_cert_fingerprint fingerprint width height (result.0) ≡ some scale)
      × ((w h : ℕ)
          → w < u32_size
          → h < u32_size
          → (width ≢ w) ⊎ (height ≢ h)
          → scale_for_cert_fingerprint fingerprint w h (result.0)
            ≡ scale_for_cert_fingerprint fingerprint w h m)
      × ((other : Text) (w h : ℕ)
          → fingerprint ≢ other
          → scale_for_cert_fingerprint other w h (result.0)
            ≡ scale_for_cert_fingerprint other w h m)

  -- A text that resolves to a fingerprint sets the device's scale for a resolution: from then on the device
  -- has this scale at this resolution, every other resolution of it, and every other device, keeps the
  -- scale that it had. Widths and heights are of 32 bits.
  pub set_scale_for_paired-SetsScale :
      (text fingerprint : Text) (scale : Scale) (width height : ℕ) (m : ClientManager Scale)
      → width < u32_size
      → height < u32_size
      → resolve_fingerprint text (m.paired_by_fingerprint) ≡ ok fingerprint
      → SetsScale fingerprint scale width height m
          (set_scale_for_paired text scale (some (width, height)) m)
  set_scale_for_paired-SetsScale text fingerprint scale width height m hw hh resolved =
      let change = scaled_entry scale (some (width, height)) in
      let m' = change_entry change fingerprint m in
      let (entry, found) =
        (subst (Resolves text (m.paired_by_fingerprint)) resolved
          (resolve_fingerprint-Resolves text (m.paired_by_fingerprint))).0 in
      let now = get-change_entry change fingerprint entry m found in
      subst (SetsScale fingerprint scale width height m)
        (sym (set_scale-ok text fingerprint scale (some (width, height)) m resolved))
        (
          refl,
          scale_for-scale_of fingerprint width height m' _ now
              ∙ scaled_entry_self scale width height entry,
          λ w h bw bh ne.
              scale_for-scale_of fingerprint w h m' _ now
              ∙ scaled_entry_ne scale width height w h entry (λ same.
                differ width height w h ne
                  (resolution_key-Injective width height w h hw hh bw bh same))
              ∙ sym (scale_for-scale_of fingerprint w h m _ found),
          λ other w h ne.
              scale_for-scale_of other w h m' _ (get-change_entry_ne change fingerprint other m ne)
              ∙ sym (scale_for-scale_of other w h m _ refl),
        )
