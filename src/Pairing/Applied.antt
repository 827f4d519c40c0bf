-- ===== src/Pairing/Applied.antt =====
-- A scale that redfog-pair sets, and the launch that uses it.
use redfog.Base.{
  ℕ, ◌*◌, ◌/◌, ◌%◌, ◌<◌, ◌≡◌, ◌≢◌, ◌⊎◌, refl, sym, ap, ◌∙◌, subst, inl, inr, Option, Option-cases,
  none, some, List, ◌∷◌, ◌++◌, get, u32_size, arith,
}
use redfog.Base.Text.{Text, text_discrete}
use redfog.Base.Decimal.{decimal}
use redfog.Crypto.{Libraries}
use redfog.Clients.State.{Result, PairedEntry, ClientManager, resolution_key, x_byte, entry_scale}
use redfog.Clients.Records.{
  note_seen, seen_entry, set_scale_for_paired, resolve_fingerprint, scale_for_cert_fingerprint,
}
use redfog.Clients.Scales.{
  scale_for-scale_of, get-change_entry, get-change_entry_ne, change_entry-none,
  set_scale_for_paired-SetsScale,
}
use redfog.Pairing.Params.{Parsed, Float, parse_scale, parse_mode, parse_resolution}
use redfog.Pairing.Modes.{parse_resolution-resolution_key, parse_mode_lem, parse_mode-IsEvenMode}
use redfog.Pairing.Requests.{Params, fingerprint, scale, resolution, mode}
use redfog.Pairing.Submit.{
  paired_device, done, submit_pin_query, submit_to, device_of, objection, apply_all, apply_scale,
  apply_name, apply_pin, and_then, progress, scale_device, parse_size,
}
use redfog.Pairing.Launch.{
  cert, RemoteInputKey, launches, launch, launch_with, launch_scale, launch_seen, parse_rikey,
}

module _ {Scale : Type 0} where
  entry_scale-seen_entry :
      (ip size : Text) (entry : PairedEntry Scale) (width height : ℕ)
      → entry_scale (seen_entry ip size entry) width height ≡ entry_scale entry width height
  unfolding entry_scale seen_entry
  entry_scale-seen_entry ip size entry width height = refl

  -- That a device was seen leaves the scales of all devices.
  scale_for-note_seen :
      (key ip : Text) (a b : ℕ) (other : Text) (width height : ℕ) (m : ClientManager Scale)
      → scale_for_cert_fingerprint other width height (note_seen key ip a b m)
        ≡ scale_for_cert_fingerprint other width height m
  unfolding note_seen
  scale_for-note_seen key ip a b other width height m = elim (text_discrete key other) [
    | no ne ↦
        scale_for-scale_of other width height (note_seen key ip a b m) _
          (get-change_entry_ne (seen_entry ip (resolution_key a b)) key other m ne)
        ∙ sym (scale_for-scale_of other width height m _ refl)
    | yes same ↦
        subst
          (λ (k : Text).
            scale_for_cert_fingerprint k width height (note_seen key ip a b m)
            ≡ scale_for_cert_fingerprint k width height m)
          same
          (elim (Option-cases (get text_discrete key (m.paired_by_fingerprint))) [
            | inl h ↦ unseen h
            | inr (entry, h) ↦
                scale_for-scale_of key width height (note_seen key ip a b m) _
                  (get-change_entry (seen_entry ip (resolution_key a b)) key entry m h)
                ∙ entry_scale-seen_entry ip (resolution_key a b) entry width height
                ∙ sym (scale_for-scale_of key width height m _ h)
          ])
  ]
    where
      unseen :
          get text_discrete key (m.paired_by_fingerprint) ≡ none
          → scale_for_cert_fingerprint key width height (note_seen key ip a b m)
            ≡ scale_for_cert_fingerprint key width height m
      unseen h =
          ap (scale_for_cert_fingerprint key width height)
            (change_entry-none (seen_entry ip (resolution_key a b)) key m h)

  -- A launch gets the scale of its device that was set before.
  launch_scale-launch_seen :
      (f : Float Scale) (key ip : Text) (width height : ℕ) (value : Scale) (m : ClientManager Scale)
      → scale_for_cert_fingerprint key width height m ≡ some value
      → launch_scale f (cert key) width height (launch_seen (cert key) ip width height m) ≡ value
  unfolding launch_scale launch_seen
  launch_scale-launch_seen f key ip width height value m h =
      rw (scale_for-note_seen key ip width height key width height m ∙ h, launch_scale) refl

-- The parameters by which redfog-pair sets a device's scale for a resolution.
abbrev pub scale_request : Text → Text → Text → Params
scale_request key value size fingerprint = some key
scale_request key value size scale = some value
scale_request key value size resolution = some size
scale_request key value size _ = none

sized :
    (size : Text) (width height : ℕ)
    → parse_resolution size ≡ Parsed.ok (width, height)
    → parse_size (some size) ≡ Parsed.ok (some (width, height))
sized size width height h = unfold parse_size in rw (h, parse_size) refl

module _ {Scale : Type 0} (lib : Libraries) (f : Float Scale) where
  scaled :
      (text value_text size : Text) (value : Scale) (width height : ℕ) (m m' : ClientManager Scale)
      → parse_scale f value_text ≡ Parsed.ok value
      → parse_resolution size ≡ Parsed.ok (width, height)
      → set_scale_for_paired text value (some (width, height)) m ≡ (m', Result.ok tt)
      → apply_scale f (paired_device text) (some value_text) (some size) m ≡ (m', none)
  unfolding apply_scale scale_device progress
  scaled text value_text size value width height m m' hv hr hs =
      rw (hv, sized size width height hr, apply_scale) (ap progress hs)

  submit-scale :
      (text value_text size : Text) (value : Scale) (width height : ℕ) (m m' : ClientManager Scale)
      → parse_scale f value_text ≡ Parsed.ok value
      → parse_resolution size ≡ Parsed.ok (width, height)
      → set_scale_for_paired text value (some (width, height)) m ≡ (m', Result.ok tt)
      → submit_pin_query lib f (scale_request text value_text size) m ≡ (m', done)
  unfolding submit_pin_query submit_to device_of objection apply_all apply_name apply_pin and_then
  submit-scale text value_text size value width height m m' hv hr hs =
      ap
        (λ p. and_then p (λ named.
          and_then (apply_name (paired_device text) none named)
            (apply_pin lib (paired_device text) none)))
        (scaled text value_text size value width height m m' hv hr hs)

  launch-some :
      (hex_decode : Text → Option (List ℕ)) (params : Params) (key ip : Text) (width height fps : ℕ)
      (value : Scale) (input_key : RemoteInputKey) (m : ClientManager Scale)
      → parse_rikey hex_decode params ≡ some input_key
      → parse_mode (params mode) ≡ (width, height, fps)
      → scale_for_cert_fingerprint key width height m ≡ some value
      → (launch hex_decode f params (cert key) ip m).1
        ≡ launches width height fps value input_key (cert key) ip
  unfolding launch launch_with
  launch-some hex_decode params key ip width height fps value input_key m hk hm hs =
      rw (hk, hm, launch)
        (ap (λ (v : Scale). launches width height fps v input_key (cert key) ip)
          (launch_scale-launch_seen f key ip width height value m hs))

  -- When redfog-pair sets a scale in the accepted range for a resolution of a paired device, named by its
  -- fingerprint or a unique prefix, the request is answered `done`, and a later launch of the device at this resolution gets
  -- just this scale, if the width and the height are even, not zero and of 32 bits.
  pub set_scale_applies :
      (hex_decode : Text → Option (List ℕ)) (text value_text key ip : Text) (value : Scale)
      (width height fps : ℕ) (input_key : RemoteInputKey) (params : Params)
      (m : ClientManager Scale)
      → parse_scale f value_text ≡ Parsed.ok value
      → (0 < width) × (width < u32_size) × (width % 2 ≡ 0)
      → (0 < height) × (height < u32_size) × (height % 2 ≡ 0)
      → fps < u32_size
      → resolve_fingerprint text (m.paired_by_fingerprint) ≡ Result.ok key
      → parse_rikey hex_decode params ≡ some input_key
      → params mode ≡ some (decimal width ++ (x_byte ∷ (decimal height ++ (x_byte ∷ decimal fps))))
      → (m' : ClientManager Scale) × (submit_pin_query lib f
            (scale_request text value_text (resolution_key width height))
            m
          ≡ (m', done))
        × ((launch hex_decode f params (cert key) ip m').1
            ≡ launches width height fps value input_key (cert key) ip)
  set_scale_applies hex_decode text value_text key ip value width height fps input_key params m hv
        (pw, bw, ew) (ph, bh, eh) bf resolved hk hm =
      let result = set_scale_for_paired text value (some (width, height)) m in
      let (is_ok, scale_now, _, _) =
        set_scale_for_paired-SetsScale text key value width height m bw bh resolved in
      let same : width / 2 * 2 ≡ width = omega arith in
      let same' : height / 2 * 2 ≡ height = omega arith in
      let parsed : parse_mode (params mode) ≡ (width, height, fps) =
        ap parse_mode hm ∙ parse_mode_lem width height fps bw bh bf ∙ rw (same, same') refl in
      (
        result.0,
        submit-scale text value_text (resolution_key width height) value width height m (result.0)
            hv (parse_resolution-resolution_key width height pw ph bw bh)
            (ap (λ (r : Result (Unit {0})). (result.0, r)) is_ok),
        launch-some hex_decode params key ip width height fps value input_key (result.0) hk parsed
            scale_now,
      )

  launch_scale_same :
      (key : Text) (width height : ℕ) (m m' : ClientManager Scale)
      → scale_for_cert_fingerprint key width height m'
        ≡ scale_for_cert_fingerprint key width height m
      → launch_scale f (cert key) width height m' ≡ launch_scale f (cert key) width height m
  unfolding launch_scale
  launch_scale_same key width height m m' h = rw (h, launch_scale) refl

  odd_is_other :
      (width height w h : ℕ)
      → (width % 2 ≡ 1) ⊎ (height % 2 ≡ 1)
      → w % 2 ≡ 0
      → h % 2 ≡ 0
      → (width ≢ w) ⊎ (height ≢ h)
  odd_is_other width height w h (inl odd) ew eh = inl (λ same. omega (arith, same))
  odd_is_other width height w h (inr odd) ew eh = inr (λ same. omega (arith, same))

  -- A scale that redfog-pair sets for a resolution with an odd width or height changes no launch of the
  -- device: whatever the request's mode is, the scale is the one that it would have been before.
  pub odd_scale_never_applies :
      (text key : Text) (value : Scale) (width height : ℕ) (mode_text : Option Text)
      (m : ClientManager Scale)
      → width < u32_size
      → height < u32_size
      → (width % 2 ≡ 1) ⊎ (height % 2 ≡ 1)
      → resolve_fingerprint text (m.paired_by_fingerprint) ≡ Result.ok key
      → launch_scale f
          (cert key)
          ((parse_mode mode_text).0)
          ((parse_mode mode_text).1)
          ((set_scale_for_paired text value (some (width, height)) m).0)
        ≡ launch_scale f (cert key) ((parse_mode mode_text).0) ((parse_mode mode_text).1) m
  odd_scale_never_applies text key value width height mode_text m bw bh odd resolved =
      let (_, _, others, _) =
        set_scale_for_paired-SetsScale text key value width height m bw bh resolved in
      let (ew, eh, sw, sh) = parse_mode-IsEvenMode mode_text in
      launch_scale_same key ((parse_mode mode_text).0) ((parse_mode mode_text).1) m _ (
        others ((parse_mode mode_text).0) ((parse_mode mode_text).1) sw sh (
          odd_is_other width height ((parse_mode mode_text).0) ((parse_mode mode_text).1) odd ew
            eh))
