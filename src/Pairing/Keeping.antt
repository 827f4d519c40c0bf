-- ===== src/Pairing/Keeping.antt =====
-- The requests that pair no device.
use redfog.Base.{
  ℕ, ◌≡◌, ◌⊎◌, refl, sym, ap, ◌∙◌, subst, inl, inr, true, Option, Option-cases, none, some, get,
}
use redfog.Base.Text.{Text, text_discrete}
use redfog.Crypto.{Libraries, derive_key}
use redfog.Clients.State.{Result, PendingClient, PairedEntry, ClientManager, put_pending}
use redfog.Clients.Records.{
  is_paired_by_cert, change_pending, change_entry, change_resolved, resolve_fingerprint,
  scaled_client, scaled_entry, set_scale_for_pending, set_scale_for_paired, set_name_for_pending,
  set_name_for_paired,
}
use redfog.Clients.Handshake.{submit_pin}
use redfog.Clients.Scales.{get-change_entry, get-change_entry_ne, change_entry-none}
use redfog.Pairing.Params.{Parsed, Float, parse_scale, parse_name}
use redfog.Pairing.Requests.{Params, uniqueid, fingerprint, pin, scale, resolution, name}
use redfog.Pairing.Submit.{
  Answer, Device, pending_device, paired_device, submit_pin_query, submit_to, device_of, objection,
  apply_all, apply_scale, apply_name, apply_pin, and_then, progress, scale_device, name_device,
  parse_size, Progress,
}

module _ {Scale : Type 0} (key : Text) where
  -- The fingerprint is paired in both states or in neither.
  abbrev pub Keeps : ClientManager Scale → ClientManager Scale → Type 0
  Keeps m m' = is_paired_by_cert key m' ≡ is_paired_by_cert key m

  is_paired-some :
      (entry : PairedEntry Scale) (m : ClientManager Scale)
      → get text_discrete key (m.paired_by_fingerprint) ≡ some entry
      → is_paired_by_cert key m ≡ true
  unfolding is_paired_by_cert
  is_paired-some entry m h = rw (h, is_paired_by_cert) refl

  is_paired-get :
      (m m' : ClientManager Scale)
      → get text_discrete key (m'.paired_by_fingerprint)
        ≡ get text_discrete key (m.paired_by_fingerprint)
      → Keeps m m'
  unfolding is_paired_by_cert
  is_paired-get m m' h = rw (h, is_paired_by_cert) refl

  change_entry-Keeps :
      (change : PairedEntry Scale → PairedEntry Scale) (other : Text) (m : ClientManager Scale)
      → Keeps m (change_entry change other m)
  change_entry-Keeps change other m =
      elim (Option-cases (get text_discrete other (m.paired_by_fingerprint))) [
        | inl h ↦ ap (is_paired_by_cert key) (change_entry-none change other m h)
        | inr (entry, h) ↦ elim (text_discrete other key) [
          | no ne ↦
              is_paired-get m (change_entry change other m)
                (get-change_entry_ne change other key m ne)
          | yes same ↦
              is_paired-some (change entry) (change_entry change other m) (
                subst
                  (λ (k : Text).
                    get text_discrete k ((change_entry change other m).paired_by_fingerprint)
                    ≡ some (change entry))
                  same (get-change_entry change other entry m h))
              ∙ sym (
                  is_paired-some entry m (
                    subst (λ (k : Text). get text_discrete k (m.paired_by_fingerprint) ≡ some entry)
                      same h))
        ]
      ]

  change_resolved-Keeps :
      (change : PairedEntry Scale → PairedEntry Scale) (r : Result Text) (m : ClientManager Scale)
      → Keeps m ((change_resolved change r m).0)
  unfolding change_resolved
  change_resolved-Keeps change (Result.ok other) m = change_entry-Keeps change other m
  change_resolved-Keeps change (Result.err e) m = refl

  change_pending-Keeps :
      (change : PendingClient Scale → PendingClient Scale) (id : Text) (m : ClientManager Scale)
      → Keeps m ((change_pending change id m).0)
  unfolding change_pending put_pending
  change_pending-Keeps change id m = elim (Option-cases (get text_discrete id (m.pending))) [
    | inl h ↦ rw (h, change_pending) refl
    | inr (client, h) ↦ is_paired-get m _ (rw (h, change_pending) refl)
  ]

  progress-Keeps :
      (m : ClientManager Scale) (r : ClientManager Scale × Result (Unit {0}))
      → Keeps m (r.0)
      → Keeps m ((progress r).0)
  unfolding progress
  progress-Keeps m (m', Result.ok u) h = h
  progress-Keeps m (m', Result.err e) h = h

  and_then-Keeps :
      (m : ClientManager Scale) (p : Progress Scale)
      (next : ClientManager Scale → ClientManager Scale × Answer)
      → Keeps m (p.0)
      → ((m' : ClientManager Scale) → Keeps m' ((next m').0))
      → Keeps m ((and_then p next).0)
  unfolding and_then
  and_then-Keeps m (m', some answer) next h k = h
  and_then-Keeps m (m', none) next h k = k m' ∙ h

  scale_device-Keeps :
      (device : Device) (value : Scale) (size : Option (ℕ × ℕ)) (m : ClientManager Scale)
      → Keeps m ((scale_device device value size m).0)
  unfolding scale_device set_scale_for_pending set_scale_for_paired
  scale_device-Keeps (pending_device id) value size m =
      progress-Keeps m _ (change_pending-Keeps (scaled_client value size) id m)
  scale_device-Keeps (paired_device text) value size m = progress-Keeps m _ (
      change_resolved-Keeps (scaled_entry value size)
        (resolve_fingerprint text (m.paired_by_fingerprint)) m)

  name_device-Keeps :
      (device : Device) (value : Text) (m : ClientManager Scale)
      → Keeps m ((name_device device value m).0)
  unfolding name_device set_name_for_pending set_name_for_paired
  name_device-Keeps (pending_device id) value m =
      progress-Keeps m _ (change_pending-Keeps (λ client. record client { name = some value }) id m)
  name_device-Keeps (paired_device text) value m = progress-Keeps m _ (
      change_resolved-Keeps (λ entry. record entry { name = some value })
        (resolve_fingerprint text (m.paired_by_fingerprint)) m)

  apply_scale-Keeps :
      (f : Float Scale) (device : Device) (value size : Option Text) (m : ClientManager Scale)
      → Keeps m ((apply_scale f device value size m).0)
  unfolding apply_scale
  apply_scale-Keeps f device none size m = refl
  apply_scale-Keeps f device (some text) size m = from (parse_scale f text) refl
    where
      sized_from :
          (v : Scale) (s : Parsed (Option (ℕ × ℕ)))
          → parse_scale f text ≡ Parsed.ok v
          → parse_size size ≡ s
          → Keeps m ((apply_scale f device (some text) size m).0)
      sized_from v (Parsed.err e) h k = rw (h, k, apply_scale) refl
      sized_from v (Parsed.ok s) h k = rw (h, k, apply_scale) (scale_device-Keeps device v s m)

      from :
          (r : Parsed Scale)
          → parse_scale f text ≡ r
          → Keeps m ((apply_scale f device (some text) size m).0)
      from (Parsed.err e) h = rw (h, apply_scale) refl
      from (Parsed.ok v) h = sized_from v (parse_size size) h refl

  apply_name-Keeps :
      (device : Device) (value : Option Text) (m : ClientManager Scale)
      → Keeps m ((apply_name device value m).0)
  unfolding apply_name
  apply_name-Keeps device none m = refl
  apply_name-Keeps device (some text) m = from (parse_name text) refl
    where
      from : (r : Parsed Text) → parse_name text ≡ r → Keeps m ((apply_name device (some text) m).0)
      from (Parsed.err e) h = rw (h, apply_name) refl
      from (Parsed.ok v) h = rw (h, apply_name) (name_device-Keeps device v m)

  submit_pin-Keeps :
      (lib : Libraries) (id digits : Text) (m : ClientManager Scale)
      → Keeps m ((submit_pin lib id digits m).0)
  unfolding submit_pin
  submit_pin-Keeps lib id digits m =
      change_pending-Keeps
        (λ client. record client { key = some (derive_key lib (client.salt) digits) }) id m

  apply_pin-Keeps :
      (lib : Libraries) (device : Device) (value : Option Text) (m : ClientManager Scale)
      → Keeps m ((apply_pin lib device value m).0)
  unfolding apply_pin
  apply_pin-Keeps lib device none m = refl
  apply_pin-Keeps lib (paired_device text) (some digits) m = refl
  apply_pin-Keeps lib (pending_device id) (some digits) m =
      from ((submit_pin lib id digits m).1) refl
    where
      keyed : Keeps m ((submit_pin lib id digits m).0)
      keyed = submit_pin-Keeps lib id digits m

      from :
          (r : Result (Unit {0}))
          → (submit_pin lib id digits m).1 ≡ r
          → Keeps m ((apply_pin lib (pending_device id) (some digits) m).0)
      from (Result.ok u) h = rw (h, apply_pin) keyed
      from (Result.err e) h = rw (h, apply_pin) keyed

  -- No request to `/submit-pin` pairs a device or unpairs one, whatever its parameters: a PIN, a scale or a
  -- name leaves the paired fingerprints as they are.
  pub submit_pin_query-Keeps :
      (lib : Libraries) (f : Float Scale) (params : Params) (m : ClientManager Scale)
      → Keeps m ((submit_pin_query lib f params m).0)
  unfolding submit_pin_query submit_to apply_all
  submit_pin_query-Keeps lib f params m =
      to_device (device_of (params uniqueid) (params fingerprint))
    where
      parts : (device : Device) → Keeps m ((apply_all lib f params device m).0)
      parts device =
          and_then-Keeps m (apply_scale f device (params scale) (params resolution) m) _
            (apply_scale-Keeps f device (params scale) (params resolution) m)
            (λ scaled.
              and_then-Keeps scaled (apply_name device (params name) scaled) _
                (apply_name-Keeps device (params name) scaled)
                (λ named. apply_pin-Keeps lib device (params pin) named))

      checked :
          (device : Device) (o : Option Answer)
          → objection params device ≡ o
          → Keeps m ((submit_to lib f params m (inl device)).0)
      checked device (some answer) h = rw (h, submit_to) refl
      checked device none h = rw (h, submit_to) (parts device)

      to_device : (d : Device ⊎ Answer) → Keeps m ((submit_to lib f params m d).0)
      to_device (inr answer) = refl
      to_device (inl device) = checked device (objection params device) refl
