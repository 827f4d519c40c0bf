-- ===== src/Clients/Saved.antt =====
-- The file of paired devices beside the records.
use redfog.Base.{ℕ, Bool, ◌≡◌, refl, Option, Option-cases, inl, inr, List, [], ◌∷◌, get}
use redfog.Base.Text.{Text, text_discrete}
use redfog.Crypto.{Libraries}
use redfog.Clients.State.{
  Result, ok, err, PendingClient, PairedEntry, ClientManager, persist, put_pending,
}
use redfog.Clients.Records.{
  change_pending, change_entry, change_resolved, resolve_fingerprint, set_scale_for_pending,
  set_scale_for_paired, set_name_for_pending, set_name_for_paired, note_seen, scaled_client,
}
use redfog.Clients.Handshake.{
  start_pairing, submit_pin, client_challenge, server_challenge_response, on_pending, challenged,
  responded, proven, finish_pairing, check_client_pairing_secret,
}
use redfog.Clients.Loading.{LegacyPairedEntry, new}
use redfog.Clients.Run.{
  Request, start, pin, challenge, response, secret, pending_scale, pending_name, paired_scale,
  paired_name, seen, serve, run,
}

module _ {Scale : Type 0} where
  -- What was given to `persist` last is what is paired now.
  abbrev pub IsSaved : ClientManager Scale → Type 0
  IsSaved m =
      (earlier : List (List (Text × PairedEntry Scale))) × (m.persisted
        ≡ m.paired_by_fingerprint ∷ earlier)

  change_pending-IsSaved :
      (change : PendingClient Scale → PendingClient Scale) (unique_id : Text)
      (m : ClientManager Scale)
      → IsSaved m
      → IsSaved ((change_pending change unique_id m).0)
  unfolding change_pending put_pending
  change_pending-IsSaved change unique_id m h =
      elim (Option-cases (get text_discrete unique_id (m.pending))) [
        | inl e ↦ rw (e, change_pending) h
        | inr (client, e) ↦ rw (e, change_pending) h
      ]

  on_pending-IsSaved :
      {A : Type 0} (step : PendingClient Scale → PendingClient Scale × Result A) (unique_id : Text)
      (m : ClientManager Scale)
      → IsSaved m
      → IsSaved ((on_pending step unique_id m).0)
  unfolding on_pending put_pending
  on_pending-IsSaved step unique_id m h =
      elim (Option-cases (get text_discrete unique_id (m.pending))) [
        | inl e ↦ rw (e, on_pending) h
        | inr (client, e) ↦ rw (e, on_pending) h
      ]

  change_entry-IsSaved :
      (change : PairedEntry Scale → PairedEntry Scale) (fingerprint : Text)
      (m : ClientManager Scale)
      → IsSaved m
      → IsSaved (change_entry change fingerprint m)
  unfolding change_entry persist
  change_entry-IsSaved change fingerprint m h =
      elim (Option-cases (get text_discrete fingerprint (m.paired_by_fingerprint))) [
        | inl e ↦ rw (e, change_entry) h
        | inr (entry, e) ↦ rw (e, change_entry) (m.persisted, refl)
      ]

  change_resolved-IsSaved :
      (change : PairedEntry Scale → PairedEntry Scale) (resolved : Result Text)
      (m : ClientManager Scale)
      → IsSaved m
      → IsSaved ((change_resolved change resolved m).0)
  unfolding change_resolved
  change_resolved-IsSaved change (err e) m h = h
  change_resolved-IsSaved change (ok fingerprint) m h = change_entry-IsSaved change fingerprint m h

  finish_pairing-IsSaved :
      (peer_ip : Text) (client : PendingClient Scale) (m : ClientManager Scale) (r : Result Text)
      → IsSaved m
      → IsSaved ((finish_pairing peer_ip client m r).0)
  unfolding finish_pairing persist
  finish_pairing-IsSaved peer_ip client m (err e) h = h
  finish_pairing-IsSaved peer_ip client m (ok fingerprint) h = (m.persisted, refl)

  module _ (lib : Libraries) where
    check-IsSaved :
        (unique_id : Text) (message : List ℕ) (peer_ip : Text) (m : ClientManager Scale)
        → IsSaved m
        → IsSaved ((check_client_pairing_secret lib unique_id message peer_ip m).0)
    unfolding check_client_pairing_secret
    check-IsSaved unique_id message peer_ip m h =
        elim (Option-cases (get text_discrete unique_id (m.pending))) [
          | inl e ↦ rw (e, check_client_pairing_secret) h
          | inr (client, e) ↦
              rw (e, check_client_pairing_secret)
                (finish_pairing-IsSaved peer_ip client m (proven lib message client) h)
        ]

    serve-IsSaved :
        (r : Request Scale) (m : ClientManager Scale) → IsSaved m → IsSaved (serve lib r m)
    unfolding serve start_pairing put_pending submit_pin client_challenge server_challenge_response
        set_scale_for_pending set_name_for_pending set_scale_for_paired set_name_for_paired
        note_seen
    serve-IsSaved (start unique_id cert salt) m h = h
    serve-IsSaved (pin unique_id digits) m h = change_pending-IsSaved _ unique_id m h
    serve-IsSaved (challenge unique_id message s c) m h =
        on_pending-IsSaved (challenged lib (m.server_cert_pem) message s c) unique_id m h
    serve-IsSaved (response unique_id message) m h =
        on_pending-IsSaved (responded lib (m.server_private_key_pem) message) unique_id m h
    serve-IsSaved (secret unique_id message peer_ip) m h =
        check-IsSaved unique_id message peer_ip m h
    serve-IsSaved (pending_scale unique_id scale resolution) m h =
        change_pending-IsSaved (scaled_client scale resolution) unique_id m h
    serve-IsSaved (pending_name unique_id name) m h = change_pending-IsSaved _ unique_id m h
    serve-IsSaved (paired_scale fingerprint scale resolution) m h =
        change_resolved-IsSaved _ (resolve_fingerprint fingerprint (m.paired_by_fingerprint)) m h
    serve-IsSaved (paired_name fingerprint name) m h =
        change_resolved-IsSaved _ (resolve_fingerprint fingerprint (m.paired_by_fingerprint)) m h
    serve-IsSaved (seen fingerprint ip width height) m h = change_entry-IsSaved _ fingerprint m h

    run-IsSaved :
        (rs : List (Request Scale)) (m : ClientManager Scale) → IsSaved m → IsSaved (run lib rs m)
    unfolding run
    run-IsSaved [] m h = h
    run-IsSaved (r ∷ rs) m h = run-IsSaved rs (serve lib r m) (serve-IsSaved r m h)

    -- A server that starts from whatever its file holds and serves whatever requests come has at any time
    -- given to `persist` last just the records of paired devices that it has.
    pub served-IsSaved :
        {Raw : Type 0} (is_new_shape : Raw → Bool)
        (from_current : Raw → Option (List (Text × PairedEntry Scale)))
        (from_legacy : Raw → Option (List (LegacyPairedEntry Scale))) (raw : Option Raw)
        (cert private_key : Text) (rs : List (Request Scale))
        → IsSaved (run lib rs (new is_new_shape from_current from_legacy raw cert private_key))
    unfolding new
    served-IsSaved is_new_shape from_current from_legacy raw cert private_key rs =
        run-IsSaved rs (new is_new_shape from_current from_legacy raw cert private_key) ([], refl)
