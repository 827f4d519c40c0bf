-- ===== src/Clients/Records.antt =====
-- The operations of `ClientManager` on the records of paired devices, and on the scale and the name of a
-- client that is still pairing; loading the records when the server starts.
use redfog.Base.{
  ℕ, if◌then◌else◌, ltb, ◌==◌, ◌&&◌, ◌||◌, Bool, true, false, Option, none, some, List, [], ◌∷◌,
  map, length, get, insert,
}
use redfog.Base.Text.{Text, text_discrete, starts_with}
use redfog.Clients.State.{
  no_pending_client, no_paired_device, ambiguous_fingerprint, Result, ok, err, PendingClient,
  PairedEntry, ClientManager, resolution_key, entry_scale, persist, put_pending,
}

-- The order of `String`: byte by byte.
abbrev pub text_ltb : Text → Text → Bool
text_ltb xs [] = false
text_ltb [] (y ∷ ys) = true
text_ltb (x ∷ xs) (y ∷ ys) = ltb x y || ((x == y) && text_ltb xs ys)

-- `BTreeSet::insert`.
unfoldable pub insert_sorted : Text → List Text → List Text
insert_sorted text [] = text ∷ []
insert_sorted text (x ∷ xs) =
    let rest = x ∷ insert_sorted text xs in
    if text_ltb x text then rest else if text_ltb text x then text ∷ x ∷ xs else x ∷ xs

unfoldable pub resolve_matches : List Text → Result Text
resolve_matches [] = err no_paired_device
resolve_matches (one ∷ []) = ok one
resolve_matches (one ∷ two ∷ more) = err (ambiguous_fingerprint (length (one ∷ two ∷ more)))

module _ {V : Type 0} where
  -- The keys that start with a text.
  unfoldable pub matches : Text → List (Text × V) → List Text
  matches prefix [] = []
  matches prefix ((k, v) ∷ m) =
      let rest = matches prefix m in if starts_with k prefix then k ∷ rest else rest

  unfoldable pub resolve_fingerprint : Text → List (Text × V) → Result Text
  unfolding matches resolve_matches get
  resolve_fingerprint fingerprint paired = elim (get text_discrete fingerprint paired) [
    | some entry ↦ ok fingerprint
    | none ↦ resolve_matches (matches fingerprint paired)
  ]

-- One paired device of `paired_clients`, which `redfog-pair --list` shows.
pub record PairedClientInfo (Scale : Type 0) : Type 0 where
  pub fingerprint : Text
  pub name : Option Text
  pub last_seen_ip : Option Text
  pub last_seen_resolution : Option Text
  pub seen_resolutions : List Text
  pub scale : Option Scale
  pub scale_by_resolution : List (Text × Scale)

module _ {Scale : Type 0} where
  unfoldable pub info : Text × PairedEntry Scale → PairedClientInfo Scale
  info (fingerprint, entry) = record {
    fingerprint = fingerprint;
    name = entry.name;
    last_seen_ip = entry.last_seen_ip;
    last_seen_resolution = entry.last_seen_resolution;
    seen_resolutions = entry.seen_resolutions;
    scale = entry.scale;
    scale_by_resolution = entry.scale_by_resolution;
  }

  unfoldable pub paired_clients : ClientManager Scale → List (PairedClientInfo Scale)
  unfolding info
  paired_clients m = map info (m.paired_by_fingerprint)

  unfoldable pub is_paired_by_cert : Text → ClientManager Scale → Bool
  unfolding get
  is_paired_by_cert fingerprint m = elim (get text_discrete fingerprint (m.paired_by_fingerprint)) [
    | none ↦ false
    | some entry ↦ true
  ]

  unfoldable pub scale_for_cert_fingerprint : Text → ℕ → ℕ → ClientManager Scale → Option Scale
  unfolding get entry_scale
  scale_for_cert_fingerprint fingerprint width height m =
      elim (get text_discrete fingerprint (m.paired_by_fingerprint)) [
        | none ↦ none
        | some entry ↦ entry_scale entry width height
      ]

  unfoldable pub pending_unique_ids : ClientManager Scale → List Text
  pending_unique_ids m = map (λ (entry : Text × PendingClient Scale). entry.0) (m.pending)

  unfoldable pub scaled_client : Scale → Option (ℕ × ℕ) → PendingClient Scale → PendingClient Scale
  unfolding insert resolution_key
  scaled_client scale none client = record client { scale = some scale }
  scaled_client scale (some (width, height)) client = record client {
    scale_by_resolution =
        insert text_discrete (resolution_key width height) scale (client.scale_by_resolution);
  }

  unfoldable pub scaled_entry : Scale → Option (ℕ × ℕ) → PairedEntry Scale → PairedEntry Scale
  unfolding insert resolution_key
  scaled_entry scale none entry = record entry { scale = some scale }
  scaled_entry scale (some (width, height)) entry = record entry {
    scale_by_resolution =
        insert text_discrete (resolution_key width height) scale (entry.scale_by_resolution);
  }

  -- A change of the pending client of an id; it is an error that there is none.
  unfoldable pub change_pending :
      (PendingClient Scale → PendingClient Scale)
      → Text
      → ClientManager Scale
      → ClientManager Scale × Result (Unit {0})
  unfolding get put_pending
  change_pending change unique_id m = elim (get text_discrete unique_id (m.pending)) [
    | none ↦ (m, err no_pending_client)
    | some client ↦ (put_pending unique_id (change client) m, ok tt)
  ]

  unfoldable pub set_scale_for_pending :
      Text → Scale → Option (ℕ × ℕ) → ClientManager Scale → ClientManager Scale × Result (Unit {0})
  unfolding change_pending scaled_client
  set_scale_for_pending unique_id scale resolution m =
      change_pending (scaled_client scale resolution) unique_id m

  unfoldable pub set_name_for_pending :
      Text → Text → ClientManager Scale → ClientManager Scale × Result (Unit {0})
  unfolding change_pending
  set_name_for_pending unique_id name m =
      change_pending (λ client. record client { name = some name }) unique_id m

  -- A change of a device's record, which must be there, given to `persist`.
  unfoldable pub change_entry :
      (PairedEntry Scale → PairedEntry Scale) → Text → ClientManager Scale → ClientManager Scale
  unfolding get insert persist
  change_entry change fingerprint m =
      elim (get text_discrete fingerprint (m.paired_by_fingerprint)) [
        | none ↦ m
        | some entry ↦
            persist (insert text_discrete fingerprint (change entry) (m.paired_by_fingerprint)) m
      ]

  -- The fingerprint is resolved first. A resolved fingerprint is that of a paired device, so that the
  -- code's `expect` of its record does not panic.
  unfoldable pub change_resolved :
      (PairedEntry Scale → PairedEntry Scale)
      → Result Text
      → ClientManager Scale
      → ClientManager Scale × Result (Unit {0})
  unfolding change_entry
  change_resolved change (err e) m = (m, err e)
  change_resolved change (ok resolved) m = (change_entry change resolved m, ok tt)

  unfoldable pub set_scale_for_paired :
      Text → Scale → Option (ℕ × ℕ) → ClientManager Scale → ClientManager Scale × Result (Unit {0})
  unfolding change_resolved scaled_entry resolve_fingerprint
  set_scale_for_paired fingerprint scale resolution m =
      change_resolved (scaled_entry scale resolution)
        (resolve_fingerprint fingerprint (m.paired_by_fingerprint)) m

  unfoldable pub set_name_for_paired :
      Text → Text → ClientManager Scale → ClientManager Scale × Result (Unit {0})
  unfolding change_resolved resolve_fingerprint
  set_name_for_paired fingerprint name m =
      change_resolved (λ entry. record entry { name = some name })
        (resolve_fingerprint fingerprint (m.paired_by_fingerprint)) m

  unfoldable pub seen_entry : Text → Text → PairedEntry Scale → PairedEntry Scale
  unfolding insert_sorted
  seen_entry ip resolution entry = record entry {
    last_seen_ip = some ip;
    seen_resolutions = insert_sorted resolution (entry.seen_resolutions);
    last_seen_resolution = some resolution;
  }

  -- The address is its `Display` text.
  unfoldable pub note_seen : Text → Text → ℕ → ℕ → ClientManager Scale → ClientManager Scale
  unfolding change_entry seen_entry resolution_key
  note_seen fingerprint ip width height m =
      change_entry (seen_entry ip (resolution_key width height)) fingerprint m
