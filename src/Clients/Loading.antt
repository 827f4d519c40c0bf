-- ===== src/Clients/Loading.antt =====
-- The records of paired devices that the server starts with: the file of the current shape, or of the
-- shapes before it, which went by the client's `uniqueid`.
use redfog.Base.{if◌then◌else◌, Bool, Option, none, some, List, [], ◌∷◌, insert}
use redfog.Base.Text.{Text, text_discrete}
use redfog.Clients.State.{PairedEntry, ClientManager}

pub data LegacyPairedEntry (Scale : Type 0) : Type 0 where
  bare_fingerprint : Text → LegacyPairedEntry Scale
  with_scale : Text → Option Scale → List (Text × Scale) → LegacyPairedEntry Scale

module _ {Scale : Type 0} where
  abbrev pub default_entry : Option Scale → List (Text × Scale) → PairedEntry Scale
  default_entry scale scale_by_resolution = record {
    scale = scale;
    scale_by_resolution = scale_by_resolution;
    name = none;
    last_seen_ip = none;
    last_seen_resolution = none;
    seen_resolutions = [];
  }

  -- The fingerprint and the record of a legacy entry.
  unfoldable pub migrated : LegacyPairedEntry Scale → Text × PairedEntry Scale
  migrated (bare_fingerprint fingerprint) = (fingerprint, default_entry none [])
  migrated (with_scale fingerprint scale scale_by_resolution) =
      (fingerprint, default_entry scale scale_by_resolution)

  -- The values of the legacy map, in the order in which the map gives them, inserted one after another.
  unfoldable pub migrate_entries :
      List (LegacyPairedEntry Scale)
      → List (Text × PairedEntry Scale)
      → List (Text × PairedEntry Scale)
  unfolding migrated insert
  migrate_entries [] paired = paired
  migrate_entries (entry ∷ entries) paired =
      migrate_entries entries
        (insert text_discrete ((migrated entry).0) ((migrated entry).1) paired)

  -- `serde_json` may refuse the file as a legacy file too; then nothing is paired.
  unfoldable pub migrate_legacy_state :
      Option (List (LegacyPairedEntry Scale)) → List (Text × PairedEntry Scale)
  unfolding migrate_entries
  migrate_legacy_state none = []
  migrate_legacy_state (some entries) = migrate_entries entries []

  -- What `serde_json` makes of a file: whether it is an object with the key `paired_by_fingerprint`, the
  -- current shape and the legacy shape.
  module _ {Raw : Type 0} (is_new_shape : Raw → Bool)
      (from_current : Raw → Option (List (Text × PairedEntry Scale)))
      (from_legacy : Raw → Option (List (LegacyPairedEntry Scale))) where
    unfoldable pub load_state : Option Raw → List (Text × PairedEntry Scale)
    unfolding migrate_legacy_state
    load_state none = []
    load_state (some raw) =
        if is_new_shape raw
        then elim (from_current raw) [
          | some state ↦ state
          | none ↦ migrate_legacy_state (from_legacy raw)
        ]
        else migrate_legacy_state (from_legacy raw)

    unfoldable pub new : Option Raw → Text → Text → ClientManager Scale
    unfolding load_state
    new raw server_cert_pem server_private_key_pem = record {
      pending = [];
      paired_by_fingerprint = load_state raw;
      persisted = load_state raw ∷ [];
      server_cert_pem = server_cert_pem;
      server_private_key_pem = server_private_key_pem;
    }
