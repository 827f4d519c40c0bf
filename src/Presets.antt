-- ===== src/Presets.antt =====
-- crates/redfog-login-protocol/src/lib.rs: the sessions that a user can choose, and the file that they are
-- read from. Its TOML is read by a parameter.
use redfog.Base.{Option, none, some, List, [], ◌∷◌}
use redfog.Base.Text.{Text, codes}

pub record SessionPreset : Type 0 where
  pub name : Text
  pub backend : Text
  pub payload : List Text
  pub desktop_name : Option Text
  pub glx_vendor : Option Text

unfoldable pub default_presets : List SessionPreset
default_presets =
    record {
      name = codes "KDE Plasma";
      backend = codes "kwin";
      payload = codes "plasmashell" ∷ codes "--no-respawn" ∷ [];
      desktop_name = none;
      glx_vendor = none;
    }
    ∷ record {
      name = codes "Sway";
      backend = codes "gst-wayland-display";
      payload = codes "sway" ∷ [];
      desktop_name = some (codes "sway");
      glx_vendor = none;
    }
    ∷ []

-- What reading the file gives.
pub data FileRead : Type 0 where
  contents : Text → FileRead
  not_found : FileRead
  unreadable : Text → FileRead

pub data Loaded : Type 0 where
  presets : List SessionPreset → Loaded
  unread : Text → Loaded
  unparsed : Loaded
  no_entries : Loaded

module _ (from_toml : Text → Option (List SessionPreset)) where
  -- The sessions of a parsed file.
  unfoldable pub of_file : Option (List SessionPreset) → Loaded
  of_file none = unparsed
  of_file (some []) = no_entries
  of_file (some (preset ∷ more)) = presets (preset ∷ more)

  unfoldable pub load_presets : FileRead → Loaded
  unfolding default_presets of_file
  load_presets (contents text) = of_file (from_toml text)
  load_presets not_found = presets default_presets
  load_presets (unreadable e) = unread e
