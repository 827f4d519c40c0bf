-- ===== src/Control/Registry.antt =====
-- crates/redfog-moonlight/src/control.rs: `ControlRegistry`, the keys that sessions registered. Each
-- function runs under the registry's lock.
use redfog.Base.{ℕ, ◌+◌, ◌%◌, ◌^◌, List, [], insert, remove, Unique, insert-Unique, remove-Unique}

-- The registrations, with the counter `next_epoch`, a u64.
pub record Registry : Type 0 where
  pub registrations : List (List ℕ × ℕ)
  pub next_epoch : ℕ

unfoldable pub new_registry : Registry
new_registry = record { registrations = []; next_epoch = 0 }

module _ (dec : Discrete (List ℕ)) where
  unfoldable pub register : Registry → List ℕ → Registry
  unfolding insert remove
  register r rikey = record {
    registrations = insert dec rikey r.next_epoch r.registrations;
    next_epoch = (r.next_epoch + 1) % 2 ^ 64;
  }

  unfoldable pub forget : Registry → List ℕ → Registry
  unfolding remove
  forget r rikey = record r { registrations = remove dec rikey r.registrations }

  -- The registrations keep one entry for a key.
  register-Unique :
      (r : Registry) (rikey : List ℕ)
      → Unique dec r.registrations
      → Unique dec (register r rikey).registrations
  unfolding register
  register-Unique r rikey u = insert-Unique dec rikey (r.next_epoch) (r.registrations) u

  forget-Unique :
      (r : Registry) (rikey : List ℕ)
      → Unique dec r.registrations
      → Unique dec (forget r rikey).registrations
  unfolding forget
  forget-Unique r rikey u = remove-Unique dec rikey (r.registrations) u
