-- ===== src/Pairing/Submit.antt =====
-- `/submit-pin`: a person relays the PIN of a client that is pairing, or sets the scale or the name of a device.
-- The parameters are those of the query and of the form together. A name is its characters.
use redfog.Base.{ℕ, Option, none, some, ◌⊎◌, inl, inr}
use redfog.Base.Text.{Text}
use redfog.Crypto.{Libraries}
use redfog.Clients.State.{ClientError, Result, ClientManager}
use redfog.Clients.Records.{
  set_scale_for_pending, set_scale_for_paired, set_name_for_pending, set_name_for_paired,
}
use redfog.Clients.Handshake.{submit_pin}
use redfog.Pairing.Params.{ParamError, Parsed, Float, parse_scale, parse_resolution, parse_name}
use redfog.Pairing.Requests.{Params, uniqueid, fingerprint, pin, scale, resolution, name}

-- The replies: `ok`, or why the request is bad.
pub data Answer : Type 0 where
  done : Answer
  both_ids : Answer
  no_id : Answer
  pin_for_paired : Answer
  nothing_to_do : Answer
  resolution_without_scale : Answer
  bad_value : ParamError → Answer
  refused : ClientError → Answer

-- The one device that the request is about.
pub data Device : Type 0 where
  pending_device : (unique_id : Text) → Device
  paired_device : (fingerprint : Text) → Device

-- The device, or why there is not just one.
unfoldable pub device_of : Option Text → Option Text → Device ⊎ Answer
device_of (some unique_id) (some key) = inr both_ids
device_of none none = inr no_id
device_of (some unique_id) none = inl (pending_device unique_id)
device_of none (some key) = inl (paired_device key)

-- The first of two objections.
unfoldable pub or_else : Option Answer → Option Answer → Option Answer
or_else none later = later
or_else (some answer) later = some answer

unfoldable pub pin_misplaced : Device → Option Text → Option Answer
pin_misplaced (paired_device key) (some digits) = some pin_for_paired
pin_misplaced (paired_device key) none = none
pin_misplaced (pending_device unique_id) digits = none

unfoldable pub all_missing : Option Text → Option Text → Option Text → Option Answer
all_missing none none none = some nothing_to_do
all_missing none none (some text) = none
all_missing none (some text) other = none
all_missing (some text) other another = none

unfoldable pub lone_resolution : Option Text → Option Text → Option Answer
lone_resolution none (some size) = some resolution_without_scale
lone_resolution none none = none
lone_resolution (some text) size = none

-- What is wrong with the parameters that are there, before any is used.
unfoldable pub objection : Params → Device → Option Answer
unfolding or_else pin_misplaced all_missing lone_resolution
objection params device = or_else (pin_misplaced device (params pin)) (
    or_else (all_missing (params pin) (params scale) (params name))
      (lone_resolution (params scale) (params resolution)))

-- A change was made, or the request ends here.
abbrev pub Progress : Type 0 → Type 0
Progress Scale = ClientManager Scale × Option Answer

unfoldable pub parse_size : Option Text → Parsed (Option (ℕ × ℕ))
unfolding parse_resolution
parse_size none = Parsed.ok none
parse_size (some text) = elim (parse_resolution text) [
  | Parsed.ok size ↦ Parsed.ok (some size)
  | Parsed.err e ↦ Parsed.err e
]

module _ {Scale : Type 0} where
  unfoldable pub progress : ClientManager Scale × Result (Unit {0}) → Progress Scale
  progress (m, Result.ok u) = (m, none)
  progress (m, Result.err e) = (m, some (refused e))

  -- The next part of the handler, unless the request has ended.
  unfoldable pub and_then :
      Progress Scale
      → (ClientManager Scale → ClientManager Scale × Answer)
      → ClientManager Scale × Answer
  and_then (m, some answer) next = (m, answer)
  and_then (m, none) next = next m

  unfoldable pub scale_device :
      Device → Scale → Option (ℕ × ℕ) → ClientManager Scale → Progress Scale
  unfolding progress set_scale_for_pending set_scale_for_paired
  scale_device (pending_device unique_id) value size m =
      progress (set_scale_for_pending unique_id value size m)
  scale_device (paired_device key) value size m = progress (set_scale_for_paired key value size m)

  unfoldable pub name_device : Device → Text → ClientManager Scale → Progress Scale
  unfolding progress set_name_for_pending set_name_for_paired
  name_device (pending_device unique_id) value m = progress (set_name_for_pending unique_id value m)
  name_device (paired_device key) value m = progress (set_name_for_paired key value m)

  unfoldable pub apply_scale :
      Float Scale → Device → Option Text → Option Text → ClientManager Scale → Progress Scale
  unfolding scale_device parse_scale parse_size
  apply_scale f device none size_text m = (m, none)
  apply_scale f device (some text) size_text m = elim (parse_scale f text) [
    | Parsed.err e ↦ (m, some (bad_value e))
    | Parsed.ok value ↦ elim (parse_size size_text) [
      | Parsed.err e ↦ (m, some (bad_value e))
      | Parsed.ok size ↦ scale_device device value size m
    ]
  ]

  unfoldable pub apply_name : Device → Option Text → ClientManager Scale → Progress Scale
  unfolding name_device parse_name
  apply_name device none m = (m, none)
  apply_name device (some text) m = elim (parse_name text) [
    | Parsed.err e ↦ (m, some (bad_value e))
    | Parsed.ok value ↦ name_device device value m
  ]

  unfoldable pub apply_pin :
      Libraries → Device → Option Text → ClientManager Scale → ClientManager Scale × Answer
  unfolding submit_pin
  apply_pin lib device none m = (m, done)
  apply_pin lib (paired_device key) (some digits) m = (m, done)
  apply_pin lib (pending_device unique_id) (some digits) m =
      elim ((submit_pin lib unique_id digits m).1) [
        | Result.ok u ↦ ((submit_pin lib unique_id digits m).0, done)
        | Result.err e ↦ ((submit_pin lib unique_id digits m).0, refused e)
      ]

  unfoldable pub apply_all :
      Libraries → Float Scale → Params → Device → ClientManager Scale → ClientManager Scale × Answer
  unfolding apply_scale apply_name apply_pin and_then
  apply_all lib f params device m =
      and_then (apply_scale f device (params scale) (params resolution) m) (λ scaled.
        and_then (apply_name device (params name) scaled) (apply_pin lib device (params pin)))

  unfoldable pub submit_to :
      Libraries
      → Float Scale
      → Params
      → ClientManager Scale
      → Device ⊎ Answer
      → ClientManager Scale × Answer
  unfolding objection apply_all
  submit_to lib f params m (inr answer) = (m, answer)
  submit_to lib f params m (inl device) = elim (objection params device) [
    | some answer ↦ (m, answer)
    | none ↦ apply_all lib f params device m
  ]

  unfoldable pub submit_pin_query :
      Libraries → Float Scale → Params → ClientManager Scale → ClientManager Scale × Answer
  unfolding submit_to device_of
  submit_pin_query lib f params m =
      submit_to lib f params m (device_of (params uniqueid) (params fingerprint))
