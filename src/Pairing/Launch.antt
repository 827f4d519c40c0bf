-- ===== src/Pairing/Launch.antt =====
-- What `/serverinfo` says of the pairing state, and `/launch` up to the call of the session's handler.
use redfog.Base.{
  ℕ, ◌-◌, ◌+◌, ◌*◌, ◌==◌, ltb, leb, if◌then◌else◌, Bool, true, false, ◌&&◌, Option, none, some,
  ◌>>=◌, List, [], ◌∷◌, ℤ, pos, negsuc,
}
use redfog.Base.Text.{Text}
use redfog.Base.Decimal.{is_digit}
use redfog.Clients.State.{ClientManager}
use redfog.Clients.Records.{is_paired_by_cert, note_seen, scale_for_cert_fingerprint}
use redfog.Pairing.Params.{Float, parse_mode}
use redfog.Pairing.Requests.{Params, mode, rikey, rikeyid, as_key}

pub data ClientKey : Type 0 where
  cert : Text → ClientKey
  ip : Text → ClientKey

-- The certificate's fingerprint where the client presented one, else its address.
unfoldable pub client_key_of : Option Text → Text → ClientKey
client_key_of none peer_ip = ip peer_ip
client_key_of (some fingerprint) peer_ip = cert fingerprint

-- Digits after the value so far, which may grow without bound.
unfoldable pub digits_value : ℕ → List ℕ → Option ℕ
digits_value value [] = some value
digits_value value (c ∷ cs) =
    let rest = digits_value (value * 10 + (c - 48)) cs in if is_digit c then rest else none

-- The magnitude of a signed number of 64 bits: below 2 ^ 63, or 2 ^ 63 itself under a minus sign.
abbrev pub i64_size : ℕ
i64_size = 9223372036854775808

abbrev negated : ℕ → ℤ
negated n = if n == 0 then pos 0 else negsuc (n - 1)

unfoldable pub parse_magnitude : Bool → List ℕ → Option ℤ
unfolding digits_value
parse_magnitude minus [] = none
parse_magnitude true (c ∷ cs) =
    digits_value 0 (c ∷ cs) >>= (λ n. if leb n i64_size then some (negated n) else none)
parse_magnitude false (c ∷ cs) =
    digits_value 0 (c ∷ cs) >>= (λ n. if ltb n i64_size then some (pos n) else none)

-- `str::parse::<i64>`.
unfoldable pub parse_i64 : Text → Option ℤ
unfolding parse_magnitude
parse_i64 [] = none
parse_i64 (c ∷ cs) =
    if c == 45
    then parse_magnitude true cs
    else if c == 43
    then parse_magnitude false cs
    else parse_magnitude false (c ∷ cs)

pub record RemoteInputKey : Type 0 where
  pub key : List ℕ
  pub key_id : ℤ

unfoldable pub parse_rikey : (Text → Option (List ℕ)) → Params → Option RemoteInputKey
unfolding as_key parse_i64
parse_rikey hex_decode params = do
  key_hex ← params rikey
  bytes ← hex_decode key_hex
  key ← as_key bytes
  id_text ← params rikeyid
  key_id ← parse_i64 id_text
  some (record { key = key; key_id = key_id })

-- The call of `LaunchHandler::launch` that a request leads to; without a key there is none.
pub data Launched (Scale : Type 0) : Type 0 where
  bad_rikey : Launched Scale
  launches :
      (width height fps : ℕ)
      → Scale
      → RemoteInputKey
      → ClientKey
      → (client_ip : Text) → Launched Scale

module _ {Scale : Type 0} where
  unfoldable pub server_info_paired : Bool → Option Text → ClientManager Scale → Bool
  unfolding is_paired_by_cert
  server_info_paired https none m = false
  server_info_paired https (some fingerprint) m = https && is_paired_by_cert fingerprint m

  -- The scale of the client's device, 1.0 where none is set.
  unfoldable pub launch_scale : Float Scale → ClientKey → ℕ → ℕ → ClientManager Scale → Scale
  unfolding scale_for_cert_fingerprint
  launch_scale f (ip address) width height m = f.one
  launch_scale f (cert fingerprint) width height m =
      elim (scale_for_cert_fingerprint fingerprint width height m) [
        | none ↦ f.one
        | some scale ↦ scale
      ]

  unfoldable pub launch_seen : ClientKey → Text → ℕ → ℕ → ClientManager Scale → ClientManager Scale
  unfolding note_seen
  launch_seen (ip address) client_ip width height m = m
  launch_seen (cert fingerprint) client_ip width height m =
      note_seen fingerprint client_ip width height m

  unfoldable pub launch_with :
      Float Scale
      → ℕ × ℕ × ℕ
      → RemoteInputKey
      → ClientKey
      → Text
      → ClientManager Scale
      → ClientManager Scale × Launched Scale
  unfolding launch_seen launch_scale
  launch_with f (width, height, fps) input_key client_key client_ip m =
      let seen = launch_seen client_key client_ip width height m in
      (
        seen,
        launches width height fps (launch_scale f client_key width height seen) input_key client_key
            client_ip,
      )

  unfoldable pub launch :
      (Text → Option (List ℕ))
      → Float Scale
      → Params
      → ClientKey
      → Text
      → ClientManager Scale
      → ClientManager Scale × Launched Scale
  unfolding parse_rikey parse_mode launch_with
  launch hex_decode f params client_key client_ip m = elim (parse_rikey hex_decode params) [
    | none ↦ (m, bad_rikey)
    | some input_key ↦ launch_with f (parse_mode (params mode)) input_key client_key client_ip m
  ]
