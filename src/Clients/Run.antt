-- ===== src/Clients/Run.antt =====
-- The requests that reach a `ClientManager`, one after another: whoever sends them, in any order.
use redfog.Base.{ℕ, Option, List, [], ◌∷◌}
use redfog.Base.Text.{Text}
use redfog.Crypto.{Libraries}
use redfog.Clients.State.{ClientManager}
use redfog.Clients.Records.{
  set_scale_for_pending, set_scale_for_paired, set_name_for_pending, set_name_for_paired, note_seen,
}
use redfog.Clients.Handshake.{
  start_pairing, submit_pin, client_challenge, server_challenge_response,
  check_client_pairing_secret,
}

pub data Request (Scale : Type 0) : Type 0 where
  start : (unique_id client_cert_pem : Text) → (salt : List ℕ) → Request Scale
  pin : (unique_id digits : Text) → Request Scale
  challenge : (unique_id : Text) → (message server_secret server_challenge : List ℕ) → Request Scale
  response : (unique_id : Text) → (message : List ℕ) → Request Scale
  secret : (unique_id : Text) → (message : List ℕ) → (peer_ip : Text) → Request Scale
  pending_scale : (unique_id : Text) → Scale → Option (ℕ × ℕ) → Request Scale
  pending_name : (unique_id name : Text) → Request Scale
  paired_scale : (fingerprint : Text) → Scale → Option (ℕ × ℕ) → Request Scale
  paired_name : (fingerprint name : Text) → Request Scale
  seen : (fingerprint ip : Text) → (width height : ℕ) → Request Scale

module _ {Scale : Type 0} (lib : Libraries) where
  -- The state that a request leaves.
  unfoldable pub serve : Request Scale → ClientManager Scale → ClientManager Scale
  unfolding start_pairing submit_pin client_challenge server_challenge_response
      check_client_pairing_secret set_scale_for_pending set_name_for_pending set_scale_for_paired
      set_name_for_paired note_seen
  serve (start unique_id client_cert_pem salt) m = start_pairing unique_id client_cert_pem salt m
  serve (pin unique_id digits) m = (submit_pin lib unique_id digits m).0
  serve (challenge unique_id message server_secret server_challenge) m =
      (client_challenge lib unique_id message server_secret server_challenge m).0
  serve (response unique_id message) m = (server_challenge_response lib unique_id message m).0
  serve (secret unique_id message peer_ip) m =
      (check_client_pairing_secret lib unique_id message peer_ip m).0
  serve (pending_scale unique_id scale resolution) m =
      (set_scale_for_pending unique_id scale resolution m).0
  serve (pending_name unique_id name) m = (set_name_for_pending unique_id name m).0
  serve (paired_scale fingerprint scale resolution) m =
      (set_scale_for_paired fingerprint scale resolution m).0
  serve (paired_name fingerprint name) m = (set_name_for_paired fingerprint name m).0
  serve (seen fingerprint ip width height) m = note_seen fingerprint ip width height m

  unfoldable pub run : List (Request Scale) → ClientManager Scale → ClientManager Scale
  unfolding serve
  run [] m = m
  run (r ∷ rs) m = run rs (serve r m)
