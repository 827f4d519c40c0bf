-- ===== src/Pairing/Requests.antt =====
-- The requests by which a Moonlight client pairs: the steps of `/pair`. `hex_decode` is that of the hex crate.
use redfog.Base.{ℕ, ◌==◌, if◌then◌else◌, Option, none, some, ◌>>=◌, List, [], ◌∷◌, length}
use redfog.Base.Text.{same_bytes, Text}
use redfog.Base.Utf8.{from_utf8}
use redfog.Crypto.{Libraries}
use redfog.Clients.State.{ClientError, Result, ClientManager}
use redfog.Clients.Handshake.{
  start_pairing, client_challenge, server_challenge_response, check_client_pairing_secret,
}

-- The names of the parameters that the code looks up.
pub data Name : Type 0 where
  phrase : Name
  clientchallenge : Name
  serverchallengeresp : Name
  clientpairingsecret : Name
  uniqueid : Name
  clientcert : Name
  salt : Name
  mode : Name
  rikey : Name
  rikeyid : Name
  fingerprint : Name
  pin : Name
  scale : Name
  resolution : Name
  name : Name

abbrev pub Params : Type 0
Params = Name → Option Text

pub data Reply : Type 0 where
  paired : Reply
  challenge_response : Text → Reply
  pairing_secret : Text → Reply
  -- The reply is held until the PIN is there, and is then the server's certificate.
  waits_for_pin : Reply
  unknown_phrase : Reply
  unrecognized : Reply
  missing_parameter : Reply
  invalid_parameter : Reply
  refused : ClientError → Reply

abbrev getservercert : Text
getservercert = 103 ∷ 101 ∷ 116 ∷ 115 ∷ 101 ∷ 114 ∷ 118 ∷ 101 ∷ 114 ∷ 99 ∷ 101 ∷ 114 ∷ 116 ∷ []

abbrev pairchallenge : Text
pairchallenge = 112 ∷ 97 ∷ 105 ∷ 114 ∷ 99 ∷ 104 ∷ 97 ∷ 108 ∷ 108 ∷ 101 ∷ 110 ∷ 103 ∷ 101 ∷ []

-- `try_into` of bytes that must be 16, for a salt or a key.
unfoldable pub as_key : List ℕ → Option (List ℕ)
as_key bytes = if length bytes == 16 then some bytes else none

module _ {Scale : Type 0} (lib : Libraries) (hex_decode : Text → Option (List ℕ)) where
  unfoldable pub pair_get_server_cert : Params → ClientManager Scale → ClientManager Scale × Reply
  unfolding from_utf8 as_key start_pairing
  pair_get_server_cert params m = elim (params uniqueid) [
    | none ↦ (m, missing_parameter)
    | some unique_id ↦ elim (params clientcert) [
      | none ↦ (m, missing_parameter)
      | some client_cert_hex ↦ elim (params salt) [
        | none ↦ (m, missing_parameter)
        | some salt_hex ↦ elim (hex_decode client_cert_hex >>= from_utf8) [
          | none ↦ (m, invalid_parameter)
          | some client_cert_pem ↦ elim (hex_decode salt_hex >>= as_key) [
            | none ↦ (m, invalid_parameter)
            | some salt_bytes ↦
                (start_pairing unique_id client_cert_pem salt_bytes m, waits_for_pin)
          ]
        ]
      ]
    ]
  ]

  -- The id and the decoded message of a step, which answers a message or an error.
  unfoldable pub pair_step :
      {A : Type 0}
      → Params
      → Text
      → (Text → List ℕ → ClientManager Scale × Result A)
      → (A → Reply)
      → ClientManager Scale
      → ClientManager Scale × Reply
  pair_step params message_hex step answer m = elim (params uniqueid) [
    | none ↦ (m, missing_parameter)
    | some unique_id ↦ elim (hex_decode message_hex) [
      | none ↦ (m, invalid_parameter)
      | some message ↦ elim ((step unique_id message).1) [
        | Result.ok a ↦ ((step unique_id message).0, answer a)
        | Result.err e ↦ ((step unique_id message).0, refused e)
      ]
    ]
  ]

  unfoldable pub pair_client_challenge :
      Params → Text → List ℕ → List ℕ → ClientManager Scale → ClientManager Scale × Reply
  unfolding pair_step client_challenge
  pair_client_challenge params challenge_hex server_secret server_challenge m =
      pair_step params challenge_hex
        (λ unique_id challenge.
          client_challenge lib unique_id challenge server_secret server_challenge m)
        (λ response. challenge_response (lib.hex_encode response)) m

  unfoldable pub pair_server_challenge_response :
      Params → Text → ClientManager Scale → ClientManager Scale × Reply
  unfolding pair_step server_challenge_response
  pair_server_challenge_response params resp_hex m =
      pair_step params resp_hex
        (λ unique_id response. server_challenge_response lib unique_id response m)
        (λ secret. pairing_secret (lib.hex_encode secret)) m

  unfoldable pub pair_client_pairing_secret :
      Params → Text → Text → ClientManager Scale → ClientManager Scale × Reply
  unfolding pair_step check_client_pairing_secret
  pair_client_pairing_secret params secret_hex peer_ip m =
      pair_step params secret_hex
        (λ unique_id secret. check_client_pairing_secret lib unique_id secret peer_ip m)
        (λ done. paired) m

  -- A request of `/pair`: the phrase first, then the first of the three messages that is there.
  unfoldable pub pair :
      Params → Text → List ℕ → List ℕ → ClientManager Scale → ClientManager Scale × Reply
  unfolding pair_get_server_cert pair_client_challenge pair_server_challenge_response
      pair_client_pairing_secret
  pair params peer_ip server_secret server_challenge m = elim (params phrase) [
    | some text ↦
        if same_bytes text getservercert
        then pair_get_server_cert params m
        else if same_bytes text pairchallenge
        then (m, paired)
        else (m, unknown_phrase)
    | none ↦ elim (params clientchallenge) [
      | some challenge ↦ pair_client_challenge params challenge server_secret server_challenge m
      | none ↦ elim (params serverchallengeresp) [
        | some response ↦ pair_server_challenge_response params response m
        | none ↦ elim (params clientpairingsecret) [
          | some secret ↦ pair_client_pairing_secret params secret peer_ip m
          | none ↦ (m, unrecognized)
        ]
      ]
    ]
  ]
