-- ===== src/Clients/State.antt =====
-- The state of `ClientManager`. A map is a list of entries; a scale, an `f64`, is of any type. What is
-- given to `persist` is a list of the states to write to the file, the latest first.
use redfog.Base.{ℕ, Option, none, some, List, ◌∷◌, ◌++◌, get, insert}
use redfog.Base.Text.{Text, text_discrete}
use redfog.Base.Decimal.{decimal}

-- The messages of the errors; `invalid_crypto` is an error of a wrapper of crypto.rs.
pub data ClientError : Type 0 where
  no_pending_client : ClientError
  no_key_yet : ClientError
  invalid_crypto : ClientError
  no_server_secret : ClientError
  secret_too_short : ClientError
  no_client_hash : ClientError
  no_server_challenge : ClientError
  client_hash_mismatch : ClientError
  no_paired_device : ClientError
  ambiguous_fingerprint : ℕ → ClientError

pub data Result (A : Type 0) : Type 0 where
  ok : A → Result A
  err : ClientError → Result A

infixl 5 ◌>>=◌
abbrev pub ◌>>=◌ : {A B : Type 0} → Result A → (A → Result B) → Result B
ok a >>= f = f a
err e >>= f = err e

abbrev pub ok_or : {A : Type 0} → ClientError → Option A → Result A
ok_or e none = err e
ok_or e (some a) = ok a

pub record PendingClient (Scale : Type 0) : Type 0 where
  pub unique_id : Text
  pub client_cert_pem : Text
  pub salt : List ℕ
  pub key : Option (List ℕ)
  pub server_secret : Option (List ℕ)
  pub server_challenge : Option (List ℕ)
  pub client_hash : Option (List ℕ)
  pub scale : Option Scale
  pub scale_by_resolution : List (Text × Scale)
  pub name : Option Text

pub record PairedEntry (Scale : Type 0) : Type 0 where
  pub scale : Option Scale
  pub scale_by_resolution : List (Text × Scale)
  pub name : Option Text
  pub last_seen_ip : Option Text
  pub last_seen_resolution : Option Text
  pub seen_resolutions : List Text

pub record ClientManager (Scale : Type 0) : Type 0 where
  pub pending : List (Text × PendingClient Scale)
  pub paired_by_fingerprint : List (Text × PairedEntry Scale)
  pub persisted : List (List (Text × PairedEntry Scale))
  pub server_cert_pem : Text
  pub server_private_key_pem : Text

-- The letter x.
abbrev pub x_byte : ℕ
x_byte = 120

unfoldable pub resolution_key : ℕ → ℕ → Text
unfolding decimal
resolution_key width height = decimal width ++ x_byte ∷ decimal height

module _ {Scale : Type 0} where
  unfoldable pub entry_scale : PairedEntry Scale → ℕ → ℕ → Option Scale
  unfolding resolution_key
  entry_scale entry width height =
      elim (get text_discrete (resolution_key width height) (entry.scale_by_resolution)) [
        | none ↦ entry.scale
        | some scale ↦ some scale
      ]

  -- The state locked, changed and given to `persist`.
  unfoldable pub persist :
      List (Text × PairedEntry Scale) → ClientManager Scale → ClientManager Scale
  persist paired m = record m { paired_by_fingerprint = paired; persisted = paired ∷ m.persisted }

  unfoldable pub put_pending :
      Text → PendingClient Scale → ClientManager Scale → ClientManager Scale
  unfolding insert
  put_pending unique_id client m = record m {
    pending = insert text_discrete unique_id client (m.pending);
  }
