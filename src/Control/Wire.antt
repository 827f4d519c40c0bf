-- ===== src/Control/Wire.antt =====
-- crates/redfog-moonlight/src/control.rs: the control channel's messages, `ControlMessage::parse`.
-- Key, ciphertext and tag are bytes; `gcm_decrypt` is AES-128-GCM, of the aes-gcm crate.
use redfog.Base.{
  ℕ, ◌+◌, ◌-◌, ◌==◌, ltb, if◌then◌else◌, Bool, false, ◌||◌, Option, none, some, List, [], ◌∷◌, ◌++◌,
  length, le_u32, slice, zeros,
}
use redfog.Base.Outcome.{Outcome, returns, ◌>>=◌}
use redfog.Base.Reads.{le_u16_at, le_u32_at, be_u32_at, le_u64_at}

abbrev pub control_msg_encrypted : ℕ
control_msg_encrypted = 1

abbrev pub control_msg_loss_stats : ℕ
control_msg_loss_stats = 513

abbrev pub control_msg_input_data : ℕ
control_msg_input_data = 518

abbrev pub control_msg_request_idr_frame : ℕ
control_msg_request_idr_frame = 770

abbrev pub control_msg_invalidate_reference_frames : ℕ
control_msg_invalidate_reference_frames = 769

pub data ControlMessage : Type 0 where
  input_data : List ℕ → ControlMessage
  request_idr_frame : ControlMessage
  loss_stats : ℕ → ControlMessage
  other : ControlMessage

-- The texts of the errors, as names.
pub data ParseError : Type 0 where
  message_too_short : ParseError
  length_mismatch : ParseError
  encrypted_too_short : ParseError
  decryption_failed : ParseError
  decrypted_too_short : ParseError
  input_too_short : ParseError
  event_length_mismatch : ParseError
  loss_stats_too_short : ParseError

pub data Parsed (A : Type 0) : Type 0 where
  ok : A → Parsed A
  err : ParseError → Parsed A

unfoldable pub is_encrypted_message : List ℕ → Outcome Bool
unfolding le_u16_at
is_encrypted_message buffer =
    if ltb (length buffer) 4
    then returns false
    else (do message_type ← le_u16_at buffer 0; returns (message_type == control_msg_encrypted))

unfoldable pub from_type_and_payload : ℕ → List ℕ → Outcome (Parsed ControlMessage)
unfolding be_u32_at le_u64_at slice
from_type_and_payload message_type payload =
    if message_type == control_msg_input_data
    then (if ltb (length payload) 4 then returns (err input_too_short) else (do
      event_len ← be_u32_at payload 0
      (if ltb (length payload - 4) event_len
          then returns (err event_length_mismatch)
          else (do event ← slice payload 4 (4 + event_len); returns (ok (input_data event))))))
    else if (message_type == control_msg_request_idr_frame)
        || (message_type == control_msg_invalidate_reference_frames)
    then returns (ok request_idr_frame)
    else if message_type == control_msg_loss_stats
    then (if ltb (length payload) 20
        then returns (err loss_stats_too_short)
        else (do last_good_frame ← le_u64_at payload 12; returns (ok (loss_stats last_good_frame))))
    else returns (ok other)

-- The nonce of a message from a client: its sequence number, zeros, and "CC".
unfoldable pub serverbound_iv : ℕ → List ℕ
serverbound_iv sequence_number = le_u32 sequence_number ++ zeros 6 ++ 67 ∷ 67 ∷ []

unfoldable pub open_inner : Parsed (ℕ × List ℕ) → Outcome (Parsed ControlMessage)
unfolding le_u16_at slice from_type_and_payload
open_inner (err e) = returns (err e)
open_inner (ok (sequence_number, decrypted)) =
    if ltb (length decrypted) 4 then returns (err decrypted_too_short) else (do
      inner_type ← le_u16_at decrypted 0
      payload ← slice decrypted 4 (length decrypted)
      from_type_and_payload inner_type payload)

-- What the cipher answers, with the sequence number that `note_sequence_number` is told of.
abbrev pub opened : ℕ → Option (List ℕ) → Parsed (ℕ × List ℕ)
opened sequence_number none = err decryption_failed
opened sequence_number (some plaintext) = ok (sequence_number, plaintext)

module _ (gcm_decrypt : List ℕ → List ℕ → List ℕ → List ℕ → Option (List ℕ)) where
  unfoldable pub decrypt_wrapper : List ℕ → List ℕ → Outcome (Parsed (ℕ × List ℕ))
  unfolding le_u32_at slice serverbound_iv
  decrypt_wrapper payload key =
      if ltb (length payload) 24 then returns (err encrypted_too_short) else (do
        sequence_number ← le_u32_at payload 0
        tag ← slice payload 4 20
        ciphertext ← slice payload 20 (length payload)
        returns (
            opened sequence_number
              (gcm_decrypt ciphertext key (serverbound_iv sequence_number) tag)))

  unfoldable pub parse : List ℕ → List ℕ → Outcome (Parsed ControlMessage)
  unfolding le_u16_at slice from_type_and_payload decrypt_wrapper open_inner
  parse buffer key = if ltb (length buffer) 4 then returns (err message_too_short) else (do
    message_type ← le_u16_at buffer 0
    len ← le_u16_at buffer 2
    (if ltb (length buffer - 4) len then returns (err length_mismatch) else (do
      payload ← slice buffer 4 (4 + len)
      (if message_type == control_msg_encrypted
          then decrypt_wrapper payload key >>= open_inner
          else from_type_and_payload message_type payload))))
