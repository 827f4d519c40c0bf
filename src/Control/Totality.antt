-- ===== src/Control/Totality.antt =====
-- Parsing a control message on every branch.
use redfog.Base.{ℕ, ◌+◌, ◌-◌, refl, ◌==◌, ltb, slice, ◌||◌, Option, List, length, arith}
use redfog.Base.Reads.{
  le_u16_at, le_u32_at, be_u32_at, le_u64_at, Returns, bind-Returns, if-Returns, slice-Returns,
  le_u16_at-Returns, le_u32_at-Returns, be_u32_at-Returns, le_u64_at-Returns,
}
use redfog.Control.Wire.{
  Parsed, ok, err, parse, decrypt_wrapper, open_inner, from_type_and_payload, control_msg_encrypted,
  control_msg_input_data, control_msg_request_idr_frame, control_msg_invalidate_reference_frames,
  control_msg_loss_stats,
}

from_type_and_payload-Returns :
    (message_type : ℕ) (payload : List ℕ) → Returns (from_type_and_payload message_type payload)
unfolding from_type_and_payload
from_type_and_payload-Returns message_type payload =
    if-Returns (message_type == control_msg_input_data) _ _
      (λ _.
        if-Returns (ltb (length payload) 4) _ _ (λ _. (_, refl))
          (λ e.
            bind-Returns (be_u32_at payload 0) _ (be_u32_at-Returns payload 0 (ground (arith, e)))
              (λ event_len.
                if-Returns (ltb (length payload - 4) event_len) _ _ (λ _. (_, refl))
                  (λ e'.
                    bind-Returns (slice payload 4 (4 + event_len)) _
                      (slice-Returns payload 4 (4 + event_len) (omega arith)
                        (ground (arith, e, e')))
                      (λ _. (_, refl))))))
      (λ _.
        if-Returns
          ((message_type == control_msg_request_idr_frame)
            || (message_type == control_msg_invalidate_reference_frames))
          _ _ (λ _. (_, refl))
          (λ _.
            if-Returns (message_type == control_msg_loss_stats) _ _
              (λ _.
                if-Returns (ltb (length payload) 20) _ _ (λ _. (_, refl))
                  (λ e.
                    bind-Returns (le_u64_at payload 12) _
                      (le_u64_at-Returns payload 12 (ground (arith, e))) (λ _. (_, refl))))
              (λ _. (_, refl))))

open_inner-Returns : (opened : Parsed (ℕ × List ℕ)) → Returns (open_inner opened)
unfolding open_inner
open_inner-Returns (err e) = (_, refl)
open_inner-Returns (ok (sequence_number, decrypted)) =
    if-Returns (ltb (length decrypted) 4) _ _ (λ _. (_, refl))
      (λ e.
        bind-Returns (le_u16_at decrypted 0) _ (le_u16_at-Returns decrypted 0 (ground (arith, e)))
          (λ inner_type.
            bind-Returns (slice decrypted 4 (length decrypted)) _
              (slice-Returns decrypted 4 (length decrypted) (ground (arith, e)) (omega arith))
              (from_type_and_payload-Returns inner_type)))

module _ (gcm_decrypt : List ℕ → List ℕ → List ℕ → List ℕ → Option (List ℕ)) where
  decrypt_wrapper-Returns :
      (payload key : List ℕ) → Returns (decrypt_wrapper gcm_decrypt payload key)
  unfolding decrypt_wrapper
  decrypt_wrapper-Returns payload key =
      if-Returns (ltb (length payload) 24) _ _ (λ _. (_, refl))
        (λ e.
          bind-Returns (le_u32_at payload 0) _ (le_u32_at-Returns payload 0 (ground (arith, e)))
            (λ _.
              bind-Returns (slice payload 4 20) _
                (slice-Returns payload 4 20 (omega arith) (ground (arith, e)))
                (λ _.
                  bind-Returns (slice payload 20 (length payload)) _
                    (slice-Returns payload 20 (length payload) (ground (arith, e)) (omega arith))
                    (λ _. (_, refl)))))

  -- Whatever a client sends, and whatever the cipher makes of it, reading it as a control message
  -- returns a message or an error: no slice is out of range.
  pub parse-Returns : (buffer key : List ℕ) → Returns (parse gcm_decrypt buffer key)
  unfolding parse
  parse-Returns buffer key =
      if-Returns (ltb (length buffer) 4) _ _ (λ _. (_, refl))
        (λ e.
          bind-Returns (le_u16_at buffer 0) _ (le_u16_at-Returns buffer 0 (ground (arith, e)))
            (λ message_type.
              bind-Returns (le_u16_at buffer 2) _ (le_u16_at-Returns buffer 2 (ground (arith, e)))
                (λ len.
                  if-Returns (ltb (length buffer - 4) len) _ _ (λ _. (_, refl))
                    (λ e'.
                      bind-Returns (slice buffer 4 (4 + len)) _
                        (slice-Returns buffer 4 (4 + len) (omega arith) (ground (arith, e, e')))
                        (λ payload.
                          if-Returns (message_type == control_msg_encrypted) _ _
                            (λ _.
                              bind-Returns (decrypt_wrapper gcm_decrypt payload key) _
                                (decrypt_wrapper-Returns payload key) open_inner-Returns)
                            (λ _. from_type_and_payload-Returns message_type payload))))))
