-- ===== src/Login/Framing.antt =====
-- Reading back what was written, and streams that end inside a message.
use redfog.Base.{
  ℕ, zero, suc, ◌/◌, ◌%◌, ◌<◌, ◌≡◌, refl, ap, ◌∙◌, le→leb, lt→leb, Option, none, some, List, ◌++◌,
  length, take, of_le_u32, of_le-le_u32, u32_size, take-append, drop-append, length-append,
  length-take, arith,
}
use redfog.Login.{
  Message, frame, input, got, unexpected_eof, write_message, frame_payload, read_exact,
  decode_frame, write, decode, read_payload, read_message, tag_frame, tag_input,
}

read_exact-append :
    (payload rest : List ℕ) → read_exact (length payload) (payload ++ rest) ≡ some (payload, rest)
unfolding read_exact
read_exact-append payload rest =
    rw
      (
        le→leb (length payload) (length (payload ++ rest))
            (omega (arith, length-append payload rest)),
        take-append payload rest,
        drop-append payload rest,
      )
      refl

read_exact-short : (n : ℕ) (stream : List ℕ) → length stream < n → read_exact n stream ≡ none
unfolding read_exact
read_exact-short n stream h = rw (lt→leb n (length stream) h) refl

module _ {Event : Type 0} (to_vec : Event → List ℕ) (from_slice : List ℕ → Option Event) where
  -- What fits the fields of the format.
  abbrev pub Fits : Message Event → Type 0
  Fits (frame width height rgba) =
      (width < u32_size)
      × (height < u32_size)
      × (length (frame_payload width height rgba) < u32_size)
  Fits (input event) = length (to_vec event) < u32_size

  -- The event of a message is one that its own JSON restores.
  abbrev pub Restores : Message Event → Type 0
  Restores (frame width height rgba) = Unit {0}
  Restores (input event) = from_slice (to_vec event) ≡ some event

  read_message-write_message :
      (tag : ℕ) (payload rest : List ℕ)
      → length payload < u32_size
      → read_message to_vec from_slice (write_message tag payload ++ rest)
        ≡ decode to_vec from_slice tag payload rest
  unfolding read_message write_message read_payload
  read_message-write_message tag payload rest h =
      let n : ℕ = length payload % u32_size in
      let len : of_le_u32 (n % 256) (n / 256 % 256) (n / 65536 % 256) (n / 16777216 % 256)
          ≡ length payload =
        omega arith in
      ap (λ (k : ℕ). read_payload to_vec from_slice tag (read_exact k (payload ++ rest))) len
      ∙ ap (read_payload to_vec from_slice tag) (read_exact-append payload rest)

  -- Of a message that fits, and whose event, if it is one, is restored by its own JSON: reading back what
  -- was written gives the message, and leaves what follows it.
  pub read_message-write :
      (m : Message Event) (rest : List ℕ)
      → Fits m
      → Restores m
      → read_message to_vec from_slice (write to_vec from_slice m ++ rest) ≡ got m rest
  unfolding write decode decode_frame frame_payload
  read_message-write (frame width height rgba) rest (hw, hh, hl) restores =
      let w : of_le_u32 (width % 256) (width / 256 % 256) (width / 65536 % 256)
            (width / 16777216 % 256)
          ≡ width =
        of_le-le_u32 width hw in
      let h : of_le_u32 (height % 256) (height / 256 % 256) (height / 65536 % 256)
            (height / 16777216 % 256)
          ≡ height =
        of_le-le_u32 height hh in
      read_message-write_message tag_frame (frame_payload width height rgba) rest hl
      ∙ rw (w, h) refl
  read_message-write (input event) rest h restores =
      read_message-write_message tag_input (to_vec event) rest h ∙ rw restores refl

  cut_message :
      (tag : ℕ) (payload : List ℕ) (n : ℕ)
      → length payload < u32_size
      → suc n < length (write_message tag payload)
      → read_message to_vec from_slice (take (suc n) (write_message tag payload)) ≡ unexpected_eof
  unfolding read_message write_message read_payload
  cut_message tag payload zero h k = refl
  cut_message tag payload (suc zero) h k = refl
  cut_message tag payload (suc (suc zero)) h k = refl
  cut_message tag payload (suc (suc (suc zero))) h k = refl
  cut_message tag payload (suc (suc (suc (suc n)))) h k =
      let m : ℕ = length payload % u32_size in
      let len : of_le_u32 (m % 256) (m / 256 % 256) (m / 65536 % 256) (m / 16777216 % 256)
          ≡ length payload =
        omega arith in
      ap (λ (j : ℕ). read_payload to_vec from_slice tag (read_exact j (take n payload))) len
      ∙ ap (read_payload to_vec from_slice tag) (
          read_exact-short (length payload) (take n payload) (omega (arith, length-take n payload)))

  -- A stream that ends inside a message is an error, wherever it ends, and never taken for a clean end
  -- or for a shorter message.
  pub cut_unexpected_eof :
      (m : Message Event) (n : ℕ)
      → Fits m
      → suc n < length (write to_vec from_slice m)
      → read_message to_vec from_slice (take (suc n) (write to_vec from_slice m)) ≡ unexpected_eof
  unfolding write
  cut_unexpected_eof (frame width height rgba) n (hw, hh, hl) k =
      cut_message tag_frame (frame_payload width height rgba) n hl k
  cut_unexpected_eof (input event) n h k = cut_message tag_input (to_vec event) n h k
