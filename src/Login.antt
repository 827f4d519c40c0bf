-- ===== src/Login.antt =====
-- crates/redfog-login-protocol/src/render.rs: the framed messages between the login screen and the
-- process that shows it. A stream is the bytes still to be read. An event is of any type, with serde's
-- `to_vec` and `from_slice` for it.
pub mod Framing
use redfog.Base.{
  ℕ, ◌%◌, ◌==◌, leb, if◌then◌else◌, Option, none, some, List, [], ◌∷◌, ◌++◌, length, take, drop,
  le_u32, of_le_u32, u32_size,
}

abbrev pub tag_frame : ℕ
tag_frame = 1

abbrev pub tag_input : ℕ
tag_input = 2

pub data Message (Event : Type 0) : Type 0 where
  frame : (width height : ℕ) → List ℕ → Message Event
  input : Event → Message Event

-- What a read gives: a message and the rest of the stream, a clean end, or an error.
pub data Read (Event : Type 0) : Type 0 where
  got : Message Event → List ℕ → Read Event
  ended : Read Event
  unexpected_eof : Read Event
  invalid_data : Read Event

unfoldable pub write_message : ℕ → List ℕ → List ℕ
write_message tag payload = tag ∷ le_u32 (length payload % u32_size) ++ payload

-- The payload of `write_frame`.
unfoldable pub frame_payload : ℕ → ℕ → List ℕ → List ℕ
frame_payload width height rgba = le_u32 width ++ le_u32 height ++ rgba

-- `read_exact`: so many bytes and what follows them, or the end of the stream came first.
unfoldable pub read_exact : ℕ → List ℕ → Option (List ℕ × List ℕ)
read_exact n stream = if leb n (length stream) then some (take n stream, drop n stream) else none

module _ {Event : Type 0} where
  unfoldable pub decode_frame : List ℕ → List ℕ → Read Event
  decode_frame (a ∷ b ∷ c ∷ d ∷ e ∷ f ∷ g ∷ h ∷ rgba) rest =
      got (frame (of_le_u32 a b c d) (of_le_u32 e f g h) rgba) rest
  decode_frame _ rest = invalid_data

  module _ (to_vec : Event → List ℕ) (from_slice : List ℕ → Option Event) where
    unfoldable pub write : Message Event → List ℕ
    unfolding write_message frame_payload
    write (frame width height rgba) = write_message tag_frame (frame_payload width height rgba)
    write (input event) = write_message tag_input (to_vec event)

    unfoldable pub decode : ℕ → List ℕ → List ℕ → Read Event
    unfolding decode_frame
    decode tag payload rest =
        if tag == tag_frame
        then decode_frame payload rest
        else if tag == tag_input
        then elim (from_slice payload) [ none ↦ invalid_data | some event ↦ got (input event) rest ]
        else invalid_data

    unfoldable pub read_payload : ℕ → Option (List ℕ × List ℕ) → Read Event
    unfolding decode
    read_payload tag none = unexpected_eof
    read_payload tag (some (payload, rest)) = decode tag payload rest

    unfoldable pub read_message : List ℕ → Read Event
    unfolding read_exact read_payload
    read_message [] = ended
    read_message (tag ∷ a ∷ b ∷ c ∷ d ∷ stream) =
        read_payload tag (read_exact (of_le_u32 a b c d) stream)
    read_message (tag ∷ _) = unexpected_eof
