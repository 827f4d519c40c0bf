-- ===== src/Video/Stream.antt =====
-- A frame's byte stream, its 8-byte header and then the encoded data, cut into payloads.
use redfog.Base.{
  ℕ, ◌+◌, ◌-◌, ◌≤◌, ◌<◌, min, ◌≡◌, ap, sym, ◌∙◌, List, ◌++◌, length, take, drop, copy_at, slice,
  copy_into, slice_lem, copy_into_lem, copy_at-all, copy_at_twice, drop-append_le, drop-append_ge,
  take-append_le, take-append_ge, length-take, length-drop, take-all, length-copy_at, arith, le→ltb,
  lt→ltb, dec_lt,
}
use redfog.Base.Outcome.{returns}
use redfog.Video.Wire.{copy_header_and_data}

module _ (dst header body : List ℕ) (offset len : ℕ) (header_size : length header ≡ 8)
    (dst_size : length dst ≡ len) (fits : offset + len ≤ 8 + length body) where
  inside_header :
      offset < 8
      → offset + len ≤ 8
      → copy_header_and_data dst header body offset len
        ≡ returns (take len (drop offset (header ++ body)))
  unfolding copy_header_and_data
  inside_header h k =
      let e : min (offset + len) (8 + length body) ≡ offset + len = omega arith in
      let e8 : min 8 (offset + len) ≡ offset + len = omega arith in
      let n : offset + len - offset ≡ len = omega arith in
      let src : List ℕ = take len (drop offset header) in
      let src_size : length src ≡ len =
        omega (arith, length-take len (drop offset header), length-drop offset header) in
      let read : slice header offset (offset + len) ≡ returns src =
        slice_lem header offset (offset + len) (omega arith) (omega arith)
        ∙ ap (λ (m : ℕ). returns (take m (drop offset header))) n in
      let write : copy_into dst 0 len src ≡ returns src =
        copy_into_lem dst 0 len src (omega arith) (omega arith)
        ∙ ap returns (copy_at-all src dst (omega arith)) in
      let spec : take len (drop offset (header ++ body)) ≡ src =
        ap (take len) (drop-append_le offset header body (omega arith))
        ∙ take-append_le len (drop offset header) body (omega (arith, length-drop offset header)) in
      rw (lt→ltb offset 8 h, e, e8, n, read, write, le→ltb 8 (offset + len) k, spec)

  straddling :
      offset < 8
      → 8 < offset + len
      → copy_header_and_data dst header body offset len
        ≡ returns (take len (drop offset (header ++ body)))
  unfolding copy_header_and_data
  straddling h k =
      let e : min (offset + len) (8 + length body) ≡ offset + len = omega arith in
      let e8 : min 8 (offset + len) ≡ 8 = omega arith in
      let a : List ℕ = drop offset header in
      let a_size : length a ≡ 8 - offset = omega (arith, length-drop offset header) in
      let m : ℕ = offset + len - 8 in
      let b : List ℕ = take m body in
      let b_size : length b ≡ m = omega (arith, length-take m body) in
      let read_a : slice header offset 8 ≡ returns a =
        slice_lem header offset 8 (omega arith) (omega arith)
        ∙ ap returns (take-all (8 - offset) a (omega arith)) in
      let write_a : copy_into dst 0 (8 - offset) a ≡ returns (copy_at 0 a dst) =
        copy_into_lem dst 0 (8 - offset) a (omega arith) (omega arith) in
      let m0 : m - 0 ≡ m = omega arith in
      let read_b : slice body 0 m ≡ returns b =
        slice_lem body 0 m (omega arith) (omega arith) ∙ ap (λ (k : ℕ). returns (take k body)) m0 in
      let write_b : copy_into (copy_at 0 a dst) (8 - offset) (8 - offset + m) b ≡ returns (a ++ b) =
        copy_into_lem (copy_at 0 a dst) (8 - offset) (8 - offset + m) b (omega arith)
          (omega (arith, length-copy_at 0 a dst))
        ∙ ap (λ (n : ℕ). returns (copy_at n b (copy_at 0 a dst))) (sym a_size)
        ∙ ap returns (copy_at_twice a b dst (omega arith)) in
      let spec : take len (drop offset (header ++ body)) ≡ a ++ b =
        ap (take len) (drop-append_le offset header body (omega arith))
        ∙ take-append_ge len a body (omega arith)
        ∙ ap (λ (n : ℕ). a ++ take n body) (omega arith) in
      rw (
        lt→ltb offset 8 h,
        e,
        e8,
        read_a,
        write_a,
        lt→ltb 8 (offset + len) k,
        read_b,
        write_b,
        spec,
      )

  past_header :
      8 ≤ offset
      → copy_header_and_data dst header body offset len
        ≡ returns (take len (drop offset (header ++ body)))
  unfolding copy_header_and_data
  past_header h =
      let e : min (offset + len) (8 + length body) ≡ offset + len = omega arith in
      let src : List ℕ = take len (drop (offset - 8) body) in
      let src_size : length src ≡ len =
        omega (arith, length-take len (drop (offset - 8) body), length-drop (offset - 8) body) in
      let n : offset + len - 8 - (offset - 8) ≡ len = omega arith in
      let read : slice body (offset - 8) (offset + len - 8) ≡ returns src =
        slice_lem body (offset - 8) (offset + len - 8) (omega arith) (omega arith)
        ∙ ap (λ (m : ℕ). returns (take m (drop (offset - 8) body))) n in
      let write : copy_into dst 0 len src ≡ returns src =
        copy_into_lem dst 0 len src (omega arith) (omega arith)
        ∙ ap returns (copy_at-all src dst (omega arith)) in
      let spec : take len (drop offset (header ++ body)) ≡ src =
        ap (take len) (drop-append_ge offset header body (omega arith))
        ∙ ap (λ (m : ℕ). take len (drop (offset - m) body)) header_size in
      rw (le→ltb offset 8 h, e, read, n, write, spec)

  -- The copy never panics, and fills `dst` with its piece of the stream.
  pub copy_header_and_data_lem :
      copy_header_and_data dst header body offset len
      ≡ returns (take len (drop offset (header ++ body)))
  copy_header_and_data_lem = elim (dec_lt offset 8) [
    | yes h ↦ elim (dec_lt 8 (offset + len)) [
      | yes k ↦ straddling h k
      | no k ↦ inside_header h (omega arith)
    ]
    | no h ↦ past_header (omega arith)
  ]
