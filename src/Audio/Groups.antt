-- ===== src/Audio/Groups.antt =====
-- What the packets of a group of four frames hold.
use redfog.Base.{
  ℕ, ◌+◌, ◌-◌, ◌%◌, ◌<◌, ◌≡◌, refl, sym, ap, ◌∙◌, ◌==◌, eq→==, if◌then◌else◌, Bool, true, false,
  List, [], ◌∷◌, ◌++◌, length, zeros, set, copy_at, be_u16, be_u32, u16_size, length-zeros,
  replicate-add, replicate, arith,
}
use redfog.Audio.{
  AudioPacketizer, audio_fec_payload_offset, data_packet, new_fec_packet, any_other_length,
  generate_fec_packets, with_frame, packetize,
}

abbrev at : ℕ → ℕ → List (List ℕ) → Bool → AudioPacketizer
at sequence_number base_timestamp data_shards fec_enabled = record {
  sequence_number = sequence_number;
  base_timestamp = base_timestamp;
  data_shards = data_shards;
  fec_enabled = fec_enabled;
}

-- A source as long as the buffer replaces it.
copy_at-all : (src buf : List ℕ) → length src ≡ length buf → copy_at 0 src buf ≡ src
copy_at-all [] [] h = refl
copy_at-all [] (b ∷ bs) h = absurd (omega (arith, h))
copy_at-all (x ∷ xs) [] h = absurd (omega (arith, h))
copy_at-all (x ∷ xs) (b ∷ bs) h = ap (◌∷◌ x) (copy_at-all xs bs (omega (arith, h)))

-- A data packet is its marker, the type 97, the sequence number, the timestamp, four zeros, and the frame.
pub data_packet_lem :
    (sequence_number rtp_timestamp : ℕ) (opus_frame : List ℕ)
    → data_packet sequence_number rtp_timestamp opus_frame
      ≡ 128 ∷ 97 ∷ (be_u16 sequence_number ++ (be_u32 rtp_timestamp ++ (be_u32 0 ++ opus_frame)))
unfolding data_packet replicate
data_packet_lem sequence_number rtp_timestamp opus_frame =
    rw (replicate-add {A = ℕ} 12 (length opus_frame) 0) (
      ap
        (λ (rest : List ℕ).
          128 ∷ 97 ∷ (be_u16 sequence_number ++ (be_u32 rtp_timestamp ++ (be_u32 0 ++ rest))))
        (copy_at-all opus_frame (zeros (length opus_frame))
          (sym (length-zeros (length opus_frame)))))

abbrev pub fec_header : ℕ → ℕ → ℕ → ℕ → List ℕ
fec_header sequence_number index base_sequence_number base_timestamp =
    128
    ∷ 127
    ∷ (be_u16 sequence_number
        ++ (be_u32 0
            ++ (be_u32 0
                ++ (index
                    ∷ 97
                    ∷ (be_u16 base_sequence_number ++ (be_u32 base_timestamp ++ be_u32 0))))))

fec_packet_lem :
    (p : AudioPacketizer) (index base_sequence_number shard_len : ℕ) (payload : List ℕ)
    → length payload ≡ shard_len
    → copy_at audio_fec_payload_offset payload
        (new_fec_packet p index base_sequence_number shard_len)
      ≡ fec_header
          ((p.sequence_number + index) % u16_size)
          index
          base_sequence_number
          (p.base_timestamp)
        ++ payload
unfolding new_fec_packet replicate
fec_packet_lem p index base_sequence_number shard_len payload h =
    rw (replicate-add {A = ℕ} 24 shard_len 0) (
      ap
        (λ (rest : List ℕ).
          fec_header ((p.sequence_number + index) % u16_size) index base_sequence_number
            (p.base_timestamp)
          ++ rest)
        (copy_at-all payload (zeros shard_len) (h ∙ sym (length-zeros shard_len))))

module _ (encode : List (List ℕ) → ℕ → List ℕ) where
  -- A frame that does not complete its group is one packet.
  packetize-data :
      (s bt i : ℕ) (shards : List (List ℕ)) (fec : Bool) (frame : List ℕ) (t : ℕ)
      → s % 4 ≡ i
      → (i == 3) ≡ false
      → packetize encode (at s bt shards fec) frame t ≡ (
        at ((s + 1) % u16_size) (if i == 0 then t else bt) (set shards i frame) fec,
        data_packet s t frame ∷ [],
      )
  unfolding packetize with_frame
  packetize-data s bt i shards false frame t h k = rw h refl
  packetize-data s bt i shards true frame t h k = rw (h, k) refl

  -- The fourth frame brings the parity packets of the group.
  packetize-last :
      (s bt : ℕ) (shards : List (List ℕ)) (frame : List ℕ) (t : ℕ)
      → s % 4 ≡ 3
      → packetize encode (at s bt shards true) frame t ≡ (
        at ((s + 1) % u16_size) bt (set shards 3 frame) true,
        data_packet s t frame
            ∷ generate_fec_packets encode (at ((s + 1) % u16_size) bt (set shards 3 frame) true),
      )
  unfolding packetize with_frame
  packetize-last s bt shards frame t h = rw h refl

  -- The header and the parity of one of the two packets of a group.
  abbrev pub fec_packet : ℕ → ℕ → ℕ → List (List ℕ) → ℕ → List ℕ
  fec_packet sequence_number base_sequence_number base_timestamp shards index =
      fec_header ((sequence_number + index) % u16_size) index base_sequence_number base_timestamp
      ++ encode shards index

  generate_fec_packets-group :
      (s bt : ℕ) (a b c d : List ℕ)
      → length b ≡ length a
      → length c ≡ length a
      → length d ≡ length a
      → ((i : ℕ) → length (encode (a ∷ b ∷ c ∷ d ∷ []) i) ≡ length a)
      → generate_fec_packets encode (at s bt (a ∷ b ∷ c ∷ d ∷ []) true)
        ≡ fec_packet s ((s + u16_size - 4) % u16_size) bt (a ∷ b ∷ c ∷ d ∷ []) 0
          ∷ fec_packet s ((s + u16_size - 4) % u16_size) bt (a ∷ b ∷ c ∷ d ∷ []) 1
          ∷ []
  unfolding generate_fec_packets any_other_length
  generate_fec_packets-group s bt a b c d hb hc hd he =
      let group = a ∷ b ∷ c ∷ d ∷ [] in
      let base = (s + u16_size - 4) % u16_size in
      let zeroth = fec_packet_lem (at s bt group true) 0 base (length a) (encode group 0) (he 0) in
      let first = fec_packet_lem (at s bt group true) 1 base (length a) (encode group 1) (he 1) in
      rw
        (
          eq→== (length a) (length a) refl,
          eq→== (length b) (length a) hb,
          eq→== (length c) (length a) hc,
          eq→== (length d) (length a) hd,
        )
        (λ i. zeroth i ∷ first i ∷ [])

  -- Four frames one after another: the packetizer that they leave, and the packets of each.
  abbrev pub Group : AudioPacketizer → List ℕ → List ℕ → List ℕ → List ℕ → ℕ → ℕ → ℕ → ℕ → Type 0
  Group p a b c d t0 t1 t2 t3 =
      let s = p.sequence_number in
      let group = a ∷ b ∷ c ∷ d ∷ [] in
      (p1 p2 p3 p4 : AudioPacketizer) × (packetize encode p a t0 ≡ (p1, data_packet s t0 a ∷ []))
      × (packetize encode p1 b t1 ≡ (p2, data_packet (s + 1) t1 b ∷ []))
      × (packetize encode p2 c t2 ≡ (p3, data_packet (s + 2) t2 c ∷ []))
      × (packetize encode p3 d t3 ≡ (
        p4,
        data_packet (s + 3) t3 d
            ∷ fec_packet (s + 4) s t0 group 0
            ∷ fec_packet (s + 4) s t0 group 1
            ∷ [],
      ))
      × (p4.sequence_number ≡ (s + 4) % u16_size)

  generate_fec_packets-after :
      (s bt : ℕ) (a b c d : List ℕ)
      → s < u16_size
      → length b ≡ length a
      → length c ≡ length a
      → length d ≡ length a
      → ((i : ℕ) → length (encode (a ∷ b ∷ c ∷ d ∷ []) i) ≡ length a)
      → generate_fec_packets encode (at ((s + 4) % u16_size) bt (a ∷ b ∷ c ∷ d ∷ []) true)
        ≡ fec_packet (s + 4) s bt (a ∷ b ∷ c ∷ d ∷ []) 0
          ∷ fec_packet (s + 4) s bt (a ∷ b ∷ c ∷ d ∷ []) 1
          ∷ []
  generate_fec_packets-after s bt a b c d hs hb hc hd he =
      let group = a ∷ b ∷ c ∷ d ∷ [] in
      let back : ((s + 4) % u16_size + u16_size - 4) % u16_size ≡ s = omega arith in
      let next0 : ((s + 4) % u16_size + 0) % u16_size ≡ (s + 4 + 0) % u16_size = omega arith in
      let next1 : ((s + 4) % u16_size + 1) % u16_size ≡ (s + 4 + 1) % u16_size = omega arith in
      let packet = λ (n base index : ℕ). fec_header n index base bt ++ encode group index in
      generate_fec_packets-group ((s + 4) % u16_size) bt a b c d hb hc hd he
      ∙ (λ i. packet (next0 i) (back i) 0 ∷ packet (next1 i) (back i) 1 ∷ [])

  at-Group :
      (s bt : ℕ) (w x y z a b c d : List ℕ) (t0 t1 t2 t3 : ℕ)
      → s < u16_size
      → s % 4 ≡ 0
      → length b ≡ length a
      → length c ≡ length a
      → length d ≡ length a
      → ((i : ℕ) → length (encode (a ∷ b ∷ c ∷ d ∷ []) i) ≡ length a)
      → Group (at s bt (w ∷ x ∷ y ∷ z ∷ []) true) a b c d t0 t1 t2 t3
  at-Group s bt w x y z a b c d t0 t1 t2 t3 hs h4 hb hc hd he =
      let e1 : (s + 1) % u16_size ≡ s + 1 = omega arith in
      let e2 : (s + 1 + 1) % u16_size ≡ s + 2 = omega arith in
      let e3 : (s + 2 + 1) % u16_size ≡ s + 3 = omega arith in
      let e4 : (s + 3 + 1) % u16_size ≡ (s + 4) % u16_size = omega arith in
      let group = a ∷ b ∷ c ∷ d ∷ [] in
      (
        at (s + 1) t0 (a ∷ x ∷ y ∷ z ∷ []) true,
        at (s + 2) t0 (a ∷ b ∷ y ∷ z ∷ []) true,
        at (s + 3) t0 (a ∷ b ∷ c ∷ z ∷ []) true,
        at ((s + 4) % u16_size) t0 group true,
        packetize-data s bt 0 (w ∷ x ∷ y ∷ z ∷ []) true a t0 h4 refl ∙ rw e1 refl,
        packetize-data (s + 1) t0 1 (a ∷ x ∷ y ∷ z ∷ []) true b t1 (omega arith) refl ∙ rw e2 refl,
        packetize-data (s + 2) t0 2 (a ∷ b ∷ y ∷ z ∷ []) true c t2 (omega arith) refl ∙ rw e3 refl,
        packetize-last (s + 3) t0 (a ∷ b ∷ c ∷ z ∷ []) d t3 (omega arith)
            ∙ rw e4 (
                ap
                  (λ (parity : List (List ℕ)).
                    (at ((s + 4) % u16_size) t0 group true, data_packet (s + 3) t3 d ∷ parity))
                  (generate_fec_packets-after s t0 a b c d hs hb hc hd he)),
        refl,
      )

  -- With parity enabled, at the start of a group, four frames of one length give one packet each, numbered
  -- in sequence, and after the fourth the two parity packets: they carry the sequence number and
  -- the timestamp of the group's first packet and the parity of just these four frames, and take the two
  -- numbers after the group, with which the next data packet goes on all the same. The parity
  -- has the length of a frame.
  pub packetize-Group :
      (p : AudioPacketizer) (a b c d : List ℕ) (t0 t1 t2 t3 : ℕ)
      → p.sequence_number < u16_size
      → p.sequence_number % 4 ≡ 0
      → length (p.data_shards) ≡ 4
      → p.fec_enabled ≡ true
      → length b ≡ length a
      → length c ≡ length a
      → length d ≡ length a
      → ((i : ℕ) → length (encode (a ∷ b ∷ c ∷ d ∷ []) i) ≡ length a)
      → Group p a b c d t0 t1 t2 t3
  packetize-Group p a b c d t0 t1 t2 t3 hs h4 hl hf hb hc hd he =
      from (p.data_shards) (p.fec_enabled) hl hf
    where
      from :
          (shards : List (List ℕ)) (fec : Bool)
          → length shards ≡ 4
          → fec ≡ true
          → Group (at (p.sequence_number) (p.base_timestamp) shards fec) a b c d t0 t1 t2 t3
      from shards false k e = absurd (cc e)
      from [] true k e = absurd (omega (arith, k))
      from (w ∷ []) true k e = absurd (omega (arith, k))
      from (w ∷ x ∷ []) true k e = absurd (omega (arith, k))
      from (w ∷ x ∷ y ∷ []) true k e = absurd (omega (arith, k))
      from (w ∷ x ∷ y ∷ z ∷ v ∷ more) true k e = absurd (omega (arith, k))
      from (w ∷ x ∷ y ∷ z ∷ []) true k e =
          at-Group (p.sequence_number) (p.base_timestamp) w x y z a b c d t0 t1 t2 t3 hs h4 hb hc hd
            he
