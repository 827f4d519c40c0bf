-- ===== src/Video/Codes.antt =====
-- The Reed-Solomon codes: what fec_rs documents, the cache of codes, and the parity shards.
use redfog.Base.{
  ℕ, ◌+◌, ◌≤◌, ◌<◌, ◌≡◌, refl, ap, sym, ◌∙◌, inl, inr, some, List, [], ◌∷◌, map, length, drop,
  replicate, zeros, length-zeros, length-replicate, All, ◌==◌, ◌&&◌, Bool-cases, Option-cases,
  All-map, All-replicate, length-map, arith,
}
use mathlib.Core.Path.{ap₂}
use redfog.Base.Outcome.{returns}
use redfog.Video.Wire.{payload_offset}
use redfog.Video.Packetizer.{Frame, ReedSolomon, cache_get, code_for, fec_shards}
use redfog.Video.Shards.{parity_shards_bytes, parity_shards_lem}

-- What the crate fec_rs documents: a code exists for up to 256 shards in total, and encoding
-- shards of one length fills parity buffers of that length.
pub record ReedSolomonLaws (rs : ReedSolomon) : Type 0 where
  pub new_succeeds :
      (d p : ℕ) → 0 < d → 0 < p → d + p ≤ 256 → (code : rs.Code) × (rs.new d p ≡ some code)
  pub encode_succeeds :
      (d p size : ℕ) (code : rs.Code) (shards parity : List (List ℕ))
      → rs.new d p ≡ some code
      → length shards ≡ d
      → length parity ≡ p
      → 0 < size
      → All (λ s. length s ≡ size) shards
      → All (λ s. length s ≡ size) parity
      → (out : List (List ℕ)) × (rs.encode_sep code shards parity ≡ some out)
        × (length out ≡ p)
        × All (λ s. length s ≡ size) out

module _ (rs : ReedSolomon) where
  open rs use {Code, new, encode_sep}

  -- Every cached code is the one that `new` gives for its key.
  abbrev pub CacheIsValid : List (ℕ × ℕ × Code) → Type 0
  CacheIsValid = All λ (d, p, code). new d p ≡ some code

  cache_get-IsValid :
      (d p : ℕ) (cache : List (ℕ × ℕ × Code)) (code : Code)
      → CacheIsValid cache
      → cache_get rs d p cache ≡ some code
      → new d p ≡ some code
  unfolding cache_get
  cache_get-IsValid d p [] code v e = cc
  cache_get-IsValid d p ((d', p', code') ∷ cache) code v e =
      elim (Bool-cases (d' == d && (p' == p))) [
        | inl hit ↦
            let ed : d' ≡ d = ground (arith, hit) in
            let ep : p' ≡ p = ground (arith, hit) in
            let e' : some code' ≡ some code = rw hit at e in
            let found : code' ≡ code = cc in sym (ap₂ new ed ep) ∙ v.0 ∙ ap some found
        | inr miss ↦ cache_get-IsValid d p cache code v.1 (rw miss at e)
      ]

  module _ (laws : ReedSolomonLaws rs) where
    code_for_lem :
        (d p : ℕ) (cache : List (ℕ × ℕ × Code))
        → CacheIsValid cache
        → 0 < d
        → 0 < p
        → d + p ≤ 256
        → (code : Code) × (cache' : List (ℕ × ℕ × Code)) × (code_for rs d p cache
            ≡ returns (code, cache'))
          × (new d p ≡ some code)
          × CacheIsValid cache'
    unfolding code_for
    code_for_lem d p cache v hd hp fits = elim (Option-cases (cache_get rs d p cache)) [
      | inl miss ↦
          let (code, made) = laws.new_succeeds d p hd hp fits in
          (
            code,
            (d, p, code) ∷ cache,
            rw (miss, code_for) (rw (made, code_for) refl),
            made,
            (made, v),
          )
      | inr (code, hit) ↦
          (code, cache, rw (hit, code_for), cache_get-IsValid d p cache code v hit, v)
    ]

    pub fec_shards_lem :
        (size : ℕ) (f : Frame) (p s : ℕ) (packets : List (List ℕ)) (cache : List (ℕ × ℕ × Code))
        → CacheIsValid cache
        → 0 < size
        → 0 < f.nr_data_shards
        → 0 < p
        → f.nr_data_shards + p ≤ 256
        → length packets ≡ f.nr_data_shards
        → All (λ b. length (drop payload_offset b) ≡ size) packets
        → (code : Code) × (payloads : List (List ℕ)) × (cache' : List (ℕ × ℕ × Code)) × (fec_shards
              rs size f p s packets cache
            ≡ returns (parity_shards_bytes f f.nr_data_shards s payloads, cache'))
          × (new f.nr_data_shards p ≡ some code)
          × (encode_sep code (map (drop payload_offset) packets) (replicate p (zeros size))
              ≡ some payloads)
          × (length payloads ≡ p)
          × All (λ b. length b ≡ size) payloads
          × CacheIsValid cache'
    unfolding fec_shards
    fec_shards_lem size f p s packets cache v hs hd hp fits count sizes =
        let (code, cache', chosen, made, v') = code_for_lem f.nr_data_shards p cache v hd hp fits in
        let (out, encoded, out_count, out_sizes) =
          laws.encode_succeeds f.nr_data_shards p size code (map (drop payload_offset) packets)
            (replicate p (zeros size)) made (length-map packets (drop payload_offset) ∙ count)
            (length-replicate p (zeros size)) hs
            (All-map (λ b. length b ≡ size) (drop payload_offset) packets sizes)
            (All-replicate (λ b. length b ≡ size) p (zeros size) (length-zeros size)) in
        (
          code,
          out,
          cache',
          rw (chosen, encoded, parity_shards_lem size f f.nr_data_shards s out out_sizes),
          made,
          encoded,
          out_count,
          out_sizes,
          v',
        )
