-- ===== src/Tests/Codes.antt =====
-- A code that keeps the parity buffers as they are, for the runs of the packetizer.
use redfog.Base.{ℕ, ◌+◌, refl, ◌&&◌, if◌then◌else◌, ltb, leb, lt→ltb, le→leb, none, some}
use redfog.Video.Packetizer.{ReedSolomon}
use redfog.Video.Codes.{ReedSolomonLaws}

abbrev pub zero_parity : ReedSolomon
zero_parity = record {
  Code = ℕ × ℕ;
  new = λ d p. if ltb 0 d && ltb 0 p && leb (d + p) 256 then some (d, p) else none;
  encode_sep = λ code shards parity. some parity;
}

pub zero_parity_laws : ReedSolomonLaws zero_parity
zero_parity_laws = record {
  new_succeeds =
      λ d p hd hp h. ((d, p), rw (lt→ltb 0 d hd, lt→ltb 0 p hp, le→leb (d + p) 256 h) refl);
  encode_succeeds =
      λ d p size code shards parity made _ count _ _ sizes. (parity, refl, count, sizes);
}
