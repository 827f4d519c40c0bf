-- ===== src/Rtsp/Announce.antt =====
-- The parameters that a client announces.
use redfog.Base.{
  ℕ, ◌<◌, ◌≡◌, ◌≢◌, refl, ap, ◌∙◌, Bool, true, false, Option, some, [], ◌∷◌, ◌++◌, All, All-append,
  u32_size, arith,
}
use redfog.Base.Text.{Text, text_discrete}
use redfog.Base.Decimal.{decimal, decimal-All, is_digit, parse_u32, parse_u32-decimal, split_once}
use redfog.Base.Utf8.{from_utf8_lossy-ascii}
use redfog.Rtsp.Lines.{lines, strip_prefix, trim, lines-append, trim-digits}
use redfog.Pairing.Params.{trim_start, trim_end}
use redfog.Rtsp.{
  AnnouncedParams, VideoCodec, h264, hevc, av1, RtspServer, video_prefix, format_prefix,
  client_viewport_wd, client_viewport_ht, max_fps, initial_bitrate_kbps, video_attribute, codec_of,
  announce_line, announce_lines, parse_announce, or_default, defaults,
}

-- The line of a number, as clients write it.
abbrev pub attribute : Text → ℕ → Text
attribute key n = video_prefix ++ (key ++ (58 ∷ decimal n))

abbrev pub codec_digit : VideoCodec → ℕ
codec_digit h264 = 48
codec_digit hevc = 49
codec_digit av1 = 50

abbrev pub line : Text → Text → Text
line text rest = text ++ (13 ∷ 10 ∷ rest)

-- A client's body with these parameters.
abbrev pub announcement : (width height fps bitrate_kbps : ℕ) → VideoCodec → Text
announcement width height fps bitrate_kbps codec = line (attribute client_viewport_wd width) (
    line (attribute client_viewport_ht height) (
      line (attribute max_fps fps) (
        line (attribute initial_bitrate_kbps bitrate_kbps)
          (line (format_prefix ++ (codec_digit codec ∷ [])) []))))

parsed_number : (n : ℕ) → n < u32_size → parse_u32 (trim (decimal n)) ≡ some n
parsed_number n h = ap parse_u32 (trim-digits (decimal n) (decimal-All n)) ∙ parse_u32-decimal n h

width_line :
    (a : Bool) (p : AnnouncedParams) (n : ℕ)
    → n < u32_size
    → announce_line a p (attribute client_viewport_wd n) ≡ record p { width = n }
unfolding announce_line video_attribute strip_prefix split_once text_discrete
width_line a p n h =
    ap (λ (o : Option ℕ). record p { width = or_default o (p.width) }) (parsed_number n h)

height_line :
    (a : Bool) (p : AnnouncedParams) (n : ℕ)
    → n < u32_size
    → announce_line a p (attribute client_viewport_ht n) ≡ record p { height = n }
unfolding announce_line video_attribute strip_prefix split_once text_discrete
height_line a p n h =
    ap (λ (o : Option ℕ). record p { height = or_default o (p.height) }) (parsed_number n h)

fps_line :
    (a : Bool) (p : AnnouncedParams) (n : ℕ)
    → n < u32_size
    → announce_line a p (attribute max_fps n) ≡ record p { fps = n }
unfolding announce_line video_attribute strip_prefix split_once text_discrete
fps_line a p n h =
    ap (λ (o : Option ℕ). record p { fps = or_default o (p.fps) }) (parsed_number n h)

bitrate_line :
    (a : Bool) (p : AnnouncedParams) (n : ℕ)
    → n < u32_size
    → announce_line a p (attribute initial_bitrate_kbps n) ≡ record p { bitrate_kbps = some n }
unfolding announce_line video_attribute strip_prefix split_once text_discrete
bitrate_line a p n h = ap (λ (o : Option ℕ). record p { bitrate_kbps = o }) (parsed_number n h)

-- A codec that the server has; AV1 wants its support.
abbrev pub Supported : Bool → VideoCodec → Type 0
Supported a h264 = Unit
Supported a hevc = Unit
Supported a av1 = a ≡ true

codec_line :
    (a : Bool) (p : AnnouncedParams) (codec : VideoCodec)
    → Supported a codec
    → announce_line a p (format_prefix ++ (codec_digit codec ∷ [])) ≡ record p { codec = codec }
unfolding announce_line codec_of strip_prefix split_once text_discrete trim_start trim_end
codec_line a p h264 h = refl
codec_line a p hevc h = refl
codec_line true p av1 h = refl
codec_line false p av1 h = absurd (cc h)

-- A character of one byte that ends no line.
abbrev IsPlain : ℕ → Type 0
IsPlain c = (13 < c) × (c < 128)

no_break : (text : Text) → All IsPlain text → All (λ c. c ≢ 10) text
no_break [] h = tt
no_break (c ∷ cs) h = ((λ e. omega (arith, e, h.0)), no_break cs (h.1))

ascii : (text : Text) → All IsPlain text → All (λ c. c < 128) text
ascii [] h = tt
ascii (c ∷ cs) h = ((h.0).1, ascii cs (h.1))

plain_digits : (text : Text) → All (λ c. is_digit c ≡ true) text → All IsPlain text
plain_digits [] h = tt
plain_digits (c ∷ cs) h = (ground (arith, h.0), plain_digits cs (h.1))

plain_attribute : (key : Text) (n : ℕ) → All IsPlain key → All IsPlain (attribute key n)
plain_attribute key n h = All-append IsPlain video_prefix (key ++ (58 ∷ decimal n)) (omega arith) (
    All-append IsPlain key (58 ∷ decimal n) h
      (omega arith, plain_digits (decimal n) (decimal-All n)))

plain_codec : (codec : VideoCodec) → All IsPlain (format_prefix ++ (codec_digit codec ∷ []))
plain_codec h264 = omega arith
plain_codec hevc = omega arith
plain_codec av1 = omega arith

ascii_line :
    (text rest : Text)
    → All IsPlain text
    → All (λ c. c < 128) rest
    → All (λ c. c < 128) (line text rest)
ascii_line text rest h k =
    All-append (λ c. c < 128) text (13 ∷ 10 ∷ rest) (ascii text h) (omega arith, (omega arith, k))

-- The rest of a body after one line.
announce_lines-line :
    (a : Bool) (p q : AnnouncedParams) (text rest : Text)
    → All IsPlain text
    → announce_line a p text ≡ q
    → announce_lines a p (lines (line text rest)) ≡ announce_lines a q (lines rest)
unfolding announce_lines
announce_lines-line a p q text rest h e =
    ap (announce_lines a p) (lines-append text rest (no_break text h))
    ∙ ap (λ (r : AnnouncedParams). announce_lines a r (lines rest)) e

-- From the body that a client announces its parameters with, the server reads what the client announced:
-- the four numbers, of 32 bits, and the codec, if the server supports it.
pub parse_announce-announcement :
    (s : RtspServer) (width height fps bitrate_kbps : ℕ) (codec : VideoCodec)
    → width < u32_size
    → height < u32_size
    → fps < u32_size
    → bitrate_kbps < u32_size
    → Supported (s.av1_supported) codec
    → parse_announce s (announcement width height fps bitrate_kbps codec) ≡ record {
      width = width;
      height = height;
      fps = fps;
      bitrate_kbps = some bitrate_kbps;
      codec = codec;
    }
unfolding parse_announce
parse_announce-announcement s width height fps bitrate_kbps codec hw hh hf hb hc =
    let a = s.av1_supported in
    let p0 = defaults s in
    let p1 = record p0 { width = width } in
    let p2 = record p1 { height = height } in
    let p3 = record p2 { fps = fps } in
    let p4 = record p3 { bitrate_kbps = some bitrate_kbps } in
    let l1 = attribute client_viewport_wd width in
    let l2 = attribute client_viewport_ht height in
    let l3 = attribute max_fps fps in
    let l4 = attribute initial_bitrate_kbps bitrate_kbps in
    let l5 : Text = format_prefix ++ (codec_digit codec ∷ []) in
    let t5 = line l5 [] in
    let t4 = line l4 t5 in
    let t3 = line l3 t4 in
    let t2 = line l2 t3 in
    let w = plain_attribute client_viewport_wd width (omega arith) in
    let h = plain_attribute client_viewport_ht height (omega arith) in
    let f = plain_attribute max_fps fps (omega arith) in
    let b = plain_attribute initial_bitrate_kbps bitrate_kbps (omega arith) in
    let c = plain_codec codec in
    let all_ascii =
      ascii_line l1 t2 w
        (ascii_line l2 t3 h (ascii_line l3 t4 f (ascii_line l4 t5 b (ascii_line l5 [] c tt)))) in
    ap (λ (t : Text). announce_lines a p0 (lines t))
      (from_utf8_lossy-ascii (announcement width height fps bitrate_kbps codec) all_ascii)
    ∙ announce_lines-line a p0 p1 l1 t2 w (width_line a p0 width hw)
    ∙ announce_lines-line a p1 p2 l2 t3 h (height_line a p1 height hh)
    ∙ announce_lines-line a p2 p3 l3 t4 f (fps_line a p2 fps hf)
    ∙ announce_lines-line a p3 p4 l4 t5 b (bitrate_line a p3 bitrate_kbps hb)
    ∙ announce_lines-line a p4 (record p4 { codec = codec }) l5 [] c (codec_line a p4 codec hc)
