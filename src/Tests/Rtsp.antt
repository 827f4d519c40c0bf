-- ===== src/Tests/Rtsp.antt =====
-- An announcement and a first line, as a client sends them.
use redfog.Base.{◌≡◌, refl, true, some, [], ◌∷◌, arith}
use redfog.Base.Text.{text_discrete}
use redfog.Rtsp.{RtspServer, av1, parse_announce}
use redfog.Rtsp.Announce.{announcement, parse_announce-announcement}
use redfog.Rtsp.Target.{request, rewrite_request_target, rewrite_request_target-request}

abbrev server : RtspServer
server = record {
  video_port = 47998;
  control_port = 47999;
  audio_port = 48000;
  default_width = 1920;
  default_height = 1080;
  default_fps = 60;
  av1_supported = true;
}

parse_announce-announcement_example :
    parse_announce server (announcement 1280 720 120 15000 av1)
    ≡ record { width = 1280; height = 720; fps = 120; bitrate_kbps = some 15000; codec = av1 }
parse_announce-announcement_example =
    parse_announce-announcement server 1280 720 120 15000 av1 (omega arith) (omega arith)
      (omega arith) (omega arith) refl

rewrite_request_target-request_example :
    (rewrite_request_target
        (request (80 ∷ 76 ∷ []) (115 ∷ 61 ∷ 97 ∷ []) (82 ∷ 49 ∷ []) (13 ∷ 10 ∷ []))
      ≡ (request (80 ∷ 76 ∷ []) (42 ∷ []) (82 ∷ 49 ∷ []) (13 ∷ 10 ∷ []), some (115 ∷ 61 ∷ 97 ∷ [])))
    × (rewrite_request_target (request (80 ∷ 76 ∷ []) (42 ∷ []) (82 ∷ 49 ∷ []) (13 ∷ 10 ∷ []))
        ≡ (request (80 ∷ 76 ∷ []) (42 ∷ []) (82 ∷ 49 ∷ []) (13 ∷ 10 ∷ []), some (42 ∷ [])))
unfolding text_discrete
rewrite_request_target-request_example =
    rewrite_request_target-request (80 ∷ 76 ∷ []) (115 ∷ 61 ∷ 97 ∷ []) (82 ∷ 49 ∷ []) (13 ∷ 10 ∷ [])
      (omega arith) (omega arith) (omega arith) refl
