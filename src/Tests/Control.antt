-- ===== src/Tests/Control.antt =====
-- crates/redfog-moonlight/src/control.rs at concrete inputs, with a cipher that opens what carries its
-- key as the tag.
use mathlib.Core.List.{List-discrete}
use redfog.Base.{
  ℕ, ◌≡◌, ◌↔◌, refl, Option, none, some, List, [], ◌∷◌, ◌++◌, length, replicate, zeros, get,
  ℕ_discrete, ltb, if◌then◌else◌,
}
use redfog.Base.Outcome.{panics}
use redfog.Base.Reads.{Returns}
use redfog.Control.Wire.{parse}
use redfog.Control.Input.{decode_input_event}
use redfog.Control.Registry.{Registry}
use redfog.Control.Server.{matched, on_peer_connected, on_request_idr_frame, receive_unmatched}
use redfog.Control.Totality.{parse-Returns}
use redfog.Control.Scroll.{OneByteScroll, decode_panics_iff}
use redfog.Control.Matching.{Decided, match_authenticates}

abbrev dec : Discrete (List ℕ)
dec = List-discrete ℕ_discrete

abbrev open_any : List ℕ → List ℕ → List ℕ → List ℕ → Option (List ℕ)
open_any ciphertext key iv tag = if ltb 0 (length key) then some ciphertext else none

abbrev key : List ℕ
key = 7 ∷ 7 ∷ []

-- An encrypted request for an IDR frame.
abbrev idr_request : List ℕ
idr_request = (1 ∷ 0 ∷ 24 ∷ 0 ∷ 5 ∷ 0 ∷ 0 ∷ 0 ∷ []) ++ zeros 16 ++ 2 ∷ 3 ∷ 0 ∷ 0 ∷ []

parse-Returns_example : Returns (parse open_any idr_request key)
parse-Returns_example = parse-Returns open_any idr_request key

decode_panics_iff_example :
    (decode_input_event (10 ∷ 0 ∷ 0 ∷ 0 ∷ 3 ∷ []) ≡ panics)
    ↔ OneByteScroll (10 ∷ 0 ∷ 0 ∷ 0 ∷ 3 ∷ [])
decode_panics_iff_example = decode_panics_iff (10 ∷ 0 ∷ 0 ∷ 0 ∷ 3 ∷ [])

abbrev registered : Registry
registered = record { registrations = (key, 0) ∷ []; next_epoch = 1 }

match_authenticates_example :
    Decided open_any dec registered.registrations 0 idr_request
      ((0, none) ∷ [])
      ((0, some (matched key 0)) ∷ [], on_peer_connected key ∷ on_request_idr_frame key ∷ [])
unfolding receive_unmatched get replicate
match_authenticates_example =
    match_authenticates open_any dec registered.registrations 0 idr_request ((0, none) ∷ [])
      ((0, some (matched key 0)) ∷ [], on_peer_connected key ∷ on_request_idr_frame key ∷ [])
      (refl, tt) refl
