-- ===== src/Tests/Pairing.antt =====
-- Requests to `/submit-pin` and `/launch` at concrete inputs. A scale is a percentage.
use redfog.Base.{ℕ, ◌≡◌, refl, ltb, inr, true, none, some, [], ◌∷◌, ◌++◌, get, arith, pos}
use redfog.Base.Text.{text_discrete}
use redfog.Base.Decimal.{decimal, parse_u32, parse_digits, parse_digit}
use redfog.Clients.State.{ClientManager, Result, x_byte, resolution_key}
use redfog.Clients.Records.{resolve_fingerprint, set_scale_for_paired}
use redfog.Pairing.Params.{Parsed, Float, in_range, parse_scale, parse_mode}
use redfog.Pairing.Applied.{scale_request, set_scale_applies, odd_scale_never_applies}
use redfog.Pairing.Keeping.{Keeps, submit_pin_query-Keeps}
use redfog.Pairing.Requests.{Params, mode, rikey, rikeyid, uniqueid, pin, scale, as_key}
use redfog.Pairing.Submit.{submit_pin_query, done}
use redfog.Pairing.Launch.{
  RemoteInputKey, cert, launches, launch, launch_scale, parse_rikey, parse_i64, parse_magnitude,
  digits_value,
}
use redfog.Tests.Clients.{lib, manager}

abbrev percent : Float ℕ
percent = record {
  parse_f64 = parse_u32;
  is_finite = λ scale. true;
  lt = ltb;
  quarter = 25;
  four = 400;
  one = 100;
}

abbrev launch_request : Params
launch_request mode = some (decimal 1280 ++ (x_byte ∷ (decimal 720 ++ (x_byte ∷ decimal 60))))
launch_request rikey = some (7 ∷ 7 ∷ 7 ∷ 7 ∷ 7 ∷ 7 ∷ 7 ∷ 7 ∷ 7 ∷ 7 ∷ 7 ∷ 7 ∷ 7 ∷ 7 ∷ 7 ∷ 7 ∷ [])
launch_request rikeyid = some (53 ∷ [])
launch_request _ = none

abbrev input_key : RemoteInputKey
input_key = record {
  key = 7 ∷ 7 ∷ 7 ∷ 7 ∷ 7 ∷ 7 ∷ 7 ∷ 7 ∷ 7 ∷ 7 ∷ 7 ∷ 7 ∷ 7 ∷ 7 ∷ 7 ∷ 7 ∷ [];
  key_id = pos 5;
}

abbrev pin_request : Params
pin_request uniqueid = some (7 ∷ [])
pin_request pin = some (49 ∷ [])
pin_request scale = some (49 ∷ 53 ∷ 48 ∷ [])
pin_request _ = none

resolved :
    resolve_fingerprint (97 ∷ 99 ∷ []) (manager.paired_by_fingerprint) ≡ Result.ok (97 ∷ 99 ∷ [])
unfolding resolve_fingerprint get text_discrete
resolved = refl

scale_text : parse_scale percent (49 ∷ 53 ∷ 48 ∷ []) ≡ Parsed.ok 150
unfolding parse_scale in_range parse_u32 parse_digits parse_digit
scale_text = refl

key_text : parse_rikey (λ text. some text) launch_request ≡ some input_key
unfolding parse_rikey as_key parse_i64 parse_magnitude digits_value
key_text = refl

set_scale_applies_example :
    (m' : ClientManager ℕ) × (submit_pin_query lib percent
        (scale_request (97 ∷ 99 ∷ []) (49 ∷ 53 ∷ 48 ∷ []) (resolution_key 1280 720))
        manager
      ≡ (m', done))
    × ((launch (λ text. some text) percent launch_request (cert (97 ∷ 99 ∷ [])) (9 ∷ []) m').1
        ≡ launches 1280 720 60 150 input_key (cert (97 ∷ 99 ∷ [])) (9 ∷ []))
set_scale_applies_example =
    set_scale_applies lib percent (λ text. some text) (97 ∷ 99 ∷ []) (49 ∷ 53 ∷ 48 ∷ [])
      (97 ∷ 99 ∷ []) (9 ∷ []) 150 1280 720 60 input_key launch_request manager scale_text
      (omega arith, omega arith, refl) (omega arith, omega arith, refl) (omega arith) resolved
      key_text refl

odd_scale_never_applies_example :
    launch_scale percent
      (cert (97 ∷ 99 ∷ []))
      ((parse_mode (launch_request mode)).0)
      ((parse_mode (launch_request mode)).1)
      ((set_scale_for_paired (97 ∷ 99 ∷ []) 150 (some (1280, 721)) manager).0)
    ≡ launch_scale percent
        (cert (97 ∷ 99 ∷ []))
        ((parse_mode (launch_request mode)).0)
        ((parse_mode (launch_request mode)).1)
        manager
odd_scale_never_applies_example =
    odd_scale_never_applies lib percent (97 ∷ 99 ∷ []) (97 ∷ 99 ∷ []) 150 1280 721
      (launch_request mode) manager (omega arith) (omega arith) (inr refl) resolved

submit_pin_query-Keeps_example :
    Keeps (97 ∷ []) manager ((submit_pin_query lib percent pin_request manager).0)
submit_pin_query-Keeps_example = submit_pin_query-Keeps (97 ∷ []) lib percent pin_request manager
