-- ===== src/Tests/Login.antt =====
-- crates/redfog-login-protocol/src/render.rs at concrete inputs: the left button of the mouse, as serde_json
-- writes its events.
use redfog.Base.{
  Bool, true, false, ◌≡◌, refl, Option, none, some, List, ℕ, [], ◌∷◌, ◌++◌, arith, if◌then◌else◌,
}
use redfog.Base.Text.{codes, same_bytes, text_discrete}
use redfog.Login.{Message, input, got, write, read_message}
use redfog.Login.Framing.{read_message-write}

-- MouseButton, of which only `pressed` is variable here.
abbrev to_vec : Bool → List ℕ
to_vec true = codes "{\"MouseButton\":{\"button\":272,\"pressed\":true}}"
to_vec false = codes "{\"MouseButton\":{\"button\":272,\"pressed\":false}}"

abbrev from_slice : List ℕ → Option Bool
from_slice bytes =
    if same_bytes bytes (to_vec true)
    then some true
    else if same_bytes bytes (to_vec false)
    then some false
    else none

abbrev click : Message Bool
click = input true

read_message-write_example :
    read_message to_vec from_slice (write to_vec from_slice click ++ 2 ∷ []) ≡ got click (2 ∷ [])
unfolding text_discrete
read_message-write_example = read_message-write to_vec from_slice click (2 ∷ []) (omega arith) refl
