-- ===== src/Sessions/Handlers.antt =====
-- crates/redfog-moonlight/src/session.rs: the handlers of RTSP and of the control channel that read or
-- change a session's own record.
use redfog.Base.{ℕ, Bool, true, false, Option, none, some, List, get, insert, remove}
use redfog.Bitrate.{on_report}
use redfog.Sessions.State.{
  RunningSession, ClientState, spawning, launched, streaming, Manager, session_of,
}
use redfog.Sessions.Lookup.{resolve_client_key_by_ip, resolve_client_key_by_rikey}

-- What `ANNOUNCE` carries that the session keeps.
pub record AnnouncedParams : Type 0 where
  pub bitrate_kbps : Option ℕ
  pub codec : ℕ

module _ {Key Ip User : Type 0} where
  -- `session_mut`: the session of a state is changed, where there is one.
  unfoldable pub map_session :
      (RunningSession Key Ip User → RunningSession Key Ip User)
      → ClientState Key Ip User
      → ClientState Key Ip User
  map_session f spawning = spawning
  map_session f (launched session) = launched (f session)
  map_session f (streaming session) = streaming (f session)

  -- Only a streaming session is changed.
  unfoldable pub map_streaming :
      (RunningSession Key Ip User → RunningSession Key Ip User)
      → ClientState Key Ip User
      → ClientState Key Ip User
  map_streaming f spawning = spawning
  map_streaming f (launched session) = launched session
  map_streaming f (streaming session) = streaming (f session)

  module _ (key_dec : Discrete Key) where
    unfoldable pub update_state :
        (ClientState Key Ip User → ClientState Key Ip User)
        → Manager Key Ip User
        → Key
        → Manager Key Ip User
    unfolding get insert remove
    update_state f m key = elim (get key_dec key m.clients) [
      | none ↦ m
      | some slot ↦ record m {
        clients = insert key_dec key (record slot { state = f slot.state }) m.clients;
      }
    ]

    unfoldable pub announced :
        AnnouncedParams → RunningSession Key Ip User → RunningSession Key Ip User
    announced params session =
        let bitrate : ℕ = elim params.bitrate_kbps [
          | none ↦ session.origin.target_bitrate_kbps
          | some kbps ↦ kbps
        ] in
        record session {
          origin = record (session.origin) {
            target_bitrate_kbps = bitrate;
            current_bitrate_kbps = bitrate;
            codec = params.codec;
          };
        }

    unfoldable pub on_announce :
        Discrete Ip → Manager Key Ip User → AnnouncedParams → Ip → Manager Key Ip User
    unfolding resolve_client_key_by_ip update_state map_session announced
    on_announce ip_dec m params ip = elim (resolve_client_key_by_ip ip_dec m ip) [
      | none ↦ m
      | some key ↦ update_state (map_session (announced params)) m key
    ]

    unfoldable pub ping_token_for : Discrete Ip → Manager Key Ip User → Ip → Option (List ℕ)
    unfolding resolve_client_key_by_ip get session_of
    ping_token_for ip_dec m ip = elim (resolve_client_key_by_ip ip_dec m ip) [
      | none ↦ none
      | some key ↦ elim (get key_dec key m.clients) [
        | none ↦ none
        | some slot ↦ elim (session_of slot.state) [
          | none ↦ none
          | some session ↦ some (session.origin.ping_token)
        ]
      ]
    ]

    -- A handler of the control channel, for the session that has the key.
    unfoldable pub with_rikey :
        (RunningSession Key Ip User → RunningSession Key Ip User)
        → Discrete (List ℕ)
        → Manager Key Ip User
        → List ℕ
        → Manager Key Ip User
    unfolding resolve_client_key_by_rikey update_state map_streaming
    with_rikey f dec m rikey = elim (resolve_client_key_by_rikey dec m rikey) [
      | none ↦ m
      | some key ↦ update_state (map_streaming f) m key
    ]

    abbrev pub with_connected : Bool → RunningSession Key Ip User → RunningSession Key Ip User
    with_connected b session = record session { origin = record (session.origin) { connected = b } }

    unfoldable pub on_peer_connected :
        Discrete (List ℕ) → Manager Key Ip User → List ℕ → Manager Key Ip User
    unfolding with_rikey
    on_peer_connected dec m rikey = with_rikey (with_connected true) dec m rikey

    unfoldable pub on_peer_disconnected :
        Discrete (List ℕ) → Manager Key Ip User → List ℕ → Manager Key Ip User
    unfolding with_rikey
    on_peer_disconnected dec m rikey = with_rikey (with_connected false) dec m rikey

    unfoldable pub adapted : ℕ → RunningSession Key Ip User → RunningSession Key Ip User
    unfolding on_report
    adapted last_good_frame session = record session {
      origin = record (session.origin) {
        current_bitrate_kbps =
            on_report session.origin.target_bitrate_kbps session.origin.current_bitrate_kbps
              session.origin.next_frame_number last_good_frame;
      };
    }

    -- When the two stretches under the lock are not interrupted.
    unfoldable pub on_loss_stats :
        Discrete (List ℕ) → Manager Key Ip User → List ℕ → ℕ → Manager Key Ip User
    unfolding with_rikey adapted
    on_loss_stats dec m rikey last_good_frame = with_rikey (adapted last_good_frame) dec m rikey
